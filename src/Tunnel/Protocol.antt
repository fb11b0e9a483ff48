-- ===== src/Tunnel/Protocol.antt =====
-- internal/tunnel/protocol.go. A byte slice is a list of numbers; a nil slice and an empty one are
-- both `[]` (`ReadFrame` leaves the payload nil exactly when its length is 0). A reader is the list
-- of the bytes that still come before the end of the stream.
pub mod Lemmas
pub mod RoundTrip
pub mod Inverse
pub mod Syn
pub mod Ids
use Prim.Native.Nat.{bit_and}
use slip_stream_plus.Prelude.{
  ℕ, zero, suc, ◌+◌, ◌-◌, ◌*◌, ◌/◌, ◌%◌, ◌^◌, ◌<◌, ◌≤◌, Bool, true, false, not, List, [], ◌∷◌, ◌++◌,
  ltb, leb, ◌==◌, if◌then◌else◌, length, take, drop, get_or, Option, none, some,
}

abbrev pub Bytes : Type 0
Bytes = List ℕ

abbrev pub u32_mod : ℕ
u32_mod = 2 ^ 32

abbrev pub header_size : ℕ
header_size = 11

abbrev pub max_payload_size : ℕ
max_payload_size = 8192

abbrev pub flag_syn : ℕ
flag_syn = 0x01

abbrev pub flag_fin : ℕ
flag_fin = 0x02

abbrev pub flag_rst : ℕ
flag_rst = 0x04

abbrev pub flag_ack : ℕ
flag_ack = 0x08

abbrev pub flag_reverse : ℕ
flag_reverse = 0x10

abbrev pub flag_data : ℕ
flag_data = 0x00

pub record Frame : Type 0 where
  pub conn_id : ℕ
  pub seq_num : ℕ
  pub flags : ℕ
  pub payload : Bytes

unfoldable pub is_syn : Frame → Bool
is_syn f = not (bit_and f.flags flag_syn == 0)

unfoldable pub is_fin : Frame → Bool
is_fin f = not (bit_and f.flags flag_fin == 0)

unfoldable pub is_rst : Frame → Bool
is_rst f = not (bit_and f.flags flag_rst == 0)

unfoldable pub is_ack : Frame → Bool
is_ack f = not (bit_and f.flags flag_ack == 0)

unfoldable pub is_reverse : Frame → Bool
is_reverse f = not (bit_and f.flags flag_reverse == 0)

-- What the functions of the file fail with.
pub data Error : Type 0 where
  eof unexpected_eof : Error
  payload_too_large : ℕ → Error
  read_payload : Error → Error
  syn_too_short : ℕ → Error
  unknown_atyp : ℕ → Error
  syn_truncated : ℕ → ℕ → Error

pub data Result {ℓ} (A : Type ℓ) : Type ℓ where
  err : Error → Result A
  ok : A → Result A

infixl 5 ◌>>=◌
abbrev pub ◌>>=◌ {κ ℓ} :
    {B : Type κ} {A : Type ℓ} (first : Result A) (step : A → Result B) → Result B
err why >>= step = err why
ok got >>= step = step got

-- `binary.BigEndian.PutUint32` and `PutUint16`.
unfoldable pub put_uint32 : ℕ → Bytes
put_uint32 v = v / 2 ^ 24 % 256 ∷ v / 2 ^ 16 % 256 ∷ v / 2 ^ 8 % 256 ∷ v % 256 ∷ []

unfoldable pub put_uint16 : ℕ → Bytes
put_uint16 v = v / 2 ^ 8 % 256 ∷ v % 256 ∷ []

-- `binary.BigEndian.Uint32` and `Uint16` of the bytes from a place on.
unfoldable pub uint32 : Bytes → ℕ → ℕ
uint32 b i =
    get_or b i 0 * 2 ^ 24
    + get_or b (i + 1) 0 * 2 ^ 16
    + get_or b (i + 2) 0 * 2 ^ 8
    + get_or b (i + 3) 0

unfoldable pub uint16 : Bytes → ℕ → ℕ
uint16 b i = get_or b i 0 * 2 ^ 8 + get_or b (i + 1) 0

-- The buffer that `WriteFrame` hands to the writer in a single `Write`.
unfoldable pub frame_bytes : Frame → Result Bytes
unfolding put_uint32 put_uint16
frame_bytes f =
    if ltb max_payload_size (length f.payload)
    then err (payload_too_large (length f.payload))
    else ok (
        put_uint32 f.conn_id
        ++ (put_uint32 f.seq_num
            ++ ((f.flags ∷ []) ++ (put_uint16 (length f.payload % 2 ^ 16) ++ f.payload))))

-- `io.ReadFull` for `n` bytes: what it read, and the reader behind it.
unfoldable pub read_full : ℕ → Bytes → Result (Bytes × Bytes)
read_full n r =
    if leb n (length r)
    then ok (take n r, drop n r)
    else (if length r == 0 then err eof else err unexpected_eof)

-- An error of the payload's read is wrapped.
unfoldable pub read_body : ℕ → Bytes → Result (Bytes × Bytes)
unfolding read_full
read_body n r = elim (read_full n r) [ ok p ↦ ok p | err e ↦ err (read_payload e) ]

unfoldable pub frame_of : Bytes → Bytes → Frame
unfolding uint32
frame_of hdr payload = record {
  conn_id = uint32 hdr 0;
  seq_num = uint32 hdr 4;
  flags = get_or hdr 8 0;
  payload = payload;
}

-- A header that announces no payload reads no more.
unfoldable pub read_after : Bytes → Bytes → Result (Frame × Bytes)
read_after hdr r =
    let n = uint16 hdr 9 in
    if ltb max_payload_size n
    then err (payload_too_large n)
    else (if ltb 0 n
        then (read_body n r >>= λ p. ok (frame_of hdr (p.0), p.1))
        else ok (frame_of hdr [], r))

unfoldable pub read_frame : Bytes → Result (Frame × Bytes)
read_frame r = read_full header_size r >>= λ p. read_after (p.0) (p.1)

-- `ConnIDGenerator` is its counter. `none` stands for random bytes that could not be had.
unfoldable pub new_conn_id_generator : Option Bytes → ℕ
unfolding uint32
new_conn_id_generator none = 0
new_conn_id_generator (some buf) =
    let start = bit_and (uint32 buf 0) 0x7FFFFFFF in if start == 0 then 1 else start

-- `Next`: the new counter is the connection's number.
unfoldable pub next_id : ℕ → ℕ
next_id counter = (counter + 1) % u32_mod

unfoldable pub encode_syn_payload : ℕ → Bytes → Bytes → Bytes
encode_syn_payload atyp addr port = ((atyp ∷ []) ++ addr) ++ port

unfoldable pub addr_len : Bytes → Result ℕ
addr_len payload =
    let atyp = get_or payload 0 0 in
    if atyp == 0x01
    then ok 4
    else if atyp == 0x03
    then ok (1 + get_or payload 1 0)
    else if atyp == 0x04
    then ok 16
    else err (unknown_atyp atyp)

-- ATYP, address and port.
unfoldable pub decode_syn_payload : Bytes → Result (ℕ × Bytes × Bytes)
unfolding addr_len
decode_syn_payload payload =
    if ltb (length payload) 4
    then err (syn_too_short (length payload))
    else (addr_len payload >>= λ n.
        if ltb (length payload) (1 + n + 2)
        then err (syn_truncated (1 + n + 2) (length payload))
        else ok (get_or payload 0 0, take n (drop 1 payload), take 2 (drop (1 + n) payload)))
