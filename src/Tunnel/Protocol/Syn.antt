-- ===== src/Tunnel/Protocol/Syn.antt =====
-- The SYN payload: ATYP, address and port.
use slip_stream_plus.Prelude.{
  ℕ, zero, suc, ◌+◌, ◌<◌, ◌≤◌, ◌≡◌, refl, ap, ◌∙◌, [], ◌∷◌, ◌++◌, length, take, drop, get_or, arith,
  length-append, ◌⊎◌, take-append-drop, length-take, length-drop,
}
use mathlib.Core.List.{append_assoc, append-nil}
use slip_stream_plus.Tunnel.Protocol.{
  Bytes, Result, ok, err, encode_syn_payload, addr_len, decode_syn_payload,
}
use slip_stream_plus.Tunnel.Protocol.Lemmas.{take-length-append, drop-length-append}

-- An address of the form that its ATYP announces: IPv4, IPv6, or a domain behind its length.
abbrev pub IsAddr : ℕ → Bytes → Type 0
IsAddr atyp addr =
    ((atyp ≡ 0x01) × (length addr ≡ 4))
    ⊎ ((atyp ≡ 0x03) × (length addr ≡ 1 + get_or addr 0 0) × (1 ≤ length addr))
    ⊎ ((atyp ≡ 0x04) × (length addr ≡ 16))

get_or-append : (xs ys : Bytes) (i : ℕ) → i < length xs → get_or (xs ++ ys) i 0 ≡ get_or xs i 0
get_or-append [] ys i h = absurd (omega arith)
get_or-append (x ∷ xs) ys zero h = refl
get_or-append (x ∷ xs) ys (suc i) h = get_or-append xs ys i (omega arith)

addr_len-encode :
    (atyp : ℕ) (addr port : Bytes)
    → IsAddr atyp addr
    → addr_len (atyp ∷ (addr ++ port)) ≡ ok (length addr)
unfolding addr_len
addr_len-encode atyp addr port v = ground (arith, get_or-append addr port 0)

-- The length that the address of a known form has: 4, 16, or 1 to 256.
IsAddr-pos : (atyp : ℕ) (addr : Bytes) → IsAddr atyp addr → 1 ≤ length addr
IsAddr-pos atyp addr v = omega arith

-- Decoding when the address is known to end behind `addr`.
decode_at :
    (atyp : ℕ) (addr port rest : Bytes)
    → addr_len (atyp ∷ (addr ++ (port ++ rest))) ≡ ok (length addr)
    → 1 ≤ length addr
    → length port ≡ 2
    → decode_syn_payload (atyp ∷ (addr ++ (port ++ rest))) ≡ ok (atyp, addr, port)
unfolding decode_syn_payload
decode_at atyp addr (p ∷ q ∷ []) rest e k h =
    ground
      (arith, length-append addr (p ∷ q ∷ rest), take-length-append addr (p ∷ q ∷ rest), drop_all)
  where
    drop_all : drop (1 + length addr) (atyp ∷ (addr ++ (p ∷ q ∷ rest))) ≡ p ∷ q ∷ rest
    drop_all =
        let one : 1 + length addr ≡ suc (length addr) = omega arith in
        rw one (drop-length-append addr (p ∷ q ∷ rest))
decode_at atyp addr _ rest e k h = absurd (omega arith)

-- Decoding gives back what was encoded, for every address of a known form.
pub decode-encode_syn_payload :
    (atyp : ℕ) (addr port : Bytes)
    → IsAddr atyp addr
    → length port ≡ 2
    → decode_syn_payload (encode_syn_payload atyp addr port) ≡ ok (atyp, addr, port)
unfolding encode_syn_payload
decode-encode_syn_payload atyp addr port v h =
    let whole : decode_syn_payload (atyp ∷ (addr ++ (port ++ []))) ≡ ok (atyp, addr, port) =
      decode_at atyp addr port [] (addr_len-encode atyp addr (port ++ []) v)
        (IsAddr-pos atyp addr v) h in
    rw (append-nil port) at whole

get_or-take : (n : ℕ) (xs : Bytes) → get_or (take (suc n) xs) 0 0 ≡ get_or xs 0 0
get_or-take n [] = refl
get_or-take n (x ∷ xs) = refl

addr_len-IsAddr :
    (atyp n : ℕ) (rest : Bytes)
    → addr_len (atyp ∷ rest) ≡ ok n
    → n ≤ length rest
    → IsAddr atyp (take n rest)
unfolding addr_len
addr_len-IsAddr atyp zero rest e h = ground arith
addr_len-IsAddr atyp (suc n) rest e h = ground (arith, get_or-take n rest, length-take (suc n) rest)

record Parts (t : ℕ) (rest addr port : Bytes) (atyp : ℕ) : Type 0 where
  n : ℕ
  announced : addr_len (t ∷ rest) ≡ ok n
  room : n + 2 ≤ length rest
  same_atyp : t ≡ atyp
  same_addr : take n rest ≡ addr
  same_port : take 2 (drop n rest) ≡ port

decode-Parts :
    (t : ℕ) (rest addr port : Bytes) (atyp : ℕ) (q : Result ℕ)
    → addr_len (t ∷ rest) ≡ q
    → decode_syn_payload (t ∷ rest) ≡ ok (atyp, addr, port)
    → Parts t rest addr port atyp
decode-Parts t rest addr port atyp (ok n) a e = record {
  n = n;
  announced = a;
  room = unfold decode_syn_payload in ground arith;
  same_atyp = unfold decode_syn_payload in ground arith;
  same_addr = unfold decode_syn_payload in ground arith;
  same_port =
      let one : 1 + n ≡ suc n = omega arith in unfold decode_syn_payload in ground (arith, one);
}
decode-Parts t rest addr port atyp (err x) a e = absurd (unfold decode_syn_payload in ground arith)

regroup :
    (t n : ℕ) (rest : Bytes)
    → encode_syn_payload t (take n rest) (take 2 (drop n rest)) ++ drop 2 (drop n rest) ≡ t ∷ rest
unfolding encode_syn_payload
regroup t n rest = ap (◌∷◌ t) (
    append_assoc (take n rest) (take 2 (drop n rest)) (drop 2 (drop n rest))
    ∙ ap (◌++◌ (take n rest)) (take-append-drop 2 (drop n rest))
    ∙ take-append-drop n rest)

-- Whatever decoding accepts is the encoding of an address of a known form and two bytes of port,
-- perhaps with bytes behind it. So the slice of a domain that its length byte bounds is in range.
pub decode_syn_payload_inv :
    (payload addr port : Bytes) (atyp : ℕ)
    → decode_syn_payload payload ≡ ok (atyp, addr, port)
    → IsAddr atyp addr
      × (length port ≡ 2)
      × ((rest : Bytes) × (payload ≡ encode_syn_payload atyp addr port ++ rest))
decode_syn_payload_inv [] addr port atyp e = absurd (unfold decode_syn_payload in ground arith)
decode_syn_payload_inv (t ∷ rest) addr port atyp e =
    let p = decode-Parts t rest addr port atyp (addr_len (t ∷ rest)) refl e in
    (
      rw (← p.same_addr, ← p.same_atyp)
          (addr_len-IsAddr t p.n rest p.announced (omega (arith, p.room))),
      rw (← p.same_port)
          (omega (arith, length-take 2 (drop p.n rest), length-drop p.n rest, p.room)),
      (drop 2 (drop p.n rest), cc (regroup t p.n rest, p.same_atyp, p.same_addr, p.same_port)),
    )
