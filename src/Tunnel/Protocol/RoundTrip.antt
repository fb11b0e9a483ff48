-- ===== src/Tunnel/Protocol/RoundTrip.antt =====
-- WriteFrame and ReadFrame against one another.
use slip_stream_plus.Prelude.{
  ◌+◌, ◌%◌, ◌^◌, ◌<◌, ◌≤◌, ◌≡◌, ap, ◌∙◌, [], ◌∷◌, ◌++◌, length, arith, length-append,
}
use mathlib.Core.List.{append_assoc}
use slip_stream_plus.Tunnel.Protocol.{
  Bytes, Frame, ok, put_uint32, put_uint16, uint16, frame_bytes, read_full, read_body, frame_of,
  read_after, read_frame, header_size, max_payload_size,
}
use slip_stream_plus.Tunnel.Protocol.Lemmas.{take-length-append, drop-length-append}

-- A frame whose fields fit their widths and whose payload fits a frame.
pub record IsFrame (f : Frame) : Type 0 where
  pub conn_id_fits : f.conn_id < 2 ^ 32
  pub seq_num_fits : f.seq_num < 2 ^ 32
  pub flags_fits : f.flags < 256
  pub payload_fits : length f.payload ≤ max_payload_size

-- The eleven bytes of a frame's header.
unfoldable pub header : Frame → Bytes
unfolding put_uint32 put_uint16
header f =
    put_uint32 f.conn_id
    ++ (put_uint32 f.seq_num ++ ((f.flags ∷ []) ++ put_uint16 (length f.payload % 2 ^ 16)))

pub frame_bytes-header : (f : Frame) → IsFrame f → frame_bytes f ≡ ok (header f ++ f.payload)
unfolding frame_bytes header
frame_bytes-header f v = ground arith

pub read_full_exact : (xs ys : Bytes) → read_full (length xs) (xs ++ ys) ≡ ok (xs, ys)
unfolding read_full
read_full_exact xs ys =
    rw (take-length-append xs ys, drop-length-append xs ys) (ground (arith, length-append xs ys))

read_full-header :
    (f : Frame) (r : Bytes) → read_full header_size (header f ++ r) ≡ ok (header f, r)
unfolding header
read_full-header f r = read_full_exact (header f) r

uint16-header : (f : Frame) → IsFrame f → uint16 (header f) 9 ≡ length f.payload
unfolding header uint16
uint16-header f v = omega arith

frame_of-header : (f : Frame) → IsFrame f → frame_of (header f) f.payload ≡ f
unfolding header frame_of
frame_of-header f v = ground arith

read_body_exact : (xs ys : Bytes) → read_body (length xs) (xs ++ ys) ≡ ok (xs, ys)
unfolding read_body
read_body_exact xs ys = rw (read_full_exact xs ys, read_body)

read_after_exact :
    (hdr p rest : Bytes)
    → uint16 hdr 9 ≡ length p
    → length p ≤ max_payload_size
    → read_after hdr (p ++ rest) ≡ ok (frame_of hdr p, rest)
unfolding read_after
read_after_exact hdr [] rest e h = rw e
read_after_exact hdr (x ∷ p) rest e h = rw e (ground (arith, read_body_exact (x ∷ p) rest))

read_after-header :
    (f : Frame) (rest : Bytes)
    → IsFrame f
    → read_after (header f) (f.payload ++ rest) ≡ ok (f, rest)
read_after-header f rest v =
    read_after_exact (header f) f.payload rest (uint16-header f v) v.payload_fits
    ∙ ap (λ g. ok (g, rest)) (frame_of-header f v)

-- What WriteFrame writes for a frame that fits, ReadFrame reads back, and it leaves exactly the
-- bytes behind it.
pub read_frame-frame_bytes :
    (f : Frame) (rest : Bytes)
    → IsFrame f
    → (bs : Bytes) × (frame_bytes f ≡ ok bs) × (read_frame (bs ++ rest) ≡ ok (f, rest))
unfolding read_frame
read_frame-frame_bytes f rest v = (
  header f ++ f.payload,
  frame_bytes-header f v,
  rw (append_assoc (header f) f.payload rest, read_full-header f (f.payload ++ rest))
      (read_after-header f rest v),
)

pub read_frame_back :
    (f : Frame) (bs rest : Bytes)
    → IsFrame f
    → frame_bytes f ≡ ok bs
    → read_frame (bs ++ rest) ≡ ok (f, rest)
read_frame_back f bs rest v e =
    let (ws, made, reads) = read_frame-frame_bytes f rest v in
    let same : ws ≡ bs = cc in rw (← same) reads

length-header : (f : Frame) → length (header f ++ f.payload) ≡ header_size + length f.payload
unfolding header
length-header f = omega arith
