-- ===== src/Central/Reader/Agreement.antt =====
-- cmd/centralserver/server.go: the two ways to read a frame, against one another.
use slip_stream_plus.Prelude.{
  ℕ, suc, ◌<◌, ◌≡◌, subst, lt→ltb, sym, ap, ◌∙◌, List, [], ◌∷◌, drop, Option, none, some, arith,
}
use slip_stream_plus.Tunnel.Protocol.{
  Bytes, Frame, Error, payload_too_large, ok, uint16, read_full, read_body, read_after, read_frame,
  header_size, max_payload_size,
}
use slip_stream_plus.Tunnel.Protocol.Inverse.{both_ok}
use slip_stream_plus.Central.Reader.{parse_header, frames, frame_conn}

-- Where ReadFrame's second half succeeds, `parseHeader` gives the same frame and the same rest.
parse_header-read_after :
    (hdr r rest : Bytes) (f : Frame)
    → read_after hdr r ≡ ok (f, rest)
    → parse_header hdr r ≡ (some f, rest)
unfolding parse_header read_after read_body
parse_header-read_after hdr r rest f e = ground arith

read_full-suc :
    (n x : ℕ) (r a b : Bytes)
    → read_full (suc n) (x ∷ r) ≡ ok (a, b)
    → (read_full n r ≡ ok (drop 1 a, b)) × (a ≡ x ∷ drop 1 a)
unfolding read_full
read_full-suc n x r a b e = ground arith

frame_conn_lem :
    (fuel first : ℕ) (r hdr rest rest' : Bytes) (f : Frame)
    → read_full 10 r ≡ ok (hdr, rest)
    → parse_header (first ∷ hdr) rest ≡ (some f, rest')
    → frame_conn fuel first r ≡ (f ∷ (frames fuel rest').0, (frames fuel rest').1)
unfolding frame_conn
frame_conn_lem fuel first r hdr rest rest' f e p =
    rw (e, frame_conn)
      (ap
        (λ (q : Option Frame × Bytes). (
          elim (q.0) as (λ _. List Frame) [
            | none ↦ (frames fuel (q.1)).0
            | some g ↦ g ∷ (frames fuel (q.1)).0
          ],
          (frames fuel (q.1)).1,
        ))
        p)

frames_lem :
    (fuel : ℕ) (r rest : Bytes) (f : Frame)
    → read_frame r ≡ ok (f, rest)
    → frames (suc fuel) r ≡ (f ∷ (frames fuel rest).0, (frames fuel rest).1)
unfolding frames
frames_lem fuel r rest f e = rw (e, frames)

-- The first frame of a connection is read like the others: where ReadFrame would read a frame at the
-- connection's start, taking the first byte off and parsing the rest of the header gives that frame,
-- and then the same frames and end as one loop of ReadFrame over the whole stream.
pub frame_conn-frames :
    (fuel first : ℕ) (r rest : Bytes) (f : Frame)
    → read_frame (first ∷ r) ≡ ok (f, rest)
    → frame_conn fuel first r ≡ frames (suc fuel) (first ∷ r)
unfolding read_frame
frame_conn-frames fuel first r rest f e =
    let ((hdr, r'), m, q) = both_ok (read_full header_size (first ∷ r)) _ e in
    let (ten, split) = read_full-suc 10 first r hdr r' m in
    let parsed =
      subst (λ h. parse_header h r' ≡ (some f, rest)) split
        (parse_header-read_after hdr r' rest f q) in
    frame_conn_lem fuel first r (drop 1 hdr) r' rest f ten parsed
    ∙ sym (frames_lem fuel (first ∷ r) rest f e)

read_full-cons :
    (n x : ℕ) (r a b : Bytes)
    → read_full n r ≡ ok (a, b)
    → read_full (suc n) (x ∷ r) ≡ ok (x ∷ a, b)
unfolding read_full
read_full-cons n x r a b e = ground arith

-- Where a connection's first header announces more than the limit, the two ways differ: ReadFrame
-- would end the connection, but it goes on behind that header, so with bytes of the payload.
pub frame_conn_oversized :
    (fuel first : ℕ) (r hdr rest : Bytes)
    → read_full 10 r ≡ ok (hdr, rest)
    → max_payload_size < uint16 (first ∷ hdr) 9
    → (frame_conn fuel first r ≡ frames fuel rest)
      × (frames (suc fuel) (first ∷ r) ≡ ([], payload_too_large (uint16 (first ∷ hdr) 9)))
unfolding frame_conn frames read_frame read_after
frame_conn_oversized fuel first r hdr rest e large =
    let over = lt→ltb _ _ large in
    let whole = read_full-cons 10 first r hdr rest e in
    let skipped : parse_header (first ∷ hdr) rest ≡ (none, rest) = rw (over, parse_header) in
    let step : Option Frame × Bytes → List Frame × Error = λ q. (
      elim (q.0) as (λ _. List Frame) [
        | none ↦ (frames fuel (q.1)).0
        | some g ↦ g ∷ (frames fuel (q.1)).0
      ],
      (frames fuel (q.1)).1,
    ) in
    (rw (e, frame_conn) (ap step skipped), rw (whole, over, frames))
