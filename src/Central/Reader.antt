-- ===== src/Central/Reader.antt =====
-- cmd/centralserver/server.go: how the frames of a tunnel connection are read. A connection's first
-- byte chose the protocol and was taken off, so its first frame is read by other code than the rest.
pub mod Agreement
use slip_stream_plus.Prelude.{
  ℕ, zero, suc, ◌+◌, Bool, true, false, List, [], ◌∷◌, ltb, ◌==◌, if◌then◌else◌, length, Option,
  none, some,
}
use slip_stream_plus.Tunnel.Protocol.{
  Bytes, Frame, Error, eof, Result, ok, err, uint16, read_full, frame_of, read_frame, header_size,
  max_payload_size,
}

-- `handleIncoming`: the first byte 0x05 is SOCKS5, which is passed through.
unfoldable pub is_socks : ℕ → Bool
is_socks first = first == 0x05

-- `parseHeader`: the frame, or nil, and what is left to read. A payload that is cut short is used up.
unfoldable pub parse_header : Bytes → Bytes → Option Frame × Bytes
unfolding uint16 read_full frame_of
parse_header hdr r =
    let n = uint16 hdr 9 in
    if ltb max_payload_size n
    then (none, r)
    else (if ltb 0 n
        then (elim (read_full n r) [
          | err e ↦ (none, [])
          | ok (payload, rest) ↦ (some (frame_of hdr payload), rest)
        ])
        else (some (frame_of hdr []), r))

-- The loop of `handleFrameConn`: the frames that it dispatches, and the error that ends it. Each
-- frame takes a byte at least, so as much fuel as there are bytes is enough; without fuel it is eof.
unfoldable pub frames : ℕ → Bytes → List Frame × Error
unfolding read_frame
frames zero r = ([], eof)
frames (suc fuel) r = elim (read_frame r) [
  | err e ↦ ([], e)
  | ok (f, rest) ↦ let more = frames fuel rest in (f ∷ more.0, more.1)
]

-- `handleFrameConn`, behind the connection's first byte.
unfoldable pub frame_conn : ℕ → ℕ → Bytes → List Frame × Error
unfolding frames parse_header read_full
frame_conn fuel first r = elim (read_full 10 r) [
  | err e ↦ ([], e)
  | ok (hdr_rest, r') ↦
      let p = parse_header (first ∷ hdr_rest) r' in
      let more = frames fuel (p.1) in (elim (p.0) [ none ↦ more.0 | some f ↦ f ∷ more.0 ], more.1)
]
