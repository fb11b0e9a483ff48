-- ===== src/Health/Probes.antt =====
-- internal/health/probes.go: what the probes send, and which answers they take. What the instance sends is the bytes of
-- the connection; `chunk` is what a single Read returns. Dialling and deadlines are the network's.
use slip_stream_plus.Prelude.{
  ℕ, ◌+◌, ◌*◌, ◌%◌, ◌^◌, ◌≤◌, ◌≡◌, refl, sym, ap, ◌∙◌, Bool, false, ◌&&◌, List, [], ◌∷◌, ◌++◌, ltb,
  ◌==◌, if◌then◌else◌, get_or, length, arith, inl, inr,
}
use mathlib.Core.List.{append-nil}
use slip_stream_plus.Tunnel.Protocol.{
  Bytes, Frame, ok, err, flag_syn, flag_data, flag_fin, read_full, read_frame, encode_syn_payload,
  decode_syn_payload,
}
use slip_stream_plus.Tunnel.Protocol.Syn.{IsAddr, decode-encode_syn_payload}
use slip_stream_plus.Proxy.{Target, accept, request}
use slip_stream_plus.Proxy.Requests.{request_bytes, request_sent}

-- `probeSOCKS`, behind its greeting 5, 1, 0.
unfoldable pub probe_socks : Bytes → Bool
unfolding read_full
probe_socks reader = elim (read_full 2 reader) [
  | err _ ↦ false
  | ok (resp, _) ↦ get_or resp 0 0 == 0x05
]

-- `string(buf[:4])` against four bytes.
unfoldable pub starts_with : ℕ → ℕ → ℕ → ℕ → Bytes → Bool
starts_with a b c d buf =
    get_or buf 0 0 == a && (get_or buf 1 0 == b && (get_or buf 2 0 == c && get_or buf 3 0 == d))

-- `probeSSH`: the banner is "SSH-".
unfoldable pub probe_ssh : Bytes → Bool
unfolding starts_with
probe_ssh chunk = if ltb (length chunk) 4 then false else starts_with 83 83 72 45 chunk

-- The CONNECT request for port 80, and the payload of the SYN.
unfoldable pub connect_req : Bytes → Bytes
connect_req domain =
    (0x05 ∷ 0x01 ∷ 0x00 ∷ 0x03 ∷ []) ++ ((length domain % 256 ∷ domain) ++ (0 ∷ 80 ∷ []))

unfoldable pub syn_payload : Bytes → Bytes
syn_payload domain = (0x03 ∷ length domain % 256 ∷ domain) ++ (0x00 ∷ 0x50 ∷ [])

-- The HEAD request.
unfoldable pub http_req : Bytes → Bytes
http_req domain =
    (72 ∷ 69 ∷ 65 ∷ 68 ∷ 32 ∷ 47 ∷ 32 ∷ 72 ∷ 84 ∷ 84 ∷ 80 ∷ 47 ∷ 49 ∷ 46 ∷ 49 ∷ 13 ∷ 10 ∷ 72 ∷ 111
      ∷ 115 ∷ 116 ∷ 58 ∷ 32 ∷ [])
    ++ (domain
        ++ (13 ∷ 10 ∷ 67 ∷ 111 ∷ 110 ∷ 110 ∷ 101 ∷ 99 ∷ 116 ∷ 105 ∷ 111 ∷ 110 ∷ 58 ∷ 32 ∷ 99 ∷ 108
            ∷ 111 ∷ 115 ∷ 101 ∷ 13 ∷ 10 ∷ 13 ∷ 10 ∷ []))

-- The end of `probeEndToEnd`: the response is "HTTP" and at least 12 bytes.
unfoldable pub http_ok : Bytes → Bool
unfolding starts_with
http_ok chunk = if ltb (length chunk) 12 then false else starts_with 72 84 84 80 chunk

-- `probeEndToEnd`: the greeting's answer, the reply to the request, and the response. What the drained address is
-- followed by is read in one go.
unfoldable pub probe_end_to_end : Bytes → Bytes → Bool
unfolding read_full http_ok
probe_end_to_end reader chunk = elim (read_full 2 reader) [
  | err _ ↦ false
  | ok (greeting, rest) ↦
      if get_or greeting 0 0 == 0x05
      then (elim (read_full 4 rest) [
        | err _ ↦ false
        | ok (resp, _) ↦ if get_or resp 1 0 == 0x00 then http_ok chunk else false
      ])
      else false
]

-- The number of a probe: the instance's, the count of probes and a random one, a byte each.
unfoldable pub probe_conn_id : ℕ → ℕ → ℕ → ℕ
probe_conn_id id seq rnd = 0xFE000000 + id % 256 * 2 ^ 16 + seq % 256 * 2 ^ 8 + rnd % 256

-- The frames of `probeFramingProtocol`: SYN, data, and FIN at its end.
unfoldable pub probe_frames : ℕ → Bytes → List Frame
unfolding syn_payload http_req
probe_frames conn_id domain =
    record { conn_id = conn_id; seq_num = 0; flags = flag_syn; payload = syn_payload domain }
    ∷ record { conn_id = conn_id; seq_num = 1; flags = flag_data; payload = http_req domain }
    ∷ record { conn_id = conn_id; seq_num = 2; flags = flag_fin; payload = [] }
    ∷ []

-- What it takes for an answer.
unfoldable pub probe_framing : ℕ → Bytes → Bool
unfolding read_frame
probe_framing conn_id reader = elim (read_frame reader) [
  | err _ ↦ false
  | ok (f, _) ↦ f.conn_id == conn_id
]

abbrev probed : Bytes → Target
probed domain = record { atyp = 0x03; addr = length domain ∷ domain; port = 0 ∷ 80 ∷ [] }

-- The target of both probes is what a proxy and the central server read, if the name has at most 255 bytes.
pub probe_target :
    (domain : Bytes)
    → length domain ≤ 255
    → (request (connect_req domain) ≡ accept [] (probed domain) [])
      × (decode_syn_payload (syn_payload domain) ≡ ok (0x03, length domain ∷ domain, 0 ∷ 80 ∷ []))
unfolding connect_req syn_payload
probe_target domain h =
    let small : length domain % 256 ≡ length domain = omega arith in
    let form : IsAddr 0x03 (length domain ∷ domain) = inr (inl (refl, omega arith, omega arith)) in
    let sent = request_sent (probed domain) [] (form, refl) in
    rw (small) (
      ap request (sym (append-nil (request_bytes (probed domain)))) ∙ sent,
      unfold encode_syn_payload in
          decode-encode_syn_payload 0x03 (length domain ∷ domain) (0 ∷ 80 ∷ []) form refl,
    )
