-- ===== src/Proxy/Chain.antt =====
-- internal/proxy, internal/tunnel/protocol.go and cmd/centralserver/upstream.go: a request on its way from one proxy to the next.
use Prim.Native.String.{String}
use slip_stream_plus.Prelude.{
  ℕ, zero, suc, ◌+◌, ◌≡◌, refl, sym, ap, ◌∙◌, false, [], ◌∷◌, ◌++◌, ◌==◌, leb, length, drop, take,
  get_or, none, some, arith, Bool-cases, inl, inr,
}
use slip_stream_plus.Tunnel.Protocol.{Bytes, ok, read_full, encode_syn_payload, decode_syn_payload}
use slip_stream_plus.Tunnel.Protocol.Syn.{decode-encode_syn_payload}
use slip_stream_plus.Users.{Manager, has_users}
use slip_stream_plus.Central.Upstream.{connect_request, bind_len, handshake}
use slip_stream_plus.Proxy.{Target, accept, open_session}
use slip_stream_plus.Proxy.Sessions.{open_session-request_bytes}
use slip_stream_plus.Proxy.Guards.{open_session_inv}
use slip_stream_plus.Proxy.Relay.{answers, drain_bound, negotiate, pipelined}

-- The two programs send the same bytes to the proxy behind them.
pipelined-connect_request : (t : Target) → pipelined t ≡ connect_request t.atyp t.addr t.port
unfolding pipelined connect_request
pipelined-connect_request t = refl

-- The request that a client's session ends in goes over the tunnel in a SYN frame; the central server reads it there
-- and sends it on, and a proxy without users behind that takes the same target, and then the data.
pub open_session-chain :
    (text : Bytes → String) (ip ip2 : String) (now now2 : ℕ) (m m2 : Manager)
    (input rest payload : Bytes) (t : Target)
    → (open_session text ip now m input).answer.next ≡ some (t, rest)
    → has_users m2 ≡ false
    → (decode_syn_payload (encode_syn_payload t.atyp t.addr t.port) ≡ ok (t.atyp, t.addr, t.port))
      × (open_session text ip2 now2 m2 (connect_request t.atyp t.addr t.port ++ payload)
          ≡ record { answer = accept (0x05 ∷ 0x00 ∷ []) t payload; users = m2; marked = none })
unfolding connect_request
open_session-chain text ip ip2 now now2 m m2 input rest payload t e guests =
    let (a, p) = (open_session_inv text ip now m input rest t e).0 in
    (
      decode-encode_syn_payload t.atyp t.addr t.port a p,
      open_session-request_bytes text ip2 now2 m2 (0x00 ∷ []) payload t guests (a, p),
    )

drop_nil : (k : ℕ) → drop {A = ℕ} k [] ≡ []
drop_nil zero = refl
drop_nil (suc k) = refl

drop-drop : (m n : ℕ) (xs : Bytes) → drop n (drop m xs) ≡ drop (m + n) xs
drop-drop zero n xs = ap (λ k. drop k xs) (omega arith)
drop-drop (suc m) n [] = drop_nil n ∙ sym (drop_nil (suc m + n))
drop-drop (suc m) n (x ∷ xs) =
    let k : suc m + n ≡ suc (m + n) = omega arith in rw (k) (drop-drop m n xs)

drain_bound-bind_len :
    (atyp : ℕ) (rest : Bytes) → drain_bound atyp rest ≡ drop (bind_len atyp (get_or rest 0 0)) rest
unfolding drain_bound bind_len
drain_bound-bind_len atyp rest = ground (arith, drop-drop 1 (get_or rest 0 0 + 2) rest)

-- The proxy and the central server read an upstream's answer alike: the relay starts in the one where it starts in
-- the other, behind the same bytes.
pub negotiate-handshake : (reader : Bytes) → (negotiate (answers reader)).1 ≡ handshake reader
unfolding negotiate handshake read_full
negotiate-handshake reader =
    let resp = take 6 reader in
    let rest = drop 6 reader in
    elim (Bool-cases (leb 6 (length reader))) [
      | inr short ↦ rw (negotiate, handshake, read_full, short) (ground (arith, short))
      | inl whole ↦ (elim (Bool-cases (get_or resp 3 0 == 0x00)) [
        | inl granted ↦
            rw (negotiate, handshake, read_full, whole, granted)
              (ap some (drain_bound-bind_len (get_or resp 5 0) rest))
        | inr refused ↦ rw (negotiate, handshake, read_full, whole, refused) refl
      ])
    ]
