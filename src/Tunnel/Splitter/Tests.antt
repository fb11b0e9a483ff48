-- ===== src/Tunnel/Splitter/Tests.antt =====
-- The theorems on internal/tunnel/pool.go and splitter.go at concrete inputs.
use slip_stream_plus.Prelude.{ℕ, ◌≢◌, arith, refl, Bool, true, false, List, [], ◌∷◌, ◌==◌, none}
use slip_stream_plus.Prelude.Maps.{lookup, nat_key}
use slip_stream_plus.Tunnel.Protocol.{Bytes, Frame, frame_bytes}
use slip_stream_plus.Tunnel.Pool.{TunnelConn, TunnelPool, send_frame}
use slip_stream_plus.Tunnel.Pool.Failover.{send_frame_works}

abbrev frame_for : ℕ → Bytes → Frame
frame_for id payload = record { conn_id = id; seq_num = 1; flags = 0; payload = payload }

abbrev conn : ℕ → Bool → TunnelConn
conn n closed = record { conn = n; closed = closed; last_read = 0; last_write = 0 }

-- A closed connection, one that fails, and one that works.
abbrev three_conns : List TunnelConn
three_conns = conn 50 true ∷ conn 51 false ∷ conn 52 false ∷ []

abbrev pool : TunnelPool
pool = record {
  conns = (3, three_conns) ∷ [];
  handlers = (7, []) ∷ [];
  ready = true;
  round_robin = 4;
  panicked = false;
}

send_frame_works_example : (send_frame (λ n. n == 52) 1000 3 (frame_for 7 (1 ∷ [])) pool).0 ≢ none
send_frame_works_example =
    send_frame_works (λ n. n == 52) 1000 3 2 (frame_for 7 (1 ∷ []))
      (0 ∷ 0 ∷ 0 ∷ 7 ∷ 0 ∷ 0 ∷ 0 ∷ 1 ∷ 0 ∷ 0 ∷ 1 ∷ 1 ∷ []) pool three_conns (conn 52 false)
      (unfold frame_bytes in refl) (unfold lookup in refl) refl (refl, refl) (omega arith)
