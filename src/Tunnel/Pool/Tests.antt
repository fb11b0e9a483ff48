-- ===== src/Tunnel/Pool/Tests.antt =====
-- The theorems on what a pool's refresh and an oversized frame leave, at concrete inputs.
use slip_stream_plus.Prelude.{
  ℕ, ◌≡◌, ◌==◌, if◌then◌else◌, refl, Bool, true, false, List, [], ◌∷◌, replicate, length-replicate,
  none, some, arith, All,
}
use slip_stream_plus.Prelude.Int.{pos}
use slip_stream_plus.Prelude.Maps.{lookup, nat_key}
use slip_stream_plus.Engine.Instance.{Instance, healthy, socks}
use slip_stream_plus.Tunnel.Protocol.{Frame}
use slip_stream_plus.Tunnel.Pool.{TunnelConn, TunnelPool, refresh_connections, send_frame}
use slip_stream_plus.Tunnel.Pool.Refresh.{IsFresh, refresh_connections-IsFresh}
use slip_stream_plus.Tunnel.Pool.Oversized.{IsClosedAt, send_frame-IsClosedAt}

abbrev conn : ℕ → Bool → TunnelConn
conn n closed = record { conn = n; closed = closed; last_read = 0; last_write = 0 }

-- Instance 3 has a connection that is closed and one that works; instance 4 is no longer healthy.
abbrev pool : TunnelPool
pool = record {
  conns = (3, conn 50 true ∷ conn 51 false ∷ []) ∷ (4, conn 52 false ∷ []) ∷ [];
  handlers = [];
  ready = true;
  round_robin = 4;
  panicked = false;
}

abbrev healthy_instance : ℕ → Instance
healthy_instance id = record {
  id = id;
  mode = socks;
  state = healthy;
  active_conns = pos 0;
  last_ping_ms = pos 50;
  tx_bytes = pos 0;
  rx_bytes = pos 0;
}

refresh_connections-IsFresh_example :
    All
      (IsFresh (healthy_instance 3 ∷ healthy_instance 5 ∷ []))
      (refresh_connections
        (λ id n. if n == 0 then some 60 else none)
        1000
        (healthy_instance 3 ∷ healthy_instance 5 ∷ [])
        pool).conns
refresh_connections-IsFresh_example =
    refresh_connections-IsFresh (λ id n. if n == 0 then some 60 else none) 1000
      (healthy_instance 3 ∷ healthy_instance 5 ∷ []) pool (omega arith, (omega arith, tt))

abbrev large : Frame
large = record { conn_id = 7; seq_num = 1; flags = 0; payload = replicate 65000 0 }

send_frame-IsClosedAt_example :
    let out = send_frame (λ n. true) 1000 3 large pool in
    (out.0 ≡ none)
    × ((left : List TunnelConn) × (lookup 3 (out.1).conns ≡ some left) × IsClosedAt 1 left)
send_frame-IsClosedAt_example =
    send_frame-IsClosedAt (λ n. true) 1000 large (omega (arith, length-replicate {A = ℕ} 65000 0)) 3
      1 pool (conn 50 true ∷ conn 51 false ∷ []) (unfold lookup in refl) (omega arith) (omega arith)
