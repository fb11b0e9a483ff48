-- ===== src/Engine/Instance.antt =====
-- internal/engine/instance.go: the state of an instance that the other parts read and write. The
-- child process, its context and its buffers are not part of it.
use slip_stream_plus.Prelude.{ℕ, Bool, true, false}
use slip_stream_plus.Prelude.Int.{ℤ, pos, negsuc, ◌+ℤ◌, wrap64}

pub data InstanceState : Type 0 where
  starting healthy unhealthy dead : InstanceState

-- `Config.Mode`, which `ExpandInstances` leaves at one of two texts.
pub data Mode : Type 0 where
  socks ssh : Mode

pub record Instance : Type 0 where
  pub id : ℕ
  pub mode : Mode
  pub state : InstanceState
  pub active_conns : ℤ
  pub last_ping_ms : ℤ
  pub tx_bytes : ℤ
  pub rx_bytes : ℤ

-- `NewInstance`
unfoldable pub new_instance : ℕ → Mode → Instance
new_instance id mode = record {
  id = id;
  mode = mode;
  state = dead;
  active_conns = pos 0;
  last_ping_ms = pos 0;
  tx_bytes = pos 0;
  rx_bytes = pos 0;
}

unfoldable pub incr_conns : Instance → Instance
incr_conns i = record i { active_conns = wrap64 (i.active_conns +ℤ pos 1) }

unfoldable pub decr_conns : Instance → Instance
decr_conns i = record i { active_conns = wrap64 (i.active_conns +ℤ negsuc 0) }

unfoldable pub set_last_ping_ms : ℤ → Instance → Instance
set_last_ping_ms ms i = record i { last_ping_ms = ms }

unfoldable pub add_tx : ℤ → Instance → Instance
add_tx n i = record i { tx_bytes = wrap64 (i.tx_bytes +ℤ n) }

unfoldable pub add_rx : ℤ → Instance → Instance
add_rx n i = record i { rx_bytes = wrap64 (i.rx_bytes +ℤ n) }

unfoldable pub set_state : InstanceState → Instance → Instance
set_state s i = record i { state = s }

unfoldable pub is_healthy : Instance → Bool
is_healthy i = elim i.state [ healthy ↦ true | _ ↦ false ]
