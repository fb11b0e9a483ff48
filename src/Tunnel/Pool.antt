-- ===== src/Tunnel/Pool.antt =====
-- internal/tunnel/pool.go and tunnelconn.go: the connections to the instances, and the channels that
-- the frames which come back go into. Whether a connection takes a write is a parameter; times are
-- milliseconds. `none` among the channels of `handlers` does not occur: a closed one is not in it.
mod Tests
pub mod Dispatch
pub mod Failover
pub mod Refresh
pub mod Oversized
use slip_stream_plus.Prelude.{
  ℕ, zero, suc, ◌+◌, ◌-◌, ◌%◌, ◌^◌, Bool, true, false, not, ◌&&◌, ◌||◌, List, [], ◌∷◌, ◌++◌, ltb,
  ◌==◌, if◌then◌else◌, length, get_elem?, set, Option, none, some,
}
use slip_stream_plus.Prelude.Maps.{Map, lookup, insert, delete, nat_key}
use slip_stream_plus.Tunnel.Protocol.{Frame, Result, ok, err, frame_bytes}
use slip_stream_plus.Engine.Instance.{Instance, Mode, socks, ssh}

-- `TunnelConn`; `conn` is its connection's number.
pub record TunnelConn : Type 0 where
  pub conn : ℕ
  pub closed : Bool
  pub last_read : ℕ
  pub last_write : ℕ

-- `panicked` is that the process is over: what a pool does behind that does not happen.
pub record TunnelPool : Type 0 where
  pub conns : Map ℕ (List TunnelConn)
  pub handlers : Map ℕ (List Frame)
  pub ready : Bool
  pub round_robin : ℕ
  pub panicked : Bool

unfoldable pub new_tunnel_pool : TunnelPool
new_tunnel_pool = record {
  conns = [];
  handlers = [];
  ready = false;
  round_robin = 0;
  panicked = false;
}

-- `make(chan *Frame, 256)`, `ConnsPerInstance` and `staleThreshold`
abbrev pub channel_cap : ℕ
channel_cap = 256

abbrev pub conns_per_instance : ℕ
conns_per_instance = 8

abbrev pub stale_threshold : ℕ
stale_threshold = 15000

unfoldable pub close : TunnelConn → TunnelConn
close tc = record tc { closed = true }

unfoldable pub any_open : List TunnelConn → Bool
any_open [] = false
any_open (tc ∷ rest) = if tc.closed then any_open rest else true

unfoldable pub conns_of : ℕ → TunnelPool → List TunnelConn
conns_of id p = elim (lookup id p.conns) [ none ↦ [] | some conns ↦ conns ]

-- `HasActiveTunnel`
unfoldable pub has_active_tunnel : ℕ → TunnelPool → Bool
unfolding any_open conns_of
has_active_tunnel id p = any_open (conns_of id p)

unfoldable pub any_pool_open : Map ℕ (List TunnelConn) → Bool
unfolding any_open
any_pool_open [] = false
any_pool_open ((id, conns) ∷ rest) = if any_open conns then true else any_pool_open rest

-- `HasTunnels`
unfoldable pub has_tunnels : TunnelPool → Bool
unfolding any_pool_open
has_tunnels p = any_pool_open p.conns

unfoldable pub register_conn : ℕ → TunnelPool → TunnelPool
register_conn id p = record p { handlers = insert id [] p.handlers }

unfoldable pub unregister_conn : ℕ → TunnelPool → TunnelPool
unregister_conn id p = record p { handlers = delete id p.handlers }

-- `writeFrame` on a connection: whether the frame is written, and when.
unfoldable pub write_frame : (ℕ → Bool) → ℕ → Frame → TunnelConn → Bool × TunnelConn
write_frame accepts now f tc = if tc.closed then (false, tc) else (elim (frame_bytes f) [
  | err e ↦ (false, tc)
  | ok bytes ↦ if accepts tc.conn then (true, record tc { last_write = now }) else (false, tc)
])

-- The loop of `SendFrame` from its round `i` on; `start + i` is an int, which does not overflow. A
-- connection that is closed is passed over, and closing it again changes nothing. The result has the
-- number of the connection that takes the frame.
unfoldable pub send_loop :
    (ℕ → Bool) → ℕ → Frame → ℕ → ℕ → ℕ → List TunnelConn → Option ℕ × List TunnelConn
unfolding write_frame close
send_loop accepts now f zero start i conns = (none, conns)
send_loop accepts now f (suc rounds) start i conns =
    let at = (start + i) % length conns in
    elim (get_elem? conns at) [
      | none ↦ (none, conns)
      | some tc ↦
          let w = write_frame accepts now f tc in
          let more = send_loop accepts now f rounds start (i + 1) (set conns at (close tc)) in
          if w.0 then (some tc.conn, set conns at (w.1)) else more
    ]

-- `int(counter) % n` of a uint64, and `none` where it is negative.
unfoldable pub start_at : ℕ → ℕ → Option ℕ
start_at counter n =
    if ltb counter (2 ^ 63)
    then some (counter % n)
    else if (2 ^ 64 - counter) % n == 0
    then some 0
    else none

-- `SendFrame` over the instance's connections. A negative start is the first round's index, which panics.
unfoldable pub send_over :
    (ℕ → Bool) → ℕ → ℕ → Frame → List TunnelConn → TunnelPool → Option ℕ × TunnelPool
unfolding send_loop start_at
send_over accepts now id f conns p =
    let counter = (p.round_robin + 1) % 2 ^ 64 in
    if length conns == 0 then (none, p) else (elim (start_at counter (length conns)) [
      | none ↦ (none, record p { round_robin = counter; panicked = true })
      | some start ↦
          let s = send_loop accepts now f (length conns) start 0 conns in
          (s.0, record p { conns = insert id (s.1) p.conns; round_robin = counter })
    ])

-- `SendFrame`, whose error is `none`.
unfoldable pub send_frame : (ℕ → Bool) → ℕ → ℕ → Frame → TunnelPool → Option ℕ × TunnelPool
unfolding send_over conns_of
send_frame accepts now id f p = send_over accepts now id f (conns_of id p) p

-- What `readLoop` does with a frame, behind the read.
unfoldable pub dispatch : Frame → TunnelPool → TunnelPool
dispatch frame p = if frame.conn_id == 0 then p else (elim (lookup frame.conn_id p.handlers) [
  | none ↦ p
  | some channel ↦
      if ltb (length channel) channel_cap
      then record p { handlers = insert frame.conn_id (channel ++ (frame ∷ [])) p.handlers }
      else p
])

-- A splitter takes a frame out of its channel.
unfoldable pub take_frame : ℕ → TunnelPool → Option Frame × TunnelPool
take_frame id p = elim (lookup id p.handlers) [
  | none ↦ (none, p)
  | some [] ↦ (none, p)
  | some (frame ∷ rest) ↦ (some frame, record p { handlers = insert id rest p.handlers })
]

-- `refreshConnections`: what is taken out of an instance's connections.
unfoldable pub should_remove : ℕ → TunnelConn → Bool
should_remove now tc =
    if tc.closed then true else ltb 0 tc.last_write && ltb (tc.last_read + stale_threshold) now

unfoldable pub alive : ℕ → List TunnelConn → List TunnelConn
unfolding should_remove
alive now [] = []
alive now (tc ∷ rest) = if should_remove now tc then alive now rest else tc ∷ alive now rest

unfoldable pub is_active : ℕ → List Instance → Bool
is_active id [] = false
is_active id (inst ∷ rest) = if inst.id == id then true else is_active id rest

-- Its first phase.
unfoldable pub sweep : ℕ → List Instance → Map ℕ (List TunnelConn) → Map ℕ (List TunnelConn)
unfolding alive is_active
sweep now active [] = []
sweep now active ((id, conns) ∷ rest) =
    let left = alive now conns in
    if not (is_active id active) || (length left == 0)
    then sweep now active rest
    else (id, left) ∷ sweep now active rest

-- `connectInstance`
unfoldable pub new_conn : ℕ → ℕ → TunnelConn
new_conn now conn = record { conn = conn; closed = false; last_read = now; last_write = 0 }

-- `dial` gives the connection that a dial of an instance opens, for the number of dials before it,
-- or `none`.
unfoldable pub replenish : (ℕ → Option ℕ) → ℕ → ℕ → ℕ → List TunnelConn → List TunnelConn
unfolding new_conn
replenish dial now zero i conns = conns
replenish dial now (suc need) i conns = elim (dial i) [
  | none ↦ conns
  | some conn ↦ replenish dial now need (i + 1) (conns ++ (new_conn now conn ∷ []))
]

-- Its second phase.
unfoldable pub replenish_all : (ℕ → ℕ → Option ℕ) → ℕ → List Instance → TunnelPool → TunnelPool
unfolding replenish conns_of
replenish_all dial now [] p = p
replenish_all dial now (inst ∷ rest) p =
    let current = conns_of inst.id p in
    let conns = replenish (dial inst.id) now (conns_per_instance - length current) 0 current in
    let p' = if length conns == 0 then p else record p { conns = insert inst.id conns p.conns } in
    replenish_all dial now rest (elim inst.mode [ ssh ↦ p | socks ↦ p' ])

unfoldable pub total : Map ℕ (List TunnelConn) → ℕ
total [] = 0
total ((id, conns) ∷ rest) = length conns + total rest

unfoldable pub refresh_connections :
    (ℕ → ℕ → Option ℕ) → ℕ → List Instance → TunnelPool → TunnelPool
unfolding sweep replenish_all total
refresh_connections dial now healthy p =
    let p' = replenish_all dial now healthy (record p { conns = sweep now healthy p.conns }) in
    record p' { ready = p'.ready || ltb 0 (total p'.conns) }
