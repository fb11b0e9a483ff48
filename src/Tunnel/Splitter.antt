-- ===== src/Tunnel/Splitter.antt =====
-- internal/tunnel/splitter.go: a client's connection, its chunks spread over the instances. The
-- instances are those of its creation, as they are at the time of a call; `Pool` has the rest.
mod Tests
pub mod Chunks
pub mod Picks
use slip_stream_plus.Prelude.{
  ℕ, zero, suc, ◌+◌, ◌*◌, ◌%◌, Bool, true, false, ◌||◌, List, [], ◌∷◌, ◌++◌, map, ltb, leb, ◌==◌,
  if◌then◌else◌, length, get_elem?, get_or, Option, none, some,
}
use slip_stream_plus.Engine.Instance.{Instance, is_healthy}
use slip_stream_plus.Balancer.{max_ping, weight}
use slip_stream_plus.Tunnel.Protocol.{
  Bytes, Frame, u32_mod, flag_syn, flag_fin, flag_data, encode_syn_payload, is_syn, is_fin, is_rst,
  is_ack,
}
use slip_stream_plus.Tunnel.Reorder.{Reorderer, new_reorderer, put, drain_all}
use slip_stream_plus.Tunnel.Pool.{TunnelPool, register_conn, unregister_conn, send_frame}

pub record PacketSplitter : Type 0 where
  pub conn_id : ℕ
  pub tx_seq : ℕ
  pub weights : List ℕ
  pub current : ℕ
  pub counter : ℕ

-- `recalcWeights`: a ping that is missing counts as the largest.
unfoldable pub recalc_weights : List Instance → List ℕ
unfolding max_ping weight
recalc_weights instances = let top = max_ping 1 instances in map (weight top top) instances

unfoldable pub new_packet_splitter : ℕ → List Instance → TunnelPool → PacketSplitter × TunnelPool
unfolding recalc_weights register_conn
new_packet_splitter conn_id instances pool = (
  record {
    conn_id = conn_id;
    tx_seq = 0;
    weights = recalc_weights instances;
    current = 0;
    counter = 0;
  },
  register_conn conn_id pool,
)

-- `ps.txSeq.Add(1) - 1` in a frame of this connection.
unfoldable pub next_frame : ℕ → Bytes → PacketSplitter → Frame × PacketSplitter
next_frame flags payload ps = (
  record { conn_id = ps.conn_id; seq_num = ps.tx_seq; flags = flags; payload = payload },
  record ps { tx_seq = (ps.tx_seq + 1) % u32_mod },
)

-- The instance at an index, if it is healthy.
unfoldable pub healthy_at : List Instance → ℕ → Option Instance
unfolding is_healthy
healthy_at instances i = elim (get_elem? instances i) [
  | none ↦ none
  | some inst ↦ if is_healthy inst then some inst else none
]

-- The first loop of `pickInstance`: the instance, `current` and `counter`.
unfoldable pub pick_loop : ℕ → List ℕ → List Instance → ℕ → ℕ → Option Instance × ℕ × ℕ
unfolding healthy_at
pick_loop zero weights instances current counter = (none, current, counter)
pick_loop (suc attempts) weights instances current counter =
    let used_up = leb (get_or weights current 0) counter in
    let current' = if used_up then (current + 1) % length instances else current in
    let counter' = (if used_up then 0 else counter) + 1 in
    let more = pick_loop attempts weights instances ((current' + 1) % length instances) 0 in
    elim (healthy_at instances current') [
      | some inst ↦ (some inst, current', counter')
      | none ↦ more
    ]

-- Its second loop.
unfoldable pub first_healthy : List Instance → Option Instance
unfolding is_healthy
first_healthy [] = none
first_healthy (inst ∷ rest) = if is_healthy inst then some inst else first_healthy rest

unfoldable pub or_healthy : List Instance → Option Instance → Option Instance
unfolding first_healthy
or_healthy instances (some inst) = some inst
or_healthy instances none = first_healthy instances

unfoldable pub pick_instance : List Instance → PacketSplitter → Option Instance × PacketSplitter
unfolding pick_loop or_healthy
pick_instance instances ps =
    let s = pick_loop (length instances * 2) ps.weights instances ps.current ps.counter in
    (or_healthy instances (s.0), record ps { current = s.1; counter = s.2 })

unfoldable pub pick_instance_excluding : ℕ → List Instance → Option Instance
unfolding is_healthy
pick_instance_excluding exclude_id [] = none
pick_instance_excluding exclude_id (inst ∷ rest) =
    let other = pick_instance_excluding exclude_id rest in
    if inst.id == exclude_id then other else if is_healthy inst then some inst else other

-- A frame to every instance, and how many took it.
unfoldable pub send_all : (ℕ → Bool) → ℕ → Frame → List Instance → TunnelPool → ℕ × TunnelPool
unfolding send_frame
send_all accepts now f [] pool = (0, pool)
send_all accepts now f (inst ∷ rest) pool =
    let s = send_frame accepts now inst.id f pool in
    let more = send_all accepts now f rest (s.1) in
    (elim (s.0) [ none ↦ more.0 | some _ ↦ suc (more.0) ], more.1)

-- `SendSYN`: whether an instance took the frame.
unfoldable pub send_syn :
    (ℕ → Bool)
    → ℕ
    → ℕ
    → Bytes
    → Bytes
    → List Instance
    → PacketSplitter
    → TunnelPool
    → Bool × PacketSplitter × TunnelPool
unfolding next_frame send_all
send_syn accepts now atyp addr port instances ps pool =
    let n = next_frame flag_syn (encode_syn_payload atyp addr port) ps in
    let s = send_all accepts now (n.0) instances pool in (ltb 0 (s.0), n.1, s.1)

-- `Close`
unfoldable pub close_splitter :
    (ℕ → Bool) → ℕ → List Instance → PacketSplitter → TunnelPool → PacketSplitter × TunnelPool
unfolding next_frame send_all unregister_conn
close_splitter accepts now instances ps pool =
    let n = next_frame flag_fin [] ps in
    let s = send_all accepts now (n.0) instances pool in (n.1, unregister_conn ps.conn_id (s.1))

-- A frame to an instance, and to another one if that fails. The connection that took it.
unfoldable pub send_or_other :
    (ℕ → Bool) → ℕ → Frame → List Instance → Instance → TunnelPool → Option ℕ × TunnelPool
unfolding send_frame pick_instance_excluding
send_or_other accepts now f instances inst pool =
    let s = send_frame accepts now inst.id f pool in
    elim (s.0) [
      | some conn ↦ (some conn, s.1)
      | none ↦ elim (pick_instance_excluding inst.id instances) [
        | none ↦ (none, s.1)
        | some inst2 ↦ send_frame accepts now inst2.id f (s.1)
      ]
    ]

-- What becomes of a chunk of the client's: no instance is healthy and the relay returns, or a frame
-- was made of it, which a connection took or none did.
pub data Sending : Type 0 where
  no_instance : Sending
  sent : ℕ → Frame → Sending
  lost : Frame → Sending

unfoldable pub sending : Frame → Option ℕ → Sending
sending f none = lost f
sending f (some conn) = sent conn f

-- A round of `RelayClientToUpstream` that reads something.
unfoldable pub relay_chunk :
    (ℕ → Bool)
    → ℕ
    → Bytes
    → List Instance
    → PacketSplitter
    → TunnelPool
    → Sending × PacketSplitter × TunnelPool
unfolding pick_instance next_frame send_or_other sending
relay_chunk accepts now chunk instances ps pool =
    let p = pick_instance instances ps in
    let n = next_frame flag_data chunk (p.1) in
    elim (p.0) [
      | none ↦ (no_instance, p.1, pool)
      | some inst ↦
          let s = send_or_other accepts now (n.0) instances inst pool in
          (sending (n.0) (s.0), n.1, s.1)
    ]

-- `RelayUpstreamToClient`. `client` is the client's Write: how many bytes it takes, and whether it
-- fails.
pub record Relay (S : Type 0) : Type 0 where
  pub client : S
  pub reorderer : Reorderer
  pub total_bytes : ℕ
  pub last_activity : ℕ

-- What the select takes: the ticker, a frame, or the context's or the channel's end. Each has the
-- time, and the clock while what is ready is taken out.
pub data Event : Type 0 where
  tick : ℕ → (ℕ → ℕ) → Event
  arrived : Frame → ℕ → (ℕ → ℕ) → Event
  ended : Event

abbrev pub idle_limit : ℕ
idle_limit = 30000

unfoldable pub start_relay : {S : Type 0} → S → ℕ → Relay S
unfolding new_reorderer
start_relay client now = record {
  client = client;
  reorderer = new_reorderer;
  total_bytes = 0;
  last_activity = now;
}

module _ {S : Type 0} (write : S → Bytes → S × ℕ × Bool) where
  -- The slices in turn until a write fails; how many bytes were taken, and whether one failed.
  unfoldable pub write_out : S → List Bytes → S × ℕ × Bool
  write_out s [] = (s, 0, false)
  write_out s (slice ∷ rest) =
      let w = write s slice in
      let more = write_out (w.0) rest in
      if w.2 then (w.0, w.1, true) else (more.0, w.1 + more.1, more.2)

  -- The slices in turn, whatever comes of it.
  unfoldable pub write_last : S → List Bytes → S × ℕ
  write_last s [] = (s, 0)
  write_last s (slice ∷ rest) =
      let more = write_last (write s slice).0 rest in (more.0, length slice + more.1)

  -- `for { data := reorderer.Next() ... }` with the check of the write.
  unfoldable pub flush_client : (ℕ → ℕ) → Relay S → Relay S × Bool
  unfolding write_out drain_all
  flush_client clock r =
      let d = drain_all clock r.reorderer in
      let w = write_out r.client (d.0) in
      (record r { client = w.0; reorderer = d.1; total_bytes = r.total_bytes + w.1 }, w.2)

  -- The part for the ticker. `lastActivity` is set by a slice that is written.
  unfoldable pub on_tick : ℕ → (ℕ → ℕ) → Relay S → Relay S × Bool
  unfolding flush_client drain_all
  on_tick now clock r =
      let f = flush_client clock r in
      let wrote = ltb 0 (length (drain_all clock r.reorderer).0) in
      let last = if wrote then now else r.last_activity in
      (record (f.0) { last_activity = last }, f.1 || ltb (last + idle_limit) now)

  -- The part for a frame.
  unfoldable pub on_frame : Frame → ℕ → (ℕ → ℕ) → Relay S → Relay S × Bool
  unfolding flush_client write_last drain_all put is_fin is_rst is_ack is_syn
  on_frame f now clock r =
      let r' = record r { last_activity = now } in
      let d = drain_all clock r.reorderer in
      let w = write_last r.client (d.0) in
      if is_fin f || is_rst f
      then (record r' { client = w.0; reorderer = d.1; total_bytes = r.total_bytes + w.1 }, true)
      else if is_ack f || is_syn f
      then (r', false)
      else if length f.payload == 0
      then (r', false)
      else flush_client clock (record r' { reorderer = put f.seq_num f.payload r.reorderer })

  unfoldable pub on_event : Event → Relay S → Relay S × Bool
  unfolding on_tick on_frame
  on_event (tick now clock) r = on_tick now clock r
  on_event (arrived f now clock) r = on_frame f now clock r
  on_event ended r = (r, true)

  -- The loop, until it returns or the events are used up.
  unfoldable pub on_events : List Event → Relay S → Relay S × Bool
  unfolding on_event
  on_events [] r = (r, false)
  on_events (e ∷ rest) r =
      let s = on_event e r in let more = on_events rest (s.0) in if s.1 then s else more
