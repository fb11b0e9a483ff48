-- ===== src/Central/Handlers/Stream.antt =====
-- A connection's data, from the frames of its stream to the upstream's write queue.
pub mod Delivery
use slip_stream_plus.Prelude.{
  ℕ, zero, suc, ◌+◌, ◌≤◌, ◌<◌, ◌≡◌, ◌≢◌, refl, sym, ap, subst, ◌∙◌, ◌⊎◌, inl, inr, true, false,
  List, [], ◌∷◌, ◌++◌, map, length, length-append, if◌then◌else◌, lt→ltb, Option, none, some, arith,
  get_elem?, All, ltb,
}
use mathlib.Core.List.{append-nil, append_assoc, map-append}
use slip_stream_plus.Prelude.Maps.{lookup, insert, nat_key}
use slip_stream_plus.Prelude.Maps.Laws.{lookup-insert}
use slip_stream_plus.Tunnel.Protocol.{Bytes, Frame, u32_mod, flag_data, is_syn, is_fin, is_rst}
use slip_stream_plus.Tunnel.Reorder.{Reorderer, new_reorderer_at, put, drain_all}
use slip_stream_plus.Tunnel.Reorder.Arrivals.{Arrival, receive, receive_all, put_all, Belongs, Sent}
use slip_stream_plus.Tunnel.Reorder.Order.Held.{held_then_received}
use slip_stream_plus.Central.State.{ConnState, Conns, Effect, queued, enqueue, write_ch_cap}
use slip_stream_plus.Central.Handlers.{
  note_data, flush_into, flush_ready, handle_data, dispatch_frame,
}
use slip_stream_plus.Central.Upstream.{connected}

-- A frame that comes in, with its source, the time, and the clock while it is handled.
pub record Incoming : Type 0 where
  pub frame : Frame
  pub source : ℕ
  pub now : ℕ
  pub clock : ℕ → ℕ

abbrev pub arrival : Incoming → Arrival
arrival i = record { seq = i.frame.seq_num; payload = i.frame.payload; clock = i.clock }

unfoldable pub dispatch_all : List Incoming → Conns → Conns × List Effect
dispatch_all [] conns = (conns, [])
dispatch_all (i ∷ rest) conns =
    let s = dispatch_frame i.frame i.source i.now i.clock conns in
    let more = dispatch_all rest (s.0) in (more.0, (s.1) ++ more.1)

-- The queue has room for all that comes.
enqueue_room :
    (id : ℕ) (queue chunks : List Bytes)
    → length queue + length chunks ≤ write_ch_cap
    → enqueue id queue chunks ≡ (queue ++ chunks, map (queued id) chunks)
unfolding enqueue
enqueue_room id queue [] h = rw (append-nil queue)
enqueue_room id queue (c ∷ rest) h =
    let room : ltb (length queue) write_ch_cap ≡ true = lt→ltb _ _ (omega arith) in
    rw room (
      ap (λ s. (s.0, queued id c ∷ s.1))
        (enqueue_room id (queue ++ (c ∷ [])) rest (omega (arith, length-append queue (c ∷ []))))
      ∙ rw (append_assoc queue (c ∷ []) rest))

-- The connection `id` has the reorderer `r` and the queue `q`.
record Holds (id : ℕ) (r : Reorderer) (q : Option (List Bytes)) (conns : Conns) : Type 0 where
  state : ConnState
  present : lookup id conns ≡ some state
  reorders : state.reorderer ≡ r
  queues : state.write_ch ≡ q

-- A data frame of the connection `id`.
abbrev pub IsDataOf : ℕ → Incoming → Type 0
IsDataOf id i = (i.frame.conn_id ≡ id) × (i.frame.flags ≡ flag_data)

dispatch_data :
    (id : ℕ) (i : Incoming) (conns : Conns)
    → IsDataOf id i
    → dispatch_frame i.frame i.source i.now i.clock conns
      ≡ handle_data i.frame i.source i.now i.clock conns
unfolding dispatch_frame is_syn is_fin is_rst
dispatch_data id i conns (_, e) = rw e

handle_data_lem :
    (i : Incoming) (conns : Conns) (s : ConnState)
    → lookup i.frame.conn_id conns ≡ some s
    → handle_data i.frame i.source i.now i.clock conns ≡ (
      insert i.frame.conn_id
          (flush_ready i.frame.conn_id i.clock (note_data i.frame i.source i.now s)).0
          conns,
      (flush_ready i.frame.conn_id i.clock (note_data i.frame i.source i.now s)).1,
    )
unfolding handle_data
handle_data_lem i conns s e = rw (e, handle_data)

flush_ready_closed :
    (id : ℕ) (clock : ℕ → ℕ) (s : ConnState) → s.write_ch ≡ none → flush_ready id clock s ≡ (s, [])
unfolding flush_ready
flush_ready_closed id clock s e = ap (flush_into id clock s) e

flush_ready_open :
    (id : ℕ) (clock : ℕ → ℕ) (s : ConnState) (r : Reorderer) (q : List Bytes)
    → s.reorderer ≡ r
    → s.write_ch ≡ some q
    → length q + length (drain_all clock r).0 ≤ write_ch_cap
    → flush_ready id clock s ≡ (
      record s { reorderer = (drain_all clock r).1; write_ch = some (q ++ (drain_all clock r).0) },
      map (queued id) (drain_all clock r).0,
    )
unfolding flush_ready
flush_ready_open id clock s r q e f room =
    ap (flush_into id clock s) f
    ∙ ap
        (λ (x : Reorderer).
          let e = enqueue id q (drain_all clock x).0 in
          (record s { reorderer = (drain_all clock x).1; write_ch = some (e.0) }, e.1))
        e
    ∙ ap
        (λ (e : List Bytes × List Effect).
          (record s { reorderer = (drain_all clock r).1; write_ch = some (e.0) }, e.1))
        (enqueue_room id q (drain_all clock r).0 room)

lookup-insert_self :
    (id : ℕ) (s : ConnState) (conns : Conns) → lookup id (insert id s conns) ≡ some s
lookup-insert_self id s conns = ground (arith, lookup-insert id id s conns)

-- What a step does to the connection `id`: its reorderer, its queue, and the effects.
abbrev Does : ℕ → Reorderer → Option (List Bytes) → List Bytes → Conns × List Effect → Type 0
Does id r q out s = Holds id r q (s.0) × (s.1 ≡ map (queued id) out)

-- While the upstream is not there, a data frame goes into the reorderer and nothing comes out.
held_own :
    (i : Incoming) (conns : Conns) (r : Reorderer)
    → Holds i.frame.conn_id r none conns
    → Does i.frame.conn_id
        (put i.frame.seq_num i.frame.payload r)
        none
        []
        (handle_data i.frame i.source i.now i.clock conns)
held_own i conns r h =
    let id = i.frame.conn_id in
    let s' = note_data i.frame i.source i.now h.state in
    let closed : flush_ready id i.clock s' ≡ (s', []) =
      flush_ready_closed id i.clock s' (unfold note_data in h.queues) in
    subst (Does id (put i.frame.seq_num i.frame.payload r) none [])
      (sym (
        handle_data_lem i conns h.state h.present
        ∙ ap (λ (t : ConnState × List Effect). (insert id (t.0) conns, t.1)) closed))
      (
        record {
          state = s';
          present = lookup-insert_self id s' conns;
          reorders = unfold note_data in ap (put i.frame.seq_num i.frame.payload) h.reorders;
          queues = unfold note_data in h.queues;
        },
        refl,
      )

-- Once it is there, what is ready goes into the write queue, if that has room.
open_own :
    (i : Incoming) (conns : Conns) (r : Reorderer) (q : List Bytes)
    → Holds i.frame.conn_id r (some q) conns
    → length q + length (receive (arrival i) r).0 ≤ write_ch_cap
    → Does i.frame.conn_id
        (receive (arrival i) r).1
        (some (q ++ (receive (arrival i) r).0))
        (receive (arrival i) r).0
        (handle_data i.frame i.source i.now i.clock conns)
unfolding receive
open_own i conns r q h room =
    let id = i.frame.conn_id in
    let s' = note_data i.frame i.source i.now h.state in
    let r' = put i.frame.seq_num i.frame.payload r in
    let opened =
      flush_ready_open id i.clock s' r' q
        (unfold note_data in ap (put i.frame.seq_num i.frame.payload) h.reorders)
        (unfold note_data in h.queues) room in
    let s'' = record s' {
      reorderer = (drain_all i.clock r').1;
      write_ch = some (q ++ (drain_all i.clock r').0);
    } in
    subst
      (Does id (receive (arrival i) r).1 (some (q ++ (receive (arrival i) r).0))
        (receive (arrival i) r).0)
      (sym (
        handle_data_lem i conns h.state h.present
        ∙ ap (λ (t : ConnState × List Effect). (insert id (t.0) conns, t.1)) opened))
      (
        record {
          state = s'';
          present = lookup-insert_self id s'' conns;
          reorders = refl;
          queues = refl;
        },
        refl,
      )
