-- ===== src/Central/Handlers/Stream/Delivery.antt =====
-- The life of a connection from its SYN on: what its data frames bring to the upstream.
use slip_stream_plus.Prelude.{
  ℕ, ◌+◌, ◌%◌, ◌≤◌, ◌<◌, ◌≡◌, ◌≢◌, refl, sym, ap, subst, ◌∙◌, ◌⊎◌, true, List, [], ◌∷◌, ◌++◌, map,
  length, length-append, none, some, arith, get_elem?, All,
}
use mathlib.Core.List.{append-nil, append_assoc, map-append}
use slip_stream_plus.Prelude.Maps.{lookup, insert, nat_key}
use slip_stream_plus.Tunnel.Protocol.{
  Bytes, Frame, u32_mod, flag_syn, flag_data, is_syn, is_fin, is_rst, ok, encode_syn_payload,
  decode_syn_payload,
}
use slip_stream_plus.Tunnel.Protocol.Syn.{IsAddr, decode-encode_syn_payload}
use slip_stream_plus.Tunnel.Reorder.{Reorderer, put, new_reorderer_at, drain_all}
use slip_stream_plus.Tunnel.Reorder.Arrivals.{receive, receive_all, put_all, Belongs, Sent}
use slip_stream_plus.Tunnel.Reorder.Order.Held.{held_then_received}
use slip_stream_plus.Central.State.{ConnState, Conns, Effect, dial, queued, enqueue, write_ch_cap}
use slip_stream_plus.Central.Handlers.{new_state, handle_syn, handle_data, dispatch_frame}
use slip_stream_plus.Central.Handlers.Stream.{
  Incoming, arrival, dispatch_all, Holds, IsDataOf, Does, held_own, open_own, enqueue_room,
  lookup-insert_self,
}
use slip_stream_plus.Central.Upstream.{connected, open_queue}

dispatch_data :
    (i : Incoming) (conns : Conns)
    → i.frame.flags ≡ flag_data
    → dispatch_frame i.frame i.source i.now i.clock conns
      ≡ handle_data i.frame i.source i.now i.clock conns
unfolding dispatch_frame is_syn is_fin is_rst
dispatch_data i conns e = ground arith

held_step :
    (id : ℕ) (i : Incoming) (conns : Conns) (r : Reorderer)
    → IsDataOf id i
    → Holds id r none conns
    → Does id
        (put_all (arrival i ∷ []) r)
        none
        []
        (dispatch_frame i.frame i.source i.now i.clock conns)
unfolding put_all
held_step id i conns r (same, e) h =
    subst
      (λ k.
        Does k (put i.frame.seq_num i.frame.payload r) none []
          (dispatch_frame i.frame i.source i.now i.clock conns))
      same
      (rw (dispatch_data i conns e)
        (held_own i conns r (subst (λ k. Holds k r none conns) (sym same) h)))

open_step :
    (id : ℕ) (i : Incoming) (conns : Conns) (r : Reorderer) (q : List Bytes)
    → IsDataOf id i
    → Holds id r (some q) conns
    → length q + length (receive (arrival i) r).0 ≤ write_ch_cap
    → Does id
        (receive (arrival i) r).1
        (some (q ++ (receive (arrival i) r).0))
        (receive (arrival i) r).0
        (dispatch_frame i.frame i.source i.now i.clock conns)
open_step id i conns r q (same, e) h room =
    subst
      (λ k.
        Does k (receive (arrival i) r).1 (some (q ++ (receive (arrival i) r).0))
          (receive (arrival i) r).0 (dispatch_frame i.frame i.source i.now i.clock conns))
      same
      (rw (dispatch_data i conns e)
        (open_own i conns r q (subst (λ k. Holds k r (some q) conns) (sym same) h) room))

held-All :
    (id : ℕ) (before : List Incoming) (conns : Conns) (r : Reorderer)
    → All (IsDataOf id) before
    → Holds id r none conns
    → Does id (put_all (map arrival before) r) none [] (dispatch_all before conns)
unfolding put_all dispatch_all
held-All id [] conns r d h = (h, refl)
held-All id (i ∷ rest) conns r d h =
    let (h', quiet) = held_step id i conns r d.0 h in
    let (h'', quiet') = held-All id rest _ _ d.1 h' in (h'', rw (quiet, quiet'))

open-All :
    (id : ℕ) (after : List Incoming) (conns : Conns) (r : Reorderer) (q : List Bytes)
    → All (IsDataOf id) after
    → Holds id r (some q) conns
    → length q + length (receive_all (map arrival after) r).0 ≤ write_ch_cap
    → Does id
        (receive_all (map arrival after) r).1
        (some (q ++ (receive_all (map arrival after) r).0))
        (receive_all (map arrival after) r).0
        (dispatch_all after conns)
unfolding receive_all dispatch_all
open-All id [] conns r q d h room = (rw (append-nil q) h, refl)
open-All id (i ∷ rest) conns r q d h room =
    let out = (receive (arrival i) r).0 in
    let more = (receive_all (map arrival rest) (receive (arrival i) r).1).0 in
    let total = length-append out more in
    let (h', e) = open_step id i conns r q d.0 h (omega (arith, total)) in
    let (h'', e') =
      open-All id rest _ (receive (arrival i) r).1 (q ++ out) d.1 h'
        (omega (arith, total, length-append q out)) in
    (rw (← append_assoc q out more) h'', rw (e, e') (sym (map-append (queued id) out more)))

connected-Does :
    (id : ℕ) (clock : ℕ → ℕ) (conns : Conns) (r : Reorderer)
    → Holds id r none conns
    → length (drain_all clock r).0 ≤ write_ch_cap
    → Does id
        (drain_all clock r).1
        (some (drain_all clock r).0)
        (drain_all clock r).0
        (connected id clock none conns)
unfolding connected open_queue
connected-Does id clock conns r h room =
    let d = drain_all clock r in
    let s' = record h.state { target = true; reorderer = d.1; write_ch = some (d.0) } in
    let opened : open_queue id clock h.state ≡ (s', map (queued id) (d.0)) =
      ap
        (λ (x : Reorderer).
          let e = enqueue id [] (drain_all clock x).0 in
          (
            record h.state {
              target = true;
              reorderer = (drain_all clock x).1;
              write_ch = some (e.0);
            },
            e.1,
          ))
        h.reorders
      ∙ ap
          (λ (e : List Bytes × List Effect).
            (record h.state { target = true; reorderer = d.1; write_ch = some (e.0) }, e.1))
          (enqueue_room id [] (d.0) (omega arith)) in
    rw (h.present, connected)
      (subst
        (λ (t : ConnState × List Effect).
          Does id (d.1) (some (d.0)) (d.0) (insert id (t.0) conns, t.1))
        (sym opened)
        (
          record {
            state = s';
            present = lookup-insert_self id s' conns;
            reorders = refl;
            queues = refl;
          },
          refl,
        ))

-- A SYN for a new connection, with a target of a known form, opens it and dials that target.
syn_opens :
    (syn : Frame) (source now atyp : ℕ) (clock : ℕ → ℕ) (addr port : Bytes) (conns : Conns)
    → lookup syn.conn_id conns ≡ none
    → syn.flags ≡ flag_syn
    → decode_syn_payload syn.payload ≡ ok (atyp, addr, port)
    → syn.seq_num + 1 < u32_mod
    → let s = dispatch_frame syn source now clock conns in
      Holds syn.conn_id (new_reorderer_at (syn.seq_num + 1)) none (s.0)
      × (s.1 ≡ dial syn.conn_id atyp addr port ∷ [])
unfolding dispatch_frame is_syn
syn_opens syn source now atyp clock addr port conns e f d fits =
    let whole : handle_syn syn source now conns ≡ (
      insert syn.conn_id (new_state syn source now) conns,
      dial syn.conn_id atyp addr port ∷ [],
    ) =
      unfold handle_syn in ground arith in
    let same : (syn.seq_num + 1) % u32_mod ≡ syn.seq_num + 1 = omega arith in
    let by_syn : dispatch_frame syn source now clock conns ≡ handle_syn syn source now conns =
      ground arith in
    rw (by_syn ∙ whole) (
      record {
        state = new_state syn source now;
        present = lookup-insert_self syn.conn_id (new_state syn source now) conns;
        reorders = unfold new_state in ap new_reorderer_at same;
        queues = unfold new_state in refl;
      },
      refl,
    )

-- A connection that a SYN opens carries its stream: the SYN dials the target that was encoded in it,
-- and the upstream's write queue is handed exactly the stream's payloads, each once and in order.
-- The data frames are numbered on from the SYN's and not empty; they may come over any sources, in
-- any order and more than once, before and after the upstream is there, as long as all of them come,
-- within the gap timeout, their numbers do not wrap, and they are no more than the queue holds.
pub stream_delivery :
    (syn : Frame) (source now t0 atyp : ℕ) (clock clock' : ℕ → ℕ) (addr port : Bytes)
    (chunks : List Bytes) (before after : List Incoming) (conns : Conns)
    → lookup syn.conn_id conns ≡ none
    → syn.flags ≡ flag_syn
    → syn.payload ≡ encode_syn_payload atyp addr port
    → IsAddr atyp addr
    → length port ≡ 2
    → syn.seq_num + 1 + length chunks < u32_mod
    → length chunks ≤ write_ch_cap
    → ((i : ℕ) → get_elem? chunks i ≢ some [])
    → All (IsDataOf syn.conn_id) before
    → All (IsDataOf syn.conn_id) after
    → All (Belongs chunks (syn.seq_num + 1) t0) (map arrival before)
    → All (Belongs chunks (syn.seq_num + 1) t0) (map arrival after)
    → ((f : ℕ) → (t0 ≤ clock' f) × (clock' f < t0 + 2000))
    → ((i : ℕ)
        → i < length chunks
        → Sent (syn.seq_num + 1) (map arrival before) i
          ⊎ Sent (syn.seq_num + 1) (map arrival after) i)
    → let opened = dispatch_frame syn source now clock conns in
      let held = dispatch_all before (opened.0) in
      let flushed = connected syn.conn_id clock' none (held.0) in
      let relayed = dispatch_all after (flushed.0) in
      (opened.1 ≡ dial syn.conn_id atyp addr port ∷ [])
      × (held.1 ++ (flushed.1 ++ relayed.1) ≡ map (queued syn.conn_id) chunks)
stream_delivery syn source now t0 atyp clock clock' addr port chunks before after conns fresh flag
      payload form two small room full is_data is_data' b a window sent =
    let id = syn.conn_id in
    let (h0, dialled) =
      syn_opens syn source now atyp clock addr port conns fresh flag
        (rw payload (decode-encode_syn_payload atyp addr port form two)) (omega arith) in
    let r0 = new_reorderer_at (syn.seq_num + 1) in
    let (h1, quiet) = held-All id before _ r0 is_data h0 in
    let d = drain_all clock' (put_all (map arrival before) r0) in
    let rest = (receive_all (map arrival after) (d.1)).0 in
    let whole : (d.0) ++ rest ≡ chunks =
      held_then_received chunks (syn.seq_num + 1) t0 (map arrival before) (map arrival after) clock'
        small full b a window sent in
    let total : length (d.0) + length rest ≤ write_ch_cap =
      omega (arith, ap length whole, length-append (d.0) rest) in
    let (h2, flushed) = connected-Does id clock' _ _ h1 (omega arith) in
    let (h3, relayed) = open-All id after _ (d.1) (d.0) is_data' h2 total in
    (
      dialled,
      rw (quiet, flushed, relayed)
          (sym (map-append (queued id) (d.0) rest) ∙ ap (map (queued id)) whole),
    )
