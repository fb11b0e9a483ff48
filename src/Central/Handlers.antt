-- ===== src/Central/Handlers.antt =====
-- cmd/centralserver/upstream.go and server.go: what the server does with a frame.
pub mod Isolation
pub mod Stream
pub mod Ends
use slip_stream_plus.Prelude.{
  ℕ, zero, suc, ◌+◌, ◌%◌, Bool, true, false, List, [], ◌∷◌, ◌++◌, if◌then◌else◌, Option, none, some,
}
use slip_stream_plus.Prelude.Maps.{lookup, insert, delete, nat_key}
use slip_stream_plus.Tunnel.Protocol.{
  Bytes, Frame, u32_mod, is_syn, is_fin, is_rst, Result, ok, err, decode_syn_payload,
}
use slip_stream_plus.Tunnel.Reorder.{new_reorderer_at, put, drain_all}
use slip_stream_plus.Central.State.{
  ConnState, Conns, Effect, dial, cancel, has_source, enqueue, remove_conn,
}

-- The state of a connection that a SYN opens.
unfoldable pub new_state : Frame → ℕ → ℕ → ConnState
new_state frame source now = record {
  target = false;
  reorderer = new_reorderer_at ((frame.seq_num + 1) % u32_mod);
  tx_seq = 0;
  created = now;
  last_active = now;
  sources = source ∷ [];
  source_idx = 0;
  write_ch = none;
}

unfoldable pub handle_syn : Frame → ℕ → ℕ → Conns → Conns × List Effect
unfolding new_state
handle_syn frame source now conns = elim (lookup frame.conn_id conns) [
  | some existing ↦ (
    insert frame.conn_id (record existing { sources = existing.sources ++ (source ∷ []) }) conns,
    [],
  )
  | none ↦ elim (decode_syn_payload frame.payload) [
    | err e ↦ (conns, [])
    | ok (atyp, addr, port) ↦ (
      insert frame.conn_id (new_state frame source now) conns,
      dial frame.conn_id atyp addr port ∷ [],
    )
  ]
]

-- `handleData` on a connection's state, up to the check of the write queue.
unfoldable pub note_data : Frame → ℕ → ℕ → ConnState → ConnState
unfolding has_source put
note_data frame source now state = record state {
  sources =
      if has_source source state.sources then state.sources else state.sources ++ (source ∷ []);
  last_active = now;
  reorderer = put frame.seq_num frame.payload state.reorderer;
}

-- The rest of it, for the write queue `writeCh`: take out what is ready and hand it to the writer.
unfoldable pub flush_into : ℕ → (ℕ → ℕ) → ConnState → Option (List Bytes) → ConnState × List Effect
unfolding drain_all enqueue
flush_into id clock state none = (state, [])
flush_into id clock state (some queue) =
    let d = drain_all clock state.reorderer in
    let q = enqueue id queue (d.0) in (record state { reorderer = d.1; write_ch = some (q.0) }, q.1)

unfoldable pub flush_ready : ℕ → (ℕ → ℕ) → ConnState → ConnState × List Effect
unfolding flush_into
flush_ready id clock state = flush_into id clock state state.write_ch

unfoldable pub handle_data : Frame → ℕ → ℕ → (ℕ → ℕ) → Conns → Conns × List Effect
unfolding note_data flush_ready
handle_data frame source now clock conns = elim (lookup frame.conn_id conns) [
  | none ↦ (conns, [])
  | some state ↦
      let s = flush_ready frame.conn_id clock (note_data frame source now state) in
      (insert frame.conn_id (s.0) conns, s.1)
]

unfoldable pub handle_fin : Frame → (ℕ → ℕ) → Conns → Conns × List Effect
unfolding flush_ready remove_conn
handle_fin frame clock conns = elim (lookup frame.conn_id conns) [
  | none ↦ (conns, [])
  | some state ↦
      let s = flush_ready frame.conn_id clock state in
      let r =
        remove_conn frame.conn_id (insert frame.conn_id (record (s.0) { write_ch = none }) conns) in
      (r.0, (s.1) ++ r.1)
]

unfoldable pub handle_rst : Frame → Conns → Conns × List Effect
unfolding remove_conn
handle_rst frame conns = remove_conn frame.conn_id conns

unfoldable pub dispatch_frame : Frame → ℕ → ℕ → (ℕ → ℕ) → Conns → Conns × List Effect
dispatch_frame frame source now clock conns =
    if is_syn frame
    then handle_syn frame source now conns
    else if is_fin frame
    then handle_fin frame clock conns
    else if is_rst frame
    then handle_rst frame conns
    else handle_data frame source now clock conns
