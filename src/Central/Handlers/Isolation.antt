-- ===== src/Central/Handlers/Isolation.antt =====
-- cmd/centralserver/upstream.go: a frame and the connections that it does not belong to.
use slip_stream_plus.Prelude.{
  ℕ, ◌+◌, ◌%◌, ◌<◌, ◌≡◌, ◌≢◌, refl, ◌∙◌, inl, inr, List, [], ◌∷◌, Option, none, some, arith,
  Option-cases, Bool-cases, ◌==◌,
}
use slip_stream_plus.Prelude.Maps.{lookup, insert, delete, IsMap, nat_key}
use slip_stream_plus.Prelude.Maps.Laws.{lookup-insert, lookup-delete, insert-IsMap, delete-IsMap}
use slip_stream_plus.Tunnel.Protocol.{
  Bytes, Frame, u32_mod, is_syn, is_fin, is_rst, Result, ok, err, decode_syn_payload,
}
use slip_stream_plus.Tunnel.Reorder.{new_reorderer_at}
use slip_stream_plus.Tunnel.Reorder.Steps
use slip_stream_plus.Tunnel.Reorder.Steps.{drain_all-Inv, put-Inv}
use slip_stream_plus.Central.State.{ConnState, Conns, Effect, remove_conn}
use slip_stream_plus.Central.Handlers.{
  new_state, handle_syn, note_data, flush_into, flush_ready, handle_data, handle_fin, handle_rst,
  dispatch_frame,
}

-- Connections in good order: every number stands once, and every reorderer is in good order.
pub record IsValid (conns : Conns) : Type 0 where
  pub is_map : IsMap conns
  pub ordered : (j : ℕ) (s : ConnState) → lookup j conns ≡ some s → Steps.Inv s.reorderer

-- The connections after a step that touches `id` alone.
record Touched (id : ℕ) (before after : Conns) : Type 0 where
  valid : IsValid after
  others : (j : ℕ) → id ≢ j → lookup j after ≡ lookup j before

Touched-same : (id : ℕ) (conns : Conns) → IsValid conns → Touched id conns conns
Touched-same id conns v = record { valid = v; others = λ j h. refl }

Touched-insert :
    (id : ℕ) (s : ConnState) (conns : Conns)
    → IsValid conns
    → Steps.Inv s.reorderer
    → Touched id conns (insert id s conns)
Touched-insert id s conns v o = record {
  valid = record {
    is_map = insert-IsMap id s conns v.is_map;
    ordered = λ j t e. elim (Bool-cases (id == j)) [
      | inl same ↦
          let path : s ≡ t = ground (arith, lookup-insert id j s conns, same) in rw (← path) o
      | inr other ↦ v.ordered j t (ground (arith, lookup-insert id j s conns, other))
    ];
  };
  others = λ j h. ground (arith, lookup-insert id j s conns);
}

Touched-delete : (id : ℕ) (conns : Conns) → IsValid conns → Touched id conns (delete id conns)
Touched-delete id conns v = record {
  valid = record {
    is_map = delete-IsMap id conns v.is_map;
    ordered = λ j t e. v.ordered j t (ground (arith, lookup-delete id j conns v.is_map));
  };
  others = λ j h. ground (arith, lookup-delete id j conns v.is_map);
}

Touched-trans : (id : ℕ) (a b c : Conns) → Touched id a b → Touched id b c → Touched id a c
Touched-trans id a b c p q = record { valid = q.valid; others = λ j h. q.others j h ∙ p.others j h }

remove_conn-Touched :
    (id : ℕ) (conns : Conns) → IsValid conns → Touched id conns (remove_conn id conns).0
unfolding remove_conn
remove_conn-Touched id conns v = elim (Option-cases (lookup id conns)) [
  | inl e ↦ rw (e, remove_conn) (Touched-same id conns v)
  | inr (s, e) ↦ rw (e, remove_conn) (Touched-delete id conns v)
]

flush_ready-Inv :
    (id : ℕ) (clock : ℕ → ℕ) (s : ConnState)
    → Steps.Inv s.reorderer
    → Steps.Inv (flush_ready id clock s).0.reorderer
unfolding flush_ready
flush_ready-Inv id clock s o = go s.write_ch
  where
    go : (q : Option (List Bytes)) → Steps.Inv (flush_into id clock s q).0.reorderer
    go none = o
    go (some queue) = drain_all-Inv clock s.reorderer o

new_reorderer_at-Inv : (seq : ℕ) → Steps.Inv (new_reorderer_at (seq % u32_mod))
unfolding new_reorderer_at lookup
new_reorderer_at-Inv seq = record { is_map = tt; fits = omega arith; ahead = λ k d e. absurd (cc) }

handle_syn-Touched :
    (frame : Frame) (source now : ℕ) (conns : Conns)
    → IsValid conns
    → Touched frame.conn_id conns (handle_syn frame source now conns).0
unfolding handle_syn
handle_syn-Touched frame source now conns v = elim (Option-cases (lookup frame.conn_id conns)) [
  | inr (s, e) ↦
      rw (e, handle_syn) (Touched-insert frame.conn_id _ conns v (v.ordered frame.conn_id s e))
  | inl e ↦ rw (e, handle_syn) (opened (decode_syn_payload frame.payload))
]
  where
    opened :
        (q : Result (ℕ × Bytes × Bytes))
        → Touched frame.conn_id conns
            (elim q as (λ _. Conns × List Effect) [
              | err e ↦ (conns, [])
              | ok (atyp, addr, port) ↦ (
                insert frame.conn_id (new_state frame source now) conns,
                Effect.dial frame.conn_id atyp addr port ∷ [],
              )
            ]).0
    opened (err e) = Touched-same frame.conn_id conns v
    opened (ok (a, b, c)) =
        Touched-insert frame.conn_id _ conns v
          (unfold new_state in new_reorderer_at-Inv (frame.seq_num + 1))

handle_data-Touched :
    (frame : Frame) (source now : ℕ) (clock : ℕ → ℕ) (conns : Conns)
    → frame.seq_num < u32_mod
    → IsValid conns
    → Touched frame.conn_id conns (handle_data frame source now clock conns).0
unfolding handle_data
handle_data-Touched frame source now clock conns h v =
    elim (Option-cases (lookup frame.conn_id conns)) [
      | inl e ↦ rw (e, handle_data) (Touched-same frame.conn_id conns v)
      | inr (s, e) ↦
          rw (e, handle_data)
            (Touched-insert frame.conn_id _ conns v (
              flush_ready-Inv frame.conn_id clock (note_data frame source now s) (
                unfold note_data in
                put-Inv frame.seq_num frame.payload s.reorderer h (v.ordered frame.conn_id s e))))
    ]

handle_fin-Touched :
    (frame : Frame) (clock : ℕ → ℕ) (conns : Conns)
    → IsValid conns
    → Touched frame.conn_id conns (handle_fin frame clock conns).0
unfolding handle_fin
handle_fin-Touched frame clock conns v = elim (Option-cases (lookup frame.conn_id conns)) [
  | inl e ↦ rw (e, handle_fin) (Touched-same frame.conn_id conns v)
  | inr (s, e) ↦
      rw (e, handle_fin)
        (let t = flush_ready frame.conn_id clock s in
          let p =
            Touched-insert frame.conn_id (record (t.0) { write_ch = none }) conns v
              (flush_ready-Inv frame.conn_id clock s (v.ordered frame.conn_id s e)) in
          Touched-trans frame.conn_id conns _ _ p (remove_conn-Touched frame.conn_id _ p.valid))
]

dispatch_frame-Touched :
    (frame : Frame) (source now : ℕ) (clock : ℕ → ℕ) (conns : Conns)
    → frame.seq_num < u32_mod
    → IsValid conns
    → Touched frame.conn_id conns (dispatch_frame frame source now clock conns).0
unfolding dispatch_frame
dispatch_frame-Touched frame source now clock conns h v = elim (Bool-cases (is_syn frame)) [
  | inl a ↦ rw a (handle_syn-Touched frame source now conns v)
  | inr a ↦ elim (Bool-cases (is_fin frame)) [
    | inl b ↦ rw (a, b) (handle_fin-Touched frame clock conns v)
    | inr b ↦ elim (Bool-cases (is_rst frame)) [
      | inl c ↦ rw (a, b, c) (unfold handle_rst in remove_conn-Touched frame.conn_id conns v)
      | inr c ↦ rw (a, b, c) (handle_data-Touched frame source now clock conns h v)
    ]
  ]
]

-- Whatever its flags, a frame leaves every connection but its own exactly as it was.
pub dispatch_frame_others :
    (frame : Frame) (source now j : ℕ) (clock : ℕ → ℕ) (conns : Conns)
    → frame.seq_num < u32_mod
    → IsValid conns
    → frame.conn_id ≢ j
    → lookup j (dispatch_frame frame source now clock conns).0 ≡ lookup j conns
dispatch_frame_others frame source now j clock conns h v ne =
    (dispatch_frame-Touched frame source now clock conns h v).others j ne

-- Every frame whose number fits keeps the connections in good order.
pub dispatch_frame-IsValid :
    (frame : Frame) (source now : ℕ) (clock : ℕ → ℕ) (conns : Conns)
    → frame.seq_num < u32_mod
    → IsValid conns
    → IsValid (dispatch_frame frame source now clock conns).0
dispatch_frame-IsValid frame source now clock conns h v =
    (dispatch_frame-Touched frame source now clock conns h v).valid
