-- ===== src/Central/Handlers/Ends.antt =====
-- cmd/centralserver/upstream.go: what is left of a connection behind its FIN or RST.
use slip_stream_plus.Prelude.{
  ℕ, ◌≡◌, sym, ap, ◌∙◌, ◌⊎◌, inl, inr, true, false, List, [], ◌∷◌, Option, none, some, arith,
  Option-cases, Bool-cases,
}
use slip_stream_plus.Prelude.Maps.{lookup, insert, delete, nat_key, IsMap}
use slip_stream_plus.Prelude.Maps.Laws.{lookup-delete, insert-IsMap}
use slip_stream_plus.Tunnel.Protocol.{Frame, flag_data, is_syn, is_fin, is_rst}
use slip_stream_plus.Central.State.{Conns, Effect, ConnState, remove_conn, cancel}
use slip_stream_plus.Central.Handlers.{
  handle_data, handle_fin, handle_rst, flush_ready, dispatch_frame,
}

lookup-delete_self : (id : ℕ) (conns : Conns) → IsMap conns → lookup id (delete id conns) ≡ none
lookup-delete_self id conns v = ground (arith, lookup-delete id id conns v)

remove_conn_gone :
    (id : ℕ) (conns : Conns) → IsMap conns → lookup id (remove_conn id conns).0 ≡ none
unfolding remove_conn
remove_conn_gone id conns v = elim (Option-cases (lookup id conns)) [
  | inl e ↦
      ap
        (λ (o : Option ConnState).
          lookup id
            (elim o as (λ _. Conns × List Effect) [
              | none ↦ (conns, [])
              | some s ↦ (delete id conns, cancel id ∷ [])
            ]).0)
        e
      ∙ e
  | inr (s, e) ↦
      ap
        (λ (o : Option ConnState).
          lookup id
            (elim o as (λ _. Conns × List Effect) [
              | none ↦ (conns, [])
              | some s ↦ (delete id conns, cancel id ∷ [])
            ]).0)
        e
      ∙ lookup-delete_self id conns v
]

handle_fin_gone :
    (fin : Frame) (clock : ℕ → ℕ) (conns : Conns)
    → IsMap conns
    → lookup fin.conn_id (handle_fin fin clock conns).0 ≡ none
unfolding handle_fin
handle_fin_gone fin clock conns v = elim (Option-cases (lookup fin.conn_id conns)) [
  | inl e ↦ rw (e, handle_fin) e
  | inr (s, e) ↦
      let t = record (flush_ready fin.conn_id clock s).0 { write_ch = none } in
      rw (e, handle_fin)
        (remove_conn_gone fin.conn_id (insert fin.conn_id t conns)
          (insert-IsMap fin.conn_id t conns v))
]

ends_gone :
    (end : Frame) (source now : ℕ) (clock : ℕ → ℕ) (conns : Conns)
    → IsMap conns
    → is_syn end ≡ false
    → (is_fin end ≡ true) ⊎ (is_rst end ≡ true)
    → lookup end.conn_id (dispatch_frame end source now clock conns).0 ≡ none
unfolding dispatch_frame handle_rst
ends_gone end source now clock conns v s e = elim (Bool-cases (is_fin end)) [
  | inl f ↦ rw (s, f) (handle_fin_gone end clock conns v)
  | inr f ↦ elim e [
    | inl f' ↦ absurd (true_false (sym f' ∙ f))
    | inr r ↦ rw (s, f, r) (remove_conn_gone end.conn_id conns v)
  ]
]
  where
    true_false : true ≡ false → ⊥
    true_false h = cc

unknown_data :
    (d : Frame) (source now : ℕ) (clock : ℕ → ℕ) (conns : Conns)
    → d.flags ≡ flag_data
    → lookup d.conn_id conns ≡ none
    → dispatch_frame d source now clock conns ≡ (conns, [])
unfolding dispatch_frame is_syn is_fin is_rst handle_data
unknown_data d source now clock conns f e =
    let by_data : dispatch_frame d source now clock conns ≡ handle_data d source now clock conns =
      ground arith in
    by_data ∙ rw (e, handle_data)

-- A FIN or an RST removes its connection at once, whatever number it has: data frames of that
-- connection that come after it do nothing, also if they were sent before it over another tunnel.
pub ends_lose_data :
    (end late : Frame) (source source' now now' : ℕ) (clock clock' : ℕ → ℕ) (conns : Conns)
    → IsMap conns
    → is_syn end ≡ false
    → (is_fin end ≡ true) ⊎ (is_rst end ≡ true)
    → late.flags ≡ flag_data
    → late.conn_id ≡ end.conn_id
    → let s = dispatch_frame end source now clock conns in
      (lookup end.conn_id (s.0) ≡ none)
      × (dispatch_frame late source' now' clock' (s.0) ≡ (s.0, []))
ends_lose_data end late source source' now now' clock clock' conns v s e f same =
    let gone = ends_gone end source now clock conns v s e in
    let left = (dispatch_frame end source now clock conns).0 in
    (gone, unknown_data late source' now' clock' left f (ap (λ k. lookup k left) same ∙ gone))
