-- ===== src/Central/Cleanup/Ticks.antt =====
-- cmd/centralserver/server.go: the connections that a tick of the cleanup leaves, and a source that stays.
use slip_stream_plus.Prelude.{
  ℕ, ◌≡◌, refl, sym, ap, ◌∙◌, true, false, List, [], ◌∷◌, ◌++◌, ◌==◌, ==_iff, if◌then◌else◌, length,
  Option, none, some, arith, Bool-cases, inl, inr,
}
use slip_stream_plus.Prelude.Maps.{lookup, insert, eqb, eqb_refl, nat_key, IsMap}
use slip_stream_plus.Prelude.Maps.Laws.{lookup-Absent, lookup-insert, insert-IsMap}
use slip_stream_plus.Tunnel.Protocol.{Frame}
use slip_stream_plus.Central.State.{ConnState, Conns, remove_source, has_source}
use slip_stream_plus.Central.Handlers.{handle_syn}
use slip_stream_plus.Central.Cleanup.{should_clean, cleanup_tick, cleanup_source}
use slip_stream_plus.Central.Cleanup.Sources.{cleanup_source_lem}

-- A connection that a tick finds.
abbrev pub kept : ℕ → Option ConnState → Option ConnState
kept now none = none
kept now (some state) = if should_clean now state then none else some state

-- A tick takes away exactly the connections that are stuck without an upstream, have lost all their sources, or are
-- idle for too long, and leaves the others as they are, if the connections are a map.
pub cleanup_tick_lem :
    (now j : ℕ) (conns : Conns)
    → IsMap conns
    → lookup j (cleanup_tick now conns).0 ≡ kept now (lookup j conns)
unfolding cleanup_tick lookup
cleanup_tick_lem now j [] m = refl
cleanup_tick_lem now j ((id, state) ∷ conns) m =
    let rest = cleanup_tick_lem now j conns (m.1) in
    elim (Bool-cases (id == j)) [
      | inl its ↦
          let gone : lookup j conns ≡ none =
            ap (λ k. lookup k conns) (sym ((==_iff id j).0 its)) ∙ lookup-Absent id conns (m.0) in
          (elim (Bool-cases (should_clean now state)) [
            | inl cleaned ↦ rw (cleanup_tick, lookup, its, cleaned) (rest ∙ rw (gone) refl)
            | inr stays ↦
                let same : eqb id j ≡ true = its in rw (cleanup_tick, stays, same) (rw (stays) refl)
          ])
      | inr other ↦ (elim (Bool-cases (should_clean now state)) [
        | inl cleaned ↦ rw (cleanup_tick, lookup, other, cleaned) rest
        | inr stays ↦ let same : eqb id j ≡ false = other in rw (cleanup_tick, stays, same) rest
      ])
    ]

has_source-last : (dead : ℕ) (sources : List ℕ) → has_source dead (sources ++ (dead ∷ [])) ≡ true
unfolding has_source
has_source-last dead [] = ground arith
has_source-last dead (s ∷ sources) = ground (arith, has_source-last dead sources)

has_source-length :
    (dead : ℕ) (sources : List ℕ) → has_source dead sources ≡ true → (length sources == 0) ≡ false
unfolding has_source
has_source-length dead [] h = absurd (cc)
has_source-length dead (s ∷ sources) h = ground arith

remove_twice :
    (dead : ℕ) (sources : List ℕ)
    → has_source dead sources ≡ true
    → has_source dead (remove_source dead (sources ++ (dead ∷ []))) ≡ true
unfolding has_source remove_source
remove_twice dead [] h = absurd (cc)
remove_twice dead (s ∷ sources) h = elim (Bool-cases (s == dead)) [
  | inl its ↦ rw (remove_source, its) (has_source-last dead sources)
  | inr other ↦
      rw (remove_source, other)
        (rw (has_source, other) (remove_twice dead sources (rw (has_source, other) at h)))
]

-- A source that sends a SYN for a connection that it belongs to already stays in the connection when it is gone.
pub handle_syn-cleanup_source :
    (frame : Frame) (source now : ℕ) (conns : Conns) (state : ConnState)
    → IsMap conns
    → lookup frame.conn_id conns ≡ some state
    → has_source source state.sources ≡ true
    → (left : ConnState) × (lookup frame.conn_id
          (cleanup_source source (frame.conn_id ∷ []) (handle_syn frame source now conns).0).0
        ≡ some left)
      × (has_source source left.sources ≡ true)
unfolding handle_syn
handle_syn-cleanup_source frame source now conns state m e h =
    let id = frame.conn_id in
    let twice : ConnState = record state { sources = state.sources ++ (source ∷ []) } in
    let added = insert id twice conns in
    let left = remove_source source twice.sources in
    let stays : has_source source left ≡ true = remove_twice source state.sources h in
    let found : lookup id added ≡ some twice =
      lookup-insert id id twice conns ∙ rw (eqb_refl id) refl in
    let cleaned =
      (cleanup_source_lem source id (id ∷ []) added (insert-IsMap id twice conns m)
        (unfold has_source in refl, tt)).0 in
    rw (handle_syn, e)
      (
        record twice { sources = left },
        cleaned ∙ rw (has_source-last id [], found, has_source-length source left stays) refl,
        stays,
      )
