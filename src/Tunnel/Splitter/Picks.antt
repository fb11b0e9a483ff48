-- ===== src/Tunnel/Splitter/Picks.antt =====
-- internal/tunnel/splitter.go: how the instance for a chunk is picked.
use slip_stream_plus.Prelude.{
  ℕ, zero, suc, ◌+◌, ◌*◌, ◌%◌, ◌≡◌, sym, ap, ◌∙◌, ◌⊎◌, true, false, List, [], ◌∷◌, leb,
  if◌then◌else◌, length, get_elem?, get_or, Option, none, some, arith, All, Bool-cases,
  Option-cases, inl, inr,
}
use slip_stream_plus.Engine.Instance.{Instance, is_healthy}
use slip_stream_plus.Tunnel.Splitter.{
  PacketSplitter, healthy_at, pick_loop, first_healthy, or_healthy, pick_instance,
}

-- An instance of the list that is healthy.
abbrev pub IsHealthyOf : List Instance → Instance → Type 0
IsHealthyOf instances inst =
    (i : ℕ) × (get_elem? instances i ≡ some inst) × (is_healthy inst ≡ true)

healthy_at_lem :
    (instances : List Instance) (i : ℕ) (inst : Instance)
    → healthy_at instances i ≡ some inst
    → IsHealthyOf instances inst
unfolding healthy_at
healthy_at_lem instances i inst e = elim (Option-cases (get_elem? instances i)) [
  | inl f ↦ absurd (none_there f)
  | inr (x, f) ↦ elim (Bool-cases (is_healthy x)) [
    | inl b ↦ let same : some x ≡ some inst = rw (f, b, healthy_at) at e in (i, f ∙ same, cc)
    | inr b ↦ absurd (not_healthy x f b)
  ]
]
  where
    none_there : get_elem? instances i ≡ none → ⊥
    none_there f = ground (arith, f)

    not_healthy : (x : Instance) → get_elem? instances i ≡ some x → is_healthy x ≡ false → ⊥
    not_healthy x f b = ground (arith, f, b)

pick_loop_lem :
    (attempts : ℕ) (weights : List ℕ) (instances : List Instance) (current counter : ℕ)
    (inst : Instance)
    → (pick_loop attempts weights instances current counter).0 ≡ some inst
    → IsHealthyOf instances inst
unfolding pick_loop
pick_loop_lem zero weights instances current counter inst e = cc
pick_loop_lem (suc n) weights instances current counter inst e =
    let used_up = leb (get_or weights current 0) counter in
    let current' = if used_up then (current + 1) % length instances else current in
    let counter' = (if used_up then 0 else counter) + 1 in
    let more = pick_loop n weights instances ((current' + 1) % length instances) 0 in
    let step : Option Instance → Option Instance × ℕ × ℕ = λ o.
      elim o as (λ _. Option Instance × ℕ × ℕ) [
        | some x ↦ (some x, current', counter')
        | none ↦ more
      ] in
    elim (Option-cases (healthy_at instances current')) [
      | inl f ↦
          pick_loop_lem n weights instances ((current' + 1) % length instances) 0 inst
            (sym (ap (λ o. (step o).0) f) ∙ e)
      | inr (x, f) ↦ healthy_at_lem instances current' inst (f ∙ sym (ap (λ o. (step o).0) f) ∙ e)
    ]

first_healthy_lem :
    (instances : List Instance) (inst : Instance)
    → first_healthy instances ≡ some inst
    → IsHealthyOf instances inst
unfolding first_healthy
first_healthy_lem [] inst e = cc
first_healthy_lem (x ∷ rest) inst e = elim (Bool-cases (is_healthy x)) [
  | inl b ↦ let same : some x ≡ some inst = rw b at e in (0, same, cc)
  | inr b ↦ let (i, f, h) = first_healthy_lem rest inst (rw b at e) in (suc i, f, h)
]

first_healthy-none :
    (instances : List Instance)
    → first_healthy instances ≡ none
    → All (λ i. is_healthy i ≡ false) instances
unfolding first_healthy
first_healthy-none [] e = tt
first_healthy-none (x ∷ rest) e = elim (Bool-cases (is_healthy x)) [
  | inl b ↦ absurd (ground (arith, b))
  | inr b ↦ (b, first_healthy-none rest (rw b at e))
]

or_healthy_lem :
    (instances : List Instance) (o : Option Instance) (inst : Instance)
    → ((i : Instance) → o ≡ some i → IsHealthyOf instances i)
    → or_healthy instances o ≡ some inst
    → IsHealthyOf instances inst
unfolding or_healthy
or_healthy_lem instances none inst h e = first_healthy_lem instances inst e
or_healthy_lem instances (some x) inst h e = h inst e

or_healthy-none :
    (instances : List Instance) (o : Option Instance)
    → or_healthy instances o ≡ none
    → All (λ i. is_healthy i ≡ false) instances
unfolding or_healthy
or_healthy-none instances none e = first_healthy-none instances e
or_healthy-none instances (some x) e = absurd (ground (arith, e))

-- A pick is a healthy instance of the connection's, whatever the weights and the turn are, and there
-- is none only if no instance is healthy.
pub pick_instance_lem :
    (instances : List Instance) (ps : PacketSplitter)
    → ((inst : Instance) × ((pick_instance instances ps).0 ≡ some inst)
        × IsHealthyOf instances inst)
      ⊎ (((pick_instance instances ps).0 ≡ none) × All (λ i. is_healthy i ≡ false) instances)
unfolding pick_instance
pick_instance_lem instances ps =
    let s = pick_loop (length instances * 2) ps.weights instances ps.current ps.counter in
    elim (Option-cases (or_healthy instances (s.0))) [
      | inl e ↦ inr (e, or_healthy-none instances (s.0) e)
      | inr (inst, e) ↦ inl (
        inst,
        e,
        or_healthy_lem instances (s.0) inst
            (pick_loop_lem (length instances * 2) ps.weights instances ps.current ps.counter) e,
      )
    ]
