-- ===== src/Central/Cleanup/Sources.antt =====
-- cmd/centralserver/server.go: what is left of the connections when one of their sources is gone.
use slip_stream_plus.Prelude.{
  ℕ, ◌≡◌, refl, sym, ap, ◌∙◌, true, false, List, [], ◌∷◌, ◌++◌, ◌==◌, ==_iff, if◌then◌else◌, length,
  Option, none, some, arith, subst, if_lem, Option_lem, Bool-cases, Option-cases, inl, inr,
}
use slip_stream_plus.Prelude.Maps.{lookup, nat_key, IsMap}
use slip_stream_plus.Prelude.Maps.Laws.{lookup-insert, lookup-delete, insert-IsMap, delete-IsMap}
use slip_stream_plus.Central.State.{ConnState, Conns, Effect, remove_source, has_source}
use slip_stream_plus.Central.Cleanup.{close_effects, cleanup_one, cleanup_source}

-- No number stands twice.
abbrev pub AreDifferent : List ℕ → Type 0
AreDifferent [] = Unit
AreDifferent (id ∷ ids) = (has_source id ids ≡ false) × AreDifferent ids

-- A connection without the first entry of the source in its list, and gone if no entry is left. An entry that stands
-- twice, as `handleSYN` can leave it, is there once more.
abbrev pub without_first : ℕ → Option ConnState → Option ConnState
without_first dead none = none
without_first dead (some state) =
    if length (remove_source dead state.sources) == 0
    then none
    else some (record state { sources = remove_source dead state.sources })

-- What happens to its upstream.
abbrev pub ended : ℕ → ℕ → Option ConnState → List Effect
ended dead id none = []
ended dead id (some state) =
    if length (remove_source dead state.sources) == 0 then close_effects id state else []

-- The same for several connections.
abbrev pub all_ended : ℕ → List ℕ → Conns → List Effect
all_ended dead [] conns = []
all_ended dead (id ∷ ids) conns = ended dead id (lookup id conns) ++ all_ended dead ids conns

-- Of one connection.
cleanup_one-lookup :
    (dead id j : ℕ) (conns : Conns)
    → IsMap conns
    → lookup j (cleanup_one dead id conns).0
      ≡ (if id == j then without_first dead (lookup j conns) else lookup j conns)
unfolding cleanup_one
cleanup_one-lookup dead id j conns m = elim (Option-cases (lookup id conns)) [
  | inl e ↦
      rw (cleanup_one, e)
        (elim (Bool-cases (id == j)) [
          | inr other ↦ rw (other) refl
          | inl its ↦ rw (its, here its ∙ e) refl
        ])
  | inr (state, e) ↦ (elim (Bool-cases (length (remove_source dead state.sources) == 0)) [
    | inl last ↦
        rw (cleanup_one, e, last)
          (lookup-delete id j conns m ∙ (elim (Bool-cases (id == j)) [
            | inr other ↦ rw (other) refl
            | inl its ↦ rw (its, here its ∙ e, last) refl
          ]))
    | inr more ↦
        rw (cleanup_one, e, more)
          (lookup-insert id j (record state { sources = remove_source dead state.sources }) conns
            ∙ (elim (Bool-cases (id == j)) [
              | inr other ↦ rw (other) refl
              | inl its ↦ rw (its, here its ∙ e, more) refl
            ]))
  ])
]
  where
    here : (id == j) ≡ true → lookup j conns ≡ lookup id conns
    here its = ap (λ k. lookup k conns) (sym ((==_iff id j).0 its))

cleanup_one-IsMap :
    (dead id : ℕ) (conns : Conns) → IsMap conns → IsMap (cleanup_one dead id conns).0
unfolding cleanup_one
cleanup_one-IsMap dead id conns m =
    Option_lem (λ (out : Conns × List Effect). IsMap out.0) (lookup id conns) (λ _. m)
      (λ state _.
        if_lem (λ (out : Conns × List Effect). IsMap out.0)
          (length (remove_source dead state.sources) == 0) (λ _. delete-IsMap id conns m)
          (λ _. insert-IsMap id _ conns m))

cleanup_one-ended :
    (dead id : ℕ) (conns : Conns) → (cleanup_one dead id conns).1 ≡ ended dead id (lookup id conns)
unfolding cleanup_one
cleanup_one-ended dead id conns = elim (Option-cases (lookup id conns)) [
  | inl e ↦ rw (cleanup_one, e) refl
  | inr (state, e) ↦ (elim (Bool-cases (length (remove_source dead state.sources) == 0)) [
    | inl last ↦ rw (cleanup_one, e, last) refl
    | inr more ↦ rw (cleanup_one, e, more) refl
  ])
]

all_ended_same :
    (dead : ℕ) (ids : List ℕ) (conns other : Conns)
    → ((j : ℕ) → has_source j ids ≡ true → lookup j other ≡ lookup j conns)
    → all_ended dead ids other ≡ all_ended dead ids conns
unfolding has_source
all_ended_same dead [] conns other h = refl
all_ended_same dead (id ∷ ids) conns other h = rw (h id (ground arith)) (
    ap (λ l. ended dead id (lookup id conns) ++ l)
      (all_ended_same dead ids conns other (λ j e. h j (ground (arith, e)))))

-- The connections, by induction on the numbers that the source served.
cleanup_source_each :
    (dead j : ℕ) (ids : List ℕ) (conns : Conns)
    → IsMap conns
    → AreDifferent ids
    → let out = cleanup_source dead ids conns in
      (lookup j (out.0)
        ≡ (if has_source j ids then without_first dead (lookup j conns) else lookup j conns))
      × (out.1 ≡ all_ended dead ids conns)
unfolding cleanup_source has_source
cleanup_source_each dead j [] conns m d = (refl, refl)
cleanup_source_each dead j (id ∷ ids) conns m d =
    let s = cleanup_one dead id conns in
    let rest = cleanup_source_each dead j ids (s.0) (cleanup_one-IsMap dead id conns m) (d.1) in
    let one : (id == j) ≡ false → lookup j (s.0) ≡ lookup j conns =
      λ other. cleanup_one-lookup dead id j conns m ∙ rw (other) refl in
    (
      (elim (Bool-cases (id == j)) [
        | inl its ↦
            let gone : lookup j (s.0) ≡ without_first dead (lookup j conns) =
              cleanup_one-lookup dead id j conns m ∙ rw (its) refl in
            let no_more : has_source j ids ≡ false =
              ap (λ k. has_source k ids) (sym ((==_iff id j).0 its)) ∙ d.0 in
            rest.0 ∙ rw (no_more, its) gone
        | inr other ↦ rest.0 ∙ rw (one other, other) refl
      ]),
      ap (λ l. l ++ (cleanup_source dead ids (s.0)).1) (cleanup_one-ended dead id conns)
          ∙ ap (λ l. ended dead id (lookup id conns) ++ l)
              (rest.1 ∙ all_ended_same dead ids conns (s.0) (λ k served. one_of k served)),
    )
  where
    one_of :
        (k : ℕ) → has_source k ids ≡ true → lookup k (cleanup_one dead id conns).0 ≡ lookup k conns
    one_of k served = elim (Bool-cases (id == k)) [
      | inr other ↦ cleanup_one-lookup dead id k conns m ∙ rw (other) refl
      | inl its ↦
          absurd
            (ground (arith, served, ap (λ i. has_source i ids) (sym ((==_iff id k).0 its)) ∙ d.0))
    ]

-- A list that loses the first entry of a source, or has none.
pub data Loses (dead : ℕ) : List ℕ → List ℕ → Type 0 where
  nothing : (xs : List ℕ) → has_source dead xs ≡ false → Loses dead xs xs
  first :
      (front back : List ℕ)
      → has_source dead front ≡ false
      → Loses dead (front ++ (dead ∷ back)) (front ++ back)

Loses-cons :
    (dead s : ℕ) (xs ys : List ℕ)
    → (s == dead) ≡ false
    → Loses dead xs ys
    → Loses dead (s ∷ xs) (s ∷ ys)
unfolding has_source
Loses-cons dead s xs _ other (nothing _ e) = nothing (s ∷ xs) (rw (other) e)
Loses-cons dead s _ _ other (first front back e) = first (s ∷ front) back (rw (other) e)

remove_source-Loses : (dead : ℕ) (xs : List ℕ) → Loses dead xs (remove_source dead xs)
unfolding remove_source has_source
remove_source-Loses dead [] = nothing [] refl
remove_source-Loses dead (s ∷ xs) = elim (Bool-cases (s == dead)) [
  | inl its ↦
      rw (its)
        (subst (λ d. Loses dead (d ∷ xs) xs) (sym ((==_iff s dead).0 its)) (first [] xs refl))
  | inr other ↦ rw (other) (Loses-cons dead s xs _ other (remove_source-Loses dead xs))
]

-- When a source is gone, each connection that it served, given once each, loses the first entry of the source in its
-- list of sources, and no other entry, and is gone, with its upstream if it has one, if its list is empty then; the
-- other connections are as they were, if the connections are a map.
pub cleanup_source_lem :
    (dead j : ℕ) (ids : List ℕ) (conns : Conns)
    → IsMap conns
    → AreDifferent ids
    → let out = cleanup_source dead ids conns in
      (lookup j (out.0)
        ≡ (if has_source j ids then without_first dead (lookup j conns) else lookup j conns))
      × (out.1 ≡ all_ended dead ids conns)
      × ((sources : List ℕ) → Loses dead sources (remove_source dead sources))
cleanup_source_lem dead j ids conns m d =
    let s = cleanup_source_each dead j ids conns m d in (s.0, s.1, remove_source-Loses dead)
