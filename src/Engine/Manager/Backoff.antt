-- ===== src/Engine/Manager/Backoff.antt =====
-- internal/engine/manager.go: how long a supervisor waits, and which instances run.
use native.Mathlib.Numerals.{unary_clauses}
use slip_stream_plus.Prelude.{
  ℕ, zero, suc, ◌+◌, ◌*◌, ◌^◌, ◌≤◌, ◌≡◌, ◌⊎◌, refl, ap, ◌∙◌, Bool, false, List, [], ◌∷◌, ◌++◌, map,
  min, get_elem?, none, some, arith, Bool-cases, inl, inr,
}
use slip_stream_plus.Engine.Instance.{Instance, starting, set_state}
use slip_stream_plus.Engine.Manager.{start, start_all, next_backoff, backoff_waits}

double : (j : ℕ) → 2 ^ suc j ≡ 2 ^ j * 2
double j = simp unary_clauses (omega arith)

next_backoff-min : (j : ℕ) → next_backoff (min 30 (2 ^ j)) ≡ min 30 (2 ^ suc j)
unfolding next_backoff
next_backoff-min j = ground (arith, double j)

waits_from :
    (j m k : ℕ)
    → k ≤ m
    → get_elem? (backoff_waits (min 30 (2 ^ j)) m) k ≡ some (min 30 (2 ^ (j + k)))
unfolding backoff_waits
waits_from j zero zero h = ap (λ n. some (min 30 (2 ^ n))) (omega arith)
waits_from j zero (suc k) h = absurd (omega arith)
waits_from j (suc m) zero h = ap (λ n. some (min 30 (2 ^ n))) (omega arith)
waits_from j (suc m) (suc k) h =
    ap (λ b. get_elem? (backoff_waits b m) k) (next_backoff-min j)
    ∙ waits_from (suc j) m k (omega arith)
    ∙ ap (λ n. some (min 30 (2 ^ n))) (omega arith)

-- After k failing attempts in a row a supervisor waits 2 ^ k seconds, but never more than 30.
pub backoff_waits_lem :
    (failures k : ℕ) → k ≤ failures → get_elem? (backoff_waits 1 failures) k ≡ some (min 30 (2 ^ k))
backoff_waits_lem failures k h =
    waits_from 0 failures k h ∙ ap (λ n. some (min 30 (2 ^ n))) (omega arith)

-- The supervised instances are the ones in front of the first that does not start; they are starting, and nothing
-- else has changed.
pub start_all_lem :
    (starts : ℕ → Bool) (is : List Instance)
    → let out = start_all starts is in
      ((out.2 ≡ none) × (out.0 ≡ map (set_state starting) is) × (out.1 ≡ map (λ i. i.id) is))
      ⊎ ((front rest : List Instance) × (i : Instance) × (is ≡ front ++ (i ∷ rest))
          × (starts i.id ≡ false)
          × (out.2 ≡ some i.id)
          × (out.0 ≡ map (set_state starting) front ++ (i ∷ rest))
          × (out.1 ≡ map (λ j. j.id) front))
unfolding start_all start
start_all_lem starts [] = inl (refl, refl, refl)
start_all_lem starts (i ∷ is) = elim (Bool-cases (starts i.id)) [
  | inr fails ↦ inr ([], is, i, refl, fails, rw (fails) refl, rw (fails) refl, rw (fails) refl)
  | inl up ↦ (elim (start_all_lem starts is) [
    | inl (a, b, c) ↦ inl (rw (up) a, rw (up, b) refl, rw (up, c) refl)
    | inr (front, rest, j, e, f, a, b, c) ↦
        inr (i ∷ front, rest, j, ap (λ l. i ∷ l) e, f, rw (up) a, rw (up, b) refl, rw (up, c) refl)
  ])
]
