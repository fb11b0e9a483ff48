-- ===== src/Balancer/Rotation.antt =====
-- RoundRobin: consecutive picks.
use slip_stream_plus.Prelude.{
  ℕ, zero, suc, ◌+◌, ◌-◌, ◌%◌, ◌^◌, ◌≤◌, ◌<◌, ◌≡◌, ◌≢◌, refl, ap, ◌∙◌, sym, dec_lt, List, ◌∷◌,
  length, get_elem?, Option, arith,
}
use native.Mathlib.Nat.{mod-lt, mod-eq_of_lt, mod-add-mod, add-mod_right}
use slip_stream_plus.Engine.Instance.{Instance}
use slip_stream_plus.Balancer.{pick_round_robin}

-- What the pick number `k` from now on returns.
unfoldable pub nth_pick : List Instance → ℕ → ℕ → Option Instance
nth_pick xs counter zero = (pick_round_robin xs counter).0
nth_pick xs counter (suc k) = nth_pick xs (pick_round_robin xs counter).1 k

pick_round_robin_lem :
    (x : Instance) (xs : List Instance) (c : ℕ)
    → c < 2 ^ 64
    → pick_round_robin (x ∷ xs) c ≡ (get_elem? (x ∷ xs) (c % length (x ∷ xs)), (c + 1) % 2 ^ 64)
unfolding pick_round_robin
pick_round_robin_lem x xs c h =
    let same : ((c + 1) % 2 ^ 64 + 2 ^ 64 - 1) % 2 ^ 64 ≡ c = omega arith in rw same

nth_pick_lem :
    (x : Instance) (xs : List Instance) (c k : ℕ)
    → c + k < 2 ^ 64
    → nth_pick (x ∷ xs) c k ≡ get_elem? (x ∷ xs) ((c + k) % length (x ∷ xs))
unfolding nth_pick
nth_pick_lem x xs c zero h =
    let same : c + 0 ≡ c = omega arith in
    ap (λ s. s.0) (pick_round_robin_lem x xs c (omega arith)) ∙ rw same
nth_pick_lem x xs c (suc k) h =
    let next : (c + 1) % 2 ^ 64 ≡ c + 1 = omega arith in
    let same : c + 1 + k ≡ c + suc k = omega arith in
    ap (λ s. nth_pick (x ∷ xs) (s.1) k) (pick_round_robin_lem x xs c (omega arith))
    ∙ rw next (nth_pick_lem x xs (c + 1) k (omega arith) ∙ rw same)

-- The pick that reaches the place `j`.
reach : (c j n : ℕ) → j < n → (k : ℕ) × (k < n) × ((c + k) % n ≡ j)
reach c j n h =
    let lt : c % n < n = mod-lt c (omega arith) in
    let wrap = mod-eq_of_lt h in
    elim (dec_lt j (c % n)) [
      | yes below ↦
          let up : c % n + (j + n - c % n) ≡ j + n = omega arith in
          (
            j + n - c % n,
            omega arith,
            sym (mod-add-mod c n (j + n - c % n)) ∙ rw up (add-mod_right j n ∙ wrap),
          )
      | no above ↦
          let up : c % n + (j - c % n) ≡ j = omega arith in
          (j - c % n, omega arith, sym (mod-add-mod c n (j - c % n)) ∙ rw up wrap)
    ]

apart : (c k l n : ℕ) → k < l → l < n → (c + k) % n ≢ (c + l) % n
apart c k l n h b = grind (arith, mod-add-mod, mod-lt)

apart_ne : (c k l n : ℕ) → k < n → l < n → k ≢ l → (c + k) % n ≢ (c + l) % n
apart_ne c k l n h b ne e = elim (dec_lt k l) [
  | yes below ↦ apart c k l n below b e
  | no above ↦ apart c l k n (omega arith) h (sym e)
]

-- Of as many picks in a row as there are instances, two different ones return the instances at two
-- different places, so each place has its turn.
pub nth_pick_fair :
    (x : Instance) (xs : List Instance) (c k l : ℕ)
    → c + length (x ∷ xs) ≤ 2 ^ 64
    → k < length (x ∷ xs)
    → l < length (x ∷ xs)
    → k ≢ l
    → (i : ℕ) × (j : ℕ) × (i < length (x ∷ xs))
      × (j < length (x ∷ xs))
      × (i ≢ j)
      × (nth_pick (x ∷ xs) c k ≡ get_elem? (x ∷ xs) i)
      × (nth_pick (x ∷ xs) c l ≡ get_elem? (x ∷ xs) j)
nth_pick_fair x xs c k l room h b ne =
    let n = length (x ∷ xs) in
    (
      (c + k) % n,
      (c + l) % n,
      mod-lt (c + k) (omega arith),
      mod-lt (c + l) (omega arith),
      apart_ne c k l n h b ne,
      nth_pick_lem x xs c k (omega arith),
      nth_pick_lem x xs c l (omega arith),
    )

-- Every instance is picked within as many picks in a row as there are instances.
pub nth_pick_reaches :
    (x : Instance) (xs : List Instance) (c j : ℕ)
    → c + length (x ∷ xs) ≤ 2 ^ 64
    → j < length (x ∷ xs)
    → (k : ℕ) × (k < length (x ∷ xs)) × (nth_pick (x ∷ xs) c k ≡ get_elem? (x ∷ xs) j)
nth_pick_reaches x xs c j room h =
    let (k, below, at) = reach c j (length (x ∷ xs)) h in
    (k, below, rw (nth_pick_lem x xs c k (omega arith), at) refl)
