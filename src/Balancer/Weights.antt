-- ===== src/Balancer/Weights.antt =====
-- WeightedRoundRobin: the weights of `computeWeights`.
use slip_stream_plus.Prelude.{
  ℕ, zero, suc, ◌-◌, ◌/◌, ◌^◌, ◌≤◌, ◌<◌, ◌≡◌, refl, ap, ◌∙◌, List, [], ◌∷◌, map, length, length-map,
  arith, All, ltb, if◌then◌else◌,
}
use slip_stream_plus.Prelude.Int.{ℤ, pos, negsuc}
use slip_stream_plus.Engine.Instance.{Instance}
use slip_stream_plus.Balancer.{larger, max_ping, ping_or, weight, compute_weights}

pub weight-pos : (missing top : ℕ) (i : Instance) → 1 ≤ weight missing top i
unfolding weight
weight-pos missing top i = ground arith

pub weights-pos :
    (missing top : ℕ) (xs : List Instance) → All (λ w. 1 ≤ w) (map (weight missing top) xs)
weights-pos missing top [] = tt
weights-pos missing top (x ∷ xs) = (weight-pos missing top x, weights-pos missing top xs)

pub length-compute_weights : (xs : List Instance) → length (compute_weights xs) ≡ length xs
unfolding compute_weights
length-compute_weights xs = length-map xs _

pub compute_weights-pos : (xs : List Instance) → All (λ w. 1 ≤ w) (compute_weights xs)
unfolding compute_weights
compute_weights-pos xs = weights-pos _ _ xs

larger-le : (m : ℕ) (z : ℤ) → m ≤ larger m z
unfolding larger
larger-le m (pos p) = ground arith
larger-le m (negsuc p) = omega arith

pub max_ping-le : (m : ℕ) (xs : List Instance) → m ≤ max_ping m xs
unfolding max_ping
max_ping-le m [] = omega arith
max_ping-le m (x ∷ xs) =
    omega (arith, max_ping-le (larger m x.last_ping_ms) xs, larger-le m x.last_ping_ms)

div_self : (n : ℕ) → 1 ≤ n → n / n ≡ 1
div_self n h = grind arith

weight_by :
    (top : ℕ) (z : ℤ)
    → 1 ≤ top
    → top < 2 ^ 63 - 2
    → (if ltb (top / ping_or ((2 ^ 63 - 1) / 2) z) 1 then 1 else top / ping_or ((2 ^ 63 - 1) / 2) z)
      ≡ (if ltb (top / ping_or top z) 1 then 1 else top / ping_or top z)
unfolding ping_or
weight_by top (pos zero) one small = ground (arith, div_self top one)
weight_by top (pos (suc p)) one small = ground arith
weight_by top (negsuc p) one small = ground (arith, div_self top one)

-- For pings below 2 ^ 63 - 2 it makes no difference whether a missing ping counts as the largest
-- ping (`recalcWeights`) or as half the largest int64 (`computeWeights`).
pub weight-missing :
    (top : ℕ) (i : Instance)
    → 1 ≤ top
    → top < 2 ^ 63 - 2
    → weight ((2 ^ 63 - 1) / 2) top i ≡ weight top top i
unfolding weight
weight-missing top i one small = weight_by top i.last_ping_ms one small

pub map-weight-missing :
    (top : ℕ) (xs : List Instance)
    → 1 ≤ top
    → top < 2 ^ 63 - 2
    → map (weight ((2 ^ 63 - 1) / 2) top) xs ≡ map (weight top top) xs
map-weight-missing top [] one small = refl
map-weight-missing top (x ∷ xs) one small =
    ap (λ w. w ∷ map (weight ((2 ^ 63 - 1) / 2) top) xs) (weight-missing top x one small)
    ∙ ap (◌∷◌ (weight top top x)) (map-weight-missing top xs one small)
