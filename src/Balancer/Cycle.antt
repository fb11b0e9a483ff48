-- ===== src/Balancer/Cycle.antt =====
-- WeightedRoundRobin's picks, in terms of the indices of `Turns`.
use slip_stream_plus.Prelude.{
  ℕ, zero, suc, ◌*◌, ◌≡◌, refl, ap, List, [], ◌∷◌, map, length, Option, arith,
}
use slip_stream_plus.Engine.Instance.{Instance}
use slip_stream_plus.Balancer.{
  compute_weights, weighted_loop, instance_at, WeightedState, pick_weighted,
}
use slip_stream_plus.Balancer.Weights.{length-compute_weights, compute_weights-pos}
use slip_stream_plus.Balancer.Turns.{turns, sum, shares, AtTurn, turns_cycle}

-- `t` picks in a row from the same instances.
unfoldable pub picks : List Instance → ℕ → WeightedState → List (Option Instance) × WeightedState
picks xs zero w = ([], w)
picks xs (suc t) w =
    let s = pick_weighted xs w in let more = picks xs t (s.1) in (s.0 ∷ more.0, more.1)

picks-turns :
    (x y : Instance) (rest : List Instance) (t : ℕ) (w : WeightedState)
    → let xs = x ∷ y ∷ rest in
      let s = turns (compute_weights xs) t w.current w.counter in
      picks xs t w ≡ (map (instance_at xs) (s.0), record { current = s.1; counter = s.2 })
unfolding picks turns pick_weighted
picks-turns x y rest zero w = refl
picks-turns x y rest (suc t) w =
    let xs = x ∷ y ∷ rest in
    let s = weighted_loop (length xs * 2) (compute_weights xs) w.current w.counter in
    rw (length-compute_weights xs) (
      ap (λ more. (instance_at xs (s.0) ∷ more.0, more.1))
        (picks-turns x y rest t (record { current = s.1; counter = s.2 })))

-- Over one cycle, which is as many picks as the weights of two or more instances add up to, each
-- instance is picked exactly as often as its weight says, in the order of the list, and the next
-- cycle can begin.
pub picks_cycle :
    (x y : Instance) (rest : List Instance) (w : WeightedState)
    → AtTurn (compute_weights (x ∷ y ∷ rest)) 0 w.current w.counter
    → let xs = x ∷ y ∷ rest in
      let ws = compute_weights xs in
      ((picks xs (sum ws) w).0 ≡ map (instance_at xs) (shares 0 ws))
      × AtTurn ws 0 (picks xs (sum ws) w).1.current (picks xs (sum ws) w).1.counter
picks_cycle x y rest w at =
    let xs = x ∷ y ∷ rest in
    let ws = compute_weights xs in
    let c =
      turns_cycle ws w.current w.counter (rw (length-compute_weights xs) (omega arith))
        (compute_weights-pos xs) at in
    rw (picks-turns x y rest (sum ws) w) (ap (map (instance_at xs)) c.chosen, c.back_at_start)
