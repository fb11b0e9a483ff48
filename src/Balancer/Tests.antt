-- ===== src/Balancer/Tests.antt =====
-- The theorems on internal/balancer at concrete inputs.
use slip_stream_plus.Prelude.{ℕ, ◌≡◌, refl, inl, [], ◌∷◌, map, none, some, get_elem?}
use slip_stream_plus.Prelude.Int.{ℤ, pos}
use slip_stream_plus.Engine.Instance.{Instance, healthy, socks}
use slip_stream_plus.Balancer.{WeightedState, compute_weights, instance_at}
use slip_stream_plus.Balancer.Turns.{sum, shares, AtTurn}
use slip_stream_plus.Balancer.Cycle.{picks, picks_cycle}

abbrev instance_with : ℕ → ℤ → ℤ → Instance
instance_with id load ping = record {
  id = id;
  mode = socks;
  state = healthy;
  active_conns = load;
  last_ping_ms = ping;
  tx_bytes = pos 0;
  rx_bytes = pos 0;
}

abbrev busy : Instance
busy = instance_with 0 (pos 3) (pos 40)

abbrev idle : Instance
idle = instance_with 1 (pos 1) (pos 120)

abbrev start : WeightedState
start = record { current = 0; counter = 0 }

picks_cycle_example :
    let xs = busy ∷ idle ∷ [] in
    let ws = compute_weights xs in
    ((picks xs (sum ws) start).0
      ≡ map (λ i. elim i [ none ↦ get_elem? xs 0 | some n ↦ get_elem? xs n ]) (shares 0 ws))
    × AtTurn ws 0 (picks xs (sum ws) start).1.current (picks xs (sum ws) start).1.counter
unfolding compute_weights instance_at
picks_cycle_example = picks_cycle busy idle [] start (inl (refl, refl))
