-- ===== src/Balancer.antt =====
-- internal/balancer: the strategies that pick an instance for a connection. `nil` is `none`.
mod Tests
pub mod Least
pub mod Rotation
pub mod Weights
pub mod Turns
pub mod Cycle
use Prim.Native.String.{String}
use text.Mathlib.Text.{◌==◌ as str_eq}
use slip_stream_plus.Prelude.{
  ℕ, zero, suc, ◌+◌, ◌-◌, ◌*◌, ◌/◌, ◌%◌, ◌^◌, Bool, true, false, ◌||◌, List, [], ◌∷◌, map, ltb,
  ◌==◌, if◌then◌else◌, length, get_elem?, get_or, Option, none, some,
}
use slip_stream_plus.Prelude.Int.{ℤ, pos, negsuc, ltb_ℤ, max_int64}
use slip_stream_plus.Engine.Instance.{Instance}

pub data Strategy : Type 0 where
  round_robin random least_ping least_load weighted_rr : Strategy

-- `New`
unfoldable pub strategy_of : String → Strategy
strategy_of name =
    if str_eq name "round_robin"
    then round_robin
    else if str_eq name "random"
    then random
    else if str_eq name "least_ping"
    then least_ping
    else if str_eq name "least_load"
    then least_load
    else if str_eq name "weighted_rr" || str_eq name "packet_split"
    then weighted_rr
    else round_robin

-- The loop that LeastLoad and LeastPing share in shape, for the number that each compares.
unfoldable pub least_loop : (Instance → ℤ) → List Instance → Option Instance → ℤ → Option Instance
least_loop key [] best best_key = best
least_loop key (i ∷ rest) best best_key =
    let hit = ltb_ℤ (key i) best_key in
    least_loop key rest (if hit then some i else best) (if hit then key i else best_key)

-- `if best == nil { return instances[0] }; return best`
unfoldable pub or_first : Instance → Option Instance → Instance
or_first first none = first
or_first first (some i) = i

unfoldable pub pick_least : (Instance → ℤ) → List Instance → Option Instance
unfolding least_loop or_first
pick_least key [] = none
pick_least key (first ∷ rest) = some (or_first first (least_loop key (first ∷ rest) none max_int64))

-- `LeastLoad.Pick`
unfoldable pub pick_least_load : List Instance → Option Instance
unfolding pick_least
pick_least_load = pick_least (λ i. i.active_conns)

-- No ping yet counts as the second largest int64.
unfoldable pub ping_key : Instance → ℤ
ping_key i = if ltb_ℤ (pos 0) i.last_ping_ms then i.last_ping_ms else pos (2 ^ 63 - 2)

-- `LeastPing.Pick`
unfoldable pub pick_least_ping : List Instance → Option Instance
unfolding pick_least ping_key
pick_least_ping = pick_least ping_key

-- `Random.Pick`; `draw` is `rand.Intn`.
unfoldable pub pick_random : (ℕ → ℕ) → List Instance → Option Instance
pick_random draw [] = none
pick_random draw (first ∷ rest) = get_elem? (first ∷ rest) (draw (length (first ∷ rest)))

-- `RoundRobin.Pick`: the counter is a uint64, and so is the index.
unfoldable pub pick_round_robin : List Instance → ℕ → Option Instance × ℕ
pick_round_robin [] counter = (none, counter)
pick_round_robin (first ∷ rest) counter =
    let counter' = (counter + 1) % 2 ^ 64 in
    let idx = (counter' + 2 ^ 64 - 1) % 2 ^ 64 in
    (get_elem? (first ∷ rest) (idx % length (first ∷ rest)), counter')

-- `computeWeights`. Pings are int64; the quotients are of positive numbers. Below are the bodies of
-- its two loops: the larger of a bound and a ping, and an instance's weight.
unfoldable pub larger : ℕ → ℤ → ℕ
larger m (pos p) = if ltb m p then p else m
larger m (negsuc _) = m

unfoldable pub max_ping : ℕ → List Instance → ℕ
unfolding larger
max_ping m [] = m
max_ping m (i ∷ rest) = max_ping (larger m i.last_ping_ms) rest

-- A ping that is not positive counts as `missing`.
unfoldable pub ping_or : ℕ → ℤ → ℕ
ping_or missing (pos p) = if p == 0 then missing else p
ping_or missing (negsuc _) = missing

unfoldable pub weight : ℕ → ℕ → Instance → ℕ
unfolding ping_or
weight missing top i = let w = top / ping_or missing i.last_ping_ms in if ltb w 1 then 1 else w

unfoldable pub compute_weights : List Instance → List ℕ
unfolding max_ping weight
compute_weights instances =
    let top = max_ping 1 instances in map (weight ((2 ^ 63 - 1) / 2) top) instances

-- The loop of `WeightedRoundRobin.Pick`: the index that it chooses, with `current` and `counter`.
unfoldable pub weighted_loop : ℕ → List ℕ → ℕ → ℕ → Option ℕ × ℕ × ℕ
weighted_loop zero weights current counter = (none, current, counter)
weighted_loop (suc attempts) weights current counter =
    let idx = current % length weights in
    let more = weighted_loop attempts weights (current + 1) 0 in
    if ltb counter (get_or weights idx 0) then (some idx, current, counter + 1) else more

pub record WeightedState : Type 0 where
  pub current : ℕ
  pub counter : ℕ

-- The instance at a chosen index; `return instances[0]` behind the loop.
unfoldable pub instance_at : List Instance → Option ℕ → Option Instance
instance_at instances none = get_elem? instances 0
instance_at instances (some i) = get_elem? instances i

unfoldable pub pick_weighted : List Instance → WeightedState → Option Instance × WeightedState
unfolding weighted_loop compute_weights instance_at
pick_weighted [] w = (none, w)
pick_weighted (only ∷ []) w = (some only, w)
pick_weighted (first ∷ second ∷ rest) w =
    let instances = first ∷ second ∷ rest in
    let weights = compute_weights instances in
    let s = weighted_loop (length instances * 2) weights w.current w.counter in
    (instance_at instances (s.0), record { current = s.1; counter = s.2 })
