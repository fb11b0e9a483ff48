-- ===== src/Balancer/Turns.antt =====
-- WeightedRoundRobin: the turns of one cycle.
use slip_stream_plus.Prelude.{
  ℕ, zero, suc, ◌+◌, ◌-◌, ◌*◌, ◌%◌, ◌≤◌, ◌<◌, ◌≡◌, refl, sym, ap, ◌∙◌, ◌⊎◌, inl, inr, List, [], ◌∷◌,
  ◌++◌, length, length-append, get_or, Option, some, arith, All, ltb, lt→ltb, replicate, false,
}
use mathlib.Core.List.{append-nil, append_assoc}
use native.Mathlib.Nat.{mod-eq_of_lt, mod-add-mod, mod_self}
use slip_stream_plus.Balancer.{weighted_loop}

-- `t` picks in a row, and the loop's two variables after them.
unfoldable pub turns : List ℕ → ℕ → ℕ → ℕ → List (Option ℕ) × ℕ × ℕ
turns ws zero current counter = ([], current, counter)
turns ws (suc t) current counter =
    let s = weighted_loop (length ws * 2) ws current counter in
    let more = turns ws t (s.1) (s.2) in (s.0 ∷ more.0, more.1, more.2)

abbrev pub sum : List ℕ → ℕ
sum [] = 0
sum (w ∷ ws) = w + sum ws

-- The indices from `i` on, each as often as its weight says.
abbrev pub shares : ℕ → List ℕ → List (Option ℕ)
shares i [] = []
shares i (w ∷ ws) = replicate w (some i) ++ shares (suc i) ws

-- The two states in which the next pick is the first of the turn of `i`.
abbrev pub AtTurn : List ℕ → ℕ → ℕ → ℕ → Type 0
AtTurn ws i current counter =
    ((current % length ws ≡ i) × (counter ≡ 0))
    ⊎ (((current + 1) % length ws ≡ i) × (get_or ws (current % length ws) 0 ≤ counter))

-- A pick inside a turn.
loop_hit :
    (ws : List ℕ) (attempts current counter : ℕ)
    → counter < get_or ws (current % length ws) 0
    → weighted_loop (suc attempts) ws current counter
      ≡ (some (current % length ws), current, counter + 1)
unfolding weighted_loop
loop_hit ws attempts current counter h = rw (lt→ltb _ _ h)

loop_miss :
    (ws : List ℕ) (attempts current counter : ℕ)
    → get_or ws (current % length ws) 0 ≤ counter
    → weighted_loop (suc attempts) ws current counter ≡ weighted_loop attempts ws (current + 1) 0
unfolding weighted_loop
loop_miss ws attempts current counter h =
    let no_hit : ltb counter (get_or ws (current % length ws) 0) ≡ false = ground arith in rw no_hit

-- The first pick of a turn.
loop_turn :
    (ws : List ℕ) (i current counter : ℕ)
    → 1 ≤ length ws
    → 1 ≤ get_or ws i 0
    → AtTurn ws i current counter
    → (c : ℕ) × (c % length ws ≡ i)
      × (weighted_loop (length ws * 2) ws current counter ≡ (some i, c, 1))
loop_turn ws i current counter n w (inl (at, start)) =
    let two : length ws * 2 ≡ suc (length ws * 2 - 1) = omega arith in
    (
      current,
      at,
      rw two (loop_hit ws (length ws * 2 - 1) current counter (rw (at, start) w) ∙ rw (at, start)),
    )
loop_turn ws i current counter n w (inr (at, over)) =
    let two : length ws * 2 ≡ suc (suc (length ws * 2 - 2)) = omega arith in
    (
      current + 1,
      at,
      rw two (
          loop_miss ws (suc (length ws * 2 - 2)) current counter over
          ∙ loop_hit ws (length ws * 2 - 2) (current + 1) 0 (rw at w)
          ∙ rw at),
    )

turns-add :
    (ws : List ℕ) (a b current counter : ℕ)
    → let s = turns ws a current counter in
      let t = turns ws b (s.1) (s.2) in turns ws (a + b) current counter ≡ (s.0 ++ t.0, t.1, t.2)
unfolding turns
turns-add ws zero b current counter = let same : 0 + b ≡ b = omega arith in rw same
turns-add ws (suc a) b current counter =
    let s = weighted_loop (length ws * 2) ws current counter in
    let same : suc a + b ≡ suc (a + b) = omega arith in
    rw same (ap (λ more. (s.0 ∷ more.0, more.1, more.2)) (turns-add ws a b (s.1) (s.2)))

-- Picks inside a turn.
turns_block :
    (ws : List ℕ) (t current counter : ℕ)
    → 1 ≤ length ws
    → counter + t ≤ get_or ws (current % length ws) 0
    → turns ws t current counter ≡ (replicate t (some (current % length ws)), current, counter + t)
unfolding turns
turns_block ws zero current counter n h = let same : counter + 0 ≡ counter = omega arith in rw same
turns_block ws (suc t) current counter n h =
    let two : length ws * 2 ≡ suc (length ws * 2 - 1) = omega arith in
    let hit : weighted_loop (length ws * 2) ws current counter
        ≡ (some (current % length ws), current, counter + 1) =
      rw two (loop_hit ws (length ws * 2 - 1) current counter (omega arith)) in
    let same : counter + 1 + t ≡ counter + suc t = omega arith in
    ap (λ s. let more = turns ws t (s.1) (s.2) in (s.0 ∷ more.0, more.1, more.2)) hit
    ∙ ap (λ more. (some (current % length ws) ∷ more.0, more.1, more.2))
        (turns_block ws t current (counter + 1) n (omega arith))
    ∙ rw same

-- A whole turn.
turns_turn :
    (ws : List ℕ) (i w current counter : ℕ)
    → 1 ≤ length ws
    → get_or ws i 0 ≡ suc w
    → AtTurn ws i current counter
    → (c : ℕ) × (c % length ws ≡ i)
      × (turns ws (suc w) current counter ≡ (replicate (suc w) (some i), c, suc w))
turns_turn ws i w current counter n e at =
    let (c, here, first) = loop_turn ws i current counter n (omega (arith, e)) at in
    let one : 1 + w ≡ suc w = omega arith in
    (
      c,
      here,
      unfold turns in
          ap (λ s. let more = turns ws w (s.1) (s.2) in (s.0 ∷ more.0, more.1, more.2)) first
          ∙ ap (λ more. (some i ∷ more.0, more.1, more.2))
              (turns_block ws w c 1 n (rw (here, e) (omega arith)))
          ∙ rw (here, one),
    )

get_or-append_at : (front back : List ℕ) (w : ℕ) → get_or (front ++ (w ∷ back)) (length front) 0 ≡ w
get_or-append_at [] back w = refl
get_or-append_at (x ∷ front) back w = get_or-append_at front back w

-- The turns of the indices behind `front`.
pub record Cycled (ws : List ℕ) (out : List (Option ℕ)) (s : List (Option ℕ) × ℕ × ℕ) : Type 0 where
  pub chosen : s.0 ≡ out
  pub back_at_start : AtTurn ws 0 (s.1) (s.2)

AtTurn-next :
    (ws : List ℕ) (i w c : ℕ)
    → c % length ws ≡ i
    → get_or ws i 0 ≡ suc w
    → AtTurn ws (suc i % length ws) c (suc w)
AtTurn-next ws i w c here e =
    let up : i + 1 ≡ suc i = omega arith in
    inr (sym (mod-add-mod c (length ws) 1) ∙ rw (here, up), rw (here, e) (omega arith))

Cycled-append :
    (ws : List ℕ) (a b current counter c k : ℕ) (first out : List (Option ℕ))
    → turns ws a current counter ≡ (first, c, k)
    → Cycled ws out (turns ws b c k)
    → Cycled ws (first ++ out) (turns ws (a + b) current counter)
Cycled-append ws a b current counter c k first out e rest =
    let whole : turns ws (a + b) current counter
        ≡ (first ++ (turns ws b c k).0, (turns ws b c k).1, (turns ws b c k).2) =
      turns-add ws a b current counter
      ∙ ap (λ s. let t = turns ws b (s.1) (s.2) in (s.0 ++ t.0, t.1, t.2)) e in
    rw whole (record { chosen = ap (◌++◌ first) rest.chosen; back_at_start = rest.back_at_start })

turns_suffix :
    (front back ws : List ℕ) (current counter : ℕ)
    → ws ≡ front ++ back
    → 1 ≤ length ws
    → All (λ w. 1 ≤ w) back
    → AtTurn ws (length front % length ws) current counter
    → Cycled ws (shares (length front) back) (turns ws (sum back) current counter)
turns_suffix front [] ws current counter e n pos at =
    let full : length front % length ws ≡ 0 = rw (e, append-nil front) (mod_self (length front)) in
    record { chosen = unfold turns in refl; back_at_start = unfold turns in rw full at at }
turns_suffix front (zero ∷ back) ws current counter e n pos at = absurd (omega (arith, pos.0))
turns_suffix front (suc w ∷ back) ws current counter e n pos at =
    let i = length front in
    let inside : i < length ws = rw e (omega (arith, length-append front (suc w ∷ back))) in
    let own : i % length ws ≡ i = mod-eq_of_lt inside in
    let (c, here, out) =
      turns_turn ws i w current counter n (rw e (get_or-append_at front back (suc w)))
        (rw own at at) in
    let longer : length (front ++ (suc w ∷ [])) ≡ suc i =
      omega (arith, length-append front (suc w ∷ [])) in
    let rest =
      turns_suffix (front ++ (suc w ∷ [])) back ws c (suc w)
        (e ∙ sym (append_assoc front (suc w ∷ []) back)) n pos.1
        (rw longer (AtTurn-next ws i w c here (rw e (get_or-append_at front back (suc w))))) in
    Cycled-append ws (suc w) (sum back) current counter c (suc w) (replicate (suc w) (some i)) _ out
      (rw longer at rest)

-- From the first pick of the first turn on, as many picks as the weights add up to choose every
-- index as often as its weight says, one index after the other, and the next pick is the first of
-- the first turn again. So this goes on cycle after cycle.
pub turns_cycle :
    (ws : List ℕ) (current counter : ℕ)
    → 1 ≤ length ws
    → All (λ w. 1 ≤ w) ws
    → AtTurn ws 0 current counter
    → Cycled ws (shares 0 ws) (turns ws (sum ws) current counter)
turns_cycle ws current counter n pos at =
    turns_suffix [] ws ws current counter refl n pos (rw (mod-eq_of_lt n) at)
