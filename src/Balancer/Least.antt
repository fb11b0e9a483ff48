-- ===== src/Balancer/Least.antt =====
-- The two strategies that look for a least number.
use slip_stream_plus.Prelude.{
  ℕ, zero, suc, ◌-◌, ◌^◌, ◌<◌, ◌≡◌, refl, inl, inr, List, [], ◌∷◌, get_elem?, Option, none, some,
  arith, Bool-cases,
}
use slip_stream_plus.Prelude.Int.{ℤ, pos, ltb_ℤ, ◌≤ℤ◌, ◌<ℤ◌, max_int64}
use slip_stream_plus.Engine.Instance.{Instance}
use slip_stream_plus.Balancer.{
  least_loop, or_first, pick_least, pick_least_load, pick_least_ping, ping_key,
}

-- `i` stands at a place of the list where `key` is least, and at the first such place.
pub record IsFirstLeast (key : Instance → ℤ) (xs : List Instance) (i : Instance) : Type 0 where
  pub place : ℕ
  pub there : get_elem? xs place ≡ some i
  pub least : (m : ℕ) (x : Instance) → get_elem? xs m ≡ some x → key i ≤ℤ key x
  pub first : (m : ℕ) (x : Instance) → get_elem? xs m ≡ some x → m < place → key i <ℤ key x

-- What the loop returns: the best so far if nothing is below it, and otherwise the first least.
data Looped (key : Instance → ℤ) (xs : List Instance) (best : Option Instance) (bound : ℤ)
    : Option Instance → Type 0 where
  kept :
      ((m : ℕ) (x : Instance) → get_elem? xs m ≡ some x → bound ≤ℤ key x)
      → Looped key xs best bound best
  found :
      (i : Instance) → IsFirstLeast key xs i → key i <ℤ bound → Looped key xs best bound (some i)

module _ (key : Instance → ℤ) (x : Instance) (xs : List Instance) (best : Option Instance)
    (bound : ℤ) where
  Looped-hit :
      {r : Option Instance}
      → key x <ℤ bound
      → Looped key xs (some x) (key x) r
      → Looped key (x ∷ xs) best bound r
  Looped-hit h (kept k) =
      found x
        (record {
          place = 0;
          there = refl;
          least = at_least;
          first = λ m y e l. absurd (omega arith);
        })
        h
    where
      at_least : (m : ℕ) (y : Instance) → get_elem? (x ∷ xs) m ≡ some y → key x ≤ℤ key y
      at_least zero y e = ground arith
      at_least (suc m) y e = k m y e
  Looped-hit h (found i f l) =
      found i (record { place = suc f.place; there = f.there; least = at_least; first = before })
        (omega arith)
    where
      at_least : (m : ℕ) (y : Instance) → get_elem? (x ∷ xs) m ≡ some y → key i ≤ℤ key y
      at_least zero y e = ground arith
      at_least (suc m) y e = f.least m y e

      before :
          (m : ℕ) (y : Instance) → get_elem? (x ∷ xs) m ≡ some y → m < suc f.place → key i <ℤ key y
      before zero y e b = ground arith
      before (suc m) y e b = f.first m y e (omega arith)

  Looped-miss :
      {r : Option Instance}
      → bound ≤ℤ key x
      → Looped key xs best bound r
      → Looped key (x ∷ xs) best bound r
  Looped-miss h (kept k) = kept at_least
    where
      at_least : (m : ℕ) (y : Instance) → get_elem? (x ∷ xs) m ≡ some y → bound ≤ℤ key y
      at_least zero y e = ground arith
      at_least (suc m) y e = k m y e
  Looped-miss h (found i f l) =
      found i (record { place = suc f.place; there = f.there; least = at_least; first = before }) l
    where
      at_least : (m : ℕ) (y : Instance) → get_elem? (x ∷ xs) m ≡ some y → key i ≤ℤ key y
      at_least zero y e = ground arith
      at_least (suc m) y e = f.least m y e

      before :
          (m : ℕ) (y : Instance) → get_elem? (x ∷ xs) m ≡ some y → m < suc f.place → key i <ℤ key y
      before zero y e b = ground arith
      before (suc m) y e b = f.first m y e (omega arith)

least_loop-Looped :
    (key : Instance → ℤ) (xs : List Instance) (best : Option Instance) (bound : ℤ)
    → Looped key xs best bound (least_loop key xs best bound)
unfolding least_loop
least_loop-Looped key [] best bound = kept (λ m x e. absurd (cc))
least_loop-Looped key (x ∷ xs) best bound = elim (Bool-cases (ltb_ℤ (key x) bound)) [
  | inl hit ↦
      rw hit
        (Looped-hit key x xs best bound (ground arith) (least_loop-Looped key xs (some x) (key x)))
  | inr miss ↦
      rw miss (Looped-miss key x xs best bound (ground arith) (least_loop-Looped key xs best bound))
]

-- Every number that is compared is an int64.
abbrev pub Fits : (Instance → ℤ) → List Instance → Type 0
Fits key xs = (m : ℕ) (x : Instance) → get_elem? xs m ≡ some x → key x ≤ℤ max_int64

or_first-IsFirstLeast :
    (key : Instance → ℤ) (x : Instance) (xs : List Instance) (r : Option Instance)
    → Fits key (x ∷ xs)
    → Looped key (x ∷ xs) none max_int64 r
    → IsFirstLeast key (x ∷ xs) (or_first x r)
unfolding or_first
or_first-IsFirstLeast key x xs r fits (kept k) = record {
  place = 0;
  there = refl;
  least = λ m y e. omega (arith, fits 0 x refl, k m y e);
  first = λ m y e l. absurd (omega arith);
}
or_first-IsFirstLeast key x xs r fits (found i f l) = f

pick_least-IsFirstLeast :
    (key : Instance → ℤ) (x : Instance) (xs : List Instance)
    → Fits key (x ∷ xs)
    → (i : Instance) × (pick_least key (x ∷ xs) ≡ some i) × IsFirstLeast key (x ∷ xs) i
pick_least-IsFirstLeast key x xs fits = (
  or_first x (least_loop key (x ∷ xs) none max_int64),
  unfold pick_least in refl,
  or_first-IsFirstLeast key x xs _ fits (least_loop-Looped key (x ∷ xs) none max_int64),
)

-- LeastLoad picks an instance whenever there is one, and it is the first among those with the
-- fewest connections.
pub pick_least_load-IsFirstLeast :
    (x : Instance) (xs : List Instance)
    → Fits (λ i. i.active_conns) (x ∷ xs)
    → (i : Instance) × (pick_least_load (x ∷ xs) ≡ some i)
      × IsFirstLeast (λ i. i.active_conns) (x ∷ xs) i
unfolding pick_least_load
pick_least_load-IsFirstLeast x xs fits = pick_least-IsFirstLeast (λ i. i.active_conns) x xs fits

-- If any instance has a measured ping (below 2 ^ 63 - 2), LeastPing picks an instance of the list
-- with a measured ping that is no longer than that one.
pub pick_least_ping-least :
    (x : Instance) (xs : List Instance) (m : ℕ) (y : Instance)
    → Fits (λ i. i.last_ping_ms) (x ∷ xs)
    → get_elem? (x ∷ xs) m ≡ some y
    → pos 0 <ℤ y.last_ping_ms
    → y.last_ping_ms <ℤ pos (2 ^ 63 - 2)
    → (i : Instance) × (pick_least_ping (x ∷ xs) ≡ some i)
      × ((n : ℕ) × (get_elem? (x ∷ xs) n ≡ some i))
      × (pos 0 <ℤ i.last_ping_ms)
      × (i.last_ping_ms ≤ℤ y.last_ping_ms)
unfolding pick_least_ping
pick_least_ping-least x xs m y fits e positive small =
    let (i, picked, f) = pick_least-IsFirstLeast ping_key x xs key_fits in
    let bound : (pos 0 <ℤ i.last_ping_ms) × (i.last_ping_ms ≤ℤ y.last_ping_ms) =
      unfold ping_key in ground (arith, f.least m y e) in
    (i, picked, (f.place, f.there), bound.0, bound.1)
  where
    key_fits : Fits ping_key (x ∷ xs)
    key_fits m y e = unfold ping_key in ground (arith, fits m y e)
