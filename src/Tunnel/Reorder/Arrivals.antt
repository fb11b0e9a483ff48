-- ===== src/Tunnel/Reorder/Arrivals.antt =====
-- Frames that arrive, and what a client of the reorderer does with each.
use slip_stream_plus.Prelude.{
  ℕ, zero, suc, ◌+◌, ◌≤◌, ◌<◌, ◌≡◌, refl, ap, ◌⊎◌, List, [], ◌∷◌, ◌++◌, length, some, arith,
  get_elem?, take,
}
use slip_stream_plus.Tunnel.Protocol.{Bytes}
use slip_stream_plus.Tunnel.Reorder.{Reorderer, put, drain_all}

-- A frame that arrives: its number, its payload, and the clock while the reorderer is drained.
pub record Arrival : Type 0 where
  pub seq : ℕ
  pub payload : Bytes
  pub clock : ℕ → ℕ

-- The clients' step: insert, then take out all that is ready.
unfoldable pub receive : Arrival → Reorderer → List Bytes × Reorderer
unfolding put drain_all
receive a r = drain_all a.clock (put a.seq a.payload r)

unfoldable pub receive_all : List Arrival → Reorderer → List Bytes × Reorderer
receive_all [] r = ([], r)
receive_all (a ∷ as') r =
    let s = receive a r in let more = receive_all as' (s.1) in ((s.0) ++ more.0, more.1)

-- Frames that arrive while nothing is taken out.
unfoldable pub put_all : List Arrival → Reorderer → Reorderer
unfolding put
put_all [] r = r
put_all (a ∷ rest) r = put_all rest (put a.seq a.payload r)

-- An arrival that carries a payload of the stream `chunks`, which is numbered from `start` on, while
-- the clock has run for less than the gap timeout since `t0`.
abbrev pub Belongs : List Bytes → ℕ → ℕ → Arrival → Type 0
Belongs chunks start t0 a =
    ((i : ℕ) × (a.seq ≡ start + i) × (get_elem? chunks i ≡ some a.payload))
    × ((f : ℕ) → (t0 ≤ a.clock f) × (a.clock f < t0 + 2000))

-- The payload `i` is among the arrivals.
abbrev pub Sent : ℕ → List Arrival → ℕ → Type 0
Sent start [] i = ⊥
Sent start (a ∷ rest) i = (a.seq ≡ start + i) ⊎ Sent start rest i

pub take-suc :
    (xs : List Bytes) (n : ℕ) (d : Bytes)
    → get_elem? xs n ≡ some d
    → take (suc n) xs ≡ take n xs ++ (d ∷ [])
take-suc [] n d e = absurd (cc)
take-suc (x ∷ xs) zero d e = ap (λ y. y ∷ []) (ground arith)
take-suc (x ∷ xs) (suc n) d e = ap (◌∷◌ x) (take-suc xs n d e)

pub get_elem?-lt : (xs : List Bytes) (n : ℕ) (d : Bytes) → get_elem? xs n ≡ some d → n < length xs
get_elem?-lt [] n d e = absurd (cc)
get_elem?-lt (x ∷ xs) zero d e = omega arith
get_elem?-lt (x ∷ xs) (suc n) d e = omega (arith, get_elem?-lt xs n d e)

pub take_all : (n : ℕ) (xs : List Bytes) → length xs ≤ n → take n xs ≡ xs
take_all zero [] h = refl
take_all zero (x ∷ xs) h = absurd (omega arith)
take_all (suc n) [] h = refl
take_all (suc n) (x ∷ xs) h = ap (◌∷◌ x) (take_all n xs (omega arith))
