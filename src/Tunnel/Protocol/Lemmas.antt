-- ===== src/Tunnel/Protocol/Lemmas.antt =====
-- Slices, and the fixed header.
use slip_stream_plus.Prelude.{◌≡◌, refl, ap, List, [], ◌∷◌, ◌++◌, length, take, drop}

module _ {ℓ} {A : Type ℓ} where
  pub take-length-append : (xs ys : List A) → take (length xs) (xs ++ ys) ≡ xs
  take-length-append [] ys = refl
  take-length-append (x ∷ xs) ys = ap (◌∷◌ x) (take-length-append xs ys)

  pub drop-length-append : (xs ys : List A) → drop (length xs) (xs ++ ys) ≡ ys
  drop-length-append [] ys = refl
  drop-length-append (x ∷ xs) ys = drop-length-append xs ys
