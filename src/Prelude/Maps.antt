-- ===== src/Prelude/Maps.antt =====
-- Go maps as association lists, for keys with a Boolean equality. A key stands at most once in a
-- list that `insert` and `delete` have built (`IsMap`).
pub mod Laws
use Prim.Native.Nat.{ℕ, zero, suc, ◌+◌, ◌≤◌, ◌<◌}
use Prim.Native.String.{String}
use mathlib.Core.Path.{◌≡◌, refl, sym, ap}
use mathlib.Core.Logic.{◌↔◌, ◌⊎◌, inl, inr}
use mathlib.Core.Bool.{Bool, true, false}
use mathlib.Core.List.{List, [], ◌∷◌}
use mathlib.Core.Option.{Option, none, some}
use native.Mathlib.Omega.{arith}
use text.Mathlib.Text.{◌==◌ as str_eq}
use text.Mathlib.TextEquality.{eq_iff}
use slip_stream_plus.Prelude.Tests.{if◌then◌else◌, ==_iff, Bool-cases}
use slip_stream_plus.Prelude.Tests.{◌==◌ as nat_eq}
use slip_stream_plus.Prelude.Lists.{length}

-- A key type with a test for equality.
pub record Eq {ℓ} (A : Type ℓ) : Type ℓ where
  pub eqb : A → A → Bool
  pub eqb_iff : (a b : A) → (eqb a b ≡ true) ↔ (a ≡ b)

instance abbrev pub nat_key : Eq ℕ
nat_key = record { eqb = nat_eq; eqb_iff = ==_iff }

instance abbrev pub string_key : Eq String
string_key = record { eqb = str_eq; eqb_iff = eq_iff }

abbrev pub eqb {ℓ} : {A : Type ℓ} ⦃e : Eq A⦄ → A → A → Bool
eqb ⦃e⦄ = e.eqb

pub eqb_refl {ℓ} : {A : Type ℓ} ⦃e : Eq A⦄ (a : A) → eqb a a ≡ true
eqb_refl ⦃e⦄ a = (e.eqb_iff a a).1 refl

pub eqb-true {ℓ} : {A : Type ℓ} ⦃e : Eq A⦄ (a b : A) → eqb a b ≡ true → a ≡ b
eqb-true ⦃e⦄ a b h = (e.eqb_iff a b).0 h

abbrev pub Map {ℓ κ} : Type ℓ → Type κ → Type (ℓ ⊔ κ)
Map K V = List (K × V)

module _ {ℓ κ} {K : Type ℓ} {V : Type κ} ⦃e : Eq K⦄ where
  -- `m[k]`, with the presence flag of Go's two-value form.
  unfoldable pub lookup : K → Map K V → Option V
  lookup k [] = none
  lookup k ((j, v) ∷ m) = if eqb j k then some v else lookup k m

  -- `m[k] = v`
  unfoldable pub insert : K → V → Map K V → Map K V
  insert k v [] = (k, v) ∷ []
  insert k v ((j, w) ∷ m) = if eqb j k then (k, v) ∷ m else (j, w) ∷ insert k v m

  -- `delete(m, k)`
  unfoldable pub delete : K → Map K V → Map K V
  delete k [] = []
  delete k ((j, w) ∷ m) = if eqb j k then m else (j, w) ∷ delete k m

  -- No entry of the list has the key.
  abbrev pub Absent : K → Map K V → Type ℓ
  Absent k [] = Unit
  Absent k ((j, v) ∷ m) = (eqb j k ≡ false) × Absent k m

  -- Every key stands once.
  abbrev pub IsMap : Map K V → Type ℓ
  IsMap [] = Unit
  IsMap ((j, v) ∷ m) = Absent j m × IsMap m
