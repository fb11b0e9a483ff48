-- ===== src/Prelude/Maps/Laws.antt =====
-- Laws of the association lists.
use slip_stream_plus.Prelude.Maps.{
  Eq, eqb, eqb_refl, eqb-true, Map, lookup, insert, delete, Absent, IsMap,
}
use Prim.Native.Nat.{suc}
use mathlib.Core.Path.{◌≡◌, refl}
use mathlib.Core.Logic.{inl, inr}
use mathlib.Core.Bool.{true, false}
use mathlib.Core.List.{[], ◌∷◌}
use mathlib.Core.Option.{none, some}
use native.Mathlib.Omega.{arith}
use slip_stream_plus.Prelude.Tests.{if◌then◌else◌, Bool-cases}
use slip_stream_plus.Prelude.Lists.{length}

eqb_sym_false {ℓ} : {A : Type ℓ} ⦃e : Eq A⦄ (a b : A) → eqb a b ≡ false → eqb b a ≡ false
eqb_sym_false a b h = elim (Bool-cases (eqb b a)) [ inl s ↦ absurd (unequal s) | inr s ↦ s ]
  where
    unequal : eqb b a ≡ true → ⊥
    unequal s = cc (eqb-true b a s, h, eqb_refl a)

module _ {ℓ κ} {K : Type ℓ} {V : Type κ} ⦃e : Eq K⦄ where
  pub lookup-insert :
      (new key : K) (value : V) (m : Map K V)
      → lookup key (insert new value m) ≡ (if eqb new key then some value else lookup key m)
  unfolding insert lookup
  lookup-insert new key value [] = refl
  lookup-insert new key value ((old, kept) ∷ rest) = ground (
    arith,
    lookup-insert new key value rest,
    e.eqb_iff old key,
    e.eqb_iff old new,
    e.eqb_iff new key,
  )

  pub lookup-Absent : (k : K) (m : Map K V) → Absent k m → lookup k m ≡ none
  unfolding lookup
  lookup-Absent k [] h = refl
  lookup-Absent k ((j, w) ∷ m) h = rw h.0 (lookup-Absent k m h.1)

  pub Absent-insert :
      (k j : K) (v : V) (m : Map K V) → eqb k j ≡ false → Absent j m → Absent j (insert k v m)
  unfolding insert
  Absent-insert k j v [] ne h = (ne, tt)
  Absent-insert k j v ((i, w) ∷ m) ne h = elim (Bool-cases (eqb i k)) [
    | inl s ↦ rw s (ne, h.1)
    | inr s ↦ rw s (h.0, Absent-insert k j v m ne h.1)
  ]

  pub Absent-delete : (k j : K) (m : Map K V) → Absent j m → Absent j (delete k m)
  unfolding delete
  Absent-delete k j [] h = tt
  Absent-delete k j ((i, w) ∷ m) h = elim (Bool-cases (eqb i k)) [
    | inl s ↦ rw s h.1
    | inr s ↦ rw s (h.0, Absent-delete k j m h.1)
  ]

  pub insert-IsMap : (k : K) (v : V) (m : Map K V) → IsMap m → IsMap (insert k v m)
  unfolding insert
  insert-IsMap k v [] h = (tt, tt)
  insert-IsMap k v ((i, w) ∷ m) h = elim (Bool-cases (eqb i k)) [
    | inl s ↦ rw s (subst_key (eqb-true i k s) h.0, h.1)
    | inr s ↦ rw s (Absent-insert k i v m (eqb_sym_false i k s) h.0, insert-IsMap k v m h.1)
  ]
    where
      subst_key : i ≡ k → Absent i m → Absent k m
      subst_key p a = rw p at a

  pub delete-IsMap : (k : K) (m : Map K V) → IsMap m → IsMap (delete k m)
  unfolding delete
  delete-IsMap k [] h = tt
  delete-IsMap k ((i, w) ∷ m) h = elim (Bool-cases (eqb i k)) [
    | inl s ↦ rw s h.1
    | inr s ↦ rw s (Absent-delete k i m h.0, delete-IsMap k m h.1)
  ]

  pub lookup-delete :
      (k j : K) (m : Map K V)
      → IsMap m
      → lookup j (delete k m) ≡ (if eqb k j then none else lookup j m)
  unfolding lookup delete
  lookup-delete k j [] h = elim (Bool-cases (eqb k j)) [ inl s ↦ rw s | inr s ↦ rw s ]
  lookup-delete k j ((i, w) ∷ m) h = ground (
    arith,
    e.eqb_iff k j,
    e.eqb_iff i k,
    e.eqb_iff i j,
    lookup-delete k j m h.1,
    lookup-Absent i m h.0,
  )

  pub length-delete :
      (k : K) (m : Map K V) {v : V} → lookup k m ≡ some v → length m ≡ suc (length (delete k m))
  unfolding lookup delete
  length-delete k [] {v} h = cc
  length-delete k ((i, w) ∷ m) {v} h = ground (arith, length-delete k m {v = v})

  pub length-insert_old :
      (k : K) (v : V) (m : Map K V) {w : V} → lookup k m ≡ some w → length (insert k v m) ≡ length m
  unfolding lookup insert
  length-insert_old k v [] {w} h = cc
  length-insert_old k v ((i, u) ∷ m) {w} h = ground (arith, length-insert_old k v m {w = w})

  pub length-insert_new :
      (k : K) (v : V) (m : Map K V) → lookup k m ≡ none → length (insert k v m) ≡ suc (length m)
  unfolding lookup insert
  length-insert_new k v [] h = refl
  length-insert_new k v ((i, u) ∷ m) h = ground (arith, length-insert_new k v m)
