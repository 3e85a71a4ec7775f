-- ===== src/Base/Tables.antt =====
-- Go's maps with addresses as keys, an address being its bytes read as a number.
use Prim.Native.Nat.{ℕ}
use mathlib.Core.Path.{◌≡◌, refl, ◌∙◌}
use mathlib.Core.Logic.{inl, inr}
use mathlib.Core.Bool.{Bool, false, ◌||◌}
use mathlib.Core.Option.{Option, none, some}
use mathlib.Core.List.{List, [], ◌∷◌}
use native.Mathlib.Omega.{arith}
use jmdn.Base.Tests.{if◌then◌else◌, ◌==◌, ==_iff, Bool-cases}

abbrev pub Table {ℓ} : Type ℓ → Type ℓ
Table V = List (ℕ × V)

unfoldable pub holds : List ℕ → ℕ → Bool
holds [] k = false
holds (j ∷ js) k = (j == k) || holds js k

module _ {ℓ} {V : Type ℓ} where
  unfoldable pub find : Table V → ℕ → Option V
  find [] k = none
  find ((j, v) ∷ m) k = if j == k then some v else find m k

  unfoldable pub store : Table V → ℕ → V → Table V
  store [] k v = (k, v) ∷ []
  store ((j, w) ∷ m) k v = if j == k then (j, v) ∷ m else (j, w) ∷ store m k v

  pub find-store :
      (m : Table V) (k j : ℕ) (v : V) → find (store m k v) j ≡ (if k == j then some v else find m j)
  unfolding find store
  find-store [] k j v = refl
  find-store ((i, w) ∷ m) k j v = ground (arith, find-store m k j v)

  -- No key twice.
  abbrev pub IsKeyed : Table V → Type ℓ
  IsKeyed [] = Unit
  IsKeyed ((k, v) ∷ m) = (find m k ≡ none) × IsKeyed m

  pub store-IsKeyed : (m : Table V) (k : ℕ) (v : V) → IsKeyed m → IsKeyed (store m k v)
  unfolding store find
  store-IsKeyed [] k v h = (refl, tt)
  store-IsKeyed ((j, w) ∷ m) k v h = elim (Bool-cases (j == k)) [
    | inl g ↦ rw (store, g) h
    | inr g ↦
        rw (store, g)
          (
            find-store m k j v ∙ ground (arith, ==_iff k j, ==_iff j k, g, h.0),
            store-IsKeyed m k v h.1,
          )
  ]
