-- ===== src/Base/Maps.antt =====
-- Go's maps with string keys: a list of entries, the order of which stands for an iteration order.
use Prim.Native.String.{String}
use mathlib.Core.Path.{◌≡◌, refl}
use mathlib.Core.Logic.{inl, inr}
use mathlib.Core.Bool.{Bool, true, false, ◌||◌}
use mathlib.Core.Option.{Option, none, some}
use mathlib.Core.List.{List, [], ◌∷◌}
use native.Mathlib.Omega.{arith}
use text.Mathlib.Text.{◌==◌ as str_eq}
use text.Mathlib.TextEquality.{eq_iff}
use jmdn.Base.Tests.{if◌then◌else◌, str_eq-cases}
use jmdn.Base.Lists.{All}
use jmdn.Base.Counting.{count_by, count_by_mono}
use Prim.Native.Nat.{◌+◌, ◌≤◌}
use text.Mathlib.TextPositions.{eq_refl}

abbrev pub Dict {ℓ} : Type ℓ → Type ℓ
Dict V = List (String × V)

module _ {ℓ} {V : Type ℓ} where
  -- v, ok := m[k]
  unfoldable pub get : Dict V → String → Option V
  get [] k = none
  get ((j, v) ∷ m) k = if str_eq j k then some v else get m k

  -- m[k] = v
  unfoldable pub put : Dict V → String → V → Dict V
  put [] k v = (k, v) ∷ []
  put ((j, w) ∷ m) k v = if str_eq j k then (j, v) ∷ m else (j, w) ∷ put m k v

  -- delete(m, k)
  unfoldable pub delete : Dict V → String → Dict V
  delete [] k = []
  delete ((j, w) ∷ m) k = if str_eq j k then delete m k else (j, w) ∷ delete m k

  abbrev pub has : Dict V → String → Bool
  has m k = elim (get m k) [ none ↦ false | some _ ↦ true ]

  abbrev pub keys : Dict V → List String
  keys [] = []
  keys ((k, v) ∷ m) = k ∷ keys m

  pub get-put :
      (m : Dict V) (k j : String) (v : V)
      → get (put m k v) j ≡ (if str_eq k j then some v else get m j)
  unfolding get put
  get-put [] k j v = refl
  get-put ((i, w) ∷ m) k j v = ground (arith, eq_iff k j, eq_iff i k, eq_iff i j, get-put m k j v)

  pub get-delete :
      (m : Dict V) (k j : String) → get (delete m k) j ≡ (if str_eq k j then none else get m j)
  unfolding get delete
  get-delete [] k j = ground arith
  get-delete ((i, w) ∷ m) k j = ground (arith, eq_iff k j, eq_iff i k, eq_iff i j, get-delete m k j)

pub ruleset dict_laws = (get-put, get-delete)

-- Whether a text is in a list.
unfoldable pub member : List String → String → Bool
member [] k = false
member (j ∷ js) k = str_eq j k || member js k

-- No key twice.
abbrev pub IsDistinct : List String → Type 0
IsDistinct [] = Unit
IsDistinct (k ∷ ks) = (member ks k ≡ false) × IsDistinct ks

module _ {ℓ} {V : Type ℓ} where
  pub member-keys-put :
      (m : Dict V) (k j : String) (v : V)
      → member (keys (put m k v)) j ≡ (member (keys m) j || str_eq k j)
  unfolding member put
  member-keys-put [] k j v = ground arith
  member-keys-put ((i, w) ∷ m) k j v =
      ground (arith, eq_iff k j, eq_iff i k, eq_iff i j, member-keys-put m k j v)

  pub put-IsDistinct :
      (m : Dict V) (k : String) (v : V) → IsDistinct (keys m) → IsDistinct (keys (put m k v))
  unfolding put
  put-IsDistinct [] k v d = (unfold member in refl, tt)
  put-IsDistinct ((i, w) ∷ m) k v d =
      ground (arith, eq_iff i k, eq_iff k i, member-keys-put m k i v, put-IsDistinct m k v d.1)

  pub member-keys : (m : Dict V) (k : String) → member (keys m) k ≡ has m k
  unfolding member get
  member-keys [] k = refl
  member-keys ((i, w) ∷ m) k = ground (arith, member-keys m k)

module _ {ℓ κ} {V : Type ℓ} (P : String × V → Type κ) where
  pub All-put : (m : Dict V) (k : String) (v : V) → All P m → P (k, v) → All P (put m k v)
  unfolding put
  All-put [] k v h p = (p, tt)
  All-put ((i, w) ∷ m) k v h p = elim (str_eq-cases i k) [
    | inl e ↦ rw (e, eq_refl k) (p, h.1)
    | inr e ↦ rw e (h.0, All-put m k v h.1 p)
  ]

-- Counting the entries of a map that pass a test, over a list that holds all its keys.
module _ {ℓ} {V : Type ℓ} (p : V → Bool) where
  abbrev pub passes : Option V → Bool
  passes none = false
  passes (some v) = p v

  passes-cons :
      (i : String) (w : V) (m : Dict V)
      → get m i ≡ none
      → (k : String) → passes (get m k) ≡ true
      → passes (get ((i, w) ∷ m) k) ≡ true
  unfolding get
  passes-cons i w m e k h = ground (arith, eq_iff i k)

  count-cons :
      (i : String) (w : V) (m : Dict V) (ks : List String)
      → member ks i ≡ true
      → get m i ≡ none
      → (if p w then 1 else 0) + count_by (λ k. passes (get m k)) ks
        ≤ count_by (λ k. passes (get ((i, w) ∷ m) k)) ks
  unfolding member get
  count-cons i w m [] h e = cc
  count-cons i w m (k ∷ ks) h e = elim (str_eq-cases i k) [
    | inl q ↦ ground (
      arith,
      q,
      eq_refl i,
      count_by_mono (λ j. passes (get m j)) (λ j. passes (get ((i, w) ∷ m) j)) ks
          (passes-cons i w m e),
    )
    | inr q ↦ ground (arith, q, eq_iff k i, eq_iff i k, count-cons i w m ks)
  ]

  pub count_by-le_of_keys :
      (m : Dict V) (ks : List String)
      → IsDistinct (keys m)
      → All (λ (e : String × V). member ks e.0 ≡ true) m
      → count_by (λ (e : String × V). p e.1) m ≤ count_by (λ k. passes (get m k)) ks
  unfolding get
  count_by-le_of_keys [] ks d h = omega arith
  count_by-le_of_keys ((i, w) ∷ m) ks d h = omega (
    arith,
    count_by-le_of_keys m ks d.1 h.1,
    count-cons i w m ks h.0 (ground (arith, d.0, member-keys m i)),
  )
