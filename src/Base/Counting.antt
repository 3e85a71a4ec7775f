-- ===== src/Base/Counting.antt =====
-- Sums and counts over lists.
use jmdn.Base.Tests.{if◌then◌else◌}
use Prim.Native.Nat.{ℕ, ◌+◌, ◌≤◌}
use mathlib.Core.Path.{◌≡◌}
use mathlib.Core.Bool.{Bool, true, not, ◌&&◌}
use mathlib.Core.List.{List, [], ◌∷◌, ◌++◌}
use native.Mathlib.Omega.{arith}
use jmdn.Base.Lists.{length}

module _ {ℓ} {A : Type ℓ} where
  abbrev pub sum_by : (A → ℕ) → List A → ℕ
  sum_by f [] = 0
  sum_by f (x ∷ xs) = f x + sum_by f xs

  abbrev pub count_by : (A → Bool) → List A → ℕ
  count_by p [] = 0
  count_by p (x ∷ xs) = (if p x then 1 else 0) + count_by p xs

  pub sum_by-append : (f : A → ℕ) (xs ys : List A) → sum_by f (xs ++ ys) ≡ sum_by f xs + sum_by f ys
  sum_by-append f [] ys = omega arith
  sum_by-append f (x ∷ xs) ys = omega (arith, sum_by-append f xs ys)

  pub count_by-le-length : (p : A → Bool) (xs : List A) → count_by p xs ≤ length xs
  count_by-le-length p [] = omega arith
  count_by-le-length p (x ∷ xs) = ground (arith, count_by-le-length p xs)

  pub count_by-add-not :
      (p : A → Bool) (xs : List A) → count_by p xs + count_by (λ x. not (p x)) xs ≡ length xs
  count_by-add-not p [] = omega arith
  count_by-add-not p (x ∷ xs) = ground (arith, count_by-add-not p xs)

  -- Two sets of members overlap by at least what their sizes exceed the whole.
  pub count_by_overlap :
      (p q : A → Bool) (xs : List A)
      → count_by p xs + count_by q xs ≤ length xs + count_by (λ x. p x && q x) xs
  count_by_overlap p q [] = omega arith
  count_by_overlap p q (x ∷ xs) = ground (arith, count_by_overlap p q xs)

  pub count_by_mono :
      (p q : A → Bool) (xs : List A)
      → ((x : A) → p x ≡ true → q x ≡ true)
      → count_by p xs ≤ count_by q xs
  count_by_mono p q [] h = omega arith
  count_by_mono p q (x ∷ xs) h = ground (arith, h x, count_by_mono p q xs h)

  pub count_by_split :
      (p q : A → Bool) (xs : List A)
      → count_by p xs ≤ count_by q xs + count_by (λ x. p x && not (q x)) xs
  count_by_split p q [] = omega arith
  count_by_split p q (x ∷ xs) = ground (arith, count_by_split p q xs)
