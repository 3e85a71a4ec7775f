-- ===== src/Fee/Sorting.antt =====
-- The canonical order of the recipients: sums do not see it, and its first weight above zero
-- stands at the lowest address, whatever the order of the input.
use mathlib.Core.List.{Permᴰ}
use jmdn.Base.{
  ℕ, ◌+◌, ◌≤◌, ◌≡◌, refl, ◌∙◌, ap, Option, none, some, List, [], ◌∷◌, arith, leb, ◌==◌,
  if◌then◌else◌, sum_by, All, Bool-cases, inl, inr,
}
use jmdn.Fee.{FeeRecipient, insert_recipient, sort_recipients}

module _ (f : FeeRecipient → ℕ) where
  sum_by-insert_recipient :
      (r : FeeRecipient) (xs : List FeeRecipient)
      → sum_by f (insert_recipient r xs) ≡ f r + sum_by f xs
  unfolding insert_recipient
  sum_by-insert_recipient r [] = refl
  sum_by-insert_recipient r (x ∷ xs) = ground (arith, sum_by-insert_recipient r xs)

  pub sum_by-sort_recipients :
      (rs : List FeeRecipient) → sum_by f (sort_recipients rs) ≡ sum_by f rs
  unfolding sort_recipients
  sum_by-sort_recipients [] = refl
  sum_by-sort_recipients (r ∷ rs) =
      omega (arith, sum_by-insert_recipient r (sort_recipients rs), sum_by-sort_recipients rs)

  pub sum_by-perm : {rs rs' : List FeeRecipient} → Permᴰ rs rs' → sum_by f rs ≡ sum_by f rs'
  sum_by-perm Permᴰ.nil = refl
  sum_by-perm (Permᴰ.cons p h) = omega (arith, ap f p, sum_by-perm h)
  sum_by-perm (Permᴰ.swap p q) = omega (arith, ap f p, ap f q)
  sum_by-perm (Permᴰ.trans h k) = sum_by-perm h ∙ sum_by-perm k

-- The lower of an address and one that there may be.
abbrev pub lower : ℕ → Option ℕ → Option ℕ
lower a none = some a
lower a (some b) = if leb a b then some a else some b

abbrev lower_of : FeeRecipient → Option ℕ → Option ℕ
lower_of r m = if r.weight == 0 then m else lower r.addr m

-- The lowest address with a weight above zero.
unfoldable pub lowest : List FeeRecipient → Option ℕ
lowest [] = none
lowest (r ∷ rs) = lower_of r (lowest rs)

lower_of_comm :
    (r s : FeeRecipient) (m : Option ℕ) → lower_of r (lower_of s m) ≡ lower_of s (lower_of r m)
lower_of_comm r s m = ground arith

lowest-insert_recipient :
    (r : FeeRecipient) (xs : List FeeRecipient) → lowest (insert_recipient r xs) ≡ lowest (r ∷ xs)
unfolding lowest insert_recipient
lowest-insert_recipient r [] = refl
lowest-insert_recipient r (x ∷ xs) = elim (Bool-cases (leb r.addr x.addr)) [
  | inl e ↦ rw e
  | inr e ↦ rw (e, lowest-insert_recipient r xs) (lower_of_comm x r (lowest xs))
]

pub lowest-sort_recipients : (rs : List FeeRecipient) → lowest (sort_recipients rs) ≡ lowest rs
unfolding lowest sort_recipients
lowest-sort_recipients [] = refl
lowest-sort_recipients (r ∷ rs) =
    lowest-insert_recipient r (sort_recipients rs) ∙ ap (lower_of r) (lowest-sort_recipients rs)

pub lowest-perm : {rs rs' : List FeeRecipient} → Permᴰ rs rs' → lowest rs ≡ lowest rs'
unfolding lowest
lowest-perm Permᴰ.nil = refl
lowest-perm (Permᴰ.cons p h) = cc (p, lowest-perm h)
lowest-perm (Permᴰ.swap {a = a} {b = b} {l = l} p q) = lower_of_comm a b (lowest l) ∙ cc (p, q)
lowest-perm (Permᴰ.trans h k) = lowest-perm h ∙ lowest-perm k

-- In the order of the addresses.
abbrev pub IsSorted : List FeeRecipient → Type 0
IsSorted [] = Unit
IsSorted (r ∷ rs) = All (λ (x : FeeRecipient). r.addr ≤ x.addr) rs × IsSorted rs

All-insert_recipient :
    (a : ℕ) (r : FeeRecipient) (xs : List FeeRecipient)
    → a ≤ r.addr
    → All (λ (x : FeeRecipient). a ≤ x.addr) xs
    → All (λ (x : FeeRecipient). a ≤ x.addr) (insert_recipient r xs)
unfolding insert_recipient
All-insert_recipient a r [] h k = (h, tt)
All-insert_recipient a r (x ∷ xs) h k = ground (arith, All-insert_recipient a r xs h k.1)

All-mono :
    (a b : ℕ) (xs : List FeeRecipient)
    → a ≤ b
    → All (λ (x : FeeRecipient). b ≤ x.addr) xs
    → All (λ (x : FeeRecipient). a ≤ x.addr) xs
All-mono a b [] h k = tt
All-mono a b (x ∷ xs) h k = (omega arith, All-mono a b xs h k.1)

insert_recipient-IsSorted :
    (r : FeeRecipient) (xs : List FeeRecipient) → IsSorted xs → IsSorted (insert_recipient r xs)
unfolding insert_recipient
insert_recipient-IsSorted r [] h = (tt, tt)
insert_recipient-IsSorted r (x ∷ xs) h = elim (Bool-cases (leb r.addr x.addr)) [
  | inl e ↦
      let le : r.addr ≤ x.addr = ground arith in rw e ((le, All-mono r.addr x.addr xs le h.0), h)
  | inr e ↦
      rw e (All-insert_recipient x.addr r xs (ground arith) h.0, insert_recipient-IsSorted r xs h.1)
]

pub sort_recipients-IsSorted : (rs : List FeeRecipient) → IsSorted (sort_recipients rs)
unfolding sort_recipients
sort_recipients-IsSorted [] = tt
sort_recipients-IsSorted (r ∷ rs) =
    insert_recipient-IsSorted r (sort_recipients rs) (sort_recipients-IsSorted rs)
