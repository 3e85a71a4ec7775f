-- ===== src/Ledger/Laws/Collected.antt =====
-- What the stamping of a block collects, and where it assigns an ordinal.
use jmdn.Base.{
  ℕ, suc, ◌+◌, ◌^◌, ◌≤◌, ◌<◌, ◌≡◌, refl, ap, ◌∙◌, ◌⊎◌, inl, inr, Bool, true, false, ◌||◌, Option,
  none, some, List, [], ◌∷◌, length, get_elem?, ◌==◌, ==_iff, u64, Table, find, store, find-store,
  holds, arith, Bool-cases,
}
use jmdn.Ledger.Stage.{Read}
use jmdn.Ledger.Ordinals.{
  identity_of, with_identity, collect, insert_addr, sort_addrs, assign, nonce_or_zero, carry,
}

holds-insert :
    (before : ℕ → ℕ → Bool) (x : ℕ) (xs : List ℕ) (a : ℕ)
    → holds (insert_addr before x xs) a ≡ ((x == a) || holds xs a)
unfolding insert_addr holds
holds-insert before x [] a = refl
holds-insert before x (y ∷ ys) a = ground (arith, holds-insert before x ys a)

pub holds-sort :
    (before : ℕ → ℕ → Bool) (xs : List ℕ) (a : ℕ) → holds (sort_addrs before xs) a ≡ holds xs a
unfolding sort_addrs holds
holds-sort before [] a = refl
holds-sort before (x ∷ xs) a =
    holds-insert before x (sort_addrs before xs) a ∙ rw (holds-sort before xs a) refl

length-insert :
    (before : ℕ → ℕ → Bool) (x : ℕ) (xs : List ℕ) → length (insert_addr before x xs) ≡ length xs + 1
unfolding insert_addr
length-insert before x [] = omega arith
length-insert before x (y ∷ ys) = ground (arith, length-insert before x ys)

pub length-sort : (before : ℕ → ℕ → Bool) (xs : List ℕ) → length (sort_addrs before xs) ≡ length xs
unfolding sort_addrs
length-sort before [] = refl
length-sort before (x ∷ xs) =
    omega (arith, length-insert before x (sort_addrs before xs), length-sort before xs)

-- An address of the list gets the ordinal of one of its places; any other keeps its nonce.
pub assign-outside :
    (first : ℕ) (xs : List ℕ) (m : Table ℕ) (a : ℕ)
    → holds xs a ≡ false
    → find (assign first xs m) a ≡ find m a
unfolding assign holds
assign-outside first [] m a h = refl
assign-outside first (x ∷ xs) m a h =
    assign-outside (first + 1) xs (store m x (u64 first)) a (ground (arith, h))
    ∙ ground (arith, find-store m x a (u64 first), h)

abbrev pub IsAt : ℕ → List ℕ → ℕ → Option ℕ → Type 0
IsAt first xs a o = (i : ℕ) × (i < length xs) × (get_elem? xs i ≡ some a) × (o ≡ some (first + i))

is_here :
    (x : ℕ) (xs : List ℕ) (a : ℕ) → holds (x ∷ xs) a ≡ true → holds xs a ≡ false → (x == a) ≡ true
unfolding holds
is_here x xs a h e = ground (arith, h, e)

pub assign-IsAt :
    (first : ℕ) (xs : List ℕ) (m : Table ℕ) (a : ℕ)
    → first + length xs ≤ 2 ^ 64
    → holds xs a ≡ true
    → IsAt first xs a (find (assign first xs m) a)
unfolding assign holds
assign-IsAt first [] m a le h = absurd (ground (arith, h))
assign-IsAt first (x ∷ xs) m a le h = elim (Bool-cases (holds xs a)) [
  | inl e ↦
      let (i, lt, at_i, q) =
        assign-IsAt (first + 1) xs (store m x (u64 first)) a (omega (arith, le)) e in
      (suc i, omega (arith, lt), at_i, q ∙ ap some (omega arith))
  | inr e ↦ (
    0,
    omega arith,
    ap some ((==_iff x a).0 (is_here x xs a h e)),
    assign-outside (first + 1) xs (store m x (u64 first)) a e
        ∙ rw (find-store m x a (u64 first), is_here x xs a h e) (ap some (omega (arith, le))),
  )
]

pub find-carry :
    (nonces : Table ℕ) (addrs : List ℕ) (a : ℕ)
    → holds addrs a ≡ true
    → find (carry nonces addrs) a ≡ some (nonce_or_zero (find nonces a))
unfolding carry find holds
find-carry nonces [] a h = absurd (ground (arith, h))
find-carry nonces (x ∷ xs) a h = elim (Bool-cases (x == a)) [
  | inl e ↦ rw (e, ← (==_iff x a).0 e) refl
  | inr e ↦ rw e (find-carry nonces xs a (ground (arith, h, e)))
]

with_identity-inv :
    (a : ℕ) (i : Option (Option ℕ)) (others : Option (Table ℕ × List ℕ)) (nonces : Table ℕ)
    (unknown : List ℕ)
    → with_identity a i others ≡ some (nonces, unknown)
    → (nonces' : Table ℕ) × (unknown' : List ℕ) × (others ≡ some (nonces', unknown'))
      × (((i ≡ some none) × (nonces ≡ nonces') × (unknown ≡ a ∷ unknown'))
          ⊎ ((n : ℕ) × (i ≡ some (some n)) × (nonces ≡ store nonces' a n) × (unknown ≡ unknown')))
unfolding with_identity
with_identity-inv a none others nonces unknown h = absurd (ground (arith, h))
with_identity-inv a (some i) none nonces unknown h = absurd (ground (arith, h))
with_identity-inv a (some none) (some (ns, us)) nonces unknown h =
    (ns, us, refl, inl (refl, ground (arith, h), ground (arith, h)))
with_identity-inv a (some (some n)) (some (ns, us)) nonces unknown h =
    (ns, us, refl, inr (n, refl, ground (arith, h), ground (arith, h)))

pub collect-length :
    (read : ℕ → Read) (addrs : List ℕ) (nonces : Table ℕ) (unknown : List ℕ)
    → collect read addrs ≡ some (nonces, unknown)
    → length unknown ≤ length addrs
unfolding collect
collect-length read [] nonces unknown h = nil_short unknown (ground (arith, h))
  where
    nil_short : (us : List ℕ) → us ≡ [] → length us ≤ 0
    nil_short us e = rw e (omega arith)
collect-length read (x ∷ xs) nonces unknown h =
    let (ns, us, e, split) =
      with_identity-inv x (identity_of (read x)) (collect read xs) nonces unknown h in
    elim split [
      | inl q ↦ rw q.2 (omega (arith, collect-length read xs ns us e))
      | inr q ↦ rw q.3 (omega (arith, collect-length read xs ns us e))
    ]

pub unknown-identity :
    (read : ℕ → Read) (addrs : List ℕ) (nonces : Table ℕ) (unknown : List ℕ) (a : ℕ)
    → collect read addrs ≡ some (nonces, unknown)
    → holds unknown a ≡ true
    → identity_of (read a) ≡ some none
unfolding collect holds
unknown-identity read [] nonces unknown a h m = absurd (none_held unknown (ground (arith, h)) m)
  where
    none_held : (unknown : List ℕ) → unknown ≡ [] → holds unknown a ≡ true → ⊥
    none_held unknown e m = ground (arith, rw e at m)
unknown-identity read (x ∷ xs) nonces unknown a h m =
    let (ns, us, e, split) =
      with_identity-inv x (identity_of (read x)) (collect read xs) nonces unknown h in
    elim split [
      | inl q ↦ elim (Bool-cases (x == a)) [
        | inl g ↦ rw (← (==_iff x a).0 g) q.0
        | inr g ↦ unknown-identity read xs ns us a e (ground (arith, rw q.2 at m, g))
      ]
      | inr q ↦ unknown-identity read xs ns us a e (rw q.3 at m)
    ]

abbrev pub IsKnown : (ℕ → Read) → Table ℕ → ℕ → Type 0
IsKnown read nonces a = (n : ℕ) × (identity_of (read a) ≡ some (some n)) × (find nonces a ≡ some n)

pub collect-IsKnown :
    (read : ℕ → Read) (addrs : List ℕ) (nonces : Table ℕ) (unknown : List ℕ) (a : ℕ)
    → collect read addrs ≡ some (nonces, unknown)
    → holds addrs a ≡ true
    → holds unknown a ≡ false
    → IsKnown read nonces a
unfolding collect holds
collect-IsKnown read [] nonces unknown a h m u = absurd (ground (arith, m))
collect-IsKnown read (x ∷ xs) nonces unknown a h m u =
    let (ns, us, e, split) =
      with_identity-inv x (identity_of (read x)) (collect read xs) nonces unknown h in
    elim split [
      | inl q ↦ rw q.1 (
          collect-IsKnown read xs ns us a e (ground (arith, m, rw q.2 at u))
            (ground (arith, rw q.2 at u)))
      | inr q ↦ elim (Bool-cases (x == a)) [
        | inl g ↦ (q.0, rw (← (==_iff x a).0 g) q.1, rw (q.2, find-store ns x a q.0, g) refl)
        | inr g ↦
            let (n, i, f) =
              collect-IsKnown read xs ns us a e (ground (arith, m, g)) (rw q.3 at u) in
            (n, i, rw (q.2, find-store ns x a q.0, g) f)
      ]
    ]
