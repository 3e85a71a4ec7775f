-- ===== src/Fee/Order.antt =====
-- SplitFee: who gets what does not depend on the order of the recipients.
use mathlib.Core.List.{Permᴰ}
use jmdn.Base.{
  ℕ, ◌+◌, ◌-◌, ◌*◌, ◌/◌, ◌≤◌, ◌<◌, ◌≡◌, refl, sym, ◌∙◌, ap, Option, none, some, List, [], ◌∷◌,
  arith, ◌==◌, false, true, if◌then◌else◌, sum_by, All, Bool-cases, inl, inr,
}
use jmdn.Fee.{
  FeeRecipient, FeeCredit, or_zero, total_weight, sort_recipients, distribute, distributed,
  add_remainder, split_fee,
}
use jmdn.Fee.Split.{split_fee_conserves}
use jmdn.Fee.Sorting.{
  lower, lowest, IsSorted, sort_recipients-IsSorted, sum_by-sort_recipients, sum_by-perm,
  lowest-sort_recipients, lowest-perm,
}

-- What a list of credits adds to the balance of an address.
abbrev pub credited : ℕ → List FeeCredit → ℕ
credited a = sum_by (λ c. if c.addr == a then c.amount else 0)

credited-distribute :
    (a share total : ℕ) (rs : List FeeRecipient)
    → credited a (distribute share total rs)
      ≡ sum_by (λ (r : FeeRecipient). if r.addr == a then share * r.weight / total else 0) rs
unfolding distribute
credited-distribute a share total [] = refl
credited-distribute a share total (r ∷ rs) = ground (arith, credited-distribute a share total rs)

first_addr : List FeeCredit → Option ℕ
first_addr [] = none
first_addr (c ∷ cs) = some c.addr

abbrev gets_remainder : ℕ → Option ℕ → ℕ → ℕ
gets_remainder a none rem = 0
gets_remainder a (some b) rem = if b == a then rem else 0

credited-add_remainder :
    (a rem : ℕ) (cs : List FeeCredit)
    → credited a (add_remainder rem cs) ≡ credited a cs + gets_remainder a (first_addr cs) rem
unfolding add_remainder first_addr
credited-add_remainder a rem [] = refl
credited-add_remainder a rem (c ∷ cs) = ground arith

lower-head :
    (r : FeeRecipient) (rs : List FeeRecipient)
    → All (λ (x : FeeRecipient). r.addr ≤ x.addr) rs
    → lower r.addr (lowest rs) ≡ some r.addr
unfolding lowest
lower-head r [] h = refl
lower-head r (x ∷ xs) h = ground (arith, lower-head r xs h.1)

-- In canonical order the first credit is at the lowest address with a weight.
first_addr-distribute :
    (share total : ℕ) (rs : List FeeRecipient)
    → IsSorted rs
    → first_addr (distribute share total rs) ≡ lowest rs
unfolding first_addr distribute lowest
first_addr-distribute share total [] h = refl
first_addr-distribute share total (r ∷ rs) h = elim (Bool-cases (r.weight == 0)) [
  | inl e ↦ rw e (first_addr-distribute share total rs h.1)
  | inr e ↦ rw e (sym (lower-head r rs h.0))
]

-- What every address gets, written without an order: its floors, and the remainder at the lowest
-- address with a weight.
unfoldable pub share_of : ℕ → ℕ → List FeeRecipient → ℕ
share_of a share rs =
    let floors =
      sum_by (λ (r : FeeRecipient). if r.addr == a then share * r.weight / total_weight rs else 0)
        rs in
    let all_floors = sum_by (λ (r : FeeRecipient). share * r.weight / total_weight rs) rs in
    floors + gets_remainder a (lowest rs) (share - all_floors)

distributed-distribute :
    (share total : ℕ) (rs : List FeeRecipient)
    → distributed (distribute share total rs)
      ≡ sum_by (λ (r : FeeRecipient). share * r.weight / total) rs
unfolding distribute
distributed-distribute share total [] = refl
distributed-distribute share total (r ∷ rs) = ground (arith, distributed-distribute share total rs)

-- With some weight above zero, SplitFee credits to each address what the specification says.
pub credited-split_fee :
    (fee : Option ℕ) (coinbase a : ℕ) (recipients : List FeeRecipient)
    → 0 < total_weight recipients
    → credited a (split_fee fee coinbase recipients).1
      ≡ share_of a (or_zero fee - or_zero fee / 2) recipients
unfolding split_fee share_of
credited-split_fee fee coinbase a recipients h =
    let share = or_zero fee - or_zero fee / 2 in
    let total = total_weight recipients in
    let sorted = sort_recipients recipients in
    let credits = distribute share total sorted in
    let e : (total == 0) ≡ false = ground arith in
    let floors = credited-distribute a share total sorted ∙ sum_by-sort_recipients _ recipients in
    let first =
      first_addr-distribute share total sorted (sort_recipients-IsSorted recipients)
      ∙ lowest-sort_recipients recipients in
    let all_floors =
      distributed-distribute share total sorted ∙ sum_by-sort_recipients _ recipients in
    rw e (
      credited-add_remainder a (share - distributed credits) credits ∙ λ i.
      floors i + gets_remainder a (first i) (share - all_floors i))

share_of-perm :
    (a share : ℕ) {rs rs' : List FeeRecipient}
    → Permᴰ rs rs'
    → share_of a share rs ≡ share_of a share rs'
unfolding share_of
share_of-perm a share {rs} {rs'} p =
    let weights = sum_by-perm (λ r. r.weight) p in
    let at_weights = λ (total : ℕ).
      sum_by (λ (r : FeeRecipient). if r.addr == a then share * r.weight / total else 0) rs
      + gets_remainder a (lowest rs)
          (share - sum_by (λ (r : FeeRecipient). share * r.weight / total) rs) in
    ap at_weights weights ∙ λ i.
    sum_by-perm (λ r. if r.addr == a then share * r.weight / total_weight rs' else 0) p i
    + gets_remainder a (lowest-perm p i)
        (share - sum_by-perm (λ r. share * r.weight / total_weight rs') p i)

no_weight-split_fee :
    (fee : Option ℕ) (coinbase : ℕ) (rs : List FeeRecipient)
    → (total_weight rs == 0) ≡ true
    → split_fee fee coinbase rs
      ≡ (or_zero fee / 2, record { addr = coinbase; amount = or_zero fee - or_zero fee / 2 } ∷ [])
unfolding split_fee
no_weight-split_fee fee coinbase rs e = rw e

-- However a block orders its recipients, every address is credited the same amount and the ZKVM
-- share is the same.
pub split_fee-perm :
    (fee : Option ℕ) (coinbase a : ℕ) {rs rs' : List FeeRecipient}
    → Permᴰ rs rs'
    → (credited a (split_fee fee coinbase rs).1 ≡ credited a (split_fee fee coinbase rs').1)
      × ((split_fee fee coinbase rs).0 ≡ (split_fee fee coinbase rs').0)
split_fee-perm fee coinbase a {rs} {rs'} p = elim (Bool-cases (total_weight rs == 0)) [
  | inl e ↦
      let e' : (total_weight rs' == 0) ≡ true =
        ground (arith, sum_by-perm (λ (r : FeeRecipient). r.weight) p, e) in
      let same =
        no_weight-split_fee fee coinbase rs e ∙ sym (no_weight-split_fee fee coinbase rs' e') in
      (
        ap (λ (r : ℕ × List FeeCredit). credited a r.1) same,
        ap (λ (r : ℕ × List FeeCredit). r.0) same,
      )
  | inr e ↦ (
    credited-split_fee fee coinbase a rs (ground arith)
        ∙ (share_of-perm a (or_zero fee - or_zero fee / 2) p
            ∙ sym (
                credited-split_fee fee coinbase a rs'
                  (ground (arith, sum_by-perm (λ (r : FeeRecipient). r.weight) p)))),
    (split_fee_conserves fee coinbase rs).1 ∙ sym (split_fee_conserves fee coinbase rs').1,
  )
]
