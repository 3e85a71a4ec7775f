-- ===== src/Fee/Split.antt =====
-- SplitFee: nothing is lost, and the order of the recipients plays no part.
use jmdn.Base.{
  ℕ, ◌+◌, ◌-◌, ◌*◌, ◌/◌, ◌≤◌, ◌<◌, ◌≡◌, ◌≢◌, refl, Option, List, [], ◌∷◌, arith, ◌==◌, false,
  Bool-cases, ==_iff, inl, inr,
}
use jmdn.Fee.{
  FeeRecipient, FeeCredit, or_zero, total_weight, sort_recipients, distribute, distributed,
  add_remainder, split_fee,
}
use jmdn.Fee.Sorting.{sum_by-sort_recipients}

div_mul_le : (share w total : ℕ) → 0 < total → share * w / total * total ≤ share * w
div_mul_le share w total h = omega arith

-- The floors together stay within the share.
distributed_bound :
    (share total : ℕ) (rs : List FeeRecipient)
    → 0 < total
    → distributed (distribute share total rs) * total ≤ share * total_weight rs
unfolding distribute
distributed_bound share total [] h = omega arith
distributed_bound share total (r ∷ rs) h = elim (Bool-cases (r.weight == 0)) [
  | inl e ↦ rw e (omega (arith, (==_iff r.weight 0).0 e, distributed_bound share total rs h))
  | inr e ↦
      rw e (omega (arith, distributed_bound share total rs h, div_mul_le share r.weight total h))
]

distributed-le :
    (share total : ℕ) (rs : List FeeRecipient)
    → 0 < total
    → total_weight rs ≡ total
    → distributed (distribute share total rs) ≤ share
distributed-le share total rs h e = grind (arith, distributed_bound share total rs h)

distributed-add_remainder :
    (rem : ℕ) (cs : List FeeCredit)
    → cs ≢ []
    → distributed (add_remainder rem cs) ≡ distributed cs + rem
unfolding add_remainder
distributed-add_remainder rem [] h = absurd (h refl)
distributed-add_remainder rem (c ∷ cs) h = omega arith

-- A recipient with weight gets a credit.
distribute-ne-nil :
    (share total : ℕ) (rs : List FeeRecipient)
    → 0 < total_weight rs
    → distribute share total rs ≢ []
unfolding distribute
distribute-ne-nil share total [] h = absurd (omega arith)
distribute-ne-nil share total (r ∷ rs) h = ground (arith, distribute-ne-nil share total rs)

-- The ZKVM share and the credits make up the fee to the wei, and the ZKVM share is its floored half.
pub split_fee_conserves :
    (fee : Option ℕ) (coinbase : ℕ) (recipients : List FeeRecipient)
    → ((split_fee fee coinbase recipients).0 + distributed (split_fee fee coinbase recipients).1
        ≡ or_zero fee)
      × ((split_fee fee coinbase recipients).0 ≡ or_zero fee / 2)
unfolding split_fee
split_fee_conserves fee coinbase recipients = elim (Bool-cases (total_weight recipients == 0)) [
  | inl e ↦ rw e (omega arith, refl)
  | inr e ↦ rw e (split_sum e, refl)
]
  where
    share : ℕ
    share = or_zero fee - or_zero fee / 2

    credits : List FeeCredit
    credits = distribute share (total_weight recipients) (sort_recipients recipients)

    split_sum :
        (total_weight recipients == 0) ≡ false
        → or_zero fee / 2 + distributed (add_remainder (share - distributed credits) credits)
          ≡ or_zero fee
    split_sum e = omega (
      arith,
      sorted_weight,
      positive,
      distributed-add_remainder (share - distributed credits) credits (
          distribute-ne-nil share (total_weight recipients) (sort_recipients recipients)
            (omega (arith, sorted_weight, positive))),
      distributed-le share (total_weight recipients) (sort_recipients recipients) positive
          sorted_weight,
    )
      where
        sorted_weight : total_weight (sort_recipients recipients) ≡ total_weight recipients
        sorted_weight = sum_by-sort_recipients (λ r. r.weight) recipients

        positive : 0 < total_weight recipients
        positive = ground arith
