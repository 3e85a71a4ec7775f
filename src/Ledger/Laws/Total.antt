-- ===== src/Ledger/Laws/Total.antt =====
-- The sum of the balances of a list of addresses, and what a transaction adds to it.
use jmdn.Base.{
  ℕ, ◌≡◌, refl, ap, ◌∙◌, inl, inr, Option, some, List, [], ◌∷◌, ◌==◌, leb, All, count_by, ℤ, pos,
  ◌+ℤ◌, ◌-ℤ◌, int_laws, find, arith, Bool-cases,
}
use jmdn.Fee.{
  FeeRecipient, FeeCredit, total_weight, insert_recipient, sort_recipients, distribute, distributed,
  add_remainder, split_fee,
}
use jmdn.Fee.Split.{split_fee_conserves}
use jmdn.Ledger.{Accounts, Tx}
use jmdn.Ledger.Execute.{Env, value_of, tx_gas_fee}
use jmdn.Ledger.Laws.Overlay.{worth, at, paid}
use jmdn.Ledger.Laws.Execute.{effect}

abbrev pub sum_over : (ℕ → ℤ) → List ℕ → ℤ
sum_over f [] = pos 0
sum_over f (a ∷ addrs) = f a +ℤ sum_over f addrs

-- The balances at the addresses, together.
unfoldable pub total : List ℕ → Accounts → ℤ
total addrs accounts = sum_over (λ a. worth (find accounts a)) addrs

-- The list has the address once.
abbrev pub IsListed : List ℕ → ℕ → Type 0
IsListed addrs a = count_by (λ k. a == k) addrs ≡ 1

pub sum_over-add :
    (f g : ℕ → ℤ) (addrs : List ℕ)
    → sum_over (λ a. f a +ℤ g a) addrs ≡ sum_over f addrs +ℤ sum_over g addrs
sum_over-add f g [] = omega int_laws
sum_over-add f g (a ∷ addrs) = rw (sum_over-add f g addrs) (omega int_laws)

pub sum_over-ext :
    (f g : ℕ → ℤ) (addrs : List ℕ) → ((a : ℕ) → f a ≡ g a) → sum_over f addrs ≡ sum_over g addrs
sum_over-ext f g [] h = refl
sum_over-ext f g (a ∷ addrs) h = rw (h a, sum_over-ext f g addrs h) refl

sum_over-zero : (addrs : List ℕ) → sum_over (λ _. pos 0) addrs ≡ pos 0
sum_over-zero [] = refl
sum_over-zero (a ∷ addrs) = rw (sum_over-zero addrs) (omega int_laws)

sum_over-absent :
    (k : ℕ) (n : ℤ) (addrs : List ℕ)
    → count_by (λ a. k == a) addrs ≡ 0
    → sum_over (at k n) addrs ≡ pos 0
sum_over-absent k n [] h = refl
sum_over-absent k n (a ∷ addrs) h = elim (Bool-cases (k == a)) [
  | inl e ↦ absurd (ground (arith, e, h))
  | inr e ↦ rw (e, sum_over-absent k n addrs (ground (arith, e, h))) (omega int_laws)
]

sum_over-at : (k : ℕ) (n : ℤ) (addrs : List ℕ) → IsListed addrs k → sum_over (at k n) addrs ≡ n
sum_over-at k n [] h = absurd (omega (arith, h))
sum_over-at k n (a ∷ addrs) h = elim (Bool-cases (k == a)) [
  | inl e ↦ rw (e, sum_over-absent k n addrs (ground (arith, e, h))) (omega int_laws)
  | inr e ↦ rw (e, sum_over-at k n addrs (ground (arith, e, h))) (omega int_laws)
]

sum_over-paid :
    (addrs : List ℕ) (cs : List FeeCredit)
    → All (λ (c : FeeCredit). IsListed addrs c.addr) cs
    → sum_over (paid cs) addrs ≡ pos (distributed cs)
unfolding paid
sum_over-paid addrs [] h = sum_over-zero addrs
sum_over-paid addrs (c ∷ cs) h =
    rw
      (
        sum_over-add (at c.addr (pos c.amount)) (paid cs) addrs,
        sum_over-at c.addr (pos c.amount) addrs h.0,
        sum_over-paid addrs cs h.1,
      )
      (omega int_laws)

-- The credits go to the coinbase or to the fee recipients.
module _ (P : ℕ → Type 0) where
  All-insert :
      (r : FeeRecipient) (rs : List FeeRecipient)
      → P r.addr
      → All (λ (x : FeeRecipient). P x.addr) rs
      → All (λ (x : FeeRecipient). P x.addr) (insert_recipient r rs)
  unfolding insert_recipient
  All-insert r [] p h = (p, tt)
  All-insert r (x ∷ xs) p h = elim (Bool-cases (leb r.addr x.addr)) [
    | inl e ↦ rw e (p, h)
    | inr e ↦ rw e (h.0, All-insert r xs p h.1)
  ]

  All-sort :
      (rs : List FeeRecipient)
      → All (λ (x : FeeRecipient). P x.addr) rs
      → All (λ (x : FeeRecipient). P x.addr) (sort_recipients rs)
  unfolding sort_recipients
  All-sort [] h = tt
  All-sort (r ∷ rs) h = All-insert r (sort_recipients rs) h.0 (All-sort rs h.1)

  All-distribute :
      (share total : ℕ) (rs : List FeeRecipient)
      → All (λ (x : FeeRecipient). P x.addr) rs
      → All (λ (c : FeeCredit). P c.addr) (distribute share total rs)
  unfolding distribute
  All-distribute share total [] h = tt
  All-distribute share total (r ∷ rs) h = elim (Bool-cases (r.weight == 0)) [
    | inl e ↦ rw e (All-distribute share total rs h.1)
    | inr e ↦ rw e (h.0, All-distribute share total rs h.1)
  ]

  All-remainder :
      (rem : ℕ) (cs : List FeeCredit)
      → All (λ (c : FeeCredit). P c.addr) cs
      → All (λ (c : FeeCredit). P c.addr) (add_remainder rem cs)
  unfolding add_remainder
  All-remainder rem [] h = tt
  All-remainder rem (c ∷ cs) h = h

  pub All-split_fee :
      (fee : Option ℕ) (coinbase : ℕ) (rs : List FeeRecipient)
      → P coinbase
      → All (λ (x : FeeRecipient). P x.addr) rs
      → All (λ (c : FeeCredit). P c.addr) (split_fee fee coinbase rs).1
  unfolding split_fee
  All-split_fee fee coinbase rs p h = elim (Bool-cases (total_weight rs == 0)) [
    | inl e ↦ rw e (p, tt)
    | inr e ↦ rw e (All-remainder _ _ (All-distribute _ (total_weight rs) _ (All-sort rs h)))
  ]

-- Every address that the fees of a block go to.
abbrev pub ListsFees : List ℕ → Env → Type 0
ListsFees addrs env =
    IsListed addrs env.coinbase
    × IsListed addrs env.zkvm
    × All (λ (r : FeeRecipient). IsListed addrs r.addr) env.fee_recipients

sum_over-four :
    (f g h i : ℕ → ℤ) (addrs : List ℕ)
    → sum_over (λ a. f a +ℤ (g a +ℤ (h a +ℤ i a))) addrs
      ≡ sum_over f addrs +ℤ (sum_over g addrs +ℤ (sum_over h addrs +ℤ sum_over i addrs))
sum_over-four f g h i addrs =
    sum_over-add f (λ a. g a +ℤ (h a +ℤ i a)) addrs
    ∙ ap (λ x. sum_over f addrs +ℤ x)
        (sum_over-add g (λ a. h a +ℤ i a) addrs
          ∙ ap (λ x. sum_over g addrs +ℤ x) (sum_over-add h i addrs))

pub effect_cancels :
    (addrs : List ℕ) (env : Env) (from to : ℕ) (tx : Tx)
    → ListsFees addrs env
    → IsListed addrs from
    → IsListed addrs to
    → sum_over (effect env from to tx) addrs ≡ pos 0
unfolding effect
effect_cancels addrs env from to tx h f t =
    sum_over-four (at from (pos 0 -ℤ (value_of tx.value +ℤ pos (tx_gas_fee tx))))
      (at to (value_of tx.value)) (paid split.1) (at env.zkvm (pos split.0)) addrs
    ∙ rw
        (
          sum_over-at from (pos 0 -ℤ (value_of tx.value +ℤ pos (tx_gas_fee tx))) addrs f,
          sum_over-at to (value_of tx.value) addrs t,
          sum_over-paid addrs split.1 (
              All-split_fee (IsListed addrs) (some (tx_gas_fee tx)) env.coinbase env.fee_recipients
                h.0 h.2),
          sum_over-at env.zkvm (pos split.0) addrs h.1,
        )
        (omega (
          int_laws,
          (split_fee_conserves (some (tx_gas_fee tx)) env.coinbase env.fee_recipients).0,
        ))
  where
    split : ℕ × List FeeCredit
    split = split_fee (some (tx_gas_fee tx)) env.coinbase env.fee_recipients
