-- ===== src/Ledger/Laws/Deltas.antt =====
-- The deltas of a block (ComputeBlockDeltas), as the sum of what its transactions move.
use jmdn.Base.{
  ℕ, ◌≡◌, refl, sym, ap, ◌∙◌, inl, inr, Bool, false, not, Option, none, some, String, List, [], ◌∷◌,
  ◌==◌, ==_iff, member, if◌then◌else◌, All, ℤ, pos, ◌+ℤ◌, ◌-ℤ◌, ltb_ℤ, int_laws, find, store,
  find-store, arith, Bool-cases,
}
use jmdn.Fee.{FeeCredit, split_fee}
use jmdn.Ledger.{Tx, Block}
use jmdn.Ledger.Execute.{Env, value_of, tx_gas_fee}
use jmdn.Ledger.Processing.{Node, block_env}
use jmdn.Ledger.Recon.{
  BlockAccountDelta, Deltas, pay_deltas, delta_or_new, add_delta, positive_value, sender_delta,
  debit_sender, credit_receiver, credit_coinbase, credit_zkvm, addr_or_zero, tx_deltas, deltas_from,
}
use jmdn.Ledger.Laws.Overlay.{at, paid, +ℤ_assoc}
use jmdn.Ledger.Laws.Execute.{effect}

-- The delta of an address.
unfoldable pub delta_at : Deltas → ℕ → ℤ
delta_at deltas a = (delta_or_new (find deltas a)).balance_delta

store-delta :
    (addr : ℕ) (d : BlockAccountDelta) (n : ℤ) (deltas : Deltas) (a : ℕ)
    → d.balance_delta ≡ delta_at deltas addr +ℤ n
    → delta_at (store deltas addr d) a ≡ delta_at deltas a +ℤ at addr n a
unfolding delta_at delta_or_new
store-delta addr d n deltas a h = elim (Bool-cases (addr == a)) [
  | inl e ↦ rw (delta_at, find-store deltas addr a d, e, ← (==_iff addr a).0 e) h
  | inr e ↦ rw (delta_at, find-store deltas addr a d, e) (omega int_laws)
]

add_delta-at :
    (addr : ℕ) (n : ℤ) (deltas : Deltas) (a : ℕ)
    → delta_at (add_delta addr n deltas) a ≡ delta_at deltas a +ℤ at addr n a
unfolding add_delta delta_at
add_delta-at addr n deltas a = store-delta addr _ n deltas a refl

credit_coinbase-at :
    (credits : List FeeCredit) (deltas : Deltas) (a : ℕ)
    → delta_at (credit_coinbase credits deltas) a ≡ delta_at deltas a +ℤ paid credits a
unfolding credit_coinbase paid
credit_coinbase-at [] deltas a = omega int_laws
credit_coinbase-at (c ∷ cs) deltas a =
    rw
      (
        credit_coinbase-at cs (add_delta c.addr (pos c.amount) deltas) a,
        add_delta-at c.addr (pos c.amount) deltas a,
      )
      (+ℤ_assoc _ _ _)

zero_of : (v : ℤ) → ltb_ℤ v (pos 0) ≡ false → ltb_ℤ (pos 0) v ≡ false → v ≡ pos 0
zero_of v h g = ground (arith, h, g)

at-none : (k a : ℕ) (n x : ℤ) → n ≡ pos 0 → x ≡ x +ℤ at k n a
at-none k a n x h =
    rw h
      (elim (Bool-cases (k == a)) [ inl e ↦ rw e (omega int_laws) | inr e ↦ rw e (omega int_laws) ])

sender_delta-balance :
    (fee : ℕ) (value : Option ℤ) (tx_nonce : ℕ) (d : BlockAccountDelta)
    → ltb_ℤ (value_of value) (pos 0) ≡ false
    → (sender_delta fee (positive_value value) tx_nonce d).balance_delta
      ≡ d.balance_delta +ℤ (pos 0 -ℤ (value_of value +ℤ pos fee))
unfolding sender_delta positive_value value_of
sender_delta-balance fee none tx_nonce d h = omega int_laws
sender_delta-balance fee (some v) tx_nonce d h = elim (Bool-cases (ltb_ℤ (pos 0) v)) [
  | inl e ↦ rw (positive_value, e) (omega int_laws)
  | inr e ↦ rw (positive_value, e, zero_of v h e) (omega int_laws)
]

debit_sender-at :
    (fee : ℕ) (tx : Tx) (from : ℕ) (deltas : Deltas) (a : ℕ)
    → ltb_ℤ (value_of tx.value) (pos 0) ≡ false
    → delta_at (debit_sender fee tx (some from) deltas) a
      ≡ delta_at deltas a +ℤ at from (pos 0 -ℤ (value_of tx.value +ℤ pos fee)) a
unfolding debit_sender delta_at
debit_sender-at fee tx from deltas a h =
    store-delta from _ (pos 0 -ℤ (value_of tx.value +ℤ pos fee)) deltas a
      (sender_delta-balance fee tx.value tx.nonce (delta_or_new (find deltas from)) h)

credit_receiver-at :
    (to : ℕ) (value : Option ℤ) (deltas : Deltas) (a : ℕ)
    → ltb_ℤ (value_of value) (pos 0) ≡ false
    → delta_at (credit_receiver (some to) (positive_value value) deltas) a
      ≡ delta_at deltas a +ℤ at to (value_of value) a
unfolding credit_receiver positive_value value_of
credit_receiver-at to none deltas a h = at-none to a (pos 0) (delta_at deltas a) refl
credit_receiver-at to (some v) deltas a h = elim (Bool-cases (ltb_ℤ (pos 0) v)) [
  | inl e ↦ rw e (add_delta-at to v deltas a)
  | inr e ↦ rw e (at-none to a v (delta_at deltas a) (zero_of v h e))
]

-- A transaction with both addresses, whose value is not negative.
abbrev pub IsPlain : Tx → Type 0
IsPlain tx =
    (from : ℕ) × (to : ℕ) × (tx.from ≡ some from)
    × (tx.to ≡ some to)
    × (ltb_ℤ (value_of tx.value) (pos 0) ≡ false)

-- The effect of a transaction whose addresses may be absent.
unfoldable pub effect_between : Env → Option ℕ → Option ℕ → Tx → ℕ → ℤ
effect_between env (some from) (some to) tx a = effect env from to tx a
effect_between env none to tx a = pos 0
effect_between env (some from) none tx a = pos 0

abbrev pub tx_effect : Env → Tx → ℕ → ℤ
tx_effect env tx a = effect_between env tx.from tx.to tx a

pay_deltas-at :
    (env : Env) (from to : ℕ) (tx : Tx) (deltas : Deltas) (a : ℕ)
    → ltb_ℤ (value_of tx.value) (pos 0) ≡ false
    → delta_at
        (pay_deltas
          (some env.coinbase)
          (some env.zkvm)
          env.fee_recipients
          (some from)
          (some to)
          tx
          deltas)
        a
      ≡ delta_at deltas a +ℤ effect env from to tx a
unfolding pay_deltas credit_zkvm effect addr_or_zero
pay_deltas-at env from to tx deltas a v =
    add_delta-at env.zkvm (pos split.0) charged a
    ∙ rw
        (
          credit_coinbase-at split.1 received a,
          credit_receiver-at to tx.value debited a v,
          debit_sender-at (tx_gas_fee tx) tx from deltas a v,
        )
        (omega int_laws)
  where
    split : ℕ × List FeeCredit
    split = split_fee (some (tx_gas_fee tx)) env.coinbase env.fee_recipients

    debited : Deltas
    debited = debit_sender (tx_gas_fee tx) tx (some from) deltas

    received : Deltas
    received = credit_receiver (some to) (positive_value tx.value) debited

    charged : Deltas
    charged = credit_coinbase split.1 received

-- What the chosen transactions move.
unfoldable pub moved_by : Env → (String → Bool) → List Tx → ℕ → ℤ
moved_by env chosen [] a = pos 0
moved_by env chosen (tx ∷ txs) a =
    (if chosen tx.hash then tx_effect env tx a else pos 0) +ℤ moved_by env chosen txs a

module _ (node : Node) (b : Block) (coinbase zkvm : ℕ) (c : b.coinbase_addr ≡ some coinbase)
    (z : b.zkvm_addr ≡ some zkvm) where
  tx_deltas-at :
      (tx : Tx) (deltas : Deltas) (a : ℕ)
      → IsPlain tx
      → delta_at (tx_deltas b tx deltas) a
        ≡ delta_at deltas a +ℤ tx_effect (block_env node b coinbase zkvm) tx a
  unfolding tx_deltas effect_between block_env
  tx_deltas-at tx deltas a (from, to, f, t, v) =
      ap (λ x. delta_at (pay_deltas x b.zkvm_addr b.fee_recipients tx.from tx.to tx deltas) a) c
      ∙ ap (λ x. delta_at (pay_deltas (some coinbase) x b.fee_recipients tx.from tx.to tx deltas) a)
          z
      ∙ ap
          (λ x.
            delta_at (pay_deltas (some coinbase) (some zkvm) b.fee_recipients x tx.to tx deltas) a)
          f
      ∙ ap
          (λ x.
            delta_at
              (pay_deltas (some coinbase) (some zkvm) b.fee_recipients (some from) x tx deltas) a)
          t
      ∙ pay_deltas-at (block_env node b coinbase zkvm) from to tx deltas a v
      ∙ ap (λ x. delta_at deltas a +ℤ x)
          (sym (
            ap (λ x. effect_between (block_env node b coinbase zkvm) x tx.to tx a) f
            ∙ ap (λ x. effect_between (block_env node b coinbase zkvm) (some from) x tx a) t))

  pub deltas_from-at :
      (skip : List String) (txs : List Tx) (deltas : Deltas) (a : ℕ)
      → All IsPlain txs
      → delta_at (deltas_from b skip txs deltas) a
        ≡ delta_at deltas a
          +ℤ moved_by (block_env node b coinbase zkvm) (λ hash. not (member skip hash)) txs a
  unfolding deltas_from moved_by
  deltas_from-at skip [] deltas a h = omega int_laws
  deltas_from-at skip (tx ∷ txs) deltas a h = elim (Bool-cases (member skip tx.hash)) [
    | inl e ↦
        rw e
          (deltas_from-at skip txs deltas a h.1 ∙ ap (λ x. delta_at deltas a +ℤ x) (omega int_laws))
    | inr e ↦ rw e (
        deltas_from-at skip txs (tx_deltas b tx deltas) a h.1
        ∙ rw (tx_deltas-at tx deltas a h.0) (+ℤ_assoc _ _ _))
  ]
