-- ===== src/Ledger/Laws/Succeeds.antt =====
-- When processTransaction succeeds.
use jmdn.Base.{
  ℕ, ◌+◌, ◌≤◌, ◌≡◌, refl, ap, ◌∙◌, false, ◌&&◌, not, Option, none, some, ◌==◌, ltb, length,
  if-either, if-second, All, ℤ, pos, ltb_ℤ, ◌+ℤ◌, ◌-ℤ◌, find, arith,
}
use jmdn.Fee.{FeeRecipient, split_fee}
use jmdn.Ledger.{amount, Account, Accounts, Tx, Ledger}
use jmdn.Ledger.Markers.{apply_tx_atomic, is_tx_applied, max_exec_all_entries}
use jmdn.Ledger.Stage.{TxError, ok, Faults, Stage, empty_stage, stage_put, deducted}
use jmdn.Ledger.Execute.{
  Env, value_of, tx_gas_fee, execute, committed, commit_stage, process_between, process_transaction,
  mark_processing,
}
use jmdn.Ledger.Laws.Once.{All-map}
use jmdn.Ledger.Laws.Total.{All-split_fee}
use jmdn.Ledger.Laws.Steps.{IsCalm, IsFunded, Goes, put-IsFunded, execute-rest, rest_of, rest-Goes}

-- An account that is stored, with a number for its balance.
abbrev pub IsUsable : Accounts → ℕ → Type 0
IsUsable accounts a =
    (doc : Account) × (n : ℤ) × (find accounts a ≡ some doc) × (doc.balance ≡ amount n)

commit-none :
    (env : Env) (faults : Faults) (tx : Tx) (s : Stage) (l : Ledger)
    → faults.commit_fails ≡ false
    → 1 ≤ length s.order
    → length s.order + 1 ≤ max_exec_all_entries
    → (commit_stage env faults tx (ok s) l).0 ≡ none
unfolding commit_stage committed apply_tx_atomic
commit-none env faults tx s l h lo hi =
    rw (not_zero (length s.order) lo, not_over (length s.order) hi, h) refl
  where
    not_zero : (n : ℕ) → 1 ≤ n → (n == 0) ≡ false
    not_zero n le = ground arith

    not_over : (n : ℕ) → n + 1 ≤ max_exec_all_entries → ltb max_exec_all_entries (n + 1) ≡ false
    not_over n le = ground arith

between_succeeds :
    (env : Env) (faults : Faults) (from to : ℕ) (tx : Tx) (l : Ledger)
    → faults.no_connection ≡ false
    → (commit_stage env faults tx
        (execute env faults l.accounts from to tx)
        (mark_processing env.now tx.hash l)).0
      ≡ none
    → (process_between env faults (some from) (some to) tx l).0 ≡ none
unfolding process_between
between_succeeds env faults from to tx l c h =
    if-second (λ (r : Option TxError × Ledger). r.0 ≡ none) faults.no_connection _ c
      (if-either (λ (r : Option TxError × Ledger). r.0 ≡ none)
        (not faults.marker_unread && is_tx_applied l tx.hash) refl h)

first-length : (addr : ℕ) (doc : Account) → length (stage_put addr doc empty_stage).order ≡ 1
unfolding stage_put find
first-length addr doc = refl

put-usable :
    (accounts : Accounts) (addr : ℕ) (doc : Account) (n : ℤ) (a : ℕ)
    → doc.balance ≡ amount n
    → IsUsable accounts a
    → IsFunded accounts (stage_put addr doc empty_stage) a
unfolding find
put-usable accounts addr doc n a e u = put-IsFunded accounts addr doc n empty_stage a e u

-- When no call of the databases fails, a transaction is processed without an error if its sender is
-- stored with a number for its balance that covers the value and the fee, its nonce is not stale, its
-- value is not negative, its recipient, the coinbase, the ZKVM and the fee recipients are stored with
-- numbers for their balances, its block carries no nonce for its two addresses, and its fee goes to
-- at most 1000 credits.
pub process_transaction_succeeds :
    (env : Env) (faults : Faults) (from to : ℕ) (tx : Tx) (l : Ledger) (sender : Account)
    (balance : ℤ)
    → tx.from ≡ some from
    → tx.to ≡ some to
    → IsCalm faults
    → find env.account_nonces from ≡ none
    → find env.account_nonces to ≡ none
    → find l.accounts from ≡ some sender
    → sender.balance ≡ amount balance
    → ltb tx.nonce sender.tx_nonce ≡ false
    → ltb_ℤ (value_of tx.value) (pos 0) ≡ false
    → ltb_ℤ balance (value_of tx.value +ℤ pos (tx_gas_fee tx)) ≡ false
    → IsUsable l.accounts to
    → IsUsable l.accounts env.coinbase
    → IsUsable l.accounts env.zkvm
    → All (λ (r : FeeRecipient). IsUsable l.accounts r.addr) env.fee_recipients
    → length (split_fee (some (tx_gas_fee tx)) env.coinbase env.fee_recipients).1 ≤ 1000
    → (process_transaction env faults tx l).0 ≡ none
unfolding process_transaction deducted
process_transaction_succeeds env faults from to tx l sender balance f t calm nf nt a h c v e ut uc
      uz ur few =
    ap (λ o. (process_between env faults o tx.to tx l).0) f
    ∙ ap (λ o. (process_between env faults (some from) o tx l).0) t
    ∙ between_succeeds env faults from to tx l calm.0 (
        rw
          (
            execute-rest faults calm l.accounts env from to tx sender ut.0 balance nf nt a ut.2 h c
                v e,
            rest.1,
          )
          (commit-none env faults tx rest.0 _ calm.1 (omega (arith, rest.4, one))
            (omega (arith, rest.3, one, few))))
  where
    one :
        length
          (stage_put from
            (deducted tx.nonce
              (balance -ℤ (value_of tx.value +ℤ pos (tx_gas_fee tx)))
              env.timestamp
              sender)
            empty_stage).order
        ≡ 1
    one = first-length from _

    paid_stage : Stage
    paid_stage =
        stage_put from
          (deducted tx.nonce (balance -ℤ (value_of tx.value +ℤ pos (tx_gas_fee tx))) env.timestamp
            sender)
          empty_stage

    usable : (x : ℕ) → IsUsable l.accounts x → IsFunded l.accounts paid_stage x
    usable x u =
        put-usable l.accounts from
          (deducted tx.nonce (balance -ℤ (value_of tx.value +ℤ pos (tx_gas_fee tx))) env.timestamp
            sender)
          (balance -ℤ (value_of tx.value +ℤ pos (tx_gas_fee tx))) x refl u

    rest :
        Goes l.accounts
          (length (split_fee (some (tx_gas_fee tx)) env.coinbase env.fee_recipients).1 + 2)
          paid_stage
          (rest_of faults calm l.accounts env to tx (value_of tx.value) paid_stage)
    rest =
        rest-Goes faults calm l.accounts env to tx paid_stage v (usable to ut)
          (All-map _ (λ x. usable x.addr)
            (All-split_fee (IsUsable l.accounts) (some (tx_gas_fee tx)) env.coinbase
              env.fee_recipients uc ur))
          (usable env.zkvm uz)
