-- ===== src/Ledger/Laws/Execute.antt =====
-- What processTransaction does to the accounts, from its stage to its commit.
use jmdn.Base.{
  ℕ, ◌≡◌, refl, ap, ◌∙◌, inl, inr, Bool, false, ◌&&◌, ◌||◌, not, Option, none, some, String, List,
  [], ◌∷◌, ◌==◌, ==_iff, if◌then◌else◌, if-either, if-second, put, get-put, str_eq, has, ℤ, pos,
  ◌+ℤ◌, ◌-ℤ◌, find, holds, find-store, arith, Option-cases, Bool-cases,
}
use jmdn.Fee.{split_fee}
use jmdn.Ledger.{Account, Accounts, Tx, stamp, Ledger}
use jmdn.Ledger.Markers.{
  write_doc, write_docs, apply_tx_atomic, is_tx_applied, dual_read, marker_value_applied,
}
use jmdn.Ledger.Stage.{
  TxError, unreadable_account, no_sender, Result, ok, err, guard, Phase, checking_sender,
  checking_recipient, Faults, Read, found, missing, failed, read_of, get_account, Stage,
  empty_stage, stage_put, adopt_carried_nonce,
}
use jmdn.Ledger.Execute.{
  Env, value_of, parse_transaction, tx_gas_fee, readable, is_found, new_account, stage_recipient,
  execute, committed, commit_stage, process_between, process_transaction,
  cleanup_processing_markers, mark_processing,
}
use jmdn.Ledger.Laws.Overlay.{
  worth, first, view, at, paid, IsOrdered, Leaves, fails, leaves, Leaves-after, Leaves-next,
  Leaves-then, Leaves-map, IsMoved, IsKept, IsMoved-then, put-IsKept, adopt-IsKept,
  deduct_from_sender-IsMoved, add_to_recipient-IsMoved, credit_all-IsMoved,
}

-- What an applied transaction moves at an address: the sender pays the value and the fee, the
-- recipient gets the value, and the fee goes to the coinbase, its recipients and the ZKVM.
unfoldable pub effect : Env → ℕ → ℕ → Tx → ℕ → ℤ
effect env from to tx a =
    at from (pos 0 -ℤ (value_of tx.value +ℤ pos (tx_gas_fee tx))) a
    +ℤ (at to (value_of tx.value) a
        +ℤ (paid (split_fee (some (tx_gas_fee tx)) env.coinbase env.fee_recipients).1 a
            +ℤ at env.zkvm
                (pos (split_fee (some (tx_gas_fee tx)) env.coinbase env.fee_recipients).0) a))

missing-find :
    (faults : Faults) (phase : Phase) (accounts : Accounts) (addr : ℕ)
    → get_account faults phase accounts addr ≡ missing
    → find accounts addr ≡ none
unfolding get_account read_of
missing-find faults phase accounts addr h = ground (arith, h)

empty-IsOrdered : IsOrdered empty_stage
unfolding holds find
empty-IsOrdered a = refl

IsKept-trans :
    (accounts : Accounts) (s s' s'' : Stage)
    → IsKept accounts s s'
    → (IsOrdered s' → IsKept accounts s' s'')
    → IsKept accounts s s''
IsKept-trans accounts s s' s'' h k = ((k h.0).0, λ a. (k h.0).1 a ∙ h.1 a)

stage_recipient-IsKept :
    (env : Env) (faults : Faults) (accounts : Accounts) (from to : ℕ) (r : Read)
    (carried : Option ℕ)
    → (r ≡ missing → find accounts to ≡ none)
    → Leaves (IsKept accounts empty_stage) (stage_recipient env faults accounts from to r carried)
unfolding stage_recipient new_account view find
stage_recipient-IsKept env faults accounts from to failed carried k = fails
stage_recipient-IsKept env faults accounts from to missing none k = fails
stage_recipient-IsKept env faults accounts from to missing (some nonce) k =
    elim (Bool-cases env.create_missing) [
      | inl e ↦
          rw (stage_recipient, e)
            (leaves (
              IsKept-trans accounts empty_stage
                (stage_put to (new_account env to nonce) empty_stage) _
                (put-IsKept faults accounts to (new_account env to nonce) empty_stage
                  empty-IsOrdered (rw (k refl) refl))
                (adopt-IsKept faults accounts env.account_nonces from
                  (stage_put to (new_account env to nonce) empty_stage))))
      | inr e ↦ rw (stage_recipient, e) fails
    ]
stage_recipient-IsKept env faults accounts from to (found doc) carried k = leaves (
    IsKept-trans accounts empty_stage
      (adopt_carried_nonce faults accounts env.account_nonces from empty_stage) _
      (adopt-IsKept faults accounts env.account_nonces from empty_stage empty-IsOrdered)
      (adopt-IsKept faults accounts env.account_nonces to
        (adopt_carried_nonce faults accounts env.account_nonces from empty_stage)))

parsed-value : (tx : Tx) (value : ℤ) → parse_transaction tx ≡ ok value → value ≡ value_of tx.value
unfolding parse_transaction
parsed-value tx value h = ground (arith, h)

kept-IsMoved :
    (accounts : Accounts) (s s' : Stage) (m : ℕ → ℤ) {r : Result Stage}
    → IsKept accounts s s'
    → Leaves (IsMoved accounts s' m) r
    → Leaves (IsMoved accounts s m) r
kept-IsMoved accounts s s' m k l = Leaves-map l λ s'' g. (g.0, λ a. rw (g.1 a, k.1 a) refl)

execute-IsMoved :
    (env : Env) (faults : Faults) (accounts : Accounts) (from to : ℕ) (tx : Tx)
    → Leaves
        (IsMoved accounts empty_stage (effect env from to tx))
        (execute env faults accounts from to tx)
unfolding execute effect
execute-IsMoved env faults accounts from to tx =
    Leaves-next
      (guard (readable faults accounts (from ∷ to ∷ env.coinbase ∷ env.zkvm ∷ []))
        unreadable_account)
      (Leaves-after λ value h.
        Leaves-next (guard (is_found (get_account faults checking_sender accounts from)) no_sender)
          (Leaves-then
            (stage_recipient-IsKept env faults accounts from to _ _
              (missing-find faults checking_recipient accounts to))
            λ s0 k. kept-IsMoved accounts empty_stage s0 _ k (
              rw (← parsed-value tx value h) (
                IsMoved-then accounts s0 (at from (pos 0 -ℤ (value +ℤ pos (tx_gas_fee tx)))) _
                  (deduct_from_sender-IsMoved faults accounts from tx.nonce
                    (value +ℤ pos (tx_gas_fee tx)) env.timestamp s0 k.0)
                  λ s1 o1.
                    IsMoved-then accounts s1 (at to value) _
                      (add_to_recipient-IsMoved faults accounts to value env.timestamp s1 o1)
                      λ s2 o2.
                        IsMoved-then accounts s2
                          (paid
                            (split_fee (some (tx_gas_fee tx)) env.coinbase env.fee_recipients).1)
                          _
                          (credit_all-IsMoved faults accounts env.timestamp
                            (split_fee (some (tx_gas_fee tx)) env.coinbase env.fee_recipients).1 s2
                            o2)
                          λ s3 o3.
                            add_to_recipient-IsMoved faults accounts env.zkvm
                              (pos
                                (split_fee (some (tx_gas_fee tx)) env.coinbase
                                  env.fee_recipients).0)
                              env.timestamp s3 o3))))

find-write_doc :
    (accounts : Accounts) (addr : ℕ) (o : Option Account) (a : ℕ)
    → find (write_doc accounts addr o) a
      ≡ (if addr == a then first o (find accounts a) else find accounts a)
unfolding write_doc
find-write_doc accounts addr none a = ground arith
find-write_doc accounts addr (some doc) a = find-store accounts addr a doc

-- What is stored after the staged documents are written.
find-write_docs :
    (docs : Accounts) (order : List ℕ) (accounts : Accounts) (a : ℕ)
    → find (write_docs accounts docs order) a
      ≡ (if holds order a then first (find docs a) (find accounts a) else find accounts a)
unfolding write_docs holds
find-write_docs docs [] accounts a = refl
find-write_docs docs (addr ∷ order) accounts a = elim (Bool-cases (addr == a)) [
  | inl e ↦
      rw
        (
          find-write_docs docs order _ a,
          find-write_doc accounts addr (find docs addr) a,
          e,
          (==_iff addr a).0 e,
        )
        (ground arith)
  | inr e ↦
      rw (find-write_docs docs order _ a, find-write_doc accounts addr (find docs addr) a, e) refl
]

write_docs-view :
    (accounts : Accounts) (s : Stage) (a : ℕ)
    → IsOrdered s
    → worth (find (write_docs accounts s.docs s.order) a) ≡ view accounts s a
unfolding view
write_docs-view accounts s a o = rw (find-write_docs s.docs s.order accounts a, o a) (ground arith)

-- What a transaction leaves: an error leaves the accounts and the markers, and a success moves its
-- effect and marks the transaction.
unfoldable pub Applies : Env → ℕ → ℕ → Tx → Ledger → Option TxError × Ledger → Type 0
Applies env from to tx l (some e, l') =
    (l'.accounts ≡ l.accounts) × ((hash : String) → is_tx_applied l' hash ≡ is_tx_applied l hash)
Applies env from to tx l (none, l') =
    ((a : ℕ) → worth (find l'.accounts a) ≡ worth (find l.accounts a) +ℤ effect env from to tx a)
    × ((hash : String) → is_tx_applied l' hash ≡ (str_eq tx.hash hash || is_tx_applied l hash))

pub cleanup-keeps :
    (hash : String) (l : Ledger)
    → ((cleanup_processing_markers hash l).accounts ≡ l.accounts)
      × ((other : String)
          → is_tx_applied (cleanup_processing_markers hash l) other ≡ is_tx_applied l other)
unfolding cleanup_processing_markers is_tx_applied
cleanup-keeps hash l = elim (Bool-cases (has l.processing hash)) [
  | inl e ↦ rw (cleanup_processing_markers, e) (refl, λ other. refl)
  | inr e ↦ rw (cleanup_processing_markers, e) (refl, λ other. refl)
]

atomic-some :
    (failing : Bool) (docs : Accounts) (order : List ℕ) (hash : String) (now : ℕ) (l l' : Ledger)
    → apply_tx_atomic failing docs order hash now l ≡ some l'
    → (l'.accounts ≡ write_docs l.accounts docs order)
      × (l'.tx_markers ≡ put l.tx_markers hash (stamp (pos now)))
      × (l'.legacy_tx_markers ≡ l.legacy_tx_markers)
unfolding apply_tx_atomic
atomic-some failing docs order hash now l l' h = ground (arith, h)

pub is_tx_applied-put :
    (l l' : Ledger) (hash other : String) (now : ℕ)
    → l'.tx_markers ≡ put l.tx_markers hash (stamp (pos now))
    → l'.legacy_tx_markers ≡ l.legacy_tx_markers
    → is_tx_applied l' other ≡ (str_eq hash other || is_tx_applied l other)
unfolding is_tx_applied dual_read marker_value_applied
is_tx_applied-put l l' hash other now m g =
    rw (m, g) (ground (arith, get-put l.tx_markers hash other (stamp (pos now))))

commit-Applies :
    (env : Env) (faults : Faults) (from to : ℕ) (tx : Tx) (l : Ledger) (r : Result Stage)
    → Leaves (IsMoved l.accounts empty_stage (effect env from to tx)) r
    → Applies env from to tx l (commit_stage env faults tx r l)
unfolding commit_stage committed Applies view find
commit-Applies env faults from to tx l (err e) fails = cleanup-keeps tx.hash l
commit-Applies env faults from to tx l (ok s) (leaves h) =
    elim (Option-cases (apply_tx_atomic faults.commit_fails s.docs s.order tx.hash env.now l)) [
      | inl e ↦ rw e (cleanup-keeps tx.hash l)
      | inr (l', e) ↦ rw e (
        moved l' (atomic-some _ s.docs s.order tx.hash env.now l l' e).0,
        marked l' (atomic-some _ s.docs s.order tx.hash env.now l l' e),
      )
    ]
  where
    moved :
        (l' : Ledger)
        → l'.accounts ≡ write_docs l.accounts s.docs s.order
        → (a : ℕ)
        → worth (find (cleanup_processing_markers tx.hash l').accounts a)
          ≡ worth (find l.accounts a) +ℤ effect env from to tx a
    moved l' e a =
        rw ((cleanup-keeps tx.hash l').0, e, write_docs-view l.accounts s a h.0, h.1 a) refl

    marked :
        (l' : Ledger)
        → (l'.accounts ≡ write_docs l.accounts s.docs s.order)
          × (l'.tx_markers ≡ put l.tx_markers tx.hash (stamp (pos env.now)))
          × (l'.legacy_tx_markers ≡ l.legacy_tx_markers)
        → (other : String)
        → is_tx_applied (cleanup_processing_markers tx.hash l') other
          ≡ (str_eq tx.hash other || is_tx_applied l other)
    marked l' e other =
        (cleanup-keeps tx.hash l').1 other ∙ is_tx_applied-put l l' tx.hash other env.now e.1 e.2

pub process_between-Applies :
    (env : Env) (faults : Faults) (from to : ℕ) (tx : Tx) (l : Ledger)
    → (not faults.marker_unread && is_tx_applied l tx.hash) ≡ false
    → Applies env from to tx l (process_between env faults (some from) (some to) tx l)
unfolding process_between mark_processing Applies is_tx_applied
process_between-Applies env faults from to tx l h =
    if-either (Applies env from to tx l) faults.no_connection (refl, λ hash. refl)
      (if-second (Applies env from to tx l) (not faults.marker_unread && is_tx_applied l tx.hash) _
        h
        (commit-Applies env faults from to tx (mark_processing env.now tx.hash l) _
          (execute-IsMoved env faults l.accounts from to tx)))

-- processTransaction on a transaction whose sender and recipient addresses are not nil, and whose
-- marker is not read as applied (the read fails, or the hash is not marked). When it ends in an error,
-- whatever fails, all accounts and the markers of all hashes read as before. When it succeeds, the
-- balance of every address, a missing or unreadable one counting as 0, changes by the transaction's
-- effect there: the sender pays the value and the fee, the recipient gets the value, and the coinbase,
-- the fee recipients and the ZKVM account get what SplitFee gives them, summed where these coincide;
-- and the hashes that read as applied are those that did before and the transaction's own.
pub process_transaction-Applies :
    (env : Env) (faults : Faults) (from to : ℕ) (tx : Tx) (l : Ledger)
    → tx.from ≡ some from
    → tx.to ≡ some to
    → (not faults.marker_unread && is_tx_applied l tx.hash) ≡ false
    → Applies env from to tx l (process_transaction env faults tx l)
unfolding process_transaction
process_transaction-Applies env faults from to tx l f t h =
    rw
      (ap (λ o. process_between env faults o tx.to tx l) f
        ∙ ap (λ o. process_between env faults (some from) o tx l) t)
      (process_between-Applies env faults from to tx l h)
