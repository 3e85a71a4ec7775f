-- ===== src/Ledger/Execute.antt =====
-- Processing.go: parseTransaction and processTransaction. `create_missing` is the variable
-- CreateMissingAccounts, and `did` the text of an address in a DID.
use jmdn.Base.{
  ℕ, Bool, true, false, ◌&&◌, not, Option, none, some, String, List, [], ◌∷◌, put, has, ◌==◌,
  if◌then◌else◌, ℤ, pos, ◌+ℤ◌, ltb_ℤ, Table, find,
}
use jmdn.Fee.{FeeRecipient, FeeCredit, gas_fee, split_fee}
use jmdn.Ledger.{amount, Account, Accounts, Tx, stamp, Ledger}
use jmdn.Ledger.Markers.{marker_revoked, is_tx_applied, apply_tx_atomic}
use jmdn.Ledger.Stage.{
  TxError, nil_address, no_connection, unreadable_account, negative_value, no_sender,
  unreadable_recipient, no_recipient, commit_failed, Result, ok, err, ◌>>=◌, ◌>>◌, guard,
  snapshotting, checking_sender, checking_recipient, Faults, Read, found, missing, failed,
  get_account, Stage, empty_stage, stage_put, adopt_carried_nonce, deduct_from_sender,
  add_to_recipient, nanos,
}

-- What a block tells each of its transactions, and the clock.
pub record Env : Type 0 where
  pub coinbase : ℕ
  pub zkvm : ℕ
  pub fee_recipients : List FeeRecipient
  pub timestamp : ℕ
  pub account_nonces : Table ℕ
  pub create_missing : Bool
  pub did : ℕ → String
  pub now : ℕ

-- parseTransaction: the value, 0 when there is none.
unfoldable pub value_of : Option ℤ → ℤ
value_of none = pos 0
value_of (some v) = v

unfoldable pub parse_transaction : Tx → Result ℤ
parse_transaction tx =
    if ltb_ℤ (value_of tx.value) (pos 0) then err negative_value else ok (value_of tx.value)

unfoldable pub tx_gas_fee : Tx → ℕ
tx_gas_fee tx = gas_fee tx.tx_type tx.gas_limit tx.gas_price tx.max_fee tx.max_priority_fee

-- The read of the four accounts before anything is staged: a missing one is no error.
unfoldable pub is_failed : Read → Bool
is_failed failed = true
is_failed (found doc) = false
is_failed missing = false

unfoldable pub is_found : Read → Bool
is_found (found doc) = true
is_found missing = false
is_found failed = false

unfoldable pub readable : Faults → Accounts → List ℕ → Bool
readable faults accounts [] = true
readable faults accounts (addr ∷ addrs) =
    not (is_failed (get_account faults snapshotting accounts addr))
    && readable faults accounts addrs

-- The carried nonce, where 0 counts as absent.
unfoldable pub carried_nonce : Option ℕ → Option ℕ
carried_nonce none = none
carried_nonce (some nonce) = if nonce == 0 then none else some nonce

unfoldable pub new_account : Env → ℕ → ℕ → Account
new_account env addr nonce = record {
  did_address = env.did addr;
  nonce = nonce;
  address = addr;
  balance = amount (pos 0);
  tx_nonce = 0;
  tx_count_sent = 0;
  account_type = "user";
  created_at = nanos env.timestamp;
  updated_at = nanos env.timestamp;
}

-- The stage with the recipient, which is created when it is missing.
unfoldable pub stage_recipient : Env → Faults → Accounts → ℕ → ℕ → Read → Option ℕ → Result Stage
stage_recipient env faults accounts from to failed carried = err unreadable_recipient
stage_recipient env faults accounts from to missing none = err no_recipient
stage_recipient env faults accounts from to missing (some nonce) =
    if env.create_missing
    then ok (
        adopt_carried_nonce faults accounts env.account_nonces from
          (stage_put to (new_account env to nonce) empty_stage))
    else err no_recipient
stage_recipient env faults accounts from to (found doc) carried = ok (
    adopt_carried_nonce faults accounts env.account_nonces to
      (adopt_carried_nonce faults accounts env.account_nonces from empty_stage))

unfoldable pub credit_all : Faults → Accounts → ℕ → List FeeCredit → Stage → Result Stage
credit_all faults accounts timestamp [] s = ok s
credit_all faults accounts timestamp (c ∷ cs) s =
    add_to_recipient faults accounts c.addr (pos c.amount) timestamp s
    >>= credit_all faults accounts timestamp cs

-- The mutations of one transaction, staged.
unfoldable pub execute : Env → Faults → Accounts → ℕ → ℕ → Tx → Result Stage
execute env faults accounts from to tx = do
  guard (readable faults accounts (from ∷ to ∷ env.coinbase ∷ env.zkvm ∷ [])) unreadable_account
  value ← parse_transaction tx
  guard (is_found (get_account faults checking_sender accounts from)) no_sender
  s0 ←
      stage_recipient env faults accounts from to
        (get_account faults checking_recipient accounts to)
        (carried_nonce (find env.account_nonces to))
  s1 ←
      deduct_from_sender faults accounts from tx.nonce (value +ℤ pos (tx_gas_fee tx)) env.timestamp
        s0
  s2 ← add_to_recipient faults accounts to value env.timestamp s1
  s3 ←
      credit_all faults accounts env.timestamp
        (split_fee (some (tx_gas_fee tx)) env.coinbase env.fee_recipients).1 s2
  add_to_recipient faults accounts env.zkvm
      (pos (split_fee (some (tx_gas_fee tx)) env.coinbase env.fee_recipients).0) env.timestamp s3

-- The mark that the transaction is being processed.
unfoldable pub mark_processing : ℕ → String → Ledger → Ledger
mark_processing now hash l = record l { processing = put l.processing hash (stamp (pos now)) }

unfoldable pub cleanup_processing_markers : String → Ledger → Ledger
cleanup_processing_markers hash l =
    if has l.processing hash
    then record l { processing = put l.processing hash (stamp marker_revoked) }
    else l

unfoldable pub committed : Option Ledger → Ledger → String → Option TxError × Ledger
committed none l hash = (some commit_failed, cleanup_processing_markers hash l)
committed (some l') l hash = (none, cleanup_processing_markers hash l')

-- The commit of what was staged, or the error.
unfoldable pub commit_stage : Env → Faults → Tx → Result Stage → Ledger → Option TxError × Ledger
commit_stage env faults tx (err e) l = (some e, cleanup_processing_markers tx.hash l)
commit_stage env faults tx (ok s) l =
    committed (apply_tx_atomic faults.commit_fails s.docs s.order tx.hash env.now l) l tx.hash

unfoldable pub process_between :
    Env → Faults → Option ℕ → Option ℕ → Tx → Ledger → Option TxError × Ledger
process_between env faults (some from) (some to) tx l =
    if faults.no_connection
    then (some no_connection, l)
    else if not faults.marker_unread && is_tx_applied l tx.hash
    then (none, l)
    else commit_stage env faults tx (execute env faults l.accounts from to tx)
        (mark_processing env.now tx.hash l)
process_between env faults none to tx l = (some nil_address, l)
process_between env faults (some from) none tx l = (some nil_address, l)

-- processTransaction. A nil address is a panic: the block's loop never gets there with one.
unfoldable pub process_transaction : Env → Faults → Tx → Ledger → Option TxError × Ledger
process_transaction env faults tx l = process_between env faults tx.from tx.to tx l
