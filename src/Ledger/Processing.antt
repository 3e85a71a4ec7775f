-- ===== src/Ledger/Processing.antt =====
-- Processing.go: ProcessBlockTransactions and rollbackState. The lock of a block hash keeps
-- another run of the same block away. The steps of one run follow each other here; that the steps of
-- another block or of a reconciliation may stand between two transactions is not modelled.
use jmdn.Base.{
  ℕ, ◌+◌, Bool, true, false, ◌&&◌, ◌||◌, not, Option, none, some, String, List, [], ◌∷◌, ◌++◌,
  member, ltb, ◌==◌, if◌then◌else◌, pos, Table, find, store,
}
use jmdn.Ledger.{Balance, amount, Account, Accounts, Tx, Block, Ledger}
use jmdn.Ledger.Markers.{
  is_block_applied, filter_processed_tx_markers, revoke_tx_processed_markers,
  write_block_processed_marker, advance_anchor, bump_art_ordinal_floor, art_ordinal_max,
}
use jmdn.Ledger.Stage.{TxError, Faults, Read, found, missing, failed, read_of}
use jmdn.Ledger.Execute.{Env, cleanup_processing_markers, process_transaction}

pub record AccountSnapshot : Type 0 where
  pub balance : Balance
  pub tx_nonce : ℕ
  pub tx_count_sent : ℕ
  pub updated_at : ℕ

-- Which calls of the databases fail while a block is processed: `tx` for its transactions by
-- their position, `revoked_chunks` when the revocation fails and after how many chunks.
pub record BlockFaults : Type 0 where
  pub marker_unread : Bool
  pub floor_fails : Bool
  pub snapshot_unread : ℕ → Bool
  pub prefilter_fails : Bool
  pub tx : ℕ → Faults
  pub revoked_chunks : Option ℕ
  pub rollback_unread : ℕ → Bool
  pub update_fails : ℕ → Bool
  pub block_marker_fails : Bool
  pub anchor_fails : Bool

-- The node's part of the environment.
pub record Node : Type 0 where
  pub create_missing : Bool
  pub did : ℕ → String
  pub now : ℕ

pub data BlockOutcome : Type 0 where
  already_processed processed prefilter_failed panicked : BlockOutcome
  rolled_back not_rolled_back : TxError → BlockOutcome
  rollback_failed : TxError → BlockOutcome

unfoldable pub snapshot_of : Read → AccountSnapshot
snapshot_of (found doc) = record {
  balance = doc.balance;
  tx_nonce = doc.tx_nonce;
  tx_count_sent = doc.tx_count_sent;
  updated_at = doc.updated_at;
}
snapshot_of missing = record {
  balance = amount (pos 0);
  tx_nonce = 0;
  tx_count_sent = 0;
  updated_at = 0;
}
snapshot_of failed = record {
  balance = amount (pos 0);
  tx_nonce = 0;
  tx_count_sent = 0;
  updated_at = 0;
}

unfoldable pub block_read : (ℕ → Bool) → Accounts → ℕ → Read
block_read unread accounts addr = if unread addr then failed else read_of (find accounts addr)

-- affectedAccounts; none is the panic of a nil address.
unfoldable pub tx_accounts : Option ℕ → Option ℕ → Option (List ℕ) → Option (List ℕ)
tx_accounts (some from) (some to) (some rest) = some (from ∷ to ∷ rest)
tx_accounts none to rest = none
tx_accounts (some from) none rest = none
tx_accounts (some from) (some to) none = none

unfoldable pub txs_accounts : List Tx → Option (List ℕ)
txs_accounts [] = some []
txs_accounts (tx ∷ txs) = tx_accounts tx.from tx.to (txs_accounts txs)

unfoldable pub affected_accounts : Block → Option (List ℕ)
affected_accounts b = tx_accounts b.coinbase_addr b.zkvm_addr (txs_accounts b.transactions)

unfoldable pub take_snapshots : (ℕ → Bool) → Accounts → List ℕ → Table AccountSnapshot
take_snapshots unread accounts [] = []
take_snapshots unread accounts (addr ∷ addrs) =
    store (take_snapshots unread accounts addrs) addr
      (snapshot_of (block_read unread accounts addr))

-- The document that rollbackState writes.
unfoldable pub restored_doc : ℕ → AccountSnapshot → Read → Account
restored_doc addr snap (found doc) = record doc {
  balance = snap.balance;
  tx_nonce = snap.tx_nonce;
  tx_count_sent = snap.tx_count_sent;
  updated_at = snap.updated_at;
}
restored_doc addr snap missing = record {
  did_address = "";
  nonce = 0;
  address = addr;
  balance = snap.balance;
  tx_nonce = snap.tx_nonce;
  tx_count_sent = snap.tx_count_sent;
  account_type = "";
  created_at = 0;
  updated_at = snap.updated_at;
}
restored_doc addr snap failed = record {
  did_address = "";
  nonce = 0;
  address = addr;
  balance = snap.balance;
  tx_nonce = snap.tx_nonce;
  tx_count_sent = snap.tx_count_sent;
  account_type = "";
  created_at = 0;
  updated_at = snap.updated_at;
}

-- rollbackState: it stops at the first update that fails; UpdateAccount refuses the zero address.
unfoldable pub rollback_state : BlockFaults → Table AccountSnapshot → Accounts → Accounts × Bool
rollback_state faults [] accounts = (accounts, true)
rollback_state faults ((addr, snap) ∷ snapshots) accounts =
    let rest = rollback_state faults snapshots (
      store accounts addr
        (restored_doc addr snap (block_read faults.rollback_unread accounts addr))) in
    if faults.update_fails addr || (addr == 0) then (accounts, false) else rest

-- The loop's state: the ledger, processedTxs, and successfullyProcessedTxs.
pub record Applying : Type 0 where
  pub ledger : Ledger
  pub processed_txs : List String
  pub successful : List String

pub data Step : Type 0 where
  next : Applying → Step
  failing : TxError → Applying → Step

unfoldable pub after_tx : String → Applying → Option TxError × Ledger → Step
after_tx hash a (none, l) = next (record a { ledger = l; successful = a.successful ++ (hash ∷ []) })
after_tx hash a (some e, l) = failing e (record a { ledger = l })

unfoldable pub process_one : Env → Faults → List String → Tx → Applying → Step
process_one env faults live_applied tx a =
    if member a.processed_txs tx.hash
    then next a
    else if member live_applied tx.hash
    then next (record a { processed_txs = tx.hash ∷ a.processed_txs })
    else after_tx tx.hash (record a { processed_txs = tx.hash ∷ a.processed_txs })
        (process_transaction env faults tx a.ledger)

pub data Run : Type 0 where
  finished : Applying → Run
  stopped : TxError → String → Applying → Run

unfoldable pub process_txs : Env → (ℕ → Faults) → List String → ℕ → List Tx → Applying → Run
process_txs env faults live_applied i [] a = finished a
process_txs env faults live_applied i (tx ∷ txs) a =
    elim (process_one env (faults i) live_applied tx a) [
      | next a' ↦ process_txs env faults live_applied (i + 1) txs a'
      | failing e a' ↦ stopped e tx.hash a'
    ]

unfoldable pub cleanup_all : List String → Ledger → Ledger
cleanup_all [] l = l
cleanup_all (hash ∷ hashes) l = cleanup_all hashes (cleanup_processing_markers hash l)

unfoldable pub max_carried_ordinal : Table ℕ → ℕ → ℕ
max_carried_ordinal [] top = top
max_carried_ordinal ((addr, nonce) ∷ rest) top =
    max_carried_ordinal rest (if ltb nonce art_ordinal_max && ltb top nonce then nonce else top)

-- accountNonces[an.Address] = an.Nonce
unfoldable pub nonce_map : Table ℕ → Table ℕ → Table ℕ
nonce_map [] m = m
nonce_map ((addr, nonce) ∷ rest) m = nonce_map rest (store m addr nonce)

unfoldable pub raise_floor : BlockFaults → Block → Ledger → Ledger
raise_floor faults b l =
    let top = max_carried_ordinal b.account_nonces 0 in
    if ltb 0 top then bump_art_ordinal_floor faults.floor_fails (top + 1) l else l

unfoldable pub roll_back :
    BlockFaults
    → Table AccountSnapshot
    → TxError
    → String
    → Applying
    → Ledger × Bool
    → BlockOutcome × Ledger
roll_back faults snapshots e hash a (l, false) =
    (not_rolled_back e, cleanup_processing_markers hash l)
roll_back faults snapshots e hash a (l, true) =
    let back = rollback_state faults snapshots l.accounts in
    (
      if back.1 then rolled_back e else rollback_failed e,
      cleanup_processing_markers hash (cleanup_all a.successful (record l { accounts = back.0 })),
    )

unfoldable pub finish_block : Node → BlockFaults → Block → Applying → Ledger
finish_block node faults b a =
    advance_anchor faults.anchor_fails true b.block_number (elim a.successful [
      | [] ↦ a.ledger
      | hash ∷ hashes ↦
          cleanup_all (hash ∷ hashes)
            (write_block_processed_marker faults.block_marker_fails b.block_hash node.now a.ledger)
    ])

unfoldable pub after_run :
    Node → BlockFaults → Block → Table AccountSnapshot → Run → BlockOutcome × Ledger
after_run node faults b snapshots (finished a) = (processed, finish_block node faults b a)
after_run node faults b snapshots (stopped e hash a) =
    roll_back faults snapshots e hash a
      (revoke_tx_processed_markers faults.revoked_chunks a.successful a.ledger)

unfoldable pub tx_hashes : List Tx → List String
tx_hashes [] = []
tx_hashes (tx ∷ txs) = tx.hash ∷ tx_hashes txs

unfoldable pub block_env : Node → Block → ℕ → ℕ → Env
block_env node b coinbase zkvm = record {
  coinbase = coinbase;
  zkvm = zkvm;
  fee_recipients = b.fee_recipients;
  timestamp = b.timestamp;
  account_nonces = nonce_map b.account_nonces [];
  create_missing = node.create_missing;
  did = node.did;
  now = node.now;
}

-- The block when it is not marked as processed: the addresses that it affects, its coinbase and
-- its ZKVM.
unfoldable pub process_unmarked :
    Node
    → BlockFaults
    → Block
    → Option (List ℕ)
    → Option ℕ
    → Option ℕ
    → Ledger
    → BlockOutcome × Ledger
process_unmarked node faults b (some accounts) (some coinbase) (some zkvm) l =
    if faults.prefilter_fails
    then (prefilter_failed, l)
    else after_run node faults b (take_snapshots faults.snapshot_unread l.accounts accounts) (
        process_txs (block_env node b coinbase zkvm) faults.tx
          (filter_processed_tx_markers l (tx_hashes b.transactions)) 0 b.transactions
          (record { ledger = l; processed_txs = []; successful = [] }))
process_unmarked node faults b none coinbase zkvm l = (panicked, l)
process_unmarked node faults b (some accounts) none zkvm l = (panicked, l)
process_unmarked node faults b (some accounts) (some coinbase) none l = (panicked, l)

unfoldable pub process_block_transactions :
    Node → BlockFaults → Block → Ledger → BlockOutcome × Ledger
process_block_transactions node faults b l =
    if not faults.marker_unread && is_block_applied l b.block_hash
    then (already_processed, advance_anchor faults.anchor_fails true b.block_number l)
    else process_unmarked node faults b (affected_accounts b) b.coinbase_addr b.zkvm_addr
        (raise_floor faults b l)
