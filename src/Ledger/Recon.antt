-- ===== src/Ledger/Recon.antt =====
-- DB_OPs/account_recon.go: the effects of a stored block, applied in groups of transactions that
-- each fit one commit. `Groups` is the partition into groups.
pub mod Groups
use jmdn.Base.{
  ℕ, zero, suc, ◌+◌, Bool, true, false, ◌&&◌, ◌||◌, not, Option, none, some, String, List, [], ◌∷◌,
  ◌++◌, Dict, put, member, length, leb, ltb, ◌==◌, str_eq, u64, if◌then◌else◌, ℤ, pos, ◌+ℤ◌, ◌-ℤ◌,
  ltb_ℤ, Table, find, store, holds,
}
use jmdn.Fee.{FeeRecipient, FeeCredit, split_fee}
use jmdn.Committee.Text.{equal_fold}
use jmdn.Ledger.{
  Balance, blank, malformed, amount, Account, Accounts, Tx, Block, Marker, stamp, Ledger,
}
use jmdn.Ledger.Markers.{max_exec_all_entries, filter_processed_tx_markers}
use jmdn.Ledger.Stage.{nanos}
use jmdn.Ledger.Execute.{tx_gas_fee}
use jmdn.Ledger.Processing.{tx_hashes}
use jmdn.Ledger.Recon.Groups.{partition_recon_groups, pending_hashes, recon_group_op_budget}

pub record BlockAccountDelta : Type 0 where
  pub balance_delta : ℤ
  pub tx_nonce : ℕ
  pub tx_count_sent : ℕ
  pub is_sender : Bool

abbrev pub Deltas : Type 0
Deltas = Table BlockAccountDelta

unfoldable pub delta_or_new : Option BlockAccountDelta → BlockAccountDelta
delta_or_new none = record {
  balance_delta = pos 0;
  tx_nonce = 0;
  tx_count_sent = 0;
  is_sender = false;
}
delta_or_new (some d) = d

-- d := get(addr); d.BalanceDelta.Add(d.BalanceDelta, n)
unfoldable pub add_delta : ℕ → ℤ → Deltas → Deltas
add_delta addr n deltas =
    let d = delta_or_new (find deltas addr) in
    store deltas addr (record d { balance_delta = d.balance_delta +ℤ n })

-- The value when it is above zero.
unfoldable pub positive_value : Option ℤ → Option ℤ
positive_value none = none
positive_value (some v) = if ltb_ℤ (pos 0) v then some v else none

unfoldable pub sender_delta : ℕ → Option ℤ → ℕ → BlockAccountDelta → BlockAccountDelta
sender_delta fee value tx_nonce d =
    let charged = d.balance_delta -ℤ pos fee in
    record {
      balance_delta = elim value [ none ↦ charged | some v ↦ charged -ℤ v ];
      tx_nonce =
          if not d.is_sender || ltb d.tx_nonce (u64 (tx_nonce + 1))
          then u64 (tx_nonce + 1)
          else d.tx_nonce;
      tx_count_sent = u64 (d.tx_count_sent + 1);
      is_sender = true;
    }

unfoldable pub debit_sender : ℕ → Tx → Option ℕ → Deltas → Deltas
debit_sender fee tx none deltas = deltas
debit_sender fee tx (some from) deltas =
    store deltas from
      (sender_delta fee (positive_value tx.value) tx.nonce (delta_or_new (find deltas from)))

unfoldable pub credit_receiver : Option ℕ → Option ℤ → Deltas → Deltas
credit_receiver none value deltas = deltas
credit_receiver (some to) none deltas = deltas
credit_receiver (some to) (some v) deltas = add_delta to v deltas

unfoldable pub credit_coinbase : List FeeCredit → Deltas → Deltas
credit_coinbase [] deltas = deltas
credit_coinbase (c ∷ cs) deltas = credit_coinbase cs (add_delta c.addr (pos c.amount) deltas)

unfoldable pub credit_zkvm : Option ℕ → ℕ → Deltas → Deltas
credit_zkvm none share deltas = deltas
credit_zkvm (some zkvm) share deltas = add_delta zkvm (pos share) deltas

unfoldable pub addr_or_zero : Option ℕ → ℕ
addr_or_zero none = 0
addr_or_zero (some a) = a

-- The body of the loop of ComputeBlockDeltas, at the coinbase, the ZKVM, the sender and the
-- recipient.
unfoldable pub pay_deltas :
    Option ℕ → Option ℕ → List FeeRecipient → Option ℕ → Option ℕ → Tx → Deltas → Deltas
pay_deltas coinbase zkvm recipients from to tx deltas =
    let split = split_fee (some (tx_gas_fee tx)) (addr_or_zero coinbase) recipients in
    let paid =
      credit_receiver to (positive_value tx.value) (debit_sender (tx_gas_fee tx) tx from deltas) in
    credit_zkvm zkvm split.0 (elim coinbase [ none ↦ paid | some a ↦ credit_coinbase split.1 paid ])

unfoldable pub tx_deltas : Block → Tx → Deltas → Deltas
tx_deltas b tx deltas =
    pay_deltas b.coinbase_addr b.zkvm_addr b.fee_recipients tx.from tx.to tx deltas

unfoldable pub deltas_from : Block → List String → List Tx → Deltas → Deltas
deltas_from b skip [] deltas = deltas
deltas_from b skip (tx ∷ txs) deltas =
    deltas_from b skip txs (if member skip tx.hash then deltas else tx_deltas b tx deltas)

unfoldable pub compute_block_deltas : Block → List String → Deltas
compute_block_deltas b skip = deltas_from b skip b.transactions []

-- applyDeltaToAccount; none is a stored balance that is no number.
unfoldable pub base_balance : Balance → Option ℤ
base_balance blank = some (pos 0)
base_balance malformed = none
base_balance (amount n) = some n

unfoldable pub base_account : Option Account → ℕ → ℕ → Account
base_account (some doc) addr updated_at = doc
base_account none addr updated_at = record {
  did_address = "";
  nonce = 0;
  address = addr;
  balance = amount (pos 0);
  tx_nonce = 0;
  tx_count_sent = 0;
  account_type = "user";
  created_at = updated_at;
  updated_at = 0;
}

unfoldable pub with_delta : Account → BlockAccountDelta → ℕ → ℤ → Account
with_delta doc d updated_at base = record doc {
  balance = amount (base +ℤ d.balance_delta);
  tx_nonce = if ltb doc.tx_nonce d.tx_nonce then d.tx_nonce else doc.tx_nonce;
  tx_count_sent = u64 (doc.tx_count_sent + d.tx_count_sent);
  updated_at = updated_at;
}

unfoldable pub apply_delta_to_account : Option Account → ℕ → BlockAccountDelta → ℕ → Option Account
apply_delta_to_account existing addr d updated_at =
    let doc = base_account existing addr updated_at in
    elim (base_balance doc.balance) [
      | none ↦ none
      | some base ↦ some (with_delta doc d updated_at base)
    ]

-- sort.Strings(addrs): hexadecimal texts of one length are in the order of the numbers.
unfoldable pub insert_delta : ℕ → BlockAccountDelta → Deltas → Deltas
insert_delta addr d [] = (addr, d) ∷ []
insert_delta addr d ((a, e) ∷ rest) =
    let after = insert_delta addr d rest in
    if ltb a addr then (a, e) ∷ after else (addr, d) ∷ ((a, e) ∷ rest)

unfoldable pub sort_deltas : Deltas → Deltas
sort_deltas [] = []
sort_deltas ((addr, d) ∷ rest) = insert_delta addr d (sort_deltas rest)

-- The documents of a group, each over the stored one.
unfoldable pub cons_doc : ℕ → Option Account → Option Accounts → Option Accounts
cons_doc addr (some doc) (some docs) = some ((addr, doc) ∷ docs)
cons_doc addr none docs = none
cons_doc addr (some doc) none = none

unfoldable pub group_docs : Accounts → ℕ → Deltas → Option Accounts
group_docs accounts updated_at [] = some []
group_docs accounts updated_at ((addr, d) ∷ rest) =
    cons_doc addr (apply_delta_to_account (find accounts addr) addr d updated_at)
      (group_docs accounts updated_at rest)

unfoldable pub store_all : Accounts → Accounts → Accounts
store_all accounts [] = accounts
store_all accounts ((addr, doc) ∷ docs) = store_all (store accounts addr doc) docs

unfoldable pub mark_all : ℕ → List String → Dict Marker → Dict Marker
mark_all applied_at [] m = m
mark_all applied_at (hash ∷ hashes) m =
    mark_all applied_at hashes (put m hash (stamp (pos applied_at)))

-- The commit: none is an error, which writes nothing.
unfoldable pub commit_docs : Bool → Option Accounts → List String → ℕ → Ledger → Option Ledger
commit_docs fails none group_txs applied_at l = none
commit_docs fails (some docs) group_txs applied_at l =
    if length docs + length group_txs == 0
    then some l
    else if ltb max_exec_all_entries (length docs + length group_txs)
    then none
    else if fails
    then none
    else some (record l {
      accounts = store_all l.accounts docs;
      tx_markers = mark_all applied_at group_txs l.tx_markers;
    })

-- commitReconGroup: `fails` is an error of the prefetch or of the commit.
unfoldable pub commit_recon_group : Bool → Deltas → List String → ℕ → ℕ → Ledger → Option Ledger
commit_recon_group fails deltas group_txs updated_at applied_at l =
    commit_docs fails (group_docs l.accounts updated_at (sort_deltas deltas)) group_txs applied_at l

-- The transactions of the block that are not in the group.
unfoldable pub outside : List String → List String → List String
outside group [] = []
outside group (hash ∷ hashes) =
    let rest = outside group hashes in if member group hash then rest else hash ∷ rest

pub record ReconFaults : Type 0 where
  pub filter_fails : Bool
  pub commit_fails : ℕ → Bool

-- The groups in order, until one fails.
unfoldable pub commit_groups :
    ReconFaults → Block → ℕ → ℕ → List (List String) → Ledger → Bool × Ledger
commit_groups faults b applied_at i [] l = (true, l)
commit_groups faults b applied_at i (group ∷ groups) l =
    elim (commit_recon_group (faults.commit_fails i)
      (compute_block_deltas b (outside group (tx_hashes b.transactions))) group (nanos b.timestamp)
      applied_at l) [
        | none ↦ (false, l)
        | some l' ↦ commit_groups faults b applied_at (i + 1) groups l'
      ]

-- ApplyBlockRecon on the block that is stored under the number, none when the load fails.
unfoldable pub apply_block_recon : ReconFaults → ℕ → Option Block → String → Ledger → Bool × Ledger
apply_block_recon faults applied_at none expect_hash l = (false, l)
apply_block_recon faults applied_at (some b) expect_hash l =
    if not (str_eq expect_hash "") && not (equal_fold b.block_hash expect_hash)
    then (false, l)
    else if length b.transactions == 0
    then (true, l)
    else if faults.filter_fails
    then (false, l)
    else commit_groups faults b applied_at 0
        (partition_recon_groups (length b.transactions) b
          (pending_hashes (filter_processed_tx_markers l (tx_hashes b.transactions)) b.transactions)
          recon_group_op_budget b.transactions)
        l
