-- ===== src/Ledger/Tests.antt =====
-- Runs of the two paths on a block of two transactions, and the theorems at concrete inputs.
mod Ordinals
use jmdn.Base.{
  ltb, ◌<◌, ◌⊎◌, ◌≢◌, ℕ, ◌≡◌, refl, true, false, none, some, String, List, [], ◌∷◌, pos, ltb_ℤ, ◌≤◌,
  ◌+ℤ◌, ◌-ℤ◌, find, store, holds, member, get, put, All, length, IsDistinct, arith,
}
use jmdn.Fee.{
  split_fee, gas_fee, effective_gas_limit, effective_gas_price, distribute, sort_recipients,
  insert_recipient, add_remainder,
}
use jmdn.Ledger.{amount, Account, Tx, Block, Ledger}
use jmdn.Ledger.Markers.{
  art_ordinal_max, marker_value_applied, dual_read, is_tx_applied, is_block_applied,
  filter_processed_tx_markers, write_doc, write_docs, apply_tx_atomic, revoke_all,
  revoke_tx_processed_markers, write_block_processed_marker, next_live_anchor, current_anchor,
  advance_anchor, read_art_ordinal_next, bump_art_ordinal_floor,
}
use jmdn.Ledger.Stage.{
  Faults, insufficient_balance, read_of, get_account, staged_or_read, stage_get, stage_put,
  adopt_nonce, adopt_carried_nonce, parse_balance, document, deducted, deduct_from_sender,
  add_to_recipient,
}
use jmdn.Ledger.Execute.{
  value_of, parse_transaction, tx_gas_fee, is_failed, is_found, readable, carried_nonce,
  new_account, stage_recipient, credit_all, execute, mark_processing, cleanup_processing_markers,
  committed, commit_stage, process_between, process_transaction,
}
use jmdn.Ledger.Processing.{
  BlockFaults, Node, processed, rolled_back, snapshot_of, block_read, tx_accounts, txs_accounts,
  affected_accounts, take_snapshots, restored_doc, rollback_state, after_tx, process_one,
  process_txs, cleanup_all, max_carried_ordinal, nonce_map, raise_floor, roll_back, finish_block,
  after_run, tx_hashes, block_env, process_unmarked, process_block_transactions,
}
use jmdn.Ledger.Recon.{
  ReconFaults, delta_or_new, add_delta, positive_value, sender_delta, debit_sender, credit_receiver,
  credit_coinbase, credit_zkvm, addr_or_zero, pay_deltas, tx_deltas, deltas_from,
  compute_block_deltas, base_balance, base_account, with_delta, apply_delta_to_account,
  insert_delta, sort_deltas, cons_doc, group_docs, store_all, mark_all, commit_docs,
  commit_recon_group, outside, commit_groups, apply_block_recon,
}
use jmdn.Ledger.Recon.Groups.{
  optional, recipient_addrs, tx_touched_accounts, pending_hashes, count_new, add_accounts, is_full,
  take_group, cons_group, partition_recon_groups,
}
use jmdn.Ledger.Laws.Overlay.{worth}
use jmdn.Ledger.Laws.Execute.{Applies, process_transaction-Applies}
use jmdn.Ledger.Laws.Marked.{process_block_once}
use jmdn.Ledger.Laws.Groups.{joined, partition_complete, IsWithin, take_group_bounded}
use jmdn.Ledger.Laws.Paths.{recon_agrees_with_live}
use jmdn.Ledger.Laws.Succeeds.{IsUsable, process_transaction_succeeds}
use jmdn.Ledger.Laws.Restored.{process_block_restores}

abbrev account : ℕ → ℕ → Account
account addr coins = record {
  did_address = "did";
  nonce = addr;
  address = addr;
  balance = amount (pos coins);
  tx_nonce = 0;
  tx_count_sent = 0;
  account_type = "user";
  created_at = 0;
  updated_at = 0;
}

-- Two users, the coinbase 3 and the ZKVM 4.
abbrev ledger : Ledger
ledger = record {
  accounts =
      (1, account 1 1000) ∷ ((2, account 2 50) ∷ ((3, account 3 0) ∷ ((4, account 4 0) ∷ [])));
  tx_markers = [];
  block_markers = [];
  anchor = none;
  legacy_tx_markers = [];
  legacy_block_markers = [];
  processing = [];
  art_next = none;
}

abbrev transfer : String → ℕ → ℕ → ℕ → ℕ → Tx
transfer hash from to coins nonce = record {
  hash = hash;
  from = some from;
  to = some to;
  value = some (pos coins);
  tx_type = 0;
  nonce = nonce;
  gas_limit = 3;
  gas_price = some 5;
  max_fee = none;
  max_priority_fee = none;
}

abbrev block_of : List Tx → Block
block_of txs = record {
  block_number = 1;
  block_hash = "b";
  timestamp = 9;
  transactions = txs;
  coinbase_addr = some 3;
  zkvm_addr = some 4;
  fee_recipients = [];
  account_nonces = [];
}

abbrev good : Block
good = block_of (transfer "x" 1 2 100 0 ∷ (transfer "y" 2 1 60 0 ∷ []))

-- Its second transaction asks for more than the sender has.
abbrev bad : Block
bad = block_of (transfer "x" 1 2 100 0 ∷ (transfer "y" 2 1 600 0 ∷ []))

abbrev no_faults : Faults
no_faults = record {
  no_connection = false;
  marker_unread = false;
  unread = λ phase addr. false;
  commit_fails = false;
}

abbrev no_block_faults : BlockFaults
no_block_faults = record {
  marker_unread = false;
  floor_fails = false;
  snapshot_unread = λ addr. false;
  prefilter_fails = false;
  tx = λ i. no_faults;
  revoked_chunks = none;
  rollback_unread = λ addr. false;
  update_fails = λ addr. false;
  block_marker_fails = false;
  anchor_fails = false;
}

abbrev this_node : Node
this_node = record { create_missing = false; did = λ addr. "did"; now = 7 }

abbrev no_recon_faults : ReconFaults
no_recon_faults = record { filter_fails = false; commit_fails = λ i. false }

good-processed : (process_block_transactions this_node no_block_faults good ledger).0 ≡ processed
unfolding find store holds member get put ◌+ℤ◌ ◌-ℤ◌ split_fee gas_fee effective_gas_limit
    effective_gas_price distribute sort_recipients insert_recipient add_remainder read_of
    get_account staged_or_read stage_get stage_put adopt_nonce adopt_carried_nonce parse_balance
    document deducted deduct_from_sender add_to_recipient value_of parse_transaction tx_gas_fee
    is_failed is_found readable carried_nonce new_account stage_recipient credit_all execute
    mark_processing cleanup_processing_markers committed commit_stage process_between
    process_transaction snapshot_of block_read tx_accounts txs_accounts affected_accounts
    take_snapshots restored_doc rollback_state after_tx process_one process_txs cleanup_all
    max_carried_ordinal nonce_map raise_floor roll_back finish_block after_run tx_hashes block_env
    process_unmarked process_block_transactions marker_value_applied dual_read is_tx_applied
    is_block_applied filter_processed_tx_markers write_doc write_docs apply_tx_atomic revoke_all
    revoke_tx_processed_markers write_block_processed_marker next_live_anchor current_anchor
    advance_anchor read_art_ordinal_next bump_art_ordinal_floor
good-processed = refl

bad-rolled_back :
    (process_block_transactions this_node no_block_faults bad ledger).0
    ≡ rolled_back insufficient_balance
unfolding find store holds member get put ◌+ℤ◌ ◌-ℤ◌ split_fee gas_fee effective_gas_limit
    effective_gas_price distribute sort_recipients insert_recipient add_remainder read_of
    get_account staged_or_read stage_get stage_put adopt_nonce adopt_carried_nonce parse_balance
    document deducted deduct_from_sender add_to_recipient value_of parse_transaction tx_gas_fee
    is_failed is_found readable carried_nonce new_account stage_recipient credit_all execute
    mark_processing cleanup_processing_markers committed commit_stage process_between
    process_transaction snapshot_of block_read tx_accounts txs_accounts affected_accounts
    take_snapshots restored_doc rollback_state after_tx process_one process_txs cleanup_all
    max_carried_ordinal nonce_map raise_floor roll_back finish_block after_run tx_hashes block_env
    process_unmarked process_block_transactions marker_value_applied dual_read is_tx_applied
    is_block_applied filter_processed_tx_markers write_doc write_docs apply_tx_atomic revoke_all
    revoke_tx_processed_markers write_block_processed_marker next_live_anchor current_anchor
    advance_anchor read_art_ordinal_next bump_art_ordinal_floor
bad-rolled_back = refl

good-reconciled : (apply_block_recon no_recon_faults 8 (some good) "" ledger).0 ≡ true
unfolding find store holds member get put ◌+ℤ◌ ◌-ℤ◌ split_fee gas_fee effective_gas_limit
    effective_gas_price distribute sort_recipients insert_recipient add_remainder tx_gas_fee
    value_of tx_hashes filter_processed_tx_markers is_tx_applied dual_read delta_or_new add_delta
    positive_value sender_delta debit_sender credit_receiver credit_coinbase credit_zkvm
    addr_or_zero pay_deltas tx_deltas deltas_from compute_block_deltas base_balance base_account
    with_delta apply_delta_to_account insert_delta sort_deltas cons_doc group_docs store_all
    mark_all commit_docs commit_recon_group outside commit_groups apply_block_recon optional
    recipient_addrs tx_touched_accounts pending_hashes count_new add_accounts is_full take_group
    cons_group partition_recon_groups
good-reconciled = refl

first_unmarked : is_tx_applied ledger "x" ≡ false
unfolding is_tx_applied dual_read get
first_unmarked = refl

process_transaction-Applies_example :
    Applies
      (block_env this_node good 3 4)
      1
      2
      (transfer "x" 1 2 100 0)
      ledger
      (process_transaction (block_env this_node good 3 4) no_faults (transfer "x" 1 2 100 0) ledger)
process_transaction-Applies_example =
    process_transaction-Applies (block_env this_node good 3 4) no_faults 1 2
      (transfer "x" 1 2 100 0) ledger refl refl first_unmarked

process_block_once_example :
    ((process_block_transactions this_node no_block_faults good
        (process_block_transactions this_node no_block_faults good ledger).1).1.accounts
      ≡ (process_block_transactions this_node no_block_faults good ledger).1.accounts)
    × ((apply_block_recon no_recon_faults 8
          (some good)
          ""
          (process_block_transactions this_node no_block_faults good ledger).1).1
        ≡ (process_block_transactions this_node no_block_faults good ledger).1)
process_block_once_example =
    process_block_once this_node this_node no_block_faults no_block_faults no_recon_faults 8 "" good
      ledger good-processed

partition_complete_example :
    (joined (
        partition_recon_groups 2 good
          (pending_hashes ("x" ∷ []) good.transactions)
          1
          good.transactions)
      ≡ pending_hashes ("x" ∷ []) good.transactions)
    × All
        (λ (g : List String). 1 ≤ length g)
        (partition_recon_groups 2 good
          (pending_hashes ("x" ∷ []) good.transactions)
          1
          good.transactions)
partition_complete_example = partition_complete good ("x" ∷ []) 1

take_group_bounded_example :
    IsWithin 10 (take_group good ("x" ∷ ("y" ∷ [])) 10 [] [] good.transactions)
    × (length (take_group good ("x" ∷ ("y" ∷ [])) 10 [] [] good.transactions).rest ≤ 1)
take_group_bounded_example =
    take_group_bounded good ("x" ∷ ("y" ∷ [])) 10 (transfer "x" 1 2 100 0)
      (transfer "y" 2 1 60 0 ∷ [])

not_negative : (n : ℕ) → ltb_ℤ (value_of (some (pos n))) (pos 0) ≡ false
unfolding value_of
not_negative n = ground arith

bad-accounts : affected_accounts bad ≡ some (3 ∷ (4 ∷ (1 ∷ (2 ∷ (2 ∷ (1 ∷ []))))))
unfolding affected_accounts txs_accounts tx_accounts
bad-accounts = refl

bad-holds : holds (3 ∷ (4 ∷ (1 ∷ (2 ∷ (2 ∷ (1 ∷ [])))))) 1 ≡ true
unfolding holds
bad-holds = refl

good-IsDistinct : IsDistinct (tx_hashes good.transactions)
unfolding tx_hashes member
good-IsDistinct = (refl, (refl, tt))

recon_agrees_with_live_example :
    worth (find (apply_block_recon no_recon_faults 8 (some good) "" ledger).1.accounts 2)
    ≡ worth (find (process_block_transactions this_node no_block_faults good ledger).1.accounts 2)
recon_agrees_with_live_example =
    recon_agrees_with_live this_node no_block_faults no_recon_faults 8 "" good 3 4 ledger 2 refl
      refl ((1, 2, refl, refl, not_negative 100), ((2, 1, refl, refl, not_negative 60), tt))
      good-IsDistinct good-processed good-reconciled

process_block_restores_example :
    worth (find (process_block_transactions this_node no_block_faults bad ledger).1.accounts 1)
    ≡ worth (find ledger.accounts 1)
process_block_restores_example =
    process_block_restores this_node no_block_faults bad ledger insufficient_balance
      (3 ∷ (4 ∷ (1 ∷ (2 ∷ (2 ∷ (1 ∷ [])))))) 1 bad-accounts bad-holds refl bad-rolled_back

good-credits : length (split_fee (some (tx_gas_fee (transfer "x" 1 2 100 0))) 3 []).1 ≤ 1000
unfolding split_fee tx_gas_fee gas_fee effective_gas_limit effective_gas_price distribute
    sort_recipients
good-credits = omega arith

covers :
    ltb_ℤ (pos 1000) (value_of (some (pos 100)) +ℤ pos (tx_gas_fee (transfer "x" 1 2 100 0)))
    ≡ false
unfolding value_of tx_gas_fee gas_fee effective_gas_limit effective_gas_price ◌+ℤ◌
covers = refl

stored :
    (a coins : ℕ) → find ledger.accounts a ≡ some (account a coins) → IsUsable ledger.accounts a
stored a coins h = (account a coins, pos coins, h, refl)

process_transaction_succeeds_example :
    (process_transaction (block_env this_node good 3 4) no_faults (transfer "x" 1 2 100 0) ledger).0
    ≡ none
unfolding find nonce_map block_env
process_transaction_succeeds_example =
    process_transaction_succeeds (block_env this_node good 3 4) no_faults 1 2
      (transfer "x" 1 2 100 0) ledger (account 1 1000) (pos 1000) refl refl
      (refl, refl, λ phase a. refl) refl refl refl refl refl (not_negative 100) covers
      (stored 2 50 refl) (stored 3 0 refl) (stored 4 0 refl) tt good-credits
