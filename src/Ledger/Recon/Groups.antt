-- ===== src/Ledger/Recon/Groups.antt =====
-- account_recon.go: partitionReconGroups. The outer loop has as much fuel as there are
-- transactions.
use jmdn.Base.{
  ℕ, zero, suc, ◌+◌, Bool, ◌&&◌, not, Option, none, some, String, List, [], ◌∷◌, ◌++◌, member,
  length, ltb, if◌then◌else◌, holds,
}
use jmdn.Fee.{FeeRecipient}
use jmdn.Ledger.{Tx, Block}

abbrev pub recon_group_op_budget : ℕ
recon_group_op_budget = 1000

unfoldable pub optional : Option ℕ → List ℕ → List ℕ
optional none addrs = addrs
optional (some a) addrs = a ∷ addrs

unfoldable pub recipient_addrs : List FeeRecipient → List ℕ → List ℕ
recipient_addrs [] addrs = addrs
recipient_addrs (r ∷ rs) addrs = r.addr ∷ recipient_addrs rs addrs

unfoldable pub tx_touched_accounts : Block → Tx → List ℕ
tx_touched_accounts b tx = optional tx.from (
    optional tx.to
      (optional b.coinbase_addr (recipient_addrs b.fee_recipients (optional b.zkvm_addr []))))

-- pendingTx
unfoldable pub pending_hashes : List String → List Tx → List String
pending_hashes applied [] = []
pending_hashes applied (tx ∷ txs) =
    let rest = pending_hashes applied txs in if member applied tx.hash then rest else tx.hash ∷ rest

-- newAccounts, where an address that is listed twice counts twice.
unfoldable pub count_new : List ℕ → List ℕ → ℕ
count_new group_accounts [] = 0
count_new group_accounts (a ∷ addrs) =
    (if holds group_accounts a then 0 else 1) + count_new group_accounts addrs

-- groupAccounts[a] = true
unfoldable pub add_accounts : List ℕ → List ℕ → List ℕ
add_accounts [] group_accounts = group_accounts
add_accounts (a ∷ addrs) group_accounts =
    add_accounts addrs (if holds group_accounts a then group_accounts else a ∷ group_accounts)

unfoldable pub is_full : ℕ → Block → Tx → List ℕ → List String → Bool
is_full budget b tx group_accounts group_txs =
    ltb 0 (length group_txs)
    && ltb budget (
        length group_accounts
        + count_new group_accounts (tx_touched_accounts b tx)
        + length group_txs
        + 1)

-- The inner loop: the group, and the transactions that are left.
pub record Group : Type 0 where
  pub group_txs : List String
  pub group_accounts : List ℕ
  pub rest : List Tx

unfoldable pub take_group : Block → List String → ℕ → List ℕ → List String → List Tx → Group
take_group b pending budget group_accounts group_txs [] = record {
  group_txs = group_txs;
  group_accounts = group_accounts;
  rest = [];
}
take_group b pending budget group_accounts group_txs (tx ∷ txs) =
    let passed = take_group b pending budget group_accounts group_txs txs in
    let admitted =
      take_group b pending budget (add_accounts (tx_touched_accounts b tx) group_accounts)
        (group_txs ++ (tx.hash ∷ [])) txs in
    if not (member pending tx.hash)
    then passed
    else if is_full budget b tx group_accounts group_txs
    then record { group_txs = group_txs; group_accounts = group_accounts; rest = tx ∷ txs }
    else admitted

unfoldable pub cons_group : List String → List (List String) → List (List String)
cons_group [] groups = groups
cons_group (h ∷ hs) groups = (h ∷ hs) ∷ groups

unfoldable pub partition_recon_groups : ℕ → Block → List String → ℕ → List Tx → List (List String)
partition_recon_groups zero b pending budget txs = []
partition_recon_groups (suc n) b pending budget [] = []
partition_recon_groups (suc n) b pending budget (tx ∷ txs) =
    let g = take_group b pending budget [] [] (tx ∷ txs) in
    cons_group g.group_txs (partition_recon_groups n b pending budget g.rest)
