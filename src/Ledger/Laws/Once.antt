-- ===== src/Ledger/Laws/Once.antt =====
-- A block whose transactions are marked: neither path applies them again.
use jmdn.Base.{
  ℕ, zero, suc, ◌+◌, ◌≡◌, refl, ap, ◌∙◌, inl, inr, Bool, true, ◌&&◌, not, Option, none, some,
  String, List, [], ◌∷◌, ◌==◌, member, str_eq, eq_iff, length, if-either, ltb, All, arith,
  Bool-cases,
}
use jmdn.Committee.Text.{equal_fold}
use jmdn.Ledger.{Tx, Block, Ledger}
use jmdn.Ledger.Markers.{
  is_tx_applied, is_block_applied, filter_processed_tx_markers, bump_art_ordinal_floor,
}
use jmdn.Ledger.Stage.{Faults}
use jmdn.Ledger.Execute.{Env}
use jmdn.Ledger.Processing.{
  BlockFaults, Node, BlockOutcome, Applying, process_one, finished, process_txs, raise_floor,
  after_run, tx_hashes, block_env, affected_accounts, process_unmarked, process_block_transactions,
  max_carried_ordinal,
}
use jmdn.Ledger.Recon.{ReconFaults, commit_groups, apply_block_recon}
use jmdn.Ledger.Recon.Groups.{
  pending_hashes, take_group, cons_group, partition_recon_groups, recon_group_op_budget,
}
use jmdn.Ledger.Laws.Conserved.{raise_floor-accounts, advance-accounts, finish_block-accounts}

-- Every transaction of a list is marked as applied.
abbrev pub AllApplied : Ledger → List Tx → Type 0
AllApplied l = All (λ tx. is_tx_applied l tx.hash ≡ true)

-- The markers of one ledger hold in another.
abbrev pub Keeps : Ledger → Ledger → Type 0
Keeps l l' = (hash : String) → is_tx_applied l hash ≡ true → is_tx_applied l' hash ≡ true

-- Reconciliation.
pub filter-applied :
    (l : Ledger) (txs : List Tx) (hash : String)
    → is_tx_applied l hash ≡ true
    → member (tx_hashes txs) hash ≡ true
    → member (filter_processed_tx_markers l (tx_hashes txs)) hash ≡ true
unfolding filter_processed_tx_markers member tx_hashes
filter-applied l [] hash h m = m
filter-applied l (tx ∷ txs) hash h m =
    ground (arith, h, m, eq_iff tx.hash hash, filter-applied l txs hash h)

pending-nil :
    (applied : List String) (txs : List Tx)
    → All (λ (tx : Tx). member applied tx.hash ≡ true) txs
    → pending_hashes applied txs ≡ []
unfolding pending_hashes
pending-nil applied [] h = refl
pending-nil applied (tx ∷ txs) h = rw (h.0, pending-nil applied txs h.1) refl

filtered_marks :
    (l : Ledger) (all txs : List Tx)
    → ((hash : String) → member (tx_hashes txs) hash ≡ true → member (tx_hashes all) hash ≡ true)
    → AllApplied l txs
    → All (λ (tx : Tx). member (filter_processed_tx_markers l (tx_hashes all)) tx.hash ≡ true) txs
unfolding member tx_hashes
filtered_marks l all [] k h = tt
filtered_marks l all (tx ∷ txs) k h = (
  filter-applied l all tx.hash h.0 (k tx.hash (ground (arith, eq_iff tx.hash tx.hash))),
  filtered_marks l all txs (λ hash m. k hash (ground (arith, m))) h.1,
)

take_group-nil :
    (b : Block) (budget : ℕ) (accounts : List ℕ) (txs : List Tx)
    → (take_group b [] budget accounts [] txs).group_txs ≡ []
unfolding take_group member
take_group-nil b budget accounts [] = refl
take_group-nil b budget accounts (tx ∷ txs) = take_group-nil b budget accounts txs

partition-nil :
    (fuel : ℕ) (b : Block) (budget : ℕ) (txs : List Tx)
    → partition_recon_groups fuel b [] budget txs ≡ []
unfolding partition_recon_groups cons_group
partition-nil zero b budget txs = refl
partition-nil (suc n) b budget [] = refl
partition-nil (suc n) b budget (tx ∷ txs) =
    rw (take_group-nil b budget [] (tx ∷ txs)) (partition-nil n b budget _)

pub recon-applied :
    (faults : ReconFaults) (applied_at : ℕ) (b : Block) (expect_hash : String) (l : Ledger)
    → AllApplied l b.transactions
    → (apply_block_recon faults applied_at (some b) expect_hash l).1 ≡ l
unfolding apply_block_recon commit_groups
recon-applied faults applied_at b expect_hash l h =
    if-either (λ (r : Bool × Ledger). r.1 ≡ l)
      (not (str_eq expect_hash "") && not (equal_fold b.block_hash expect_hash)) refl
      (if-either (λ (r : Bool × Ledger). r.1 ≡ l) (length b.transactions == 0) refl
        (if-either (λ (r : Bool × Ledger). r.1 ≡ l) faults.filter_fails refl
          (rw
            (
              pending-nil (filter_processed_tx_markers l (tx_hashes b.transactions)) b.transactions
                  (filtered_marks l b.transactions b.transactions (λ hash m. m) h),
              partition-nil (length b.transactions) b recon_group_op_budget b.transactions,
            )
            refl)))

-- Live execution.
process_txs-skips :
    (env : Env) (faults : ℕ → Faults) (live_applied : List String) (i : ℕ) (txs : List Tx)
    (a : Applying)
    → All (λ (tx : Tx). member live_applied tx.hash ≡ true) txs
    → (a' : Applying) × (process_txs env faults live_applied i txs a ≡ finished a')
      × (a'.ledger ≡ a.ledger)
unfolding process_txs process_one
process_txs-skips env faults live_applied i [] a h = (a, refl, refl)
process_txs-skips env faults live_applied i (tx ∷ txs) a h =
    elim (Bool-cases (member a.processed_txs tx.hash)) [
      | inl e ↦
          rw (process_txs, process_one, e)
            (process_txs-skips env faults live_applied (i + 1) txs a h.1)
      | inr e ↦
          rw (process_txs, process_one, e, h.0)
            (process_txs-skips env faults live_applied (i + 1) txs
              (record a { processed_txs = tx.hash ∷ a.processed_txs }) h.1)
    ]

unmarked-applied :
    (node : Node) (faults : BlockFaults) (b : Block) (accounts : Option (List ℕ))
    (coinbase zkvm : Option ℕ) (l : Ledger)
    → AllApplied l b.transactions
    → (process_unmarked node faults b accounts coinbase zkvm l).1.accounts ≡ l.accounts
unfolding process_unmarked after_run
unmarked-applied node faults b none coinbase zkvm l h = refl
unmarked-applied node faults b (some accounts) none zkvm l h = refl
unmarked-applied node faults b (some accounts) (some coinbase) none l h = refl
unmarked-applied node faults b (some accounts) (some coinbase) (some zkvm) l h =
    if-either (λ (r : BlockOutcome × Ledger). r.1.accounts ≡ l.accounts) faults.prefilter_fails refl
      (let (a', e, k) =
          process_txs-skips (block_env node b coinbase zkvm) faults.tx
            (filter_processed_tx_markers l (tx_hashes b.transactions)) 0 b.transactions
            (record { ledger = l; processed_txs = []; successful = [] })
            (filtered_marks l b.transactions b.transactions (λ hash m. m) h) in
        rw e (finish_block-accounts node faults b a' ∙ ap (λ (l' : Ledger). l'.accounts) k))

floor-markers :
    (fails : Bool) (floor : ℕ) (l : Ledger) → Keeps l (bump_art_ordinal_floor fails floor l)
unfolding bump_art_ordinal_floor is_tx_applied
floor-markers fails floor l hash h = ground (arith, h)

raise_floor-markers :
    (faults : BlockFaults) (b : Block) (l : Ledger) → Keeps l (raise_floor faults b l)
unfolding raise_floor
raise_floor-markers faults b l =
    if-either (Keeps l) (ltb 0 (max_carried_ordinal b.account_nonces 0)) (floor-markers _ _ l)
      (λ hash h. h)

pub All-map :
    {A : Type 0} {P Q : A → Type 0} (xs : List A) → ((x : A) → P x → Q x) → All P xs → All Q xs
All-map [] k h = tt
All-map (x ∷ xs) k h = (k x h.0, All-map xs k h.1)

pub live-applied :
    (node : Node) (faults : BlockFaults) (b : Block) (l : Ledger)
    → AllApplied l b.transactions
    → (process_block_transactions node faults b l).1.accounts ≡ l.accounts
unfolding process_block_transactions
live-applied node faults b l h =
    if-either (λ (r : BlockOutcome × Ledger). r.1.accounts ≡ l.accounts)
      (not faults.marker_unread && is_block_applied l b.block_hash)
      (advance-accounts faults.anchor_fails true b.block_number l)
      (unmarked-applied node faults b (affected_accounts b) b.coinbase_addr b.zkvm_addr
          (raise_floor faults b l)
          (All-map b.transactions (λ tx. raise_floor-markers faults b l tx.hash) h)
        ∙ raise_floor-accounts faults b l)
