-- ===== src/Ledger/Laws/Paths.antt =====
-- The two paths of a block, compared.
use jmdn.Base.{
  ℕ, ◌≡◌, refl, sym, ap, ◌∙◌, Bool, true, false, ◌&&◌, not, Option, none, some, String, List, [],
  ◌∷◌, member, IsDistinct, if-either, ltb, All, ◌+ℤ◌, Table, find, arith,
}
use jmdn.Ledger.{Accounts, Tx, Block, Ledger}
use jmdn.Ledger.Execute.{Env}
use jmdn.Ledger.Markers.{
  is_tx_applied, is_block_applied, filter_processed_tx_markers, bump_art_ordinal_floor,
}
use jmdn.Ledger.Processing.{
  AccountSnapshot, BlockFaults, Node, BlockOutcome, processed, Applying, Run, finished, stopped,
  process_txs, raise_floor, max_carried_ordinal, after_run, tx_hashes, block_env, affected_accounts,
  process_unmarked, process_block_transactions,
}
use jmdn.Ledger.Recon.{ReconFaults, apply_block_recon}
use jmdn.Ledger.Laws.Overlay.{worth}
use jmdn.Ledger.Laws.Conserved.{raise_floor-accounts, finish_block-accounts}
use jmdn.Ledger.Laws.Marked.{roll_back-unprocessed}
use jmdn.Ledger.Laws.Deltas.{IsPlain, moved_by}
use jmdn.Ledger.Laws.Live.{Ends, process_txs-Ends}
use jmdn.Ledger.Laws.Agreement.{unmarked, moved_by-ext, All-of, filter-marked, recon-worth}

floor-marked :
    (fails : Bool) (floor : ℕ) (l : Ledger) (hash : String)
    → is_tx_applied (bump_art_ordinal_floor fails floor l) hash ≡ is_tx_applied l hash
unfolding bump_art_ordinal_floor is_tx_applied
floor-marked fails floor l hash = ground arith

raise_floor-marked :
    (faults : BlockFaults) (b : Block) (l : Ledger) (hash : String)
    → is_tx_applied (raise_floor faults b l) hash ≡ is_tx_applied l hash
unfolding raise_floor
raise_floor-marked faults b l hash =
    if-either (λ l'. is_tx_applied l' hash ≡ is_tx_applied l hash)
      (ltb 0 (max_carried_ordinal b.account_nonces 0)) (floor-marked _ _ l hash) refl

after_run-worth :
    (env : Env) (live_applied : List String) (node : Node) (faults : BlockFaults) (b : Block)
    (snapshots : Table AccountSnapshot) (a : Applying) (run : Run) (x : ℕ)
    → Ends env live_applied b.transactions a run
    → (after_run node faults b snapshots run).0 ≡ processed
    → worth (find (after_run node faults b snapshots run).1.accounts x)
      ≡ worth (find a.ledger.accounts x)
        +ℤ moved_by env (λ hash. not (member live_applied hash)) b.transactions x
unfolding after_run
after_run-worth env live_applied node faults b snapshots a (finished a') x e h =
    ap (λ (accounts : Accounts). worth (find accounts x)) (finish_block-accounts node faults b a')
    ∙ e x
after_run-worth env live_applied node faults b snapshots a (stopped e hash a') x k h =
    absurd (roll_back-unprocessed faults snapshots e hash a' _ h)

fresh :
    (l : Ledger) (applied : List String) (txs : List Tx)
    → All (λ (tx : Tx). member applied tx.hash ≡ is_tx_applied l tx.hash) txs
    → All
        (λ (tx : Tx).
          (member [] tx.hash ≡ false)
          × (member applied tx.hash ≡ false → is_tx_applied l tx.hash ≡ false))
        txs
unfolding member
fresh l applied [] h = tt
fresh l applied (tx ∷ txs) h = ((refl, λ e. sym h.0 ∙ e), fresh l applied txs h.1)

chosen :
    (l : Ledger) (applied : List String) (txs : List Tx)
    → All (λ (tx : Tx). member applied tx.hash ≡ is_tx_applied l tx.hash) txs
    → All (λ (tx : Tx). not (member applied tx.hash) ≡ unmarked l tx.hash) txs
chosen l applied [] h = tt
chosen l applied (tx ∷ txs) h = (ap not h.0, chosen l applied txs h.1)

unmarked-worth :
    (node : Node) (faults : BlockFaults) (b : Block) (accounts : Option (List ℕ))
    (coinbase zkvm : ℕ) (l : Ledger) (x : ℕ)
    → IsDistinct (tx_hashes b.transactions)
    → (process_unmarked node faults b accounts (some coinbase) (some zkvm) l).0 ≡ processed
    → worth
        (find (process_unmarked node faults b accounts (some coinbase) (some zkvm) l).1.accounts x)
      ≡ worth (find l.accounts x)
        +ℤ moved_by (block_env node b coinbase zkvm) (unmarked l) b.transactions x
unfolding process_unmarked
unmarked-worth node faults b none coinbase zkvm l x d h = absurd (ground (arith, h))
unmarked-worth node faults b (some accounts) coinbase zkvm l x d h =
    if-either
      (λ (r : BlockOutcome × Ledger).
        r.0 ≡ processed
        → worth (find r.1.accounts x)
          ≡ worth (find l.accounts x) +ℤ moved_by env (unmarked l) b.transactions x)
      faults.prefilter_fails (λ g. absurd (ground (arith, g)))
      (λ g.
        after_run-worth env applied node faults b _ start
          (process_txs env faults.tx applied 0 b.transactions start) x
          (process_txs-Ends env applied faults.tx 0 b.transactions start d
            (fresh l applied b.transactions marks))
          g
        ∙ ap (λ m. worth (find l.accounts x) +ℤ m)
            (moved_by-ext env (λ hash. not (member applied hash)) (unmarked l) b.transactions x
              (chosen l applied b.transactions marks)))
      h
  where
    env : Env
    env = block_env node b coinbase zkvm

    applied : List String
    applied = filter_processed_tx_markers l (tx_hashes b.transactions)

    start : Applying
    start = record { ledger = l; processed_txs = []; successful = [] }

    marks : All (λ (tx : Tx). member applied tx.hash ≡ is_tx_applied l tx.hash) b.transactions
    marks = filter-marked l b.transactions b.transactions (λ hash m. m)

unmarked_at-worth :
    (node : Node) (faults : BlockFaults) (b : Block) (accounts : Option (List ℕ))
    (coinbase_addr zkvm_addr : Option ℕ) (coinbase zkvm : ℕ) (l : Ledger) (x : ℕ)
    → coinbase_addr ≡ some coinbase
    → zkvm_addr ≡ some zkvm
    → IsDistinct (tx_hashes b.transactions)
    → (process_unmarked node faults b accounts coinbase_addr zkvm_addr l).0 ≡ processed
    → worth (find (process_unmarked node faults b accounts coinbase_addr zkvm_addr l).1.accounts x)
      ≡ worth (find l.accounts x)
        +ℤ moved_by (block_env node b coinbase zkvm) (unmarked l) b.transactions x
unmarked_at-worth node faults b accounts coinbase_addr zkvm_addr coinbase zkvm l x c z d h =
    rw (c, z) (unmarked-worth node faults b accounts coinbase zkvm l x d (rw (c, z) at h))

live-worth :
    (node : Node) (faults : BlockFaults) (b : Block) (coinbase zkvm : ℕ) (l : Ledger) (x : ℕ)
    → b.coinbase_addr ≡ some coinbase
    → b.zkvm_addr ≡ some zkvm
    → IsDistinct (tx_hashes b.transactions)
    → (process_block_transactions node faults b l).0 ≡ processed
    → worth (find (process_block_transactions node faults b l).1.accounts x)
      ≡ worth (find l.accounts x)
        +ℤ moved_by (block_env node b coinbase zkvm) (unmarked l) b.transactions x
unfolding process_block_transactions
live-worth node faults b coinbase zkvm l x c z d h =
    if-either
      (λ (r : BlockOutcome × Ledger).
        r.0 ≡ processed
        → worth (find r.1.accounts x)
          ≡ worth (find l.accounts x)
            +ℤ moved_by (block_env node b coinbase zkvm) (unmarked l) b.transactions x)
      (not faults.marker_unread && is_block_applied l b.block_hash)
      (λ g. absurd (ground (arith, g)))
      (λ g.
        unmarked_at-worth node faults b (affected_accounts b) b.coinbase_addr b.zkvm_addr coinbase
          zkvm (raise_floor faults b l) x c z d g
        ∙ ap
            (λ (accounts : Accounts).
              worth (find accounts x)
              +ℤ moved_by (block_env node b coinbase zkvm) (unmarked (raise_floor faults b l))
                  b.transactions x)
            (raise_floor-accounts faults b l)
        ∙ ap (λ m. worth (find l.accounts x) +ℤ m)
            (moved_by-ext (block_env node b coinbase zkvm) (unmarked (raise_floor faults b l))
              (unmarked l) b.transactions x
              (All-of b.transactions (λ tx. ap not (raise_floor-marked faults b l tx.hash)))))
      h

-- For a block with a coinbase and a ZKVM, whose transactions are distinct and plain: when live
-- execution of it ends as processed, and reconciliation of it on the same ledger commits every
-- group, each address has the same balance after the one as after the other.
pub recon_agrees_with_live :
    (node : Node) (faults : BlockFaults) (recon_faults : ReconFaults) (applied_at : ℕ)
    (expect_hash : String) (b : Block) (coinbase zkvm : ℕ) (l : Ledger) (a : ℕ)
    → b.coinbase_addr ≡ some coinbase
    → b.zkvm_addr ≡ some zkvm
    → All IsPlain b.transactions
    → IsDistinct (tx_hashes b.transactions)
    → (process_block_transactions node faults b l).0 ≡ processed
    → (apply_block_recon recon_faults applied_at (some b) expect_hash l).0 ≡ true
    → worth (find (apply_block_recon recon_faults applied_at (some b) expect_hash l).1.accounts a)
      ≡ worth (find (process_block_transactions node faults b l).1.accounts a)
recon_agrees_with_live node faults recon_faults applied_at expect_hash b coinbase zkvm l a c z p d h
      g =
    recon-worth node b coinbase zkvm c z p d recon_faults applied_at expect_hash l a g
    ∙ sym (live-worth node faults b coinbase zkvm l a c z d h)
