-- ===== src/Ledger/Laws/Marked.antt =====
-- A block that is processed marks each of its transactions.
use jmdn.Base.{
  ℕ, ◌+◌, ◌≡◌, ◌∙◌, inl, inr, Bool, true, false, ◌&&◌, not, Option, none, some, String, List, [],
  ◌∷◌, member, str_eq-cases, eq_iff, if◌then◌else◌, if-either, if-first, if-second, Table, arith,
  Bool-cases,
}
use jmdn.Ledger.{Tx, Block, Ledger}
use jmdn.Ledger.Markers.{
  is_tx_applied, is_block_applied, filter_processed_tx_markers, advance_anchor,
  write_block_processed_marker, next_live_anchor, next_recon_anchor,
}
use jmdn.Ledger.Stage.{TxError, Faults}
use jmdn.Ledger.Execute.{Env, process_transaction, process_between, cleanup_processing_markers}
use jmdn.Ledger.Processing.{
  AccountSnapshot, BlockFaults, Node, BlockOutcome, rolled_back, rollback_failed, processed,
  Applying, Step, next, failing, after_tx, process_one, Run, finished, stopped, process_txs,
  cleanup_all, raise_floor, finish_block, after_run, tx_hashes, block_env, process_unmarked,
  process_block_transactions, roll_back,
}
use jmdn.Ledger.Recon.{ReconFaults, apply_block_recon}
use jmdn.Ledger.Laws.Execute.{Applies, process_between-Applies, cleanup-keeps}
use jmdn.Ledger.Laws.Once.{AllApplied, Keeps, All-map, live-applied, recon-applied}

abbrev Inv : Applying → Type 0
Inv a = (hash : String) → member a.processed_txs hash ≡ true → is_tx_applied a.ledger hash ≡ true

abbrev Advances : Tx → Ledger → Step → Type 0
Advances tx l (failing e a) = Unit {0}
Advances tx l (next a) = Keeps l a.ledger × (is_tx_applied a.ledger tx.hash ≡ true) × Inv a

cons-applied :
    (l : Ledger) (k : String) (ks : List String)
    → is_tx_applied l k ≡ true
    → ((hash : String) → member ks hash ≡ true → is_tx_applied l hash ≡ true)
    → (hash : String) → member (k ∷ ks) hash ≡ true
    → is_tx_applied l hash ≡ true
unfolding member
cons-applied l k ks p h hash m = elim (str_eq-cases k hash) [
  | inl e ↦ rw (← e) p
  | inr e ↦ h hash (ground (arith, m, e))
]

-- A transaction with no error is marked, and no marker is lost.
abbrev Marks : Tx → Ledger → Option TxError × Ledger → Type 0
Marks tx l (some e, l') = Unit {0}
Marks tx l (none, l') = Keeps l l' × (is_tx_applied l' tx.hash ≡ true)

Applies-Marks :
    (env : Env) (from to : ℕ) (tx : Tx) (l : Ledger) (r : Option TxError × Ledger)
    → Applies env from to tx l r
    → Marks tx l r
unfolding Applies
Applies-Marks env from to tx l (some e, l') h = tt
Applies-Marks env from to tx l (none, l') h = (
  (λ hash k. rw (h.1 hash, k) (ground arith)),
  rw (h.1 tx.hash) (ground (arith, eq_iff tx.hash tx.hash)),
)

between-Marks :
    (env : Env) (faults : Faults) (from to : Option ℕ) (tx : Tx) (l : Ledger)
    → Marks tx l (process_between env faults from to tx l)
unfolding process_between
between-Marks env faults none to tx l = tt
between-Marks env faults (some from) none tx l = tt
between-Marks env faults (some from) (some to) tx l =
    elim (Bool-cases (not faults.marker_unread && is_tx_applied l tx.hash)) [
      | inl e ↦ if-either (Marks tx l) faults.no_connection tt (
          if-first (Marks tx l) (not faults.marker_unread && is_tx_applied l tx.hash) _ e
            ((λ hash h. h), ground (arith, e)))
      | inr e ↦ Applies-Marks env from to tx l _ (process_between-Applies env faults from to tx l e)
    ]

after_tx-Advances :
    (tx : Tx) (a : Applying) (r : Option TxError × Ledger)
    → Inv a
    → Marks tx a.ledger r
    → Advances tx a.ledger
        (after_tx tx.hash (record a { processed_txs = tx.hash ∷ a.processed_txs }) r)
unfolding after_tx member
after_tx-Advances tx a (some e, l) i h = tt
after_tx-Advances tx a (none, l) i h =
    (h.0, h.1, cons-applied l tx.hash a.processed_txs h.1 (λ hash m. h.0 hash (i hash m)))

process_one-Advances :
    (env : Env) (faults : Faults) (live_applied : List String) (tx : Tx) (a : Applying)
    → Inv a
    → ((hash : String) → member live_applied hash ≡ true → is_tx_applied a.ledger hash ≡ true)
    → Advances tx a.ledger (process_one env faults live_applied tx a)
unfolding process_one process_transaction member
process_one-Advances env faults live_applied tx a i h =
    elim (Bool-cases (member a.processed_txs tx.hash)) [
      | inl e ↦
          if-first (Advances tx a.ledger) (member a.processed_txs tx.hash) _ e
            ((λ hash k. k), i tx.hash e, i)
      | inr e ↦
          if-second (Advances tx a.ledger) (member a.processed_txs tx.hash) _ e
            (elim (Bool-cases (member live_applied tx.hash)) [
              | inl g ↦ if-first (Advances tx a.ledger) (member live_applied tx.hash) _ g (
                (λ hash k. k),
                h tx.hash g,
                cons-applied a.ledger tx.hash a.processed_txs (h tx.hash g) i,
              )
              | inr g ↦
                  if-second (Advances tx a.ledger) (member live_applied tx.hash) _ g (
                    after_tx-Advances tx a _ i (between-Marks env faults tx.from tx.to tx a.ledger))
            ])
    ]

-- What a run that is finished has marked.
abbrev Finishes : List Tx → Ledger → Run → Type 0
Finishes txs l (stopped e hash a) = Unit {0}
Finishes txs l (finished a) = Keeps l a.ledger × AllApplied a.ledger txs

after_step-Finishes :
    (env : Env) (faults : ℕ → Faults) (live_applied : List String) (i : ℕ) (tx : Tx) (txs : List Tx)
    (l : Ledger) (s : Step)
    → Advances tx l s
    → ((a : Applying)
        → Inv a
        → Keeps l a.ledger
        → Finishes txs a.ledger (process_txs env faults live_applied i txs a))
    → Finishes (tx ∷ txs) l (elim s [
      | next a ↦ process_txs env faults live_applied i txs a
      | failing e a ↦ stopped e tx.hash a
    ])
after_step-Finishes env faults live_applied i tx txs l (failing e a) h k = tt
after_step-Finishes env faults live_applied i tx txs l (next a) h k =
    joined (process_txs env faults live_applied i txs a) (k a h.2 h.0)
  where
    joined : (run : Run) → Finishes txs a.ledger run → Finishes (tx ∷ txs) l run
    joined (stopped e hash a') g = tt
    joined (finished a') g = ((λ hash m. g.0 hash (h.0 hash m)), (g.0 tx.hash h.1, g.1))

process_txs-Finishes :
    (env : Env) (faults : ℕ → Faults) (live_applied : List String) (i : ℕ) (txs : List Tx)
    (a : Applying)
    → Inv a
    → ((hash : String) → member live_applied hash ≡ true → is_tx_applied a.ledger hash ≡ true)
    → Finishes txs a.ledger (process_txs env faults live_applied i txs a)
unfolding process_txs
process_txs-Finishes env faults live_applied i [] a v h = ((λ hash m. m), tt)
process_txs-Finishes env faults live_applied i (tx ∷ txs) a v h =
    after_step-Finishes env faults live_applied (i + 1) tx txs a.ledger _
      (process_one-Advances env (faults i) live_applied tx a v h)
      (λ a' v' k.
        process_txs-Finishes env faults live_applied (i + 1) txs a' v'
          (λ hash m. k hash (h hash m)))

pub filtered-applied :
    (l : Ledger) (hashes : List String) (hash : String)
    → member (filter_processed_tx_markers l hashes) hash ≡ true
    → is_tx_applied l hash ≡ true
unfolding filter_processed_tx_markers member
filtered-applied l [] hash m = absurd (ground (arith, m))
filtered-applied l (h ∷ hs) hash m = elim (Bool-cases (is_tx_applied l h)) [
  | inl e ↦
      cons-applied l h (filter_processed_tx_markers l hs) e (filtered-applied l hs) hash
        (ground (arith, m, e))
  | inr e ↦ filtered-applied l hs hash (ground (arith, m, e))
]

advance-markers :
    (fails contiguous : Bool) (target : ℕ) (l : Ledger)
    → Keeps l (advance_anchor fails contiguous target l)
unfolding advance_anchor next_live_anchor next_recon_anchor is_tx_applied
advance-markers fails contiguous target l hash h = ground (arith, h)

cleanup_all-markers : (hashes : List String) (l : Ledger) → Keeps l (cleanup_all hashes l)
unfolding cleanup_all
cleanup_all-markers [] l hash h = h
cleanup_all-markers (k ∷ ks) l hash h =
    cleanup_all-markers ks (cleanup_processing_markers k l) hash ((cleanup-keeps k l).1 hash ∙ h)

block_marker-markers :
    (fails : Bool) (block_hash : String) (now : ℕ) (l : Ledger)
    → Keeps l (write_block_processed_marker fails block_hash now l)
unfolding write_block_processed_marker is_tx_applied
block_marker-markers fails block_hash now l hash h = ground (arith, h)

finish_block-markers :
    (node : Node) (faults : BlockFaults) (b : Block) (a : Applying)
    → Keeps a.ledger (finish_block node faults b a)
unfolding finish_block
finish_block-markers node faults b a hash h = advance-markers _ _ _ _ hash (marked a.successful)
  where
    marked :
        (hashes : List String)
        → is_tx_applied
            (elim hashes as (λ _. Ledger) [
              | [] ↦ a.ledger
              | k ∷ ks ↦ cleanup_all (k ∷ ks) (
                  write_block_processed_marker faults.block_marker_fails b.block_hash node.now
                    a.ledger)
            ])
            hash
          ≡ true
    marked [] = h
    marked (k ∷ ks) =
        cleanup_all-markers (k ∷ ks) _ hash
          (block_marker-markers faults.block_marker_fails b.block_hash node.now a.ledger hash h)

back-unprocessed :
    (e : TxError) (done : Bool)
    → (if done then rolled_back e else rollback_failed e) ≡ processed
    → ⊥
back-unprocessed e true h = ground (arith, h)
back-unprocessed e false h = ground (arith, h)

pub roll_back-unprocessed :
    (faults : BlockFaults) (snapshots : Table AccountSnapshot) (e : TxError) (hash : String)
    (a : Applying) (r : Ledger × Bool)
    → (roll_back faults snapshots e hash a r).0 ≡ processed
    → ⊥
unfolding roll_back
roll_back-unprocessed faults snapshots e hash a (l, false) h = ground (arith, h)
roll_back-unprocessed faults snapshots e hash a (l, true) h = back-unprocessed e _ h

after_run-marked :
    (node : Node) (faults : BlockFaults) (b : Block) (snapshots : Table AccountSnapshot)
    (l : Ledger) (run : Run)
    → Finishes b.transactions l run
    → (after_run node faults b snapshots run).0 ≡ processed
    → AllApplied (after_run node faults b snapshots run).1 b.transactions
unfolding after_run
after_run-marked node faults b snapshots l (finished a) f h =
    All-map b.transactions (λ tx. finish_block-markers node faults b a tx.hash) f.1
after_run-marked node faults b snapshots l (stopped e hash a) f h =
    absurd (roll_back-unprocessed faults snapshots e hash a _ h)

unmarked-marked :
    (node : Node) (faults : BlockFaults) (b : Block) (accounts : Option (List ℕ))
    (coinbase zkvm : Option ℕ) (l : Ledger)
    → (process_unmarked node faults b accounts coinbase zkvm l).0 ≡ processed
    → AllApplied (process_unmarked node faults b accounts coinbase zkvm l).1 b.transactions
unfolding process_unmarked member
unmarked-marked node faults b none coinbase zkvm l h = absurd (ground (arith, h))
unmarked-marked node faults b (some accounts) none zkvm l h = absurd (ground (arith, h))
unmarked-marked node faults b (some accounts) (some coinbase) none l h = absurd (ground (arith, h))
unmarked-marked node faults b (some accounts) (some coinbase) (some zkvm) l h =
    if-either (λ (r : BlockOutcome × Ledger). r.0 ≡ processed → AllApplied r.1 b.transactions)
      faults.prefilter_fails (λ g. absurd (ground (arith, g)))
      (after_run-marked node faults b _ l _ (
        process_txs-Finishes (block_env node b coinbase zkvm) faults.tx _ 0 b.transactions
          (record { ledger = l; processed_txs = []; successful = [] })
          (λ hash m. absurd (nothing hash m)) (filtered-applied l (tx_hashes b.transactions))))
      h
  where
    nothing : (hash : String) → member [] hash ≡ true → ⊥
    nothing hash m = ground (arith, m)

processed-marked :
    (node : Node) (faults : BlockFaults) (b : Block) (l : Ledger)
    → (process_block_transactions node faults b l).0 ≡ processed
    → AllApplied (process_block_transactions node faults b l).1 b.transactions
unfolding process_block_transactions
processed-marked node faults b l h =
    if-either (λ (r : BlockOutcome × Ledger). r.0 ≡ processed → AllApplied r.1 b.transactions)
      (not faults.marker_unread && is_block_applied l b.block_hash)
      (λ g. absurd (ground (arith, g)))
      (unmarked-marked node faults b _ _ _ (raise_floor faults b l)) h

-- After a block is processed, neither path applies it again, whatever fails in the databases then:
-- live execution of it changes no account, and reconciliation of it changes nothing.
pub process_block_once :
    (node node' : Node) (faults faults' : BlockFaults) (recon_faults : ReconFaults) (applied_at : ℕ)
    (expect_hash : String) (b : Block) (l : Ledger)
    → (process_block_transactions node faults b l).0 ≡ processed
    → let l' = (process_block_transactions node faults b l).1 in
      ((process_block_transactions node' faults' b l').1.accounts ≡ l'.accounts)
      × ((apply_block_recon recon_faults applied_at (some b) expect_hash l').1 ≡ l')
process_block_once node node' faults faults' recon_faults applied_at expect_hash b l h = (
  live-applied node' faults' b _ (processed-marked node faults b l h),
  recon-applied recon_faults applied_at b expect_hash _ (processed-marked node faults b l h),
)
