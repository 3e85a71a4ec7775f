-- ===== src/Ledger/Laws/Restored.antt =====
-- The rollback of a block that fails.
use jmdn.Base.{
  ℕ, ◌≡◌, refl, ap, ◌∙◌, inl, inr, Bool, true, false, ◌&&◌, ◌||◌, not, Option, none, some, String,
  List, [], ◌∷◌, ◌==◌, ==_iff, if◌then◌else◌, if-either, ℤ, Table, find, store, holds, find-store,
  IsKeyed, store-IsKeyed, arith, Bool-cases,
}
use jmdn.Ledger.{Accounts, Block, Ledger}
use jmdn.Ledger.Markers.{is_block_applied}
use jmdn.Ledger.Stage.{TxError, Read, found, missing, failed, read_of}
use jmdn.Ledger.Processing.{
  AccountSnapshot, BlockFaults, Node, BlockOutcome, rolled_back, rollback_failed, Applying, Run,
  finished, stopped, snapshot_of, block_read, take_snapshots, restored_doc, rollback_state,
  roll_back, after_run, raise_floor, affected_accounts, process_unmarked,
  process_block_transactions,
}
use jmdn.Ledger.Laws.Overlay.{worth, worth_of}
use jmdn.Ledger.Laws.Execute.{cleanup-keeps}
use jmdn.Ledger.Laws.Conserved.{cleanup_all-accounts, raise_floor-accounts}

take-IsKeyed :
    (unread : ℕ → Bool) (accounts : Accounts) (addrs : List ℕ)
    → IsKeyed (take_snapshots unread accounts addrs)
unfolding take_snapshots
take-IsKeyed unread accounts [] = tt
take-IsKeyed unread accounts (addr ∷ addrs) =
    store-IsKeyed (take_snapshots unread accounts addrs) addr _ (take-IsKeyed unread accounts addrs)

find-take :
    (unread : ℕ → Bool) (accounts : Accounts) (addrs : List ℕ) (a : ℕ)
    → holds addrs a ≡ true
    → find (take_snapshots unread accounts addrs) a
      ≡ some (snapshot_of (block_read unread accounts a))
unfolding take_snapshots holds
find-take unread accounts [] a h = absurd (ground (arith, h))
find-take unread accounts (addr ∷ addrs) a h = elim (Bool-cases (addr == a)) [
  | inl e ↦
      rw
        (
          find-store (take_snapshots unread accounts addrs) addr a
              (snapshot_of (block_read unread accounts addr)),
          e,
          (==_iff addr a).0 e,
        )
        refl
  | inr e ↦
      rw
        (
          find-store (take_snapshots unread accounts addrs) addr a
              (snapshot_of (block_read unread accounts addr)),
          e,
        )
        (find-take unread accounts addrs a (ground (arith, h, e)))
]

snapshot-worth :
    (unread : ℕ → Bool) (accounts : Accounts) (a : ℕ)
    → unread a ≡ false
    → worth_of (snapshot_of (block_read unread accounts a)).balance ≡ worth (find accounts a)
unfolding snapshot_of block_read read_of
snapshot-worth unread accounts a h = ground (arith, h)

restored_doc-balance :
    (addr : ℕ) (snap : AccountSnapshot) (r : Read)
    → (restored_doc addr snap r).balance ≡ snap.balance
unfolding restored_doc
restored_doc-balance addr snap (found doc) = refl
restored_doc-balance addr snap missing = refl
restored_doc-balance addr snap failed = refl

abbrev restored : ℤ → Option AccountSnapshot → ℤ
restored old none = old
restored old (some snap) = worth_of snap.balance

restored-store :
    (accounts : Accounts) (j : ℕ) (snap : AccountSnapshot) (r : Read) (rest : Table AccountSnapshot)
    (a : ℕ)
    → find rest j ≡ none
    → restored (worth (find (store accounts j (restored_doc j snap r)) a)) (find rest a)
      ≡ restored (worth (find accounts a)) (if j == a then some snap else find rest a)
restored-store accounts j snap r rest a k = elim (Bool-cases (j == a)) [
  | inl e ↦
      rw (find-store accounts j a (restored_doc j snap r), e, ← (==_iff j a).0 e, k)
        (ap worth_of (restored_doc-balance j snap r))
  | inr e ↦ rw (find-store accounts j a (restored_doc j snap r), e) refl
]

rollback_state-worth :
    (faults : BlockFaults) (snapshots : Table AccountSnapshot) (accounts : Accounts) (a : ℕ)
    → IsKeyed snapshots
    → (rollback_state faults snapshots accounts).1 ≡ true
    → worth (find (rollback_state faults snapshots accounts).0 a)
      ≡ restored (worth (find accounts a)) (find snapshots a)
unfolding rollback_state find
rollback_state-worth faults [] accounts a k h = refl
rollback_state-worth faults ((j, snap) ∷ rest) accounts a k h =
    if-either
      (λ (r : Accounts × Bool).
        r.1 ≡ true
        → worth (find r.0 a)
          ≡ restored (worth (find accounts a)) (if j == a then some snap else find rest a))
      (faults.update_fails j || (j == 0)) (λ g. absurd (ground (arith, g)))
      (λ g.
        rollback_state-worth faults rest _ a k.1 g
        ∙ restored-store accounts j snap (block_read faults.rollback_unread accounts j) rest a k.0)
      h

roll_back-worth :
    (faults : BlockFaults) (snapshots : Table AccountSnapshot) (e e' : TxError) (hash : String)
    (a : Applying) (r : Ledger × Bool) (x : ℕ) (snap : AccountSnapshot)
    → IsKeyed snapshots
    → find snapshots x ≡ some snap
    → (roll_back faults snapshots e hash a r).0 ≡ rolled_back e'
    → worth (find (roll_back faults snapshots e hash a r).1.accounts x) ≡ worth_of snap.balance
unfolding roll_back
roll_back-worth faults snapshots e e' hash a (l, false) x snap k s h = absurd (ground (arith, h))
roll_back-worth faults snapshots e e' hash a (l, true) x snap k s h =
    ap (λ (accounts : Accounts). worth (find accounts x))
      ((cleanup-keeps hash _).0 ∙ cleanup_all-accounts a.successful _)
    ∙ rollback_state-worth faults snapshots l.accounts x k
        (done (rollback_state faults snapshots l.accounts).1 h)
    ∙ rw s refl
  where
    done : (c : Bool) → (if c then rolled_back e else rollback_failed e) ≡ rolled_back e' → c ≡ true
    done true g = refl
    done false g = absurd (ground (arith, g))

after_run-restores :
    (node : Node) (faults : BlockFaults) (b : Block) (e : TxError) (accounts : List ℕ)
    (stored : Accounts) (run : Run) (a : ℕ)
    → holds accounts a ≡ true
    → faults.snapshot_unread a ≡ false
    → (after_run node faults b (take_snapshots faults.snapshot_unread stored accounts) run).0
      ≡ rolled_back e
    → worth (
        find
          (after_run node faults b
            (take_snapshots faults.snapshot_unread stored accounts)
            run).1.accounts
          a)
      ≡ worth (find stored a)
unfolding after_run
after_run-restores node faults b e accounts stored (finished s) a m u h = absurd (ground (arith, h))
after_run-restores node faults b e accounts stored (stopped e' hash s) a m u h =
    roll_back-worth faults (take_snapshots faults.snapshot_unread stored accounts) e' e hash s _ a _
      (take-IsKeyed faults.snapshot_unread stored accounts)
      (find-take faults.snapshot_unread stored accounts a m) h
    ∙ snapshot-worth faults.snapshot_unread stored a u

unmarked-restores :
    (node : Node) (faults : BlockFaults) (b : Block) (affected : Option (List ℕ))
    (coinbase zkvm : Option ℕ) (l : Ledger) (e : TxError) (accounts : List ℕ) (a : ℕ)
    → affected ≡ some accounts
    → holds accounts a ≡ true
    → faults.snapshot_unread a ≡ false
    → (process_unmarked node faults b affected coinbase zkvm l).0 ≡ rolled_back e
    → worth (find (process_unmarked node faults b affected coinbase zkvm l).1.accounts a)
      ≡ worth (find l.accounts a)
unfolding process_unmarked
unmarked-restores node faults b none coinbase zkvm l e accounts a q m u h =
    absurd (ground (arith, h))
unmarked-restores node faults b (some x) none zkvm l e accounts a q m u h =
    absurd (ground (arith, h))
unmarked-restores node faults b (some x) (some c) none l e accounts a q m u h =
    absurd (ground (arith, h))
unmarked-restores node faults b (some x) (some c) (some z) l e accounts a q m u h =
    if-either
      (λ (r : BlockOutcome × Ledger).
        r.0 ≡ rolled_back e → worth (find r.1.accounts a) ≡ worth (find l.accounts a))
      faults.prefilter_fails (λ g. absurd (ground (arith, g)))
      (after_run-restores node faults b e x l.accounts _ a
        (ap (λ xs. holds xs a) (ground (arith, q)) ∙ m) u)
      h

-- A block that is rolled back leaves the balance of its coinbase, of its ZKVM, and of each sender and
-- recipient that was read when the block began, as it was.
pub process_block_restores :
    (node : Node) (faults : BlockFaults) (b : Block) (l : Ledger) (e : TxError) (accounts : List ℕ)
    (a : ℕ)
    → affected_accounts b ≡ some accounts
    → holds accounts a ≡ true
    → faults.snapshot_unread a ≡ false
    → (process_block_transactions node faults b l).0 ≡ rolled_back e
    → worth (find (process_block_transactions node faults b l).1.accounts a)
      ≡ worth (find l.accounts a)
unfolding process_block_transactions
process_block_restores node faults b l e accounts a q m u h =
    if-either
      (λ (r : BlockOutcome × Ledger).
        r.0 ≡ rolled_back e → worth (find r.1.accounts a) ≡ worth (find l.accounts a))
      (not faults.marker_unread && is_block_applied l b.block_hash)
      (λ g. absurd (ground (arith, g)))
      (λ g.
        unmarked-restores node faults b (affected_accounts b) b.coinbase_addr b.zkvm_addr
          (raise_floor faults b l) e accounts a q m u g
        ∙ ap (λ (stored : Accounts). worth (find stored a)) (raise_floor-accounts faults b l))
      h
