-- ===== src/Ledger/Laws/Agreement.antt =====
-- Reconciliation of a block and live execution of it leave the same balances.
use jmdn.Base.{
  ℕ, ◌+◌, ◌≡◌, refl, sym, ap, ◌∙◌, inl, inr, Bool, true, false, ◌&&◌, ◌||◌, not, Option, none, some,
  String, List, [], ◌∷◌, ◌++◌, ◌==◌, member, IsDistinct, str_eq, str_eq-cases, eq_iff, length,
  if◌then◌else◌, if-either, if-first, if-second, All, ℤ, pos, ◌+ℤ◌, int_laws, find, arith,
  Bool-cases,
}
use jmdn.Committee.Text.{equal_fold}
use jmdn.Ledger.{Tx, Block, Ledger}
use jmdn.Ledger.Stage.{nanos}
use jmdn.Ledger.Execute.{Env}
use jmdn.Ledger.Markers.{is_tx_applied, filter_processed_tx_markers}
use jmdn.Ledger.Processing.{Node, block_env, tx_hashes}
use jmdn.Ledger.Recon.{
  ReconFaults, delta_or_new, compute_block_deltas, outside, commit_recon_group, commit_groups,
  apply_block_recon,
}
use jmdn.Ledger.Recon.Groups.{pending_hashes, partition_recon_groups, recon_group_op_budget}
use jmdn.Ledger.Laws.Overlay.{worth, +ℤ_assoc}
use jmdn.Ledger.Laws.Once.{filter-applied}
use jmdn.Ledger.Laws.Marked.{filtered-applied}
use jmdn.Ledger.Laws.Groups.{joined, partition_complete, member-pending, pending-complement}
use jmdn.Ledger.Laws.Deltas.{delta_at, IsPlain, tx_effect, moved_by, deltas_from-at}
use jmdn.Ledger.Laws.Commit.{commit_recon_group-worth, deltas_from-IsKeyed}

pub All-of : {P : Tx → Type 0} (txs : List Tx) → ((tx : Tx) → P tx) → All P txs
All-of [] k = tt
All-of (tx ∷ txs) k = (k tx, All-of txs k)

pub moved_by-ext :
    (env : Env) (p q : String → Bool) (txs : List Tx) (a : ℕ)
    → All (λ (tx : Tx). p tx.hash ≡ q tx.hash) txs
    → moved_by env p txs a ≡ moved_by env q txs a
unfolding moved_by
moved_by-ext env p q [] a h = refl
moved_by-ext env p q (tx ∷ txs) a h = rw (h.0, moved_by-ext env p q txs a h.1) refl

choice-union :
    (p q : Bool) (x m n : ℤ)
    → (p && q) ≡ false
    → (if p || q then x else pos 0) +ℤ (m +ℤ n)
      ≡ ((if p then x else pos 0) +ℤ m) +ℤ ((if q then x else pos 0) +ℤ n)
choice-union true true x m n h = absurd (ground (arith, h))
choice-union true false x m n h = omega int_laws
choice-union false true x m n h = omega int_laws
choice-union false false x m n h = omega int_laws

-- Two choices with no transaction in common add up to their union.
moved_by-union :
    (env : Env) (p q : String → Bool) (txs : List Tx) (a : ℕ)
    → ((hash : String) → (p hash && q hash) ≡ false)
    → moved_by env (λ hash. p hash || q hash) txs a ≡ moved_by env p txs a +ℤ moved_by env q txs a
unfolding moved_by
moved_by-union env p q [] a h = omega int_laws
moved_by-union env p q (tx ∷ txs) a h =
    rw (moved_by-union env p q txs a h)
      (choice-union (p tx.hash) (q tx.hash) (tx_effect env tx a) _ _ (h tx.hash))

moved_by-none : (env : Env) (txs : List Tx) (a : ℕ) → moved_by env (λ hash. false) txs a ≡ pos 0
unfolding moved_by
moved_by-none env [] a = refl
moved_by-none env (tx ∷ txs) a = rw (moved_by-none env txs a) (omega int_laws)

member-append :
    (xs ys : List String) (hash : String)
    → member (xs ++ ys) hash ≡ (member xs hash || member ys hash)
unfolding member
member-append [] ys hash = refl
member-append (x ∷ xs) ys hash = ground (arith, member-append xs ys hash)

append-apart :
    (xs ys : List String) (hash : String)
    → IsDistinct (xs ++ ys)
    → (member xs hash && member ys hash) ≡ false
unfolding member
append-apart [] ys hash d = refl
append-apart (x ∷ xs) ys hash d = elim (str_eq-cases x hash) [
  | inl e ↦ rw (← e) (ground (arith, d.0, member-append xs ys x))
  | inr e ↦ ground (arith, e, append-apart xs ys hash d.1)
]

append-right : (xs ys : List String) → IsDistinct (xs ++ ys) → IsDistinct ys
append-right [] ys d = d
append-right (x ∷ xs) ys d = append-right xs ys d.1

member-outside :
    (group hashes : List String) (hash : String)
    → member (outside group hashes) hash ≡ (member hashes hash && not (member group hash))
unfolding outside member
member-outside group [] hash = refl
member-outside group (h ∷ hs) hash = elim (str_eq-cases h hash) [
  | inl e ↦ ground (arith, e, eq_iff h hash, member-outside group hs hash)
  | inr e ↦ ground (arith, e, member-outside group hs hash)
]

-- What the transactions of a group are, among those of the block.
outside-chosen :
    (group : List String) (all txs : List Tx)
    → ((hash : String) → member (tx_hashes txs) hash ≡ true → member (tx_hashes all) hash ≡ true)
    → All
        (λ (tx : Tx). not (member (outside group (tx_hashes all)) tx.hash) ≡ member group tx.hash)
        txs
unfolding member tx_hashes
outside-chosen group all [] k = tt
outside-chosen group all (tx ∷ txs) k = (
  rw
      (
        member-outside group (tx_hashes all) tx.hash,
        k tx.hash (ground (arith, eq_iff tx.hash tx.hash)),
      )
      (ground arith),
  outside-chosen group all txs (λ hash m. k hash (ground (arith, m))),
)

module _ (node : Node) (b : Block) (coinbase zkvm : ℕ) (c : b.coinbase_addr ≡ some coinbase)
    (z : b.zkvm_addr ≡ some zkvm) (plain : All IsPlain b.transactions) where
  abbrev pub moved : (String → Bool) → ℕ → ℤ
  moved chosen a = moved_by (block_env node b coinbase zkvm) chosen b.transactions a

  after_group :
      (faults : ReconFaults) (applied_at i : ℕ) (groups : List (List String)) (l : Ledger) (a : ℕ)
      (m n : ℤ) (o : Option Ledger)
      → ((l' : Ledger) → o ≡ some l' → worth (find l'.accounts a) ≡ worth (find l.accounts a) +ℤ m)
      → ((l' : Ledger)
          → (commit_groups faults b applied_at i groups l').0 ≡ true
          → worth (find (commit_groups faults b applied_at i groups l').1.accounts a)
            ≡ worth (find l'.accounts a) +ℤ n)
      → (elim o as (λ _. Bool × Ledger) [
        | none ↦ (false, l)
        | some l' ↦ commit_groups faults b applied_at i groups l'
      ]).0
        ≡ true
      → worth (
          find
            (elim o as (λ _. Bool × Ledger) [
              | none ↦ (false, l)
              | some l' ↦ commit_groups faults b applied_at i groups l'
            ]).1.accounts
            a)
        ≡ worth (find l.accounts a) +ℤ (m +ℤ n)
  after_group faults applied_at i groups l a m n none k g h = absurd (ground (arith, h))
  after_group faults applied_at i groups l a m n (some l') k g h =
      g l' h ∙ rw (k l' refl) (+ℤ_assoc _ _ _)

  group-delta :
      (group : List String) (a : ℕ)
      → delta_at (compute_block_deltas b (outside group (tx_hashes b.transactions))) a
        ≡ moved (member group) a
  unfolding compute_block_deltas delta_at find delta_or_new
  group-delta group a =
      deltas_from-at node b coinbase zkvm c z (outside group (tx_hashes b.transactions))
        b.transactions [] a plain
      ∙ rw
          (moved_by-ext (block_env node b coinbase zkvm)
            (λ hash. not (member (outside group (tx_hashes b.transactions)) hash)) (member group)
            b.transactions a (outside-chosen group b.transactions b.transactions (λ hash m. m)))
          (omega int_laws)

  group-worth :
      (failing : Bool) (group : List String) (t applied_at : ℕ) (l l' : Ledger) (a : ℕ)
      → commit_recon_group failing
          (compute_block_deltas b (outside group (tx_hashes b.transactions)))
          group
          t
          applied_at
          l
        ≡ some l'
      → worth (find l'.accounts a) ≡ worth (find l.accounts a) +ℤ moved (member group) a
  unfolding compute_block_deltas
  group-worth failing group t applied_at l l' a h =
      commit_recon_group-worth failing _ group t applied_at l l' a
        (deltas_from-IsKeyed b (outside group (tx_hashes b.transactions)) b.transactions [] tt) h
      ∙ ap (λ x. worth (find l.accounts a) +ℤ x) (group-delta group a)

  commit_groups-worth :
      (faults : ReconFaults) (applied_at i : ℕ) (groups : List (List String)) (l : Ledger) (a : ℕ)
      → IsDistinct (joined groups)
      → (commit_groups faults b applied_at i groups l).0 ≡ true
      → worth (find (commit_groups faults b applied_at i groups l).1.accounts a)
        ≡ worth (find l.accounts a) +ℤ moved (member (joined groups)) a
  unfolding commit_groups member
  commit_groups-worth faults applied_at i [] l a d h =
      rw (moved_by-none (block_env node b coinbase zkvm) b.transactions a) (omega int_laws)
  commit_groups-worth faults applied_at i (group ∷ groups) l a d h =
      after_group faults applied_at (i + 1) groups l a (moved (member group) a)
        (moved (member (joined groups)) a)
        (commit_recon_group (faults.commit_fails i)
          (compute_block_deltas b (outside group (tx_hashes b.transactions))) group
          (nanos b.timestamp) applied_at l)
        (λ l' e. group-worth (faults.commit_fails i) group (nanos b.timestamp) applied_at l l' a e)
        (λ l' g.
          commit_groups-worth faults applied_at (i + 1) groups l' a
            (append-right group (joined groups) d) g)
        h
      ∙ ap (λ x. worth (find l.accounts a) +ℤ x)
          (sym (
            moved_by-ext (block_env node b coinbase zkvm) (member (group ++ joined groups))
              (λ hash. member group hash || member (joined groups) hash) b.transactions a
              (All-of b.transactions (λ tx. member-append group (joined groups) tx.hash))
            ∙ moved_by-union (block_env node b coinbase zkvm) (member group)
                (member (joined groups)) b.transactions a
                (λ hash. append-apart group (joined groups) hash d)))

-- The transactions that a ledger has not marked.
abbrev pub unmarked : Ledger → String → Bool
unmarked l hash = not (is_tx_applied l hash)

pub filter-marked :
    (l : Ledger) (all txs : List Tx)
    → ((hash : String) → member (tx_hashes txs) hash ≡ true → member (tx_hashes all) hash ≡ true)
    → All
        (λ (tx : Tx).
          member (filter_processed_tx_markers l (tx_hashes all)) tx.hash ≡ is_tx_applied l tx.hash)
        txs
unfolding member tx_hashes
filter-marked l all [] k = tt
filter-marked l all (tx ∷ txs) k = (
  elim (Bool-cases (is_tx_applied l tx.hash)) [
    | inl e ↦
        filter-applied l all tx.hash e (k tx.hash (ground (arith, eq_iff tx.hash tx.hash))) ∙ sym e
    | inr e ↦ elim (Bool-cases (member (filter_processed_tx_markers l (tx_hashes all)) tx.hash)) [
      | inl g ↦ g ∙ sym (filtered-applied l (tx_hashes all) tx.hash g)
      | inr g ↦ g ∙ sym e
    ]
  ],
  filter-marked l all txs (λ hash m. k hash (ground (arith, m))),
)

pending-IsDistinct :
    (applied : List String) (txs : List Tx)
    → IsDistinct (tx_hashes txs)
    → IsDistinct (pending_hashes applied txs)
unfolding pending_hashes tx_hashes
pending-IsDistinct applied [] d = tt
pending-IsDistinct applied (tx ∷ txs) d = elim (Bool-cases (member applied tx.hash)) [
  | inl e ↦ rw e (pending-IsDistinct applied txs d.1)
  | inr e ↦
      rw e (member-pending applied txs tx.hash ∙ rw d.0 refl, pending-IsDistinct applied txs d.1)
]

module _ (node : Node) (b : Block) (coinbase zkvm : ℕ) (c : b.coinbase_addr ≡ some coinbase)
    (z : b.zkvm_addr ≡ some zkvm) (plain : All IsPlain b.transactions)
    (distinct : IsDistinct (tx_hashes b.transactions)) where
  pub recon-worth :
      (faults : ReconFaults) (applied_at : ℕ) (expect_hash : String) (l : Ledger) (a : ℕ)
      → (apply_block_recon faults applied_at (some b) expect_hash l).0 ≡ true
      → worth (find (apply_block_recon faults applied_at (some b) expect_hash l).1.accounts a)
        ≡ worth (find l.accounts a)
          +ℤ moved_by (block_env node b coinbase zkvm) (unmarked l) b.transactions a
  unfolding apply_block_recon moved_by
  recon-worth faults applied_at expect_hash l a h =
      if-either P (not (str_eq expect_hash "") && not (equal_fold b.block_hash expect_hash))
        (λ g. absurd (ground (arith, g)))
        (elim (Bool-cases (length b.transactions == 0)) [
          | inl e ↦ if-first P (length b.transactions == 0) _ e (λ g. no_moves b.transactions e)
          | inr e ↦ if-second P (length b.transactions == 0) _ e (
              if-either P faults.filter_fails (λ g. absurd (ground (arith, g)))
                (λ g.
                  commit_groups-worth node b coinbase zkvm c z plain faults applied_at 0 groups l a
                    (rw complete (pending-IsDistinct applied b.transactions distinct)) g
                  ∙ ap (λ x. worth (find l.accounts a) +ℤ x)
                      (rw complete (
                        moved_by-ext (block_env node b coinbase zkvm)
                          (member (pending_hashes applied b.transactions)) (unmarked l)
                          b.transactions a
                          (chosen b.transactions
                            (pending-complement applied b.transactions b.transactions (λ hash m. m))
                            (filter-marked l b.transactions b.transactions (λ hash m. m)))))))
        ])
        h
    where
      P : Bool × Ledger → Type 0
      P r =
          r.0 ≡ true
          → worth (find r.1.accounts a)
            ≡ worth (find l.accounts a)
              +ℤ moved_by (block_env node b coinbase zkvm) (unmarked l) b.transactions a

      applied : List String
      applied = filter_processed_tx_markers l (tx_hashes b.transactions)

      groups : List (List String)
      groups =
          partition_recon_groups (length b.transactions) b (pending_hashes applied b.transactions)
            recon_group_op_budget b.transactions

      complete : joined groups ≡ pending_hashes applied b.transactions
      complete = (partition_complete b applied recon_group_op_budget).0

      no_moves :
          (txs : List Tx)
          → (length txs == 0) ≡ true
          → worth (find l.accounts a)
            ≡ worth (find l.accounts a)
              +ℤ moved_by (block_env node b coinbase zkvm) (unmarked l) txs a
      no_moves [] e = omega int_laws
      no_moves (tx ∷ txs) e = absurd (ground (arith, e))

      chosen :
          (txs : List Tx)
          → All
              (λ (tx : Tx).
                member (pending_hashes applied b.transactions) tx.hash
                ≡ not (member applied tx.hash))
              txs
          → All (λ (tx : Tx). member applied tx.hash ≡ is_tx_applied l tx.hash) txs
          → All
              (λ (tx : Tx).
                member (pending_hashes applied b.transactions) tx.hash ≡ unmarked l tx.hash)
              txs
      chosen [] g k = tt
      chosen (tx ∷ txs) g k = (g.0 ∙ ap not k.0, chosen txs g.1 k.1)
