-- ===== src/Ledger/Laws/Conserved.antt =====
-- ProcessBlockTransactions and the sum of all balances.
use jmdn.Base.{
  ℕ, ◌≡◌, refl, ◌∙◌, inl, inr, Bool, true, false, Option, none, some, String, List, [], ◌∷◌, ltb,
  All, arith, Bool-cases,
}
use jmdn.Fee.{FeeRecipient}
use jmdn.Ledger.{Tx, Block, Ledger}
use jmdn.Ledger.Markers.{
  advance_anchor, write_block_processed_marker, bump_art_ordinal_floor, next_live_anchor,
  next_recon_anchor,
}
use jmdn.Ledger.Execute.{cleanup_processing_markers}
use jmdn.Ledger.Processing.{
  BlockFaults, Node, BlockOutcome, rolled_back, not_rolled_back, rollback_failed, already_processed,
  processed, prefilter_failed, panicked, Applying, Step, next, failing, Run, finished, stopped,
  cleanup_all, raise_floor, finish_block, max_carried_ordinal,
}
use jmdn.Ledger.Laws.Execute.{cleanup-keeps}
use jmdn.Ledger.Laws.Total.{IsListed}

abbrev pub ListsOptional : List ℕ → Option ℕ → Type 0
ListsOptional addrs none = Unit {0}
ListsOptional addrs (some a) = IsListed addrs a

abbrev pub ListsTx : List ℕ → Tx → Type 0
ListsTx addrs tx = ListsOptional addrs tx.from × ListsOptional addrs tx.to

-- The list has every address that the block pays or charges, once.
abbrev pub ListsBlock : List ℕ → Block → Type 0
ListsBlock addrs b =
    ListsOptional addrs b.coinbase_addr
    × ListsOptional addrs b.zkvm_addr
    × All (λ (r : FeeRecipient). IsListed addrs r.addr) b.fee_recipients
    × All (ListsTx addrs) b.transactions

abbrev step_ledger : Step → Ledger
step_ledger (next a) = a.ledger
step_ledger (failing e a) = a.ledger

abbrev run_ledger : Run → Ledger
run_ledger (finished a) = a.ledger
run_ledger (stopped e hash a) = a.ledger

unfoldable pub is_rolled_back : BlockOutcome → Bool
is_rolled_back (rolled_back e) = true
is_rolled_back (rollback_failed e) = true
is_rolled_back (not_rolled_back e) = false
is_rolled_back already_processed = false
is_rolled_back processed = false
is_rolled_back prefilter_failed = false
is_rolled_back panicked = false

pub advance-accounts :
    (fails contiguous : Bool) (target : ℕ) (l : Ledger)
    → (advance_anchor fails contiguous target l).accounts ≡ l.accounts
unfolding advance_anchor next_live_anchor next_recon_anchor
advance-accounts fails contiguous target l = ground arith

pub cleanup_all-accounts :
    (hashes : List String) (l : Ledger) → (cleanup_all hashes l).accounts ≡ l.accounts
unfolding cleanup_all
cleanup_all-accounts [] l = refl
cleanup_all-accounts (hash ∷ hashes) l =
    cleanup_all-accounts hashes (cleanup_processing_markers hash l) ∙ (cleanup-keeps hash l).0

floor-accounts :
    (fails : Bool) (floor : ℕ) (l : Ledger)
    → (bump_art_ordinal_floor fails floor l).accounts ≡ l.accounts
unfolding bump_art_ordinal_floor
floor-accounts fails floor l = ground arith

pub raise_floor-accounts :
    (faults : BlockFaults) (b : Block) (l : Ledger) → (raise_floor faults b l).accounts ≡ l.accounts
unfolding raise_floor
raise_floor-accounts faults b l =
    elim (Bool-cases (ltb 0 (max_carried_ordinal b.account_nonces 0))) [
      | inl e ↦ rw (raise_floor, e) (floor-accounts _ _ l)
      | inr e ↦ rw (raise_floor, e) refl
    ]

marked-accounts :
    (fails : Bool) (hash : String) (now : ℕ) (l : Ledger)
    → (write_block_processed_marker fails hash now l).accounts ≡ l.accounts
unfolding write_block_processed_marker
marked-accounts fails hash now l = ground arith

pub finish_block-accounts :
    (node : Node) (faults : BlockFaults) (b : Block) (a : Applying)
    → (finish_block node faults b a).accounts ≡ a.ledger.accounts
unfolding finish_block
finish_block-accounts node faults b a =
    advance-accounts _ _ _ (elim a.successful as (λ _. Ledger) [
      | [] ↦ a.ledger
      | hash ∷ hashes ↦
          cleanup_all (hash ∷ hashes)
            (write_block_processed_marker faults.block_marker_fails b.block_hash node.now a.ledger)
    ])
    ∙ marked a.successful
  where
    marked :
        (hashes : List String)
        → (elim hashes as (λ _. Ledger) [
          | [] ↦ a.ledger
          | hash ∷ hashes ↦ cleanup_all (hash ∷ hashes) (
              write_block_processed_marker faults.block_marker_fails b.block_hash node.now a.ledger)
        ]).accounts
          ≡ a.ledger.accounts
    marked [] = refl
    marked (hash ∷ hashes) = cleanup_all-accounts (hash ∷ hashes) _ ∙ marked-accounts _ _ _ a.ledger
