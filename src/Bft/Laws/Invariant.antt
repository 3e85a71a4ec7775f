-- ===== src/Bft/Laws/Invariant.antt =====
-- What holds of an engine throughout a round, against the engine `s` that the round began with.
use jmdn.Base.{
  ℕ, ◌≡◌, refl, true, Option, none, some, String, List, [], ◌∷◌, arith, has, keys, IsDistinct,
  put-IsDistinct, All, All-put,
}
use jmdn.Bft.{PrepareMessage, CommitMessage, Error}
use jmdn.Bft.Digest.{Crypto}
use jmdn.Bft.Engine.{Engine, add_prepare_msg, add_commit_msg, check_and_mark_seq}
use jmdn.Bft.Byzantine.{detect_conflicts}
use jmdn.Bft.Validate.{validate_prepare, validate_commit}
use jmdn.Bft.Phases.{on_prepare, on_commit, store_prepare, store_commit, accept_commit}
use jmdn.Bft.Laws.Validation.{validate_prepare_iff}
use jmdn.Bft.Laws.Proofs.{validate_commit_iff}

-- A stored PREPARE is from a known buddy and for the round and the block.
abbrev pub PrepareFor : Engine → String × PrepareMessage → Type 0
PrepareFor s (id, msg) =
    (has s.buddies id ≡ true) × (msg.round ≡ s.round) × (msg.block_hash ≡ s.block_hash)

abbrev pub CommitFor : Engine → String × CommitMessage → Type 0
CommitFor s (id, msg) =
    (has s.buddies id ≡ true) × (msg.round ≡ s.round) × (msg.block_hash ≡ s.block_hash)

-- The setting of the round has not changed.
pub record SameSetting (s e : Engine) : Type 0 where
  pub same_config : e.config ≡ s.config
  pub same_buddies : e.buddies ≡ s.buddies
  pub same_threshold : e.threshold ≡ s.threshold
  pub same_round : e.round ≡ s.round
  pub same_block : e.block_hash ≡ s.block_hash
  pub same_self : e.my_buddy_id ≡ s.my_buddy_id

pub record Inv (s e : Engine) : Type 0 where
  pub setting : SameSetting s e
  pub self_known : has s.buddies s.my_buddy_id ≡ true
  pub prepares_distinct : IsDistinct (keys e.prepare_msgs)
  pub prepares_for : All (PrepareFor s) e.prepare_msgs
  pub commits_distinct : IsDistinct (keys e.commit_msgs)
  pub commits_for : All (CommitFor s) e.commit_msgs

module _ (s e : Engine) (inv : Inv s e) where
  pub add_prepare_msg-Inv :
      (msg : PrepareMessage) → PrepareFor s (msg.buddy_id, msg) → Inv s (add_prepare_msg e msg)
  unfolding add_prepare_msg
  add_prepare_msg-Inv msg h = ground (
    arith,
    inv,
    put-IsDistinct e.prepare_msgs msg.buddy_id msg inv.prepares_distinct,
    All-put (PrepareFor s) e.prepare_msgs msg.buddy_id msg inv.prepares_for h,
  )

  pub add_commit_msg-Inv :
      (msg : CommitMessage) → CommitFor s (msg.buddy_id, msg) → Inv s (add_commit_msg e msg)
  unfolding add_commit_msg
  add_commit_msg-Inv msg h = ground (
    arith,
    inv,
    put-IsDistinct e.commit_msgs msg.buddy_id msg inv.commits_distinct,
    All-put (CommitFor s) e.commit_msgs msg.buddy_id msg inv.commits_for h,
  )

  pub validate_prepare-Inv :
      (c : Crypto) (now : ℕ) (msg : PrepareMessage) → Inv s (validate_prepare c now e msg).0
  unfolding validate_prepare check_and_mark_seq
  validate_prepare-Inv c now msg = ground arith

  pub validate_commit-Inv :
      (c : Crypto) (now : ℕ) (msg : CommitMessage) → Inv s (validate_commit c now e msg).0
  unfolding validate_commit check_and_mark_seq
  validate_commit-Inv c now msg = ground arith

-- A message that passes its check is for the round, from a buddy of it.
module _ (s e : Engine) (inv : Inv s e) (c : Crypto) (now : ℕ) where
  accepted-PrepareFor :
      (msg : PrepareMessage)
      → (validate_prepare c now e msg).1 ≡ none
      → PrepareFor s (msg.buddy_id, msg)
  accepted-PrepareFor msg h = ground (arith, inv, (validate_prepare_iff c now e msg).0 h)

  accepted-CommitFor :
      (msg : CommitMessage)
      → (validate_commit c now e msg).1 ≡ none
      → CommitFor s (msg.buddy_id, msg)
  accepted-CommitFor msg h = ground (arith, inv, (validate_commit_iff c now e msg).0 h)

store_prepare-Inv :
    (s : Engine) (msg : PrepareMessage) (r : Engine × Option Error)
    → Inv s r.0
    → (r.1 ≡ none → PrepareFor s (msg.buddy_id, msg))
    → Inv s (store_prepare msg r)
unfolding store_prepare
store_prepare-Inv s msg (e, none) inv h = add_prepare_msg-Inv s e inv msg (h refl)
store_prepare-Inv s msg (e, some err) inv h = inv

store_commit-Inv :
    (s : Engine) (at : ℕ) (msg : CommitMessage) (r : Engine × Option Error)
    → Inv s r.0
    → (r.1 ≡ none → CommitFor s (msg.buddy_id, msg))
    → Inv s (store_commit at msg r)
unfolding store_commit
store_commit-Inv s at msg (e, none) inv h = accept_commit-Inv (detect_conflicts msg e.prepare_msgs)
  where
    accept_commit-Inv : (ids : List String) → Inv s (accept_commit at e msg ids)
    accept_commit-Inv [] = add_commit_msg-Inv s e inv msg (h refl)
    accept_commit-Inv (id ∷ ids) = assumption inv
store_commit-Inv s at msg (e, some err) inv h = inv

pub on_prepare-Inv :
    (s e : Engine) (c : Crypto) (now : ℕ) (msg : Option PrepareMessage)
    → Inv s e
    → Inv s (on_prepare c now e msg)
unfolding on_prepare
on_prepare-Inv s e c now none inv = inv
on_prepare-Inv s e c now (some msg) inv =
    store_prepare-Inv s msg (validate_prepare c now e msg) (validate_prepare-Inv s e inv c now msg)
      (accepted-PrepareFor s e inv c now msg)

pub on_commit-Inv :
    (s e : Engine) (c : Crypto) (now at : ℕ) (msg : Option CommitMessage)
    → Inv s e
    → Inv s (on_commit c now at e msg)
unfolding on_commit
on_commit-Inv s e c now at none inv = inv
on_commit-Inv s e c now at (some msg) inv =
    store_commit-Inv s at msg (validate_commit c now e msg) (validate_commit-Inv s e inv c now msg)
      (accepted-CommitFor s e inv c now msg)
