-- ===== src/Bft/Laws/Faults.antt =====
-- What a faulty member can do with the checks as they are: replay another round's PREPARE, shift
-- the borders of signed fields, and vote with a decision that is neither ACCEPT nor REJECT.
use mathlib.Core.List.{append_assoc}
use jmdn.Base.{
  ℕ, ◌∙◌, ap, zero, suc, ◌+◌, ◌≤◌, ◌<◌, ◌≡◌, ◌≢◌, ◌↔◌, refl, sym, true, ◌||◌, Option, none, some,
  String, List, [], ◌∷◌, ◌++◌, arith, be64, Dict, get, eq_refl, str_eq, length, member, count_by,
  get-put, get_elem?, Bool,
}
use jmdn.Bft.{BuddyInput, Decision, PrepareMessage, CommitMessage, Error, Bytes, insufficient_proof}
use jmdn.Bft.Digest.{Crypto, bytes, prepare_payload, digest_prepare}
use jmdn.Bft.Byzantine.{
  Entry, default_ttl, Detector, is_byzantine, mark, detect_conflicts, conflicts_in,
}
use jmdn.Bft.Engine.{add_commit_msg, Engine, collect_prepare_proof, collect_proof}
use jmdn.Bft.Validate.{validate_commit, check_item}
use jmdn.Bft.Phases.{failed, on_commit, store_commit, accept_commit, mark_each, create_commit}

-- An item of a proof that we hold another PREPARE of, for another round.
member-conflicts_in :
    (ps : List PrepareMessage) (i : ℕ) (ours : Dict PrepareMessage) (p our : PrepareMessage)
    → get_elem? ps i ≡ some p
    → get ours p.buddy_id ≡ some our
    → our.round ≢ p.round
    → member (conflicts_in ps ours) p.buddy_id ≡ true
unfolding conflicts_in member
member-conflicts_in [] i ours p our h g r = cc
member-conflicts_in (q ∷ ps) zero ours p our h g r = ground (arith, eq_refl q.buddy_id)
member-conflicts_in (q ∷ ps) (suc i) ours p our h g r =
    ground (arith, member-conflicts_in ps i ours p our)

is_byzantine-mark :
    (at : ℕ) (b : Detector) (id k : String)
    → is_byzantine at (mark at b id) k ≡ (str_eq id k || is_byzantine at b k)
unfolding is_byzantine mark
is_byzantine-mark at b id k =
    let banned : Entry = record { banned_at = at; ttl = default_ttl } in
    ground (arith, get-put b id k banned)

is_byzantine-mark_each :
    (at : ℕ) (b : Detector) (ids : List String) (k : String)
    → is_byzantine at (mark_each at b ids) k ≡ (member ids k || is_byzantine at b k)
unfolding mark_each member
is_byzantine-mark_each at b [] k = refl
is_byzantine-mark_each at b (id ∷ ids) k =
    ground (arith, is_byzantine-mark_each at (mark at b id) ids k, is_byzantine-mark at b id k)

is_byzantine-accept_commit :
    (at : ℕ) (e : Engine) (msg : CommitMessage) (ids : List String) (k : String)
    → is_byzantine at (accept_commit at e msg ids).byzantine k
      ≡ (member ids k || is_byzantine at e.byzantine k)
unfolding accept_commit member add_commit_msg
is_byzantine-accept_commit at e msg [] k = ground arith
is_byzantine-accept_commit at e msg (id ∷ ids) k =
    is_byzantine-mark_each at e.byzantine (id ∷ ids) k

accept_commit-bans :
    (at : ℕ) (e : Engine) (msg : CommitMessage) (ids : List String) (k : String)
    → member ids k ≡ true
    → (is_byzantine at (accept_commit at e msg ids).byzantine k ≡ true)
      × ((accept_commit at e msg ids).commit_msgs ≡ e.commit_msgs)
unfolding accept_commit member
accept_commit-bans at e msg [] k h = absurd (ground arith)
accept_commit-bans at e msg (id ∷ ids) k h =
    (is_byzantine-accept_commit at e msg (id ∷ ids) k ∙ rw h, refl)

store_commit-bans :
    (at : ℕ) (msg : CommitMessage) (i : ℕ) (p our : PrepareMessage) (r : Engine × Option Error)
    → r.1 ≡ none
    → get_elem? msg.prepare_proof i ≡ some p
    → get r.0.prepare_msgs p.buddy_id ≡ some our
    → our.round ≢ p.round
    → (is_byzantine at (store_commit at msg r).byzantine p.buddy_id ≡ true)
      × ((store_commit at msg r).commit_msgs ≡ r.0.commit_msgs)
unfolding store_commit detect_conflicts
store_commit-bans at msg i p our (e, some err) h g m k = absurd (ground arith)
store_commit-bans at msg i p our (e, none) h g m k =
    accept_commit-bans at e msg (conflicts_in msg.prepare_proof e.prepare_msgs) p.buddy_id
      (member-conflicts_in msg.prepare_proof i e.prepare_msgs p our g m k)

is_byzantine-store_commit :
    (at : ℕ) (msg : CommitMessage) (k : String) (r : Engine × Option Error)
    → r.1 ≡ none
    → is_byzantine at (store_commit at msg r).byzantine k
      ≡ (member (detect_conflicts msg r.0.prepare_msgs) k || is_byzantine at r.0.byzantine k)
unfolding store_commit
is_byzantine-store_commit at msg k (e, some err) h = absurd (ground arith)
is_byzantine-store_commit at msg k (e, none) h =
    is_byzantine-accept_commit at e msg (detect_conflicts msg e.prepare_msgs) k

-- A COMMIT that passes validateCommit, and whose proof has a PREPARE in the name of a member that is
-- for another round than the PREPARE of that member that the engine holds, gets that member banned.
-- The COMMIT is not stored, and a member k, the sender of the COMMIT or any other, is banned
-- afterwards exactly when it was banned before or detectConflicts names it.
pub replayed_prepare_bans_its_author :
    (c : Crypto) (now at : ℕ) (e : Engine) (msg : CommitMessage) (k : String) (i : ℕ)
    (p our : PrepareMessage)
    → (validate_commit c now e msg).1 ≡ none
    → get_elem? msg.prepare_proof i ≡ some p
    → get (validate_commit c now e msg).0.prepare_msgs p.buddy_id ≡ some our
    → our.round ≢ p.round
    → (is_byzantine at (on_commit c now at e (some msg)).byzantine p.buddy_id ≡ true)
      × ((on_commit c now at e (some msg)).commit_msgs
          ≡ (validate_commit c now e msg).0.commit_msgs)
      × (is_byzantine at (on_commit c now at e (some msg)).byzantine k ≡ (
          member (detect_conflicts msg (validate_commit c now e msg).0.prepare_msgs) k
          || is_byzantine at (validate_commit c now e msg).0.byzantine k))
unfolding on_commit
replayed_prepare_bans_its_author c now at e msg k i p our h g m r =
    let bans = store_commit-bans at msg i p our (validate_commit c now e msg) h g m r in
    (bans.0, bans.1, is_byzantine-store_commit at msg k (validate_commit c now e msg) h)

length-collect_proof :
    (d : Decision) (t n : ℕ) (m : Dict PrepareMessage)
    → n < t
    → (t ≤ n + length (collect_proof d t n m))
      ↔ (t ≤ n + count_by (λ (e : String × PrepareMessage). str_eq e.1.decision d) m)
unfolding collect_proof
length-collect_proof d t n [] h = (λ k. k, λ k. k)
length-collect_proof d t n ((id, msg) ∷ m) h = (
  λ k. ground (arith, length-collect_proof d t (n + 1) m, (length-collect_proof d t n m h).0),
  λ k. ground (arith, length-collect_proof d t (n + 1) m, (length-collect_proof d t n m h).1),
)

-- With a threshold that is not zero, createCommit for a decision stops for want of proof exactly
-- when fewer stored PREPAREs than the threshold carry the very text of that decision.
pub create_commit-insufficient_iff :
    (c : Crypto) (now : ℕ) (e : Engine) (d : Decision)
    → 0 < e.threshold
    → ((create_commit c now e d).1 ≡ failed insufficient_proof) ↔ (
        count_by (λ (m : String × PrepareMessage). str_eq m.1.decision d) e.prepare_msgs
        < e.threshold)
unfolding create_commit collect_prepare_proof
create_commit-insufficient_iff c now e d h = (
  λ k. ground (arith, length-collect_proof d e.threshold 0 e.prepare_msgs h),
  λ k. ground (arith, length-collect_proof d e.threshold 0 e.prepare_msgs h),
)

fields_joined : (h i d t : Bytes) → h ++ (i ++ (d ++ t)) ≡ (h ++ (i ++ d)) ++ t
fields_joined h i d t = simp append_assoc refl

split_digest :
    (c : Crypto) (msg : PrepareMessage) (h d h' d' : String)
    → bytes h ++ (bytes msg.buddy_id ++ bytes d) ≡ bytes h' ++ (bytes msg.buddy_id ++ bytes d')
    → digest_prepare c (record msg { block_hash = h; decision = d })
      ≡ digest_prepare c (record msg { block_hash = h'; decision = d' })
unfolding digest_prepare prepare_payload
split_digest c msg h d h' d' q =
    ap (λ x. c.sha256 (bytes msg.version ++ (be64 msg.seq ++ (be64 msg.round ++ x))))
      (fields_joined (bytes h) (bytes msg.buddy_id) (bytes d) (be64 msg.timestamp)
        ∙ (ap (λ x. x ++ be64 msg.timestamp) q
            ∙ sym (fields_joined (bytes h') (bytes msg.buddy_id) (bytes d') (be64 msg.timestamp))))

-- The check of an item reads the block hash and the decision only through the digest.
check_item-digest :
    (c : Crypto) (now : ℕ) (required : Bool) (buddy : Option BuddyInput) (msg : PrepareMessage)
    (h d h' d' : String)
    → digest_prepare c (record msg { block_hash = h; decision = d })
      ≡ digest_prepare c (record msg { block_hash = h'; decision = d' })
    → check_item c now required buddy (record msg { block_hash = h; decision = d })
      ≡ check_item c now required buddy (record msg { block_hash = h'; decision = d' })
check_item-digest c now required none msg h d h' d' e = refl
check_item-digest c now required (some buddy) msg h d h' d' e = rw e refl

-- Two PREPAREs of one member that differ only in the block hash and the decision, where the block
-- hash, the member's id and the decision make up one byte string in both, have one digest. With the
-- same signature on both, the check of an item of a proof gives one answer for the two, whoever the
-- buddies are and whether or not signatures are required.
pub digest_prepare_split :
    (c : Crypto) (now : ℕ) (required : Bool) (buddies : Dict BuddyInput) (msg : PrepareMessage)
    (h d h' d' : String)
    → bytes h ++ (bytes msg.buddy_id ++ bytes d) ≡ bytes h' ++ (bytes msg.buddy_id ++ bytes d')
    → (digest_prepare c (record msg { block_hash = h; decision = d })
        ≡ digest_prepare c (record msg { block_hash = h'; decision = d' }))
      × (check_item c now required
            (get buddies msg.buddy_id)
            (record msg { block_hash = h; decision = d })
          ≡ check_item c now required
              (get buddies msg.buddy_id)
              (record msg { block_hash = h'; decision = d' }))
digest_prepare_split c now required buddies msg h d h' d' q =
    let same = split_digest c msg h d h' d' q in
    (same, check_item-digest c now required (get buddies msg.buddy_id) msg h d h' d' same)
