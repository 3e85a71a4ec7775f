-- ===== src/Bft/Validate.antt =====
-- validatePrepare and validateCommit of engine.go. `now` is the wall clock in seconds. A sequence
-- number is marked before the signature is looked at, so both return the engine that they leave.
use jmdn.Base.{
  ℕ, ◌+◌, Bool, not, ◌&&◌, Option, none, some, String, List, [], ◌∷◌, length, ltb, ◌==◌, str_eq,
  if◌then◌else◌, Dict, get, member,
}
use jmdn.Bft.{
  Bytes, BuddyInput, PrepareMessage, CommitMessage, Decision, Error, unknown_buddy,
  wrong_round_or_block, stale_timestamp, missing_signature, invalid_signature, proof_too_large,
  duplicate_in_proof, unknown_in_proof, stale_in_proof, missing_proof_signature,
  invalid_proof_signature, insufficient_votes,
}
use jmdn.Bft.Digest.{Crypto, digest_prepare, digest_commit}
use jmdn.Bft.Engine.{Engine, check_and_mark_seq, is_timestamp_fresh}

-- The signature block, with the errors of the place where it stands.
abbrev pub check_signature : Crypto → Bool → Bytes → Bytes → Bytes → Error → Error → Option Error
check_signature c required public_key digest signature missing invalid =
    if not required
    then none
    else if length signature == 0
    then some missing
    else if not (c.verify public_key digest signature)
    then some invalid
    else none

-- What follows the mark of the sequence number.
abbrev pub after_seq : Option Error → Engine × Option Error → Engine × Option Error
after_seq checked (e, none) = (e, checked)
after_seq checked (e, some err) = (e, some err)

validate_prepare_of :
    Crypto → ℕ → Engine → PrepareMessage → Option BuddyInput → Engine × Option Error
validate_prepare_of c now e msg none = (e, some unknown_buddy)
validate_prepare_of c now e msg (some buddy) =
    if not ((msg.round == e.round) && str_eq msg.block_hash e.block_hash)
    then (e, some wrong_round_or_block)
    else if not (is_timestamp_fresh now msg.timestamp)
    then (e, some stale_timestamp)
    else after_seq
        (check_signature c e.config.require_signatures buddy.public_key (digest_prepare c msg)
          msg.signature missing_signature invalid_signature)
        (check_and_mark_seq e msg.buddy_id msg.seq)

-- validatePrepare
unfoldable pub validate_prepare : Crypto → ℕ → Engine → PrepareMessage → Engine × Option Error
unfolding validate_prepare_of
validate_prepare c now e msg = validate_prepare_of c now e msg (get e.buddies msg.buddy_id)

-- One item of the proof, for which the buddy is known or not.
abbrev pub check_item : Crypto → ℕ → Bool → Option BuddyInput → PrepareMessage → Option Error
check_item c now required none prepare = some unknown_in_proof
check_item c now required (some buddy) prepare =
    if not (is_timestamp_fresh now prepare.timestamp)
    then some stale_in_proof
    else check_signature c required buddy.public_key (digest_prepare c prepare) prepare.signature
        missing_proof_signature invalid_proof_signature

-- The loop over the proof: `seen` are the ids so far. It ends in an error, or in the number of
-- items that carry the decision.
unfoldable pub check_proof :
    Crypto
    → ℕ
    → Bool
    → Dict BuddyInput
    → Decision
    → List String
    → ℕ
    → List PrepareMessage
    → Option Error × ℕ
check_proof c now required buddies d seen supporting [] = (none, supporting)
check_proof c now required buddies d seen supporting (p ∷ ps) =
    let rest =
      check_proof c now required buddies d (p.buddy_id ∷ seen)
        (if str_eq p.decision d then supporting + 1 else supporting) ps in
    if member seen p.buddy_id
    then (some duplicate_in_proof, supporting)
    else elim (check_item c now required (get buddies p.buddy_id) p) [
      | some err ↦ (some err, supporting)
      | none ↦ rest
    ]

-- What the proof amounts to, against the threshold.
abbrev pub proof_error : ℕ → Option Error × ℕ → Option Error
proof_error threshold (some err, n) = some err
proof_error threshold (none, n) = if ltb n threshold then some insufficient_votes else none

validate_commit_of : Crypto → ℕ → Engine → CommitMessage → Option BuddyInput → Engine × Option Error
unfolding check_proof
validate_commit_of c now e msg none = (e, some unknown_buddy)
validate_commit_of c now e msg (some buddy) =
    if not ((msg.round == e.round) && str_eq msg.block_hash e.block_hash)
    then (e, some wrong_round_or_block)
    else if ltb e.config.max_proof_size (length msg.prepare_proof)
    then (e, some proof_too_large)
    else if not (is_timestamp_fresh now msg.timestamp)
    then (e, some stale_timestamp)
    else after_seq
        (elim (check_signature c e.config.require_signatures buddy.public_key (digest_commit c msg)
          msg.signature missing_signature invalid_signature) [
            | some err ↦ some err
            | none ↦ proof_error e.threshold (
                check_proof c now e.config.require_signatures e.buddies msg.decision [] 0
                  msg.prepare_proof)
          ])
        (check_and_mark_seq e msg.buddy_id msg.seq)

-- validateCommit
unfoldable pub validate_commit : Crypto → ℕ → Engine → CommitMessage → Engine × Option Error
unfolding validate_commit_of
validate_commit c now e msg = validate_commit_of c now e msg (get e.buddies msg.buddy_id)
