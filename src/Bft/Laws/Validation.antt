-- ===== src/Bft/Laws/Validation.antt =====
-- validatePrepare (engine.go): what an accepted PREPARE has shown, and what a refused one leaves.
use jmdn.Base.{
  ℕ, ◌≤◌, ◌<◌, ◌≡◌, refl, ◌≢◌, true, false, ◌↔◌, ◌⊎◌, inr, none, some, arith, length, eq_iff, get,
  put, get-put,
}
use jmdn.Bft.{BuddyInput, PrepareMessage, Error, missing_signature, invalid_signature}
use jmdn.Bft.Digest.{Crypto, digest_prepare}
use jmdn.Bft.Engine.{Engine, is_timestamp_fresh, check_and_mark_seq, or_zero}
use jmdn.Bft.Validate.{validate_prepare}

-- What a PREPARE of a known buddy must show.
pub record Admissible (c : Crypto) (now : ℕ) (e : Engine) (msg : PrepareMessage) (b : BuddyInput)
    : Type 0 where
  pub same_round : msg.round ≡ e.round
  pub same_block : msg.block_hash ≡ e.block_hash
  pub fresh : is_timestamp_fresh now msg.timestamp ≡ true
  pub newer : or_zero (get e.last_seq_seen msg.buddy_id) < msg.seq
  pub signed :
      (e.config.require_signatures ≡ false)
      ⊎ ((0 < length msg.signature)
          × (c.verify b.public_key (digest_prepare c msg) msg.signature ≡ true))

-- A PREPARE is accepted exactly when its sender is a known buddy, it is for the engine's round and
-- block, its timestamp is fresh, its sequence number is above the last one seen from that buddy,
-- and, where signatures are required, it carries one that verifies under the buddy's key.
pub validate_prepare_iff :
    (c : Crypto) (now : ℕ) (e : Engine) (msg : PrepareMessage)
    → ((validate_prepare c now e msg).1 ≡ none)
      ↔ ((b : BuddyInput) × (get e.buddies msg.buddy_id ≡ some b) × Admissible c now e msg b)
unfolding validate_prepare check_and_mark_seq
validate_prepare_iff c now e msg = (
  λ h. ground (arith, eq_iff msg.block_hash e.block_hash),
  λ h. ground (arith, h, eq_iff msg.block_hash e.block_hash),
)

-- A PREPARE that is refused for a missing or an invalid signature has had its sequence number
-- marked as seen, and has changed nothing else.
pub validate_prepare_marks :
    (c : Crypto) (now : ℕ) (e : Engine) (msg : PrepareMessage) {err : Error}
    → (validate_prepare c now e msg).1 ≡ some err
    → (err ≡ missing_signature) ⊎ (err ≡ invalid_signature)
    → (validate_prepare c now e msg).0
      ≡ record e { last_seq_seen = put e.last_seq_seen msg.buddy_id msg.seq }
unfolding validate_prepare check_and_mark_seq
validate_prepare_marks c now e msg h k = ground arith

-- A message that fails its signature check locks its named sender out: after it, every PREPARE of
-- that sender with a sequence number up to the forged one is refused, signed or not.
pub forged_sequence_locks_out :
    (c : Crypto) (now later : ℕ) (e : Engine) (forged honest : PrepareMessage)
    → (validate_prepare c now e forged).1 ≡ some invalid_signature
    → honest.buddy_id ≡ forged.buddy_id
    → honest.seq ≤ forged.seq
    → (validate_prepare c later (validate_prepare c now e forged).0 honest).1 ≢ none
forged_sequence_locks_out c now later e forged honest h same le accepted =
    let marked = validate_prepare_marks c now e forged h (inr refl) in
    let newer =
      ((validate_prepare_iff c later (validate_prepare c now e forged).0 honest).0
        accepted).2.newer in
    ground (
      arith,
      marked,
      newer,
      get-put e.last_seq_seen forged.buddy_id honest.buddy_id forged.seq,
      eq_iff forged.buddy_id honest.buddy_id,
    )
