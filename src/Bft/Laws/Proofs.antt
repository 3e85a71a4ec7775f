-- ===== src/Bft/Laws/Proofs.antt =====
-- validateCommit (engine.go): what a COMMIT and its proof must show.
use jmdn.Base.{
  ℕ, ◌+◌, ◌≤◌, ◌<◌, ◌≡◌, Bool, true, false, ◌↔◌, ◌∙◌, ◌⊎◌, inl, inr, none, some, String, List, [],
  ◌∷◌, arith, length, eq_iff, Dict, get, member, str_eq, count_by, if◌then◌else◌, Bool-cases,
  Option-cases,
}
use jmdn.Bft.{BuddyInput, PrepareMessage, CommitMessage, Bytes, Decision}
use jmdn.Bft.Digest.{Crypto, digest_prepare, digest_commit}
use jmdn.Bft.Engine.{Engine, is_timestamp_fresh, check_and_mark_seq, or_zero}
use jmdn.Bft.Validate.{validate_commit, check_proof, check_item}

-- A signature that is not required, or is there and verifies.
abbrev pub Signed : Crypto → Bool → Bytes → Bytes → Bytes → Type 0
Signed c required public_key digest signature =
    (required ≡ false) ⊎ ((0 < length signature) × (c.verify public_key digest signature ≡ true))

-- An item of a proof: from a known buddy, fresh, and signed.
abbrev pub GoodItem : Crypto → ℕ → Bool → Dict BuddyInput → PrepareMessage → Type 0
GoodItem c now required buddies p =
    (b : BuddyInput) × (get buddies p.buddy_id ≡ some b)
    × (is_timestamp_fresh now p.timestamp ≡ true)
    × Signed c required b.public_key (digest_prepare c p) p.signature

-- The items are good, and no buddy has two, with those seen before.
abbrev pub GoodProof :
    Crypto → ℕ → Bool → Dict BuddyInput → List String → List PrepareMessage → Type 0
GoodProof c now required buddies seen [] = Unit
GoodProof c now required buddies seen (p ∷ ps) =
    (member seen p.buddy_id ≡ false)
    × GoodItem c now required buddies p
    × GoodProof c now required buddies (p.buddy_id ∷ seen) ps

abbrev supports : Decision → PrepareMessage → Bool
supports d p = str_eq p.decision d

check_item-GoodItem :
    (c : Crypto) (now : ℕ) (required : Bool) (buddies : Dict BuddyInput) (p : PrepareMessage)
    → check_item c now required (get buddies p.buddy_id) p ≡ none
    → GoodItem c now required buddies p
check_item-GoodItem c now required buddies p h = elim (Option-cases (get buddies p.buddy_id)) [
  | inl e ↦ absurd (ground arith)
  | inr (b, e) ↦ (b, e, ground arith, ground arith)
]

GoodItem-check_item :
    (c : Crypto) (now : ℕ) (required : Bool) (buddies : Dict BuddyInput) (p : PrepareMessage)
    → GoodItem c now required buddies p
    → check_item c now required (get buddies p.buddy_id) p ≡ none
GoodItem-check_item c now required buddies p h = rw h.1 (ground (arith, h.2, h.3))

module _ (c : Crypto) (now : ℕ) (required : Bool) (buddies : Dict BuddyInput) (d : Decision) where
  pub check_proof-GoodProof :
      (seen : List String) (k : ℕ) (ps : List PrepareMessage)
      → (check_proof c now required buddies d seen k ps).0 ≡ none
      → GoodProof c now required buddies seen ps
        × ((check_proof c now required buddies d seen k ps).1 ≡ k + count_by (supports d) ps)
  unfolding check_proof
  check_proof-GoodProof seen k [] h = (tt, omega arith)
  check_proof-GoodProof seen k (p ∷ ps) h = elim (Bool-cases (member seen p.buddy_id)) [
    | inl m ↦ absurd (ground arith)
    | inr m ↦ elim (Option-cases (check_item c now required (get buddies p.buddy_id) p)) [
      | inr (err, e) ↦ absurd (ground arith)
      | inl e ↦
          let (good, n) =
            check_proof-GoodProof (p.buddy_id ∷ seen) (if str_eq p.decision d then k + 1 else k) ps
              (rw (m, e) at h) in
          ((m, check_item-GoodItem c now required buddies p e, good), rw (m, e) (ground (arith, n)))
    ]
  ]

  pub GoodProof-check_proof :
      (seen : List String) (k : ℕ) (ps : List PrepareMessage)
      → GoodProof c now required buddies seen ps
      → check_proof c now required buddies d seen k ps ≡ (none, k + count_by (supports d) ps)
  unfolding check_proof
  GoodProof-check_proof seen k [] h = ground arith
  GoodProof-check_proof seen k (p ∷ ps) h =
      rw (h.0, GoodItem-check_item c now required buddies p h.1)
        (GoodProof-check_proof (p.buddy_id ∷ seen) (if str_eq p.decision d then k + 1 else k) ps h.2
          ∙ ground arith)

-- What a COMMIT of a known buddy must show.
pub record Admissible (c : Crypto) (now : ℕ) (e : Engine) (msg : CommitMessage) (b : BuddyInput)
    : Type 0 where
  pub same_round : msg.round ≡ e.round
  pub same_block : msg.block_hash ≡ e.block_hash
  pub short : length msg.prepare_proof ≤ e.config.max_proof_size
  pub fresh : is_timestamp_fresh now msg.timestamp ≡ true
  pub newer : or_zero (get e.last_seq_seen msg.buddy_id) < msg.seq
  pub signed : Signed c e.config.require_signatures b.public_key (digest_commit c msg) msg.signature
  pub proof : GoodProof c now e.config.require_signatures e.buddies [] msg.prepare_proof
  pub supported : e.threshold ≤ count_by (supports msg.decision) msg.prepare_proof

-- A COMMIT is accepted exactly when its sender is a known buddy, it is for the engine's round and
-- block, its proof is within the size limit, its timestamp is fresh, its sequence number is above
-- the last one seen, it is signed where that is required, the items of its proof come from
-- distinct known buddies and are fresh and signed, and as many as the threshold carry its decision.
-- The round, the block and the version of an item are not among the conditions.
pub validate_commit_iff :
    (c : Crypto) (now : ℕ) (e : Engine) (msg : CommitMessage)
    → ((validate_commit c now e msg).1 ≡ none)
      ↔ ((b : BuddyInput) × (get e.buddies msg.buddy_id ≡ some b) × Admissible c now e msg b)
unfolding validate_commit check_and_mark_seq
validate_commit_iff c now e msg = (
  λ h. ground (
    arith,
    eq_iff msg.block_hash e.block_hash,
    check_proof-GoodProof c now e.config.require_signatures e.buddies msg.decision [] 0
        msg.prepare_proof,
  ),
  λ h. ground (
    arith,
    h,
    eq_iff msg.block_hash e.block_hash,
    GoodProof-check_proof c now e.config.require_signatures e.buddies msg.decision [] 0
        msg.prepare_proof h.2.proof,
  ),
)
