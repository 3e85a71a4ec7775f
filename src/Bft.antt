-- ===== src/Bft.antt =====
-- AVC/BFT/bft: the two-phase vote of the buddy committee. The messages, the configuration and the
-- constants of types.go and constants.go; the wall-clock fields of the results and the timeouts
-- of the configuration are left out.
pub mod Digest
pub mod Byzantine
pub mod Engine
pub mod Validate
pub mod Phases
pub mod Consensus
pub mod Laws
mod Tests
use jmdn.Base.{ℕ, Bool, true, String, List}

-- `Decision` is a Go string: a message from the network may carry any text.
abbrev pub Decision : Type 0
Decision = String

abbrev pub accept : Decision
accept = "ACCEPT"

abbrev pub reject : Decision
reject = "REJECT"

abbrev pub Bytes : Type 0
Bytes = List ℕ

pub record BuddyInput : Type 0 where
  pub id : String
  pub decision : Decision
  pub public_key : Bytes
  pub private_key : Bytes

-- `seq` and `round` are uint64; `timestamp` is the bit pattern of an int64.
pub record PrepareMessage : Type 0 where
  pub version : String
  pub seq : ℕ
  pub round : ℕ
  pub block_hash : String
  pub buddy_id : String
  pub decision : Decision
  pub timestamp : ℕ
  pub signature : Bytes

pub record CommitMessage : Type 0 where
  pub version : String
  pub seq : ℕ
  pub round : ℕ
  pub block_hash : String
  pub buddy_id : String
  pub decision : Decision
  pub prepare_proof : List PrepareMessage
  pub timestamp : ℕ
  pub signature : Bytes

pub record PhaseResult : Type 0 where
  pub accept_votes : ℕ
  pub reject_votes : ℕ
  pub threshold_met : Bool
  pub threshold : ℕ
  pub decision : Decision

pub record Config : Type 0 where
  pub min_buddies : ℕ
  pub max_buddies : ℕ
  pub require_signatures : Bool
  pub validate_proofs : Bool
  pub max_proof_size : ℕ

abbrev pub prepare_version_v1 : String
prepare_version_v1 = "PREPARE_V1"

abbrev pub commit_version_v1 : String
commit_version_v1 = "COMMIT_V1"

abbrev pub allowed_timestamp_skew : ℕ
allowed_timestamp_skew = 30

abbrev pub max_prepare_proof_size : ℕ
max_prepare_proof_size = 256

abbrev pub default_committee_size : ℕ
default_committee_size = 13

-- DefaultConfig
abbrev pub default_config : Config
default_config = record {
  min_buddies = default_committee_size;
  max_buddies = 1000;
  require_signatures = true;
  validate_proofs = true;
  max_proof_size = max_prepare_proof_size;
}

pub data Error : Type 0 where
  empty_buddy_id insufficient_buddies empty_id duplicate_id invalid_decision : Error
  missing_public_key missing_private_key buddy_not_found no_signer sign_failed : Error
  broadcast_failed prepare_timeout commit_timeout insufficient_proof proof_too_large : Error
  unknown_buddy wrong_round_or_block stale_timestamp sequence_not_monotonic : Error
  missing_signature invalid_signature duplicate_in_proof unknown_in_proof stale_in_proof : Error
  missing_proof_signature invalid_proof_signature insufficient_votes : Error
