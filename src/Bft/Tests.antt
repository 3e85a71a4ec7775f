-- ===== src/Bft/Tests.antt =====
-- Runs of the two-phase vote, and its theorems at concrete inputs.
use jmdn.Base.{
  ℕ, ◌+◌, ◌-◌, ◌^◌, ◌≤◌, ◌<◌, ◌≡◌, ◌≢◌, refl, Bool, true, false, ◌&&◌, ◌||◌, ◌↔◌, ◌⊎◌, none, some,
  String, List, [], ◌∷◌, ◌++◌, arith, count_by, length, be64, get, put, str_eq, member, ◌==◌,
}
use jmdn.Quorum.{bft_threshold, byzantine_tolerance}
use jmdn.Bft.{
  Config, Decision, accept, reject, BuddyInput, PrepareMessage, CommitMessage, Bytes,
  insufficient_proof, prepare_version_v1, commit_version_v1,
}
use jmdn.Bft.Digest.{Crypto, bytes, prepare_payload, digest_prepare}
use jmdn.Bft.Byzantine.{is_byzantine, detect_conflicts}
use jmdn.Bft.Engine.{
  Engine, local_signer, ensure_seq_for_self, verdict, add_prepare_msg, get_prepare_vote_counts,
  collect_prepare_proof, add_commit_msg, get_commit_vote_counts_clean, check_and_mark_seq,
  is_timestamp_fresh,
}
use jmdn.Bft.Validate.{validate_prepare, validate_commit, check_item}
use jmdn.Bft.Phases.{
  failed, PrepareEvent, CommitEvent, on_commit, create_commit, run_prepare, run_commit,
  wait_prepare, wait_commit,
}
use jmdn.Bft.Consensus.{new_engine, prepare_engine, run_phases}
use jmdn.Bft.Laws.Freshness.{is_timestamp_fresh_iff}
use jmdn.Bft.Laws.Validation.{Admissible, validate_prepare_iff, forged_sequence_locks_out}
use jmdn.Bft.Laws.Proofs
use jmdn.Bft.Laws.Proofs.{validate_commit_iff}
use jmdn.Bft.Laws.Agreement.{Call, run, holds_accept, holds_reject, run_consensus_agreement}
use jmdn.Bft.Laws.Faults.{
  replayed_prepare_bans_its_author, create_commit-insufficient_iff, digest_prepare_split,
}

-- A signature scheme for the tests: a signature verifies by its length alone.
abbrev toy : Crypto
toy = record {
  sha256 = λ m. m;
  sign = λ k m. k ++ m;
  verify = λ k m s. length s == length (k ++ m);
}

abbrev buddy : String → Decision → BuddyInput
buddy id d = record { id = id; decision = d; public_key = 1 ∷ []; private_key = 1 ∷ [] }

abbrev config : ℕ → Bool → Config
config n signed = record {
  min_buddies = n;
  max_buddies = 1000;
  require_signatures = signed;
  validate_proofs = true;
  max_proof_size = 256;
}

abbrev prepare : ℕ → ℕ → String → Decision → Bytes → PrepareMessage
prepare seq round id d sig = record {
  version = prepare_version_v1;
  seq = seq;
  round = round;
  block_hash = "b";
  buddy_id = id;
  decision = d;
  timestamp = 1000;
  signature = sig;
}

abbrev commit : ℕ → String → Decision → List PrepareMessage → CommitMessage
commit seq id d proof = record {
  version = commit_version_v1;
  seq = seq;
  round = 7;
  block_hash = "b";
  buddy_id = id;
  decision = d;
  prepare_proof = proof;
  timestamp = 1000;
  signature = [];
}

abbrev two : List BuddyInput
two = buddy "a" accept ∷ buddy "c" accept ∷ []

-- The engine of "a" in a committee of two, which asks for signatures or not.
abbrev engine : Bool → Engine
engine signed = new_engine (config 1 signed) 7 "b" "a" two (buddy "a" accept) none

is_timestamp_fresh_iff_example : (is_timestamp_fresh 10 (2 ^ 64 - 5) ≡ true) ↔ (
    (2 ^ 64 - 5 ≢ 0)
    × (((2 ^ 64 - 5 ≤ 10 + 30) × (10 ≤ 2 ^ 64 - 5 + 30))
        ⊎ ((10 + 2 ^ 64 ≤ 2 ^ 64 - 5 + 30) ⊎ (2 ^ 64 - 5 ≡ 10 + 2 ^ 63))))
is_timestamp_fresh_iff_example = is_timestamp_fresh_iff 10 (2 ^ 64 - 5) (omega arith) (omega arith)

-- A timestamp 2^63 seconds away counts as fresh.
antipode_is_fresh : is_timestamp_fresh 1000 (1000 + 2 ^ 63) ≡ true
unfolding is_timestamp_fresh
antipode_is_fresh = refl

validate_prepare_iff_example :
    ((validate_prepare toy 1010 (engine false) (prepare 1 7 "c" accept [])).1 ≡ none) ↔ (
      (b : BuddyInput) × (get (engine false).buddies "c" ≡ some b)
      × Admissible toy 1010 (engine false) (prepare 1 7 "c" accept []) b)
validate_prepare_iff_example =
    validate_prepare_iff toy 1010 (engine false) (prepare 1 7 "c" accept [])

forged_sequence_locks_out_example :
    (validate_prepare toy 1011
      (validate_prepare toy 1010 (engine true) (prepare 900 7 "c" accept (5 ∷ []))).0
      (prepare 1 7 "c" accept [])).1
    ≢ none
unfolding new_engine validate_prepare check_and_mark_seq get put is_timestamp_fresh digest_prepare
    prepare_payload bytes be64
forged_sequence_locks_out_example =
    forged_sequence_locks_out toy 1010 1011 (engine true) (prepare 900 7 "c" accept (5 ∷ []))
      (prepare 1 7 "c" accept []) refl refl (omega arith)

validate_commit_iff_example :
    ((validate_commit toy 1010 (engine false) (commit 1 "c" accept [])).1 ≡ none) ↔ (
      (b : BuddyInput) × (get (engine false).buddies "c" ≡ some b)
      × Proofs.Admissible toy 1010 (engine false) (commit 1 "c" accept []) b)
validate_commit_iff_example = validate_commit_iff toy 1010 (engine false) (commit 1 "c" accept [])

-- One member that votes both ways: its two runs, on two machines, decide differently.
abbrev call : Decision → Call
call d = record {
  crypto = toy;
  net = record { broadcast_prepare = λ m. true; broadcast_commit = λ m. true };
  clock = record { prepare_at = 1000; commit_at = 1001; result_at = 0 };
  config = config 1 false;
  round = 7;
  block_hash = "b";
  me = "a";
  all = buddy "a" d ∷ [];
  signer = none;
  prepares = PrepareEvent.tick ∷ [];
  commits = CommitEvent.tick 0 ∷ [];
}

abbrev engine_of : Decision → Engine
engine_of d =
    new_engine (config 1 false) 7 "b" "a" (buddy "a" d ∷ []) (buddy "a" d)
      (some (local_signer toy (1 ∷ [])))

run_consensus_agreement_example :
    byzantine_tolerance 1
    < count_by
        (λ id.
          holds_accept (run (call accept) (engine_of accept)).0 id
          && holds_reject (run (call reject) (engine_of reject)).0 id)
        ("a" ∷ [])
unfolding new_engine local_signer prepare_engine member get put run_phases run_prepare
    ensure_seq_for_self wait_prepare verdict add_prepare_msg bft_threshold get_prepare_vote_counts
    run_commit collect_prepare_proof wait_commit add_commit_msg get_commit_vote_counts_clean
    is_byzantine
run_consensus_agreement_example =
    run_consensus_agreement (call accept) (call reject) (engine_of accept) (engine_of reject) refl
      refl refl (omega arith) refl refl refl refl

-- "a" holds its own PREPARE of round 7; "c" sends a COMMIT whose proof is the PREPARE of "a" for
-- round 6, and its own.
abbrev holding : Engine
holding = record (engine false) { prepare_msgs = ("a", prepare 1 7 "a" accept []) ∷ [] }

abbrev replaying : CommitMessage
replaying = commit 1 "c" accept (prepare 1 6 "a" accept [] ∷ prepare 1 7 "c" accept [] ∷ [])

replayed_prepare_bans_its_author_example :
    (is_byzantine 5 (on_commit toy 1010 5 holding (some replaying)).byzantine "a" ≡ true)
    × ((on_commit toy 1010 5 holding (some replaying)).commit_msgs
        ≡ (validate_commit toy 1010 holding replaying).0.commit_msgs)
    × (is_byzantine 5 (on_commit toy 1010 5 holding (some replaying)).byzantine "c" ≡ (
        member
          (detect_conflicts replaying (validate_commit toy 1010 holding replaying).0.prepare_msgs)
          "c"
        || is_byzantine 5 (validate_commit toy 1010 holding replaying).0.byzantine "c"))
unfolding validate_commit get new_engine put is_timestamp_fresh check_and_mark_seq member
    bft_threshold
replayed_prepare_bans_its_author_example =
    replayed_prepare_bans_its_author toy 1010 5 holding replaying "c" 0 (prepare 1 6 "a" accept [])
      (prepare 1 7 "a" accept []) refl refl refl (λ e. omega arith)

create_commit-insufficient_iff_example :
    ((create_commit toy 1010 holding reject).1 ≡ failed insufficient_proof) ↔ (
      count_by (λ (m : String × PrepareMessage). str_eq m.1.decision reject) holding.prepare_msgs
      < holding.threshold)
unfolding new_engine bft_threshold
create_commit-insufficient_iff_example =
    create_commit-insufficient_iff toy 1010 holding reject (omega arith)

-- A PREPARE of "c" for block "a" with the decision "bcACCEPT", and one for block "acb" with ACCEPT.
digest_prepare_split_example :
    (digest_prepare toy
        (record (prepare 1 7 "c" accept (1 ∷ [])) { block_hash = "a"; decision = "bcACCEPT" })
      ≡ digest_prepare toy
          (record (prepare 1 7 "c" accept (1 ∷ [])) { block_hash = "acb"; decision = "ACCEPT" }))
    × (check_item toy 1010 true
          (get (engine true).buddies "c")
          (record (prepare 1 7 "c" accept (1 ∷ [])) { block_hash = "a"; decision = "bcACCEPT" })
        ≡ check_item toy 1010 true
            (get (engine true).buddies "c")
            (record (prepare 1 7 "c" accept (1 ∷ [])) { block_hash = "acb"; decision = "ACCEPT" }))
unfolding bytes
digest_prepare_split_example =
    digest_prepare_split toy 1010 true (engine true).buddies (prepare 1 7 "c" accept (1 ∷ [])) "a"
      "bcACCEPT" "acb" "ACCEPT" refl
