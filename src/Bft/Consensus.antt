-- ===== src/Bft/Consensus.antt =====
-- bft.go: the check of the inputs and RunConsensus. Durations are left out of the result, and the
-- failure text is its error.
use jmdn.Base.{
  ℕ, Bool, true, false, not, ◌&&◌, Option, none, some, String, List, [], ◌∷◌, length, ltb, ◌==◌,
  str_eq, if◌then◌else◌, Dict, put, get, member,
}
use jmdn.Quorum.{bft_threshold, byzantine_tolerance}
use jmdn.Bft.{
  BuddyInput, Config, Decision, accept, reject, PhaseResult, Error, empty_buddy_id,
  insufficient_buddies, empty_id, duplicate_id, invalid_decision, missing_public_key,
  missing_private_key, buddy_not_found, no_signer,
}
use jmdn.Bft.Digest.{Crypto}
use jmdn.Bft.Byzantine.{new_detector, get_all}
use jmdn.Bft.Engine.{Engine, Signer, local_signer}
use jmdn.Bft.Phases.{
  Result, ok, failed, Messenger, PrepareEvent, CommitEvent, run_prepare, run_commit,
}

-- One buddy of the loop of validateInputs.
abbrev pub check_buddy : String → List String → BuddyInput → Option Error
check_buddy my_buddy_id seen buddy =
    if str_eq buddy.id ""
    then some empty_id
    else if member seen buddy.id
    then some duplicate_id
    else if not (str_eq buddy.decision accept) && not (str_eq buddy.decision reject)
    then some invalid_decision
    else if length buddy.public_key == 0
    then some missing_public_key
    else if str_eq buddy.id my_buddy_id && (length buddy.private_key == 0)
    then some missing_private_key
    else none

unfoldable pub check_buddies : String → List String → List BuddyInput → Option Error
check_buddies my_buddy_id seen [] = none
check_buddies my_buddy_id seen (b ∷ bs) =
    let rest = check_buddies my_buddy_id (b.id ∷ seen) bs in
    elim (check_buddy my_buddy_id seen b) [ some err ↦ some err | none ↦ rest ]

-- validateInputs
unfoldable pub validate_inputs : Config → String → List BuddyInput → Option Error
unfolding check_buddies
validate_inputs config my_buddy_id buddies =
    if str_eq my_buddy_id ""
    then some empty_buddy_id
    else if ltb (length buddies) config.min_buddies
    then some insufficient_buddies
    else check_buddies my_buddy_id [] buddies

-- buddyMap, filled in the order of the list
unfoldable pub buddy_map : Dict BuddyInput → List BuddyInput → Dict BuddyInput
buddy_map m [] = m
buddy_map m (b ∷ bs) = buddy_map (put m b.id b) bs

-- calculateThreshold, CalculateThreshold
unfoldable pub calculate_threshold : ℕ → ℕ
calculate_threshold buddy_count = bft_threshold buddy_count

-- CanTolerate
unfoldable pub can_tolerate : ℕ → ℕ
can_tolerate buddy_count = byzantine_tolerance buddy_count

-- The signer that is used: the one given, or one over the local private key.
unfoldable pub resolve_signer : Crypto → Option Signer → BuddyInput → Option Signer
resolve_signer c (some s) my_buddy = some s
resolve_signer c none my_buddy =
    if length my_buddy.private_key == 0 then none else some (local_signer c my_buddy.private_key)

unfoldable pub new_engine :
    Config → ℕ → String → String → List BuddyInput → BuddyInput → Option Signer → Engine
unfolding buddy_map calculate_threshold
new_engine config round block_hash my_buddy_id all_buddies my_buddy signer = record {
  config = config;
  my_buddy_id = my_buddy_id;
  my_decision = my_buddy.decision;
  buddies = buddy_map [] all_buddies;
  threshold = calculate_threshold (length all_buddies);
  round = round;
  block_hash = block_hash;
  signer = signer;
  byzantine = new_detector;
  prepare_msgs = [];
  commit_msgs = [];
  last_seq_seen = [];
}

-- Result of types.go, without its durations.
pub record Outcome : Type 0 where
  pub success : Bool
  pub block_accepted : Bool
  pub decision : Decision
  pub round : ℕ
  pub block_hash : String
  pub total_buddies : ℕ
  pub prepare_count : ℕ
  pub commit_count : ℕ
  pub byzantine_detected : List String
  pub prepare_phase : Option PhaseResult
  pub commit_phase : Option PhaseResult

-- The result of a phase that failed.
unfoldable pub failure : ℕ → String → ℕ → Option PhaseResult → Outcome
failure round block_hash total prepare_phase = record {
  success = false;
  block_accepted = false;
  decision = reject;
  round = round;
  block_hash = block_hash;
  total_buddies = total;
  prepare_count = 0;
  commit_count = 0;
  byzantine_detected = [];
  prepare_phase = prepare_phase;
  commit_phase = none;
}

-- The times at which the phases sign, and at which the result is put together.
pub record Clock : Type 0 where
  pub prepare_at : ℕ
  pub commit_at : ℕ
  pub result_at : ℕ

-- What is left of the call when the COMMIT phase is over: the engine, the result, the error.
unfoldable pub finish :
    Clock → ℕ → PhaseResult → Engine × Result PhaseResult → Engine × Outcome × Option Error
unfolding failure
finish clock total prepared (e, failed err) =
    (e, failure e.round e.block_hash total (some prepared), some err)
finish clock total prepared (e, ok committed) = (
  e,
  record {
    success = true;
    block_accepted = str_eq committed.decision accept;
    decision = committed.decision;
    round = e.round;
    block_hash = e.block_hash;
    total_buddies = total;
    prepare_count = length e.prepare_msgs;
    commit_count = length e.commit_msgs;
    byzantine_detected = get_all clock.result_at e.byzantine;
    prepare_phase = some prepared;
    commit_phase = some committed;
  },
  none,
)

unfoldable pub then_commit :
    Crypto
    → Messenger
    → Clock
    → ℕ
    → List CommitEvent
    → Engine × Result PhaseResult
    → Engine × Outcome × Option Error
unfolding finish
then_commit c net clock total commits (e, failed err) =
    (e, failure e.round e.block_hash total none, some err)
then_commit c net clock total commits (e, ok prepared) =
    finish clock total prepared (run_commit c net clock.commit_at e prepared.decision commits)

unfoldable pub run_phases :
    Crypto
    → Messenger
    → Clock
    → ℕ
    → Engine
    → List PrepareEvent
    → List CommitEvent
    → Engine × Outcome × Option Error
unfolding then_commit
run_phases c net clock total e prepares commits =
    then_commit c net clock total commits (run_prepare c net clock.prepare_at e prepares)

-- RunConsensus up to the first phase: the engine, or the error that ends the call.
unfoldable pub prepare_engine :
    Crypto → Config → ℕ → String → String → List BuddyInput → Option Signer → Result Engine
unfolding validate_inputs resolve_signer new_engine
prepare_engine c config round block_hash my_buddy_id all_buddies signer =
    elim (validate_inputs config my_buddy_id all_buddies) [
      | some err ↦ failed err
      | none ↦ elim (get (buddy_map [] all_buddies) my_buddy_id) [
        | none ↦ failed buddy_not_found
        | some my_buddy ↦
            let sgn = resolve_signer c signer my_buddy in
            let engine = new_engine config round block_hash my_buddy_id all_buddies my_buddy sgn in
            elim sgn [
              | none ↦ if config.require_signatures then failed no_signer else ok engine
              | some _ ↦ ok engine
            ]
      ]
    ]

-- RunConsensus. An error of the inputs comes with no result.
unfoldable pub run_consensus :
    Crypto
    → Messenger
    → Clock
    → Config
    → ℕ
    → String
    → String
    → List BuddyInput
    → Option Signer
    → List PrepareEvent
    → List CommitEvent
    → Option Outcome × Option Error
unfolding prepare_engine run_phases
run_consensus c net clock config round block_hash my_buddy_id all_buddies signer prepares commits =
    elim (prepare_engine c config round block_hash my_buddy_id all_buddies signer) [
      | failed err ↦ (none, some err)
      | ok e ↦
          let r = run_phases c net clock (length all_buddies) e prepares commits in (some r.1, r.2)
    ]
