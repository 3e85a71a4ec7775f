-- ===== src/Bft/Phases.antt =====
-- runPrepare and runCommit of engine.go. The receiving goroutine and the ticker interleave: a
-- schedule lists what happens up to the deadline, in order, and its end is the timeout. A PREPARE
-- may still arrive while the COMMIT phase begins. The start of the goroutine pool is not modelled.
use jmdn.Base.{ℕ, Bool, true, Option, none, some, String, List, [], ◌∷◌, length, ltb, if◌then◌else◌}
use jmdn.Bft.{
  Bytes, Decision, PrepareMessage, CommitMessage, PhaseResult, Error, prepare_version_v1,
  commit_version_v1, no_signer, sign_failed, broadcast_failed, prepare_timeout, commit_timeout,
  insufficient_proof, proof_too_large,
}
use jmdn.Bft.Digest.{Crypto, digest_prepare, digest_commit}
use jmdn.Bft.Byzantine.{Detector, detect_conflicts, mark}
use jmdn.Bft.Engine.{
  Engine, Signer, add_prepare_msg, add_commit_msg, get_prepare_vote_counts,
  get_commit_vote_counts_clean, verdict, collect_prepare_proof, ensure_seq_for_self,
}
use jmdn.Bft.Validate.{validate_prepare, validate_commit}

pub data Result {ℓ} (A : Type ℓ) : Type ℓ where
  ok : A → Result A
  failed : Error → Result A

-- The broadcasts of Messenger: whether each succeeds.
pub record Messenger : Type 0 where
  pub broadcast_prepare : PrepareMessage → Bool
  pub broadcast_commit : CommitMessage → Bool

-- `none` is the nil message of a closed channel. Times are in seconds for the freshness of a
-- timestamp, and in nanoseconds (`at`) for a ban.
pub data PrepareEvent : Type 0 where
  tick : PrepareEvent
  receive : ℕ → Option PrepareMessage → PrepareEvent

pub data CommitEvent : Type 0 where
  tick : ℕ → CommitEvent
  receive : ℕ → ℕ → Option CommitMessage → CommitEvent
  late_prepare : ℕ → Option PrepareMessage → CommitEvent

-- signPrepare and signCommit: the signature, which stays empty where none is required.
unfoldable pub sign : Bool → Option Signer → Bytes → Result Bytes
sign required none digest = if required then failed no_signer else ok []
sign required (some signer) digest = elim (signer digest) [
  | none ↦ failed sign_failed
  | some sig ↦ ok sig
]

-- A PREPARE that was validated is stored; one that was refused leaves what its check has marked.
unfoldable pub store_prepare : PrepareMessage → Engine × Option Error → Engine
store_prepare msg (e, none) = add_prepare_msg e msg
store_prepare msg (e, some err) = e

-- A message that the PREPARE goroutine takes from its channel.
unfoldable pub on_prepare : Crypto → ℕ → Engine → Option PrepareMessage → Engine
unfolding store_prepare
on_prepare c now e none = e
on_prepare c now e (some msg) = store_prepare msg (validate_prepare c now e msg)

unfoldable pub mark_each : ℕ → Detector → List String → Detector
mark_each at b [] = b
mark_each at b (id ∷ ids) = mark_each at (mark at b id) ids

unfoldable pub accept_commit : ℕ → Engine → CommitMessage → List String → Engine
unfolding mark_each
accept_commit at e msg [] = add_commit_msg e msg
accept_commit at e msg (id ∷ ids) = record e { byzantine = mark_each at e.byzantine (id ∷ ids) }

-- A message that the COMMIT goroutine takes from its channel.
unfoldable pub store_commit : ℕ → CommitMessage → Engine × Option Error → Engine
unfolding accept_commit
store_commit at msg (e, none) = accept_commit at e msg (detect_conflicts msg e.prepare_msgs)
store_commit at msg (e, some err) = e

unfoldable pub on_commit : Crypto → ℕ → ℕ → Engine → Option CommitMessage → Engine
unfolding store_commit
on_commit c now at e none = e
on_commit c now at e (some msg) = store_commit at msg (validate_commit c now e msg)

-- waitForPrepareThreshold, with the goroutine's steps
unfoldable pub wait_prepare : Crypto → Engine → List PrepareEvent → Engine × Option Decision
wait_prepare c e [] = (e, none)
wait_prepare c e (PrepareEvent.receive now msg ∷ evs) = wait_prepare c (on_prepare c now e msg) evs
wait_prepare c e (PrepareEvent.tick ∷ evs) =
    elim (verdict e.threshold (get_prepare_vote_counts e)) [
      | some d ↦ (e, some d)
      | none ↦ wait_prepare c e evs
    ]

-- waitForCommitThreshold: the engine, the time of the tick and the decision
unfoldable pub wait_commit : Crypto → Engine → List CommitEvent → Engine × Option (ℕ × Decision)
wait_commit c e [] = (e, none)
wait_commit c e (CommitEvent.receive now at msg ∷ evs) =
    wait_commit c (on_commit c now at e msg) evs
wait_commit c e (CommitEvent.late_prepare now msg ∷ evs) =
    wait_commit c (on_prepare c now e msg) evs
wait_commit c e (CommitEvent.tick at ∷ evs) =
    elim (verdict e.threshold (get_commit_vote_counts_clean at e)) [
      | some d ↦ (e, some (at, d))
      | none ↦ wait_commit c e evs
    ]

-- The counts of a phase's result, read at the tick that decides.
unfoldable pub phase_result : ℕ → ℕ × ℕ → Decision → PhaseResult
phase_result threshold (a, r) d = record {
  accept_votes = a;
  reject_votes = r;
  threshold_met = true;
  threshold = threshold;
  decision = d;
}

-- Our own PREPARE, before its signature.
unfoldable pub own_prepare : ℕ → ℕ → Engine → PrepareMessage
own_prepare now seq e = record {
  version = prepare_version_v1;
  seq = seq;
  round = e.round;
  block_hash = e.block_hash;
  buddy_id = e.my_buddy_id;
  decision = e.my_decision;
  timestamp = now;
  signature = [];
}

unfoldable pub prepare_outcome : Engine × Option Decision → Engine × Result PhaseResult
unfolding phase_result
prepare_outcome (e, none) = (e, failed prepare_timeout)
prepare_outcome (e, some d) = (e, ok (phase_result e.threshold (get_prepare_vote_counts e) d))

-- The message that runPrepare makes and signs.
unfoldable pub create_prepare : Crypto → ℕ → Engine → Engine × Result PrepareMessage
unfolding own_prepare sign
create_prepare c now e =
    let (e', seq) = ensure_seq_for_self e in
    let msg = own_prepare now seq e' in
    elim (sign e'.config.require_signatures e'.signer (digest_prepare c msg)) [
      | failed err ↦ (e', failed err)
      | ok sig ↦ (e', ok (record msg { signature = sig }))
    ]

-- Our PREPARE is stored, sent, and waited on.
unfoldable pub await_prepares :
    Crypto
    → Messenger
    → List PrepareEvent
    → Engine × Result PrepareMessage
    → Engine × Result PhaseResult
unfolding prepare_outcome
await_prepares c net evs (e, failed err) = (e, failed err)
await_prepares c net evs (e, ok msg) =
    let e' = add_prepare_msg e msg in
    let outcome = prepare_outcome (wait_prepare c e' evs) in
    if net.broadcast_prepare msg then outcome else (e', failed broadcast_failed)

-- runPrepare
unfoldable pub run_prepare :
    Crypto → Messenger → ℕ → Engine → List PrepareEvent → Engine × Result PhaseResult
unfolding await_prepares create_prepare
run_prepare c net now e evs = await_prepares c net evs (create_prepare c now e)

unfoldable pub own_commit : ℕ → ℕ → Decision → List PrepareMessage → Engine → CommitMessage
own_commit now seq d proof e = record {
  version = commit_version_v1;
  seq = seq;
  round = e.round;
  block_hash = e.block_hash;
  buddy_id = e.my_buddy_id;
  decision = d;
  prepare_proof = proof;
  timestamp = now;
  signature = [];
}

-- createCommit
unfoldable pub create_commit : Crypto → ℕ → Engine → Decision → Engine × Result CommitMessage
unfolding own_commit sign
create_commit c now e d =
    let proof = collect_prepare_proof e d in
    if ltb (length proof) e.threshold
    then (e, failed insufficient_proof)
    else if ltb e.config.max_proof_size (length proof)
    then (e, failed proof_too_large)
    else let (e', seq) = ensure_seq_for_self e in
      let msg = own_commit now seq d proof e' in
      elim (sign e'.config.require_signatures e'.signer (digest_commit c msg)) [
        | failed err ↦ (e', failed err)
        | ok sig ↦ (e', ok (record msg { signature = sig }))
      ]

unfoldable pub commit_outcome : Engine × Option (ℕ × Decision) → Engine × Result PhaseResult
unfolding phase_result
commit_outcome (e, none) = (e, failed commit_timeout)
commit_outcome (e, some (at, d)) =
    (e, ok (phase_result e.threshold (get_commit_vote_counts_clean at e) d))

-- Our COMMIT is stored, sent, and waited on.
unfoldable pub await_commits :
    Crypto
    → Messenger
    → List CommitEvent
    → Engine × Result CommitMessage
    → Engine × Result PhaseResult
unfolding commit_outcome
await_commits c net evs (e, failed err) = (e, failed err)
await_commits c net evs (e, ok msg) =
    let e' = add_commit_msg e msg in
    let outcome = commit_outcome (wait_commit c e' evs) in
    if net.broadcast_commit msg then outcome else (e', failed broadcast_failed)

-- runCommit
unfoldable pub run_commit :
    Crypto → Messenger → ℕ → Engine → Decision → List CommitEvent → Engine × Result PhaseResult
unfolding await_commits create_commit
run_commit c net now e d evs = await_commits c net evs (create_commit c now e d)
