-- ===== src/Bft/Laws/Rounds.antt =====
-- The invariant through runPrepare, runCommit and the two phases of RunConsensus.
use jmdn.Base.{ℕ, ◌≡◌, refl, Option, none, some, List, arith, Bool-cases, inl, inr}
use jmdn.Bft.{Decision, PrepareMessage, CommitMessage}
use jmdn.Bft.Digest.{Crypto}
use jmdn.Bft.Engine.{Engine, ensure_seq_for_self, add_prepare_msg, add_commit_msg}
use jmdn.Bft.Phases.{
  Result, ok, failed, Messenger, PrepareEvent, CommitEvent, run_prepare, run_commit, create_prepare,
  create_commit, await_prepares, await_commits, prepare_outcome, commit_outcome,
}
use jmdn.Bft.Laws.Invariant.{Inv, PrepareFor, CommitFor, add_prepare_msg-Inv, add_commit_msg-Inv}
use jmdn.Bft.Laws.Waiting.{wait_prepare-Inv, wait_commit-Inv}

ensure_seq_for_self-Inv : (s e : Engine) → Inv s e → Inv s (ensure_seq_for_self e).0
unfolding ensure_seq_for_self
ensure_seq_for_self-Inv s e inv = ground arith

prepare_outcome-0 : (r : Engine × Option Decision) → (prepare_outcome r).0 ≡ r.0
unfolding prepare_outcome
prepare_outcome-0 (e, none) = refl
prepare_outcome-0 (e, some d) = refl

pub commit_outcome-0 : (r : Engine × Option (ℕ × Decision)) → (commit_outcome r).0 ≡ r.0
unfolding commit_outcome
commit_outcome-0 (e, none) = refl
commit_outcome-0 (e, some (at, d)) = refl

create_prepare-Inv :
    (c : Crypto) (now : ℕ) (s e : Engine) → Inv s e → Inv s (create_prepare c now e).0
unfolding create_prepare ensure_seq_for_self
create_prepare-Inv c now s e inv = ground arith

create_prepare-PrepareFor :
    (c : Crypto) (now : ℕ) (s e : Engine) (msg : PrepareMessage)
    → Inv s e
    → (create_prepare c now e).1 ≡ ok msg
    → PrepareFor s (msg.buddy_id, msg)
unfolding create_prepare ensure_seq_for_self
create_prepare-PrepareFor c now s e msg inv h = ground (arith, inv)

create_commit-Inv :
    (c : Crypto) (now : ℕ) (s e : Engine) (d : Decision)
    → Inv s e
    → Inv s (create_commit c now e d).0
unfolding create_commit ensure_seq_for_self
create_commit-Inv c now s e d inv = ground arith

create_commit-CommitFor :
    (c : Crypto) (now : ℕ) (s e : Engine) (d : Decision) (msg : CommitMessage)
    → Inv s e
    → (create_commit c now e d).1 ≡ ok msg
    → CommitFor s (msg.buddy_id, msg)
unfolding create_commit ensure_seq_for_self
create_commit-CommitFor c now s e d msg inv h = ground (arith, inv)

await_prepares-Inv :
    (c : Crypto) (net : Messenger) (s : Engine) (evs : List PrepareEvent)
    (r : Engine × Result PrepareMessage)
    → Inv s r.0
    → ((msg : PrepareMessage) → r.1 ≡ ok msg → PrepareFor s (msg.buddy_id, msg))
    → Inv s (await_prepares c net evs r).0
unfolding await_prepares
await_prepares-Inv c net s evs (e, failed err) inv h = inv
await_prepares-Inv c net s evs (e, ok msg) inv h =
    let inv' = add_prepare_msg-Inv s e inv msg (h msg refl) in
    let waited = wait_prepare-Inv c s (add_prepare_msg e msg) evs inv' in
    elim (Bool-cases (net.broadcast_prepare msg)) [
      | inl t ↦ rw (t, prepare_outcome-0) waited
      | inr f ↦ rw f inv'
    ]

await_commits-Inv :
    (c : Crypto) (net : Messenger) (s : Engine) (evs : List CommitEvent)
    (r : Engine × Result CommitMessage)
    → Inv s r.0
    → ((msg : CommitMessage) → r.1 ≡ ok msg → CommitFor s (msg.buddy_id, msg))
    → Inv s (await_commits c net evs r).0
unfolding await_commits
await_commits-Inv c net s evs (e, failed err) inv h = inv
await_commits-Inv c net s evs (e, ok msg) inv h =
    let inv' = add_commit_msg-Inv s e inv msg (h msg refl) in
    let waited = wait_commit-Inv c s (add_commit_msg e msg) evs inv' in
    elim (Bool-cases (net.broadcast_commit msg)) [
      | inl t ↦ rw (t, commit_outcome-0) waited
      | inr f ↦ rw f inv'
    ]

-- The invariant holds after a PREPARE phase, however it ends.
pub run_prepare-Inv :
    (c : Crypto) (net : Messenger) (now : ℕ) (s e : Engine) (evs : List PrepareEvent)
    → Inv s e
    → Inv s (run_prepare c net now e evs).0
unfolding run_prepare
run_prepare-Inv c net now s e evs inv =
    await_prepares-Inv c net s evs (create_prepare c now e) (create_prepare-Inv c now s e inv)
      (λ msg. create_prepare-PrepareFor c now s e msg inv)

-- And after a COMMIT phase.
pub run_commit-Inv :
    (c : Crypto) (net : Messenger) (now : ℕ) (s e : Engine) (d : Decision) (evs : List CommitEvent)
    → Inv s e
    → Inv s (run_commit c net now e d evs).0
unfolding run_commit
run_commit-Inv c net now s e d evs inv =
    await_commits-Inv c net s evs (create_commit c now e d) (create_commit-Inv c now s e d inv)
      (λ msg. create_commit-CommitFor c now s e d msg inv)
