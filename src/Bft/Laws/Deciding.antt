-- ===== src/Bft/Laws/Deciding.antt =====
-- From a successful call of RunConsensus back to the votes that decided it.
use jmdn.Base.{
  ℕ, ◌≡◌, refl, Bool, true, Option, none, some, List, arith, str_eq, Bool-cases, inl, inr,
}
use jmdn.Bft.{Decision, accept, CommitMessage, PhaseResult}
use jmdn.Bft.Digest.{Crypto}
use jmdn.Bft.Engine.{Engine, verdict, get_commit_vote_counts_clean}
use jmdn.Bft.Phases.{
  Result, ok, failed, Messenger, PrepareEvent, CommitEvent, run_prepare, run_commit, create_commit,
  await_commits, commit_outcome, wait_commit,
}
use jmdn.Bft.Engine.{add_commit_msg}
use jmdn.Bft.Consensus.{Clock, run_phases, then_commit, finish, failure}
use jmdn.Bft.Laws.Invariant.{Inv}
use jmdn.Bft.Laws.Waiting.{wait_commit-verdict}
use jmdn.Bft.Laws.Rounds.{commit_outcome-0, run_prepare-Inv, run_commit-Inv}

-- The result of a call, by the votes that the engine holds when it ends.
finish-verdict :
    (clock : Clock) (total : ℕ) (prepared : PhaseResult) (r : Engine × Result PhaseResult)
    → (finish clock total prepared r).1.success ≡ true
    → (res : PhaseResult) × (r.1 ≡ ok res)
      × ((finish clock total prepared r).1.block_accepted ≡ str_eq res.decision accept)
unfolding finish
finish-verdict clock total prepared (e, failed err) h = absurd (ground arith)
finish-verdict clock total prepared (e, ok res) h = (res, refl, refl)

finish-0 :
    (clock : Clock) (total : ℕ) (prepared : PhaseResult) (r : Engine × Result PhaseResult)
    → (finish clock total prepared r).0 ≡ r.0
unfolding finish
finish-0 clock total prepared (e, failed err) = refl
finish-0 clock total prepared (e, ok res) = refl

commit_outcome-verdict :
    (r : Engine × Option (ℕ × Decision)) (res : PhaseResult)
    → (commit_outcome r).1 ≡ ok res
    → (at : ℕ) × (r.1 ≡ some (at, res.decision))
unfolding commit_outcome
commit_outcome-verdict (e, none) res h = absurd (ground arith)
commit_outcome-verdict (e, some (at, d)) res h = (at, ground arith)

await_commits-verdict :
    (c : Crypto) (net : Messenger) (evs : List CommitEvent) (r : Engine × Result CommitMessage)
    (res : PhaseResult)
    → (await_commits c net evs r).1 ≡ ok res
    → (at : ℕ) × (verdict
          (await_commits c net evs r).0.threshold
          (get_commit_vote_counts_clean at (await_commits c net evs r).0)
        ≡ some res.decision)
unfolding await_commits
await_commits-verdict c net evs (e, failed err) res h = absurd (ground arith)
await_commits-verdict c net evs (e, ok msg) res h = elim (Bool-cases (net.broadcast_commit msg)) [
  | inl t ↦
      let e' = add_commit_msg e msg in
      let (at, q) = commit_outcome-verdict (wait_commit c e' evs) res (rw t at h) in
      (at, rw (t, commit_outcome-0) (wait_commit-verdict c e' evs q))
  | inr f ↦ absurd (ground (arith, (rw f at h)))
]

run_commit-verdict :
    (c : Crypto) (net : Messenger) (now : ℕ) (e : Engine) (d : Decision) (evs : List CommitEvent)
    (res : PhaseResult)
    → (run_commit c net now e d evs).1 ≡ ok res
    → (at : ℕ) × (verdict
          (run_commit c net now e d evs).0.threshold
          (get_commit_vote_counts_clean at (run_commit c net now e d evs).0)
        ≡ some res.decision)
unfolding run_commit
run_commit-verdict c net now e d evs res h =
    await_commits-verdict c net evs (create_commit c now e d) res h

-- A call that succeeds leaves an engine that satisfies the invariant and whose COMMITs, at some
-- time, gave the decision of its result.
pub record Decided (s e : Engine) (accepted : Bool) : Type 0 where
  pub inv : Inv s e
  pub decision : Decision
  pub accepted_lem : accepted ≡ str_eq decision accept
  pub at : ℕ
  pub by_votes : verdict e.threshold (get_commit_vote_counts_clean at e) ≡ some decision

then_commit-Decided :
    (c : Crypto) (net : Messenger) (clock : Clock) (total : ℕ) (s : Engine)
    (commits : List CommitEvent) (r : Engine × Result PhaseResult)
    → Inv s r.0
    → (then_commit c net clock total commits r).1.success ≡ true
    → Decided s
        (then_commit c net clock total commits r).0
        (then_commit c net clock total commits r).1.block_accepted
unfolding then_commit failure
then_commit-Decided c net clock total s commits (e, failed err) inv h = absurd (ground arith)
then_commit-Decided c net clock total s commits (e, ok prepared) inv h =
    let ran = run_commit c net clock.commit_at e prepared.decision commits in
    let (res, q, acc) = finish-verdict clock total prepared ran h in
    let (at, v) = run_commit-verdict c net clock.commit_at e prepared.decision commits res q in
    record {
      inv = rw finish-0 (run_commit-Inv c net clock.commit_at s e prepared.decision commits inv);
      decision = res.decision;
      accepted_lem = acc;
      at = at;
      by_votes = rw finish-0 v;
    }

pub run_phases-Decided :
    (c : Crypto) (net : Messenger) (clock : Clock) (total : ℕ) (s : Engine)
    (prepares : List PrepareEvent) (commits : List CommitEvent)
    → Inv s s
    → (run_phases c net clock total s prepares commits).1.success ≡ true
    → Decided s
        (run_phases c net clock total s prepares commits).0
        (run_phases c net clock total s prepares commits).1.block_accepted
unfolding run_phases
run_phases-Decided c net clock total s prepares commits inv h =
    then_commit-Decided c net clock total s commits (run_prepare c net clock.prepare_at s prepares)
      (run_prepare-Inv c net clock.prepare_at s s prepares inv) h
