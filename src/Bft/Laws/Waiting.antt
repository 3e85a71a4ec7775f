-- ===== src/Bft/Laws/Waiting.antt =====
-- What the two waiting loops keep, and what their decision rests on.
use jmdn.Base.{ℕ, ◌∙◌, ◌≡◌, some, List, [], ◌∷◌, arith, Option-cases, inl, inr}
use jmdn.Bft.{Decision}
use jmdn.Bft.Digest.{Crypto}
use jmdn.Bft.Engine.{Engine, verdict, get_prepare_vote_counts, get_commit_vote_counts_clean}
use jmdn.Bft.Phases.{on_prepare, on_commit, PrepareEvent, CommitEvent, wait_prepare, wait_commit}
use jmdn.Bft.Laws.Invariant.{Inv, on_prepare-Inv, on_commit-Inv}

-- Whatever arrives while a phase waits, in whatever order, the invariant holds when it ends; a
-- decision comes from the counts of the engine that the wait leaves.
pub wait_prepare-Inv :
    (c : Crypto) (s e : Engine) (evs : List PrepareEvent) → Inv s e → Inv s (wait_prepare c e evs).0
unfolding wait_prepare
wait_prepare-Inv c s e [] inv = inv
wait_prepare-Inv c s e (PrepareEvent.receive now msg ∷ evs) inv =
    wait_prepare-Inv c s (on_prepare c now e msg) evs (on_prepare-Inv s e c now msg inv)
wait_prepare-Inv c s e (PrepareEvent.tick ∷ evs) inv =
    ground (arith, inv, wait_prepare-Inv c s e evs)

pub wait_commit-Inv :
    (c : Crypto) (s e : Engine) (evs : List CommitEvent) → Inv s e → Inv s (wait_commit c e evs).0
unfolding wait_commit
wait_commit-Inv c s e [] inv = inv
wait_commit-Inv c s e (CommitEvent.receive now at msg ∷ evs) inv =
    wait_commit-Inv c s (on_commit c now at e msg) evs (on_commit-Inv s e c now at msg inv)
wait_commit-Inv c s e (CommitEvent.late_prepare now msg ∷ evs) inv =
    wait_commit-Inv c s (on_prepare c now e msg) evs (on_prepare-Inv s e c now msg inv)
wait_commit-Inv c s e (CommitEvent.tick at ∷ evs) inv =
    ground (arith, inv, wait_commit-Inv c s e evs)

pub wait_prepare-verdict :
    (c : Crypto) (e : Engine) (evs : List PrepareEvent) {d : Decision}
    → (wait_prepare c e evs).1 ≡ some d
    → verdict (wait_prepare c e evs).0.threshold (get_prepare_vote_counts (wait_prepare c e evs).0)
      ≡ some d
unfolding wait_prepare
wait_prepare-verdict c e [] h = cc
wait_prepare-verdict c e (PrepareEvent.receive now msg ∷ evs) h =
    wait_prepare-verdict c (on_prepare c now e msg) evs h
wait_prepare-verdict c e (PrepareEvent.tick ∷ evs) h =
    elim (Option-cases (verdict e.threshold (get_prepare_vote_counts e))) [
      | inl q ↦ rw (q, wait_prepare) (wait_prepare-verdict c e evs (rw (q, wait_prepare) at h))
      | inr (d', q) ↦ rw (q, wait_prepare) (q ∙ (rw (q, wait_prepare) at h))
    ]

pub wait_commit-verdict :
    (c : Crypto) (e : Engine) (evs : List CommitEvent) {at : ℕ} {d : Decision}
    → (wait_commit c e evs).1 ≡ some (at, d)
    → verdict
        (wait_commit c e evs).0.threshold
        (get_commit_vote_counts_clean at (wait_commit c e evs).0)
      ≡ some d
unfolding wait_commit
wait_commit-verdict c e [] h = cc
wait_commit-verdict c e (CommitEvent.receive now at msg ∷ evs) h =
    wait_commit-verdict c (on_commit c now at e msg) evs h
wait_commit-verdict c e (CommitEvent.late_prepare now msg ∷ evs) h =
    wait_commit-verdict c (on_prepare c now e msg) evs h
wait_commit-verdict c e (CommitEvent.tick at' ∷ evs) h =
    elim (Option-cases (verdict e.threshold (get_commit_vote_counts_clean at' e))) [
      | inl q ↦ rw (q, wait_commit) (wait_commit-verdict c e evs (rw (q, wait_commit) at h))
      | inr (d', q) ↦ rw (q, wait_commit) (ground (arith, q, (rw (q, wait_commit) at h)))
    ]
