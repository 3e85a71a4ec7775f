-- ===== src/Quorum/Overlap.antt =====
-- Quorums as sets of committee members.
use jmdn.Base.{
  ◌≤◌, ◌<◌, Bool, not, ◌&&◌, List, arith, length, count_by, count_by_overlap, count_by_split,
}
use jmdn.Quorum.{bft_threshold, byzantine_tolerance}
use jmdn.Quorum.Thresholds.{threshold_safety}

module _ {ℓ} {A : Type ℓ} where
  -- In a committee that is not empty, two sets of members that both reach the threshold share more members than may be faulty.
  pub quorum_overlap :
      (p q : A → Bool) (committee : List A)
      → 0 < length committee
      → bft_threshold (length committee) ≤ count_by p committee
      → bft_threshold (length committee) ≤ count_by q committee
      → byzantine_tolerance (length committee) < count_by (λ x. p x && q x) committee
  quorum_overlap p q committee h hp hq =
      omega (arith, count_by_overlap p q committee, threshold_safety (length committee) h)

  -- In a committee that is not empty, if no more members are faulty than it tolerates, two sets of
  -- members that both reach the threshold have a member in common that is not faulty.
  pub quorum_honest_overlap :
      (faulty p q : A → Bool) (committee : List A)
      → 0 < length committee
      → count_by faulty committee ≤ byzantine_tolerance (length committee)
      → bft_threshold (length committee) ≤ count_by p committee
      → bft_threshold (length committee) ≤ count_by q committee
      → 0 < count_by (λ x. (p x && q x) && not (faulty x)) committee
  quorum_honest_overlap faulty p q committee h hf hp hq = omega (
    arith,
    quorum_overlap p q committee h hp hq,
    count_by_split (λ x. p x && q x) faulty committee,
  )
