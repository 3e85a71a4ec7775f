-- ===== src/Quorum/Tests.antt =====
-- The thresholds at the sizes that the comments of math.go and consensus_hardening.go name.
use jmdn.Base.{
  ℕ, ◌+◌, ◌*◌, ◌≤◌, ◌<◌, ◌≡◌, refl, true, false, not, ◌&&◌, ◌↔◌, List, [], ◌∷◌, arith, leb, ◌==◌,
  count_by,
}
use jmdn.Quorum.{has_quorum, quorum_threshold, bft_threshold, byzantine_tolerance, byzantine_quorum}
use jmdn.Quorum.Thresholds.{bft_threshold_least, has_quorum_iff}
use jmdn.Quorum.Overlap.{quorum_honest_overlap}

documented_sizes :
    (bft_threshold 13 ≡ 9)
    × (bft_threshold 5 ≡ 4)
    × (byzantine_quorum 101 ≡ 68)
    × (byzantine_tolerance 13 ≡ 4)
    × (has_quorum 9 13 ≡ true)
    × (has_quorum 8 13 ≡ false)
unfolding bft_threshold byzantine_quorum byzantine_tolerance has_quorum
documented_sizes = (refl, refl, refl, refl, refl, refl)

bft_threshold_least_example :
    (5 + byzantine_tolerance 5 + 1 ≤ 2 * bft_threshold 5)
    × (bft_threshold 5 + byzantine_tolerance 5 ≤ 5)
    × (bft_threshold 5 ≤ 4)
unfolding byzantine_tolerance
bft_threshold_least_example = bft_threshold_least 5 4 (omega arith) (omega arith)

has_quorum_iff_example : (has_quorum 9 13 ≡ true) ↔ (quorum_threshold 13 ≤ 9)
has_quorum_iff_example = has_quorum_iff 9 13 (omega arith)

abbrev four : List ℕ
four = 0 ∷ 1 ∷ 2 ∷ 3 ∷ []

-- Of four members, number 2 is faulty; one quorum is 0 1 2, the other 1 2 3.
quorum_honest_overlap_example : 0 < count_by (λ (x : ℕ). (leb x 2 && leb 1 x) && not (x == 2)) four
unfolding bft_threshold byzantine_tolerance
quorum_honest_overlap_example =
    quorum_honest_overlap (λ x. x == 2) (λ x. leb x 2) (λ x. leb 1 x) four (omega arith)
      (omega arith) (omega arith) (omega arith)
