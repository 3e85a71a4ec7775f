-- ===== src/Quorum/Thresholds.antt =====
-- The thresholds as numbers: what ceil(2n/3) is the least of, and that the two quorums agree.
use jmdn.Base.{ℕ, ◌+◌, ◌*◌, ◌≤◌, ◌<◌, ◌≡◌, true, ◌↔◌, arith}
use jmdn.Quorum.{has_quorum, quorum_threshold, bft_threshold, byzantine_tolerance, byzantine_quorum}

pub threshold_safety :
    (n : ℕ)
    → 0 < n
    → (n + byzantine_tolerance n + 1 ≤ 2 * bft_threshold n)
      × (bft_threshold n + byzantine_tolerance n ≤ n)
unfolding bft_threshold byzantine_tolerance
threshold_safety n h = (ground arith, ground arith)

-- For a committee of n > 0 with Byzantine tolerance f, let q be any quorum size whose pairs of
-- quorums share f + 1 members. The BFT threshold has this property too, is at most q, and the
-- n - f other members suffice to form it.
pub bft_threshold_least :
    (n q : ℕ)
    → 0 < n
    → n + byzantine_tolerance n + 1 ≤ 2 * q
    → (n + byzantine_tolerance n + 1 ≤ 2 * bft_threshold n)
      × (bft_threshold n + byzantine_tolerance n ≤ n)
      × (bft_threshold n ≤ q)
unfolding bft_threshold byzantine_tolerance
bft_threshold_least n q h e = (ground arith, ground arith, ground arith)

-- Of a total that is not zero, the integer test HasQuorum holds exactly from QuorumThreshold on.
pub has_quorum_iff :
    (v total : ℕ) → 0 < total → (has_quorum v total ≡ true) ↔ (quorum_threshold total ≤ v)
unfolding has_quorum quorum_threshold
has_quorum_iff v total h = (λ e. ground arith, λ e. ground arith)

-- The engine's threshold and the certificate verifier's are one number for every committee of at
-- least one member.
byzantine_quorum-bft_threshold : (n : ℕ) → 0 < n → byzantine_quorum n ≡ bft_threshold n
unfolding bft_threshold byzantine_quorum
byzantine_quorum-bft_threshold n h = ground arith
