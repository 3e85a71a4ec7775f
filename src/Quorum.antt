-- ===== src/Quorum.antt =====
-- AVC/BFT/bft/math.go and ByzantineQuorum of messaging/consensus_hardening.go: the thresholds of
-- the committee. Go's `int` arguments are counts; a count at or below zero behaves as 0 here.
pub mod Thresholds
pub mod Overlap
mod Tests
use jmdn.Base.{ℕ, ◌+◌, ◌-◌, ◌*◌, ◌/◌, Bool, false, leb, ltb, ◌==◌, if◌then◌else◌}

abbrev pub quorum_numerator : ℕ
quorum_numerator = 2

abbrev pub quorum_denominator : ℕ
quorum_denominator = 3

abbrev pub byzantine_factor : ℕ
byzantine_factor = 3

-- HasQuorum
pub has_quorum : ℕ → ℕ → Bool
has_quorum yes_votes total =
    if total == 0 then false else leb (total * quorum_numerator) (yes_votes * quorum_denominator)

-- QuorumThreshold
pub quorum_threshold : ℕ → ℕ
quorum_threshold total =
    if total == 0
    then 0
    else (total * quorum_numerator + quorum_denominator - 1) / quorum_denominator

-- BFTThreshold
unfoldable pub bft_threshold : ℕ → ℕ
unfolding quorum_threshold
bft_threshold buddy_count = if buddy_count == 0 then 0 else quorum_threshold buddy_count

-- ByzantineTolerance
unfoldable pub byzantine_tolerance : ℕ → ℕ
byzantine_tolerance buddy_count =
    if buddy_count == 0 then 0 else (buddy_count - 1) / byzantine_factor

-- ByzantineQuorum (messaging/consensus_hardening.go)
unfoldable pub byzantine_quorum : ℕ → ℕ
byzantine_quorum n = if ltb n 1 then 1 else (2 * n + 2) / 3
