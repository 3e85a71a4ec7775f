-- ===== src/Bft/Laws.antt =====
-- What is proved of the two-phase vote.
pub mod Freshness
pub mod Validation
pub mod Proofs
pub mod Invariant
pub mod Waiting
pub mod Rounds
pub mod Deciding
pub mod Agreement
pub mod Faults
