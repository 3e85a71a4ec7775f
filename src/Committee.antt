-- ===== src/Committee.antt =====
-- messaging/consensus_hardening.go: who may vote on a block, the certificate of a committee, and the
-- rules that a block received from a peer has to pass. The errors and the rejections are data types
-- with one constructor for each message.
pub mod Text
pub mod Eligibility
pub mod Certificate
pub mod Body
pub mod Equivocation
pub mod Linkage
mod Laws
mod Tests
mod BlockTests
