-- ===== src/Ledger/Laws.antt =====
-- What holds of the two paths that change the accounts.
pub mod Overlay
pub mod Execute
pub mod Total
pub mod Conserved
pub mod Once
pub mod Marked
pub mod Groups
pub mod Deltas
pub mod Commit
pub mod Agreement
pub mod Live
pub mod Paths
pub mod Restored
pub mod Steps
pub mod Succeeds
pub mod Collected
pub mod Ordinals
