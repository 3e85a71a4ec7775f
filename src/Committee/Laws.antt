-- ===== src/Committee/Laws.antt =====
-- What holds of the committee's certificates and of the rules for a block.
mod Voting
mod Keys
mod Overlap
mod Members
mod Linking
mod Forks
mod Roots
mod Restarts
unfoldable pub use Voting.{voted}
pub use Keys.*
pub use Overlap.*
pub use Members.*
pub use Linking.*
pub use Forks.*
pub use Roots.*
unfoldable pub use Restarts.{after_event, after_events}
pub use Restarts.{Event, check, restart, IsDurable, equivocation_rejected_after_restart}
