-- ===== src/Crdt/Laws.antt =====
-- What holds of the clocks, of the log and of the sets.
mod Log
mod Clocks
mod Order
mod Raising
mod Local
mod Merging
mod Accounting
mod Ties
pub use Log.*
unfoldable pub use Clocks.{rank}
pub use Order.*
unfoldable pub use Local.{run, last_is_add}
pub use Local.{Call, local_calls-contains}
pub use Merging.*
pub use Accounting.*
pub use Ties.*
