-- ===== src/Budget.antt =====
-- The budget ledger (packages/budget/ledger.mjs): its state, its operations, each with its guards
-- in the source's order, and in the other children what is proved of them.
mod State
mod Calls
mod Access
mod Open
mod Spend
mod Escrow
pub mod Books
pub mod Keys
pub mod Writes
pub mod Outcomes
pub mod Endings
pub mod Carving
pub mod Booking
pub mod Closing
pub mod Preservation
pub mod Opening
pub mod Allocation
pub mod Locks
pub mod Gaps
pub mod Reservations
pub mod Runs
pub mod Isolation
pub mod Accounts
pub mod AccountWrites
pub mod Refinement
pub mod Frames
pub mod Effects
pub mod EndingEffects
pub mod CarvingEffects
mod Tests
unfoldable pub use State.*
pub use Calls.*
unfoldable pub use Access.*
unfoldable pub use Open.*
unfoldable pub use Spend.*
unfoldable pub use Escrow.*
