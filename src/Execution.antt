-- ===== src/Execution.antt =====
-- Execution evidence (packages/execution/index.js): what a provider is asked for, how it is bound to
-- the intent and the frozen decision, and the verdict. A text is the list of its code units.
mod Items
mod Extract
mod Bind
mod Verify
mod Attest
pub mod Checks
pub mod Bound
pub mod Tamper
mod Tests
unfoldable pub use Items.*
unfoldable pub use Extract.*
unfoldable pub use Bind.*
unfoldable pub use Verify.*
unfoldable pub use Attest.*
