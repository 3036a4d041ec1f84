-- ===== src/Recovery.antt =====
-- The recovery engine (packages/recovery/index.js).
mod Entries
mod Engine
mod Driver
pub mod Verdicts
pub mod Appends
pub mod Gaps
mod Tests
unfoldable pub use Entries.*
unfoldable pub use Engine.*
unfoldable pub use Driver.*
