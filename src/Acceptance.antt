-- ===== src/Acceptance.antt =====
-- Acceptance specs, their evaluation and the disposition that follows
-- (packages/acceptance/index.mjs).
mod Build
mod Evaluate
pub mod Verdicts
pub mod Specs
pub mod Escrow
mod Tests
unfoldable pub use Build.*
unfoldable pub use Evaluate.*
