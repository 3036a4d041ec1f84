-- ===== src/Policy.antt =====
-- The policy engine (packages/policy/index.js) and its guard on integers (packages/canonical/uint.js).
mod Rules
mod Evaluate
pub mod Laws
mod Tests
unfoldable pub use Rules.*
unfoldable pub use Evaluate.*
