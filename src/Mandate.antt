-- ===== src/Mandate.antt =====
-- The mandate gate (packages/mandate/index.js), and what is proved of it.
mod Fold
pub mod Chains
mod Tests
unfoldable pub use Fold.*
