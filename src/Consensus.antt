-- ===== src/Consensus.antt =====
-- Three-verifier consensus (packages/consensus/index.js).
mod Fold
pub mod Verdicts
mod Tests
unfoldable pub use Fold.*
