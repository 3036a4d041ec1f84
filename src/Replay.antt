-- ===== src/Replay.antt =====
-- The structural replay of a trace (packages/replay/index.js), and what is proved of it.
mod Plan
pub mod Trees
mod Tests
unfoldable pub use Plan.*
