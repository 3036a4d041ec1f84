-- ===== src/JobFlow.antt =====
-- The flow of one job, from its ceiling to its verdict (packages/job-integration/index.mjs).
mod Create
pub mod Settlement
mod Tests
unfoldable pub use Create.*
