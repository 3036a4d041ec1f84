-- ===== src/Canonical.antt =====
-- The canonical encoding (packages/canonical): unsigned integers as decimal texts, and the canonical
-- JSON text that every digest is taken of. A text is the list of its UTF-16 code units.
mod Decimal
mod Uint
mod Encode
pub mod Order
pub mod Normal
pub mod Reader
pub mod Parser
pub mod Injective
pub mod Idempotent
mod Hash
pub mod Binding
pub mod Digits
pub mod Spaces
pub mod Uniqueness
mod Tests
unfoldable pub use Decimal.*
unfoldable pub use Uint.*
unfoldable pub use Encode.*
unfoldable pub use Hash.*
