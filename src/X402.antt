-- ===== src/X402.antt =====
-- The payment-request harness (packages/x402/index.mjs): quotes, challenges, signatures that reserve
-- their cost first, and settlements that close the reservation.
mod Quotes
mod Sessions
pub mod Signatures
pub mod Signing
pub mod Settling
pub mod Payments
mod Tests
unfoldable pub use Quotes.*
unfoldable pub use Sessions.*
