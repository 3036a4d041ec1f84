-- ===== src/Firewall.antt =====
-- The pre-execution firewall (packages/firewall): simulation, declaration binding, authority probe,
-- policy check, decision and review resolution.
mod Simulate
mod Bind
mod Authority
mod PolicyGate
mod Decide
mod Resolve
mod Conform
pub mod Consistency
pub mod Decisions
pub mod Reviews
pub mod Conformity
mod Tests
unfoldable pub use Simulate.*
unfoldable pub use Bind.*
unfoldable pub use Authority.*
unfoldable pub use PolicyGate.*
unfoldable pub use Decide.*
unfoldable pub use Resolve.*
unfoldable pub use Conform.*
