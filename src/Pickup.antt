-- ===== src/Pickup.antt =====
-- The pickup lifecycle (lib/pickup.ts): the rule table, the resolution of one action, and the view
-- of who acts next.
mod Rules
mod View
pub mod Lifecycle
pub mod Traces
mod Tests
pub use Rules.*
pub use View.*
