-- ===== src/Partnership.antt =====
-- The partnership lifecycle (lib/partnership.ts): an organization and a collector become partners
-- only through a superadmin's approval.
mod Rules
pub mod Approval
mod Tests
pub use Rules.*
