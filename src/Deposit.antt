-- ===== src/Deposit.antt =====
-- Deposit sessions on a machine: lib/session-policy.ts, lib/deposit-session-deadline.ts,
-- lib/deposit-session-service.ts, and isCampaignEligible of lib/campaign.ts.
mod Deadline
mod Policy
mod Eligibility
mod Rows
mod Expire
mod Start
mod Answer
mod Finish
mod Poll
mod Events
mod Acceptance
pub mod Tables
pub mod Expiry
pub mod Timeout
pub mod Leases
pub mod Counting
pub mod Exclusion
pub mod Handling
pub mod Resting
pub mod Writes
pub mod Starts
pub mod History
pub mod Answers
pub mod Ceilings
pub mod Admissions
pub mod Pricing
mod Tests
pub mod Holds
pub use Deadline.*
pub use Policy.*
pub use Eligibility.*
pub use Rows.*
pub use Expire.*
pub use Start.*
pub use Answer.*
pub use Finish.*
pub use Poll.*
pub use Events.*
pub use Acceptance.*
