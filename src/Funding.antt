-- ===== src/Funding.antt =====
-- Reward funding and budget reservations (lib/reward-funding.ts): capacity checks, reservations at
-- admission, obligations at acceptance, settlement at review, release of residue, and the
-- attribution of payouts.
mod Capacity
mod Reserve
mod Commit
mod Release
mod Payout
mod SourceReservation
pub mod Invariant
pub mod Bumps
pub mod Identity
pub mod Obligations
pub mod Settlements
pub mod Linking
pub mod Laws
pub mod Releases
pub mod Reservations
pub mod Admission
pub mod Paying
pub mod Payouts
pub mod Replay
pub mod Solvency
pub mod Coverage
pub mod Sources
pub mod Entries
pub mod History
mod Tests
pub use Capacity.*
unfoldable pub use Capacity.{
  configured_cap, resolve_session_ceiling, lock_funding_account, assert_rupiah, bump_account,
  bump_campaign, check_capacity,
}
pub use Reserve.*
unfoldable pub use Reserve.{
  reserve_reward_budget, admit, enforce, hold, write_reservation, reserve_delta,
}
pub use Commit.*
pub use Release.*
pub use Payout.*
pub use SourceReservation.*
