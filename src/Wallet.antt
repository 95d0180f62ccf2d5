-- ===== src/Wallet.antt =====
-- The wallet: balances and reserves (lib/ledger.ts), payout requests and their transitions
-- (lib/wallet-service.ts), money held by open debit cases (lib/reward-credit.ts) and recorded
-- destinations (lib/payout-destination.ts).
mod Rows
mod Balance
mod Reserve
mod Request
mod Transition
mod Credit
pub mod Grouping
pub mod Backing
pub mod Settling
pub mod Moves
pub mod Transits
pub mod Requests
pub mod History
pub mod Standing
pub mod Settled
pub mod Effects
pub mod Crediting
pub mod Overdrafts
mod Tests
pub use Rows.*
pub use Balance.*
pub use Reserve.*
pub use Request.*
pub use Transition.*
pub use Credit.*
