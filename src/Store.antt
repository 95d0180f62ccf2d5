-- ===== src/Store.antt =====
-- The rows of the money tables (prisma/schema.prisma, as lib/ledger.ts, lib/wallet-service.ts,
-- lib/reward-credit.ts and lib/reward-funding.ts read and write them) and the database they form.
-- Identifiers are only compared, so they are numbers. A transaction is a function from a database
-- to a refusal or to a value and the next database: a refusal rolls it back. Row locks (lib/db-locks.ts)
-- make the transactions that touch the same rows run one after the other, so one is a single step.
mod Keys
mod Rows
mod Errors
mod Sums
mod Ids
pub use Keys.*
unfoldable pub use Keys.{key_eq, text_eq}
pub use Rows.*
pub use Errors.*
pub use Ids.*
pub use Sums.*
