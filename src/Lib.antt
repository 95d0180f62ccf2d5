-- ===== src/Lib.antt =====
-- ReLoop: a deposit and reward program. People bring packaging to reverse vending machines or return
-- trash bags after a trip; accepted material earns rupiah that organizations fund, and a wallet pays
-- it out. This library models the decision core of the server, the TypeScript under lib/.
--
-- Parts:
--   Base         numbers, lists, signed integers and fallible results that the other parts share
--   Store        the rows of the money tables and their keys (prisma/schema.prisma)
--   Pickup       lib/pickup.ts: the lifecycle of a collection task
--   Partnership  lib/partnership.ts: how an organization and a collector become partners
--   Funding      lib/reward-funding.ts: capacity, reservations, obligations, releases, payouts
--   Wallet       lib/ledger.ts, lib/wallet-service.ts, lib/payout-destination.ts and
--                lib/reward-credit.ts: balances, payout requests, their reserves and transitions, and the
--                writer of reward effects; payouts and earnings call Funding
--   Reward       lib/reward-policy.ts: what a deposit earns, material verification, campaign modes;
--                lib/reward.ts: rates, their selection, amounts
--   Machine      lib/machine-state.ts: deposit sessions under machine events, the sensor sequence
--   Deposit      lib/session-policy.ts, lib/deposit-session-deadline.ts, lib/deposit-session-service.ts,
--                and of lib/machine-events/ the session columns, the anomalies and the pricing of an
--                acceptance: a scan reads a campaign (lib/campaign.ts), a token (lib/qr.ts) and the
--                rates, and calls Funding for its ceiling; events use the table of Machine
--   Guard        lib/machine-auth.ts, lib/machine-nonce.ts, lib/rate-limit.ts: signed machine requests,
--                their nonces and the rate limiter, in the store of one process; lib/totp.ts
--                and lib/mfa.ts: base32, codes and the second factor of an account
--
-- A transaction is a function from the tables to a refusal or to a value and the next tables. The
-- source rolls back on a refusal, so a refusal carries no state; it locks the rows that it reads
-- and writes (lib/db-locks.ts), so transactions on the same rows are steps one after the other, and
-- a history is a sequence of them (Funding/History.antt). Identifiers and user references are only
-- compared and are numbers; business keys are structured values with one constructor for each
-- builder. Rupiah amounts are natural numbers where the source admits no others, and integers where
-- a counter or a ledger row is signed. Each list recursion is structural; the attempts of a scan
-- take fuel for two rounds, which are enough whatever each comes to (Deposit/Answers.antt). The
-- inner loop of the base32 encoder has as much fuel as bits, and each round takes five of them.
--
-- Not modelled: the pages and mobile apps, the HTTP routes, the mailer, storage and crypto
-- wrappers, the Redis stores for nonces and rates, the signature of leases, the erasure of accounts
-- (lib/erasure-jobs.ts), which rewrites texts of settled payout requests, log output, notifications
-- and audit rows that are written after a commit, and timestamps that no decision reads. A funding
-- account is created for any organization, and campaign counters have no upper bound: there the
-- model admits more than the code. Parameters: arithmetic on doubles, the hash of a snapshot,
-- upper-casing, lower-casing and trimming a text, encryption, passwords, HMAC and the reading of a
-- timestamp as a number, the effect of other writers on each attempt of a scan, the status of a
-- source that may end, the session and trip rows behind a source, the funding cutover, and whether
-- an account was erased.

pub mod Base
pub mod Store
pub mod Pickup
pub mod Partnership
pub mod Funding
pub mod Wallet
pub mod Reward
pub mod Machine
pub mod Deposit
pub mod Guard
