-- ===== src/Guard.antt =====
-- What guards the entry points: the nonces and signatures of machine requests (lib/machine-nonce.ts,
-- lib/machine-auth.ts), the rate limiter (lib/rate-limit.ts), one-time passwords (lib/totp.ts) and the
-- second factor of an account (lib/mfa.ts).
pub mod Maps
pub mod Nonces
pub mod Requests
pub mod Remembering
pub mod Replay
pub mod RateLimit
pub mod Windows
pub mod Base32
pub mod RoundTrip
pub mod Totp
pub mod Mfa
pub mod TotpWindow
pub mod SingleUse
mod Tests
