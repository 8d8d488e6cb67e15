-- ===== src/Auth.antt =====
-- crates/auth: sign-in identifiers, one-time codes, refresh tokens and the tiers of verification.
pub mod Tier
pub mod Identifier
pub mod Otp
pub mod Session
pub mod Pin
pub mod Identity
mod Tests
