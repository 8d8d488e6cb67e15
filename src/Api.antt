-- ===== src/Api.antt =====
-- crates/api: the HTTP handlers, as functions of the tables that they read and write.
pub mod Error
pub mod Naira
pub mod Funding
pub mod Payouts
pub mod Purchase
pub mod Reconcile
pub mod Cancel
pub mod SignIn
pub mod Otp
pub mod Unlock
pub mod Sessions
pub mod Orders
mod Tests
