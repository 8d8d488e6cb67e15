-- ===== src/Ledger.antt =====
-- crates/ledger: the double-entry ledger, its accounts, its journals and how they are posted.
pub mod Account
pub mod Journal
pub mod Post
mod Tests
