-- ===== src/Watcher.antt =====
-- crates/watcher: the chain watchers, which see deposits, confirm them, credit them to the ledger
-- and reverse them after a reorganisation of the chain.
pub mod Network
pub mod Deposit
pub mod Store
pub mod Scan
pub mod LogWindow
pub mod Watch
pub mod Topics
mod Tests
