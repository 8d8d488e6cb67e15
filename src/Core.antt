-- ===== src/Core.antt =====
-- crates/core: the chains and the assets, their names and their parameters.
pub mod Asset
pub mod Chain
mod Tests
