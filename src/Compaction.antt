-- ===== src/Compaction.antt =====
-- crates/walrust-core/src/compaction: leveled compaction, write side and read side.
pub mod Layout
pub mod Errors
pub mod Header
pub mod Merge
pub mod Engine
pub mod Planner
pub mod Coverage
pub mod Prune
pub mod Trigger
