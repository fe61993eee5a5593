-- ===== src/Compaction/Engine.antt =====
-- crates/walrust-core/src/compaction/engine.rs: one safety-ordered compaction run.
pub mod Batch
pub mod Select
pub mod Store
pub mod Verify
pub mod Converge
pub mod Run
pub mod Safety
