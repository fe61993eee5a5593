-- ===== src/Wal.antt =====
-- crates/walrust-core/src/wal.rs: SQLite's write-ahead log, read while SQLite may write it.
pub mod Checksum
pub mod Header
pub mod Frame
pub mod Reading
pub mod Pages
pub mod PageMap
pub mod Committed
pub mod Writer
pub mod Unchecked
