-- ===== src/Compaction/Errors.antt =====
-- crates/walrust-core/src/compaction/mod.rs: `CompactionError`, without its messages.
use walrust.Base.{String}

pub data CompactionError : Type 0 where
  empty_source_set : CompactionError
  mixed_geometry : CompactionError
  non_contiguous : CompactionError
  verification_failed : CompactionError
  overlapping_existing : CompactionError
  -- the key of the object
  decode : String → CompactionError
  bad_range_key : CompactionError
  storage : CompactionError
