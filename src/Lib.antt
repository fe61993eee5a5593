-- ===== src/Lib.antt =====
-- A verification library of walrust, which replicates SQLite databases to object storage.
--
-- What walrust does. Commits of a database become changeset objects ("L0") of consecutive sequence
-- numbers, and snapshots. Compaction merges runs of objects of one level into one object of the
-- next, and deletes the sources once the merged object reads back sound. A restore starts from a
-- snapshot and applies a chain of objects, of whatever level, that a planner picks. Retention
-- deletes objects below a watermark.
--
-- The files, and the code they model (paths from the repository's root).
--   Base, Base/: what the parts share: Boolean tests on native numbers, lists and membership,
--     filters with `max_by_key` and `min_by_key`, results, sorting, `i64`, big-endian bytes.
--   Cache, Cache/: crates/walrust-core/src/legacy_cache.rs, the local cache of LTX files, which is a
--     queue of uploads. Cache is the manifest and `recompute_contiguous`, with Cache/Cursor;
--     Cache/Queue the writes, confirmed and failed uploads and the start; Cache/Cleanup is `cleanup`;
--     Cache/History runs of all of these; Cache/Reads the questions on its TXIDs.
--   Wal, Wal/: crates/walrust-core/src/wal.rs, the readers of SQLite's log. Wal/Checksum is the running
--     checksum; Wal/Header the header, its check and `detect_reset_during_read`; Wal/Frame one frame
--     and its check; Wal/Reading what a reader sees of a file that may change between its steps, and
--     how it begins; Wal/Pages `read_frames_as_pages_checked`; Wal/PageMap
--     `read_frames_as_page_map_checked`; Wal/Committed the longest run of frames that both are to
--     find; Wal/Unchecked the readers that do not validate; Wal/Writer the log as SQLite writes it, and
--     `build_valid_wal` of the tests, which writes some of these logs.
--   Compaction/Layout, Errors: crates/walrust-core/src/compaction/layout.rs and mod.rs: `SeqRange`,
--     `LayoutFile`, `CompactionError`.
--   Compaction/Header: layout.rs, `parse_source_header` and `body_offset`.
--   Compaction/Planner: planner.rs, `plan_restore` and `refine_gap_with_snapshot_spans`.
--     Planner/Gather: restore.rs, `gather_candidates` and `plan_over_layout`, over a bucket that is
--     a function from a level to a listing or an error.
--   Compaction/Coverage: coverage.rs, `ranges_cover`.
--   Compaction/Prune: prune.rs, `plan_level_prune`; `surviving` is what the deletion of the planned
--     keys in src/sync/prune.rs leaves.
--   Compaction/Trigger: trigger.rs, the counters that start compactions, and the fine window.
--   Compaction/Merge: merge.rs, `merge_changesets`: a heap of one page of each source, the pending
--     winner and the two hashes; Merge/Output is what stands before and behind the loop, and the
--     output's bytes. Merge/Run, Order, Popped and Primed follow the pages through the heap, Marks
--     the size that the last source declares, Winners and Emits what is written; LastWriter says
--     which pages a merge of the sources has, and Merged that the object has them.
--   Compaction/Engine: engine.rs. Engine/Store is the trait `CompactionLayout` of layout.rs as an
--     interface, with the laws of a store; Engine/Batch is `contiguous_batch`; Engine/Select the
--     tests on ranges and `find_existing_merged`; Engine/Verify the checks of merged objects, with
--     `verify_merged_bytes` of merge.rs; Engine/Converge is `converge_interrupted_delete`;
--     Engine/Run is `run_level_compaction`; Engine/Safety follows what it does to stored objects.
--   Ltx: crates/walrust-core/src/ltx.rs, `validate_sqlite_changeset`, `changeset_end_page_count` and
--     `sqlite_page_offset`; Ltx/File is `apply_decoded_changeset_to_db`, on a file that is a length
--     and a function from offsets to bytes; Ltx/Offsets, Writes and Applied follow the pages.
--   Tests: the models at concrete data.
--
-- Numbers are native. `u64` and `u32` sums wrap, as release builds do, where they could overflow
-- (`add_u64`, `add_u32`); an addition that the code's tests keep in range is a plain sum. The cast of
-- a window to an `i64` and the difference of times wrap likewise (Base/Signed).
-- Parameters of the models: SHA-256 (from bytes to bytes), the decoder of hadb-changeset (the
-- record `Physical`), the storage behind `CompactionLayout`, and the clock.
-- Fuel. `plan_loop` is given the distance from the floor to the target and one round more, since
-- each round passes a number. `merge_loop` is given the number of all pages and one round more,
-- since each round pops a page. `advance` is given what lies between the cursor and the last number
-- of an entry, since each round raises the cursor.
-- A hash map is the list of its pairs in the order in which it is read. The disk of the cache fails
-- where flags say so, and the clock is a parameter of each operation.
-- The checked readers of the log are given what the file holds when it is opened, when its header is
-- read, in each round of each pass, and when its size and header are looked at again (`Observed`); a
-- frame's header and page are read in one round. `still` is the file that nothing writes to. The
-- checksum's loop is given an eighth of the length of its input, which it takes eight bytes at a time.
-- The errors keep their kinds; their texts are left out, except the key of a decoding error.
--
-- Not modelled: of the cache its report of verify and the JSON of its manifest; the peak counter
-- `PeakPages` of the merge, which nothing reads but a memory test; of ltx.rs the encoding, the
-- decoding to a new file, and a file that cannot be opened or written; log lines; and of the rest of
-- the program the parts that are not named above.
pub mod Base
pub mod Cache
pub mod Ltx
pub mod Wal
pub mod Compaction
pub mod Tests
