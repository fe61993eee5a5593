-- ===== src/Wal/Reading/Laws.antt =====
-- crates/walrust-core/src/wal.rs: the full frames of the log lie within it.
use walrust.Base.{ℕ, ◌-◌, ◌*◌, ◌≤◌, arith}
use walrust.Wal.Frame.{frame_size}
use walrust.Wal.Reading.{full_frames}

pub full_frames_fit :
    (page_size file_size from : ℕ)
    → full_frames page_size file_size from * frame_size page_size ≤ file_size - from
unfolding full_frames
full_frames_fit page_size file_size from = grind arith
