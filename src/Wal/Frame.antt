-- ===== src/Wal/Frame.antt =====
-- crates/walrust-core/src/wal.rs: one frame, and its check against the running chain.
use walrust.Base.{
  ℕ, ◌+◌, Bool, Option, none, some, take, if◌then◌else◌, Result, ok, ◌>>=◌, Bytes, be_at,
}
use walrust.Wal.Checksum.{Chain, wal_checksum}
use walrust.Wal.Header.{WalError, HeaderSeed, pair_eq, frame_header_size, read_exact}

-- The two buffers of a round.
pub record Frame : Type 0 where
  pub header : Bytes
  pub page : Bytes

abbrev pub page_number : Frame → ℕ
page_number f = be_at 0 4 f.header

-- 0 unless the frame commits.
abbrev pub db_size : Frame → ℕ
db_size f = be_at 4 4 f.header

abbrev pub frame_salt : Frame → ℕ × ℕ
frame_salt f = (be_at 8 4 f.header, be_at 12 4 f.header)

abbrev pub frame_size : ℕ → ℕ
frame_size page_size = frame_header_size + page_size

unfoldable pub read_frame : ℕ → Bytes → ℕ → Result Frame WalError
unfolding read_exact
read_frame page_size bytes from = do
  header ← read_exact bytes from frame_header_size
  page ← read_exact bytes (from + frame_header_size) page_size
  ok (record { header = header; page = page })

unfoldable pub verify_frame_checksum : Chain → Bytes → Bytes → Bool → Option Chain
verify_frame_checksum seed frame_header page_body big_endian =
    let stored : Chain = (be_at 16 4 frame_header, be_at 20 4 frame_header) in
    let running : Chain =
      wal_checksum (wal_checksum seed (take 8 frame_header) big_endian) page_body big_endian in
    if pair_eq running stored then some running else none

-- The test of a round, where the reader validates: the salt of the header, then the checksum.
unfoldable pub check_frame : Bool → HeaderSeed → Chain → Frame → Option Chain
unfolding verify_frame_checksum
check_frame validate h running f =
    if validate
    then if pair_eq (frame_salt f) h.salt
      then verify_frame_checksum running f.header f.page h.big_endian
      else none
    else some running
