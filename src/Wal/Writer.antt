-- ===== src/Wal/Writer.antt =====
-- crates/walrust-core/src/wal.rs: the log as SQLite writes it, in either byte order, and
-- `build_valid_wal` of the tests, which writes some of these logs.
pub mod Frames
pub mod Found
pub mod Roundtrip
use walrust.Base.{
  ℕ, Bool, ◌+◌, List, [], ◌∷◌, ◌++◌, map, take, replicate, ltb, if◌then◌else◌, true, Bytes,
  be_bytes,
}
use walrust.Wal.Checksum.{Chain, wal_checksum}
use walrust.Wal.Header.{wal_magic_be, wal_magic_le}

-- A page that is logged.
pub record Logged : Type 0 where
  pub page_number : ℕ
  pub db_size : ℕ
  pub page : Bytes

-- The first eight bytes of a frame's header, which the checksum covers.
abbrev pub words : Logged → Bytes
words w = be_bytes 4 w.page_number ++ be_bytes 4 w.db_size

-- The words that are summed are of the byte order that the magic number gives; what is stored is
-- big-endian in both.
unfoldable pub next_chain : Bool → Chain → Logged → Chain
next_chain be running w = wal_checksum (wal_checksum running (words w) be) w.page be

abbrev pub frame_header : ℕ × ℕ → Chain → Logged → Bytes
frame_header salt chain w =
    words w
    ++ (be_bytes 4 salt.0 ++ (be_bytes 4 salt.1 ++ (be_bytes 4 chain.0 ++ be_bytes 4 chain.1)))

unfoldable pub write_frames : Bool → ℕ × ℕ → Chain → List Logged → Bytes
unfolding next_chain
write_frames be salt running [] = []
write_frames be salt running (w ∷ ws) =
    let next : Chain = next_chain be running w in
    frame_header salt next w ++ (w.page ++ write_frames be salt next ws)

-- What a header says besides its checksum.
pub record LogHeader : Type 0 where
  pub big_endian : Bool
  pub format_version : ℕ
  pub page_size : ℕ
  pub checkpoint_seq : ℕ
  pub salt : ℕ × ℕ

abbrev pub magic_of : Bool → ℕ
magic_of be = if be then wal_magic_be else wal_magic_le

-- The first 24 bytes of the header.
abbrev pub header_words : LogHeader → Bytes
header_words l =
    be_bytes 4 (magic_of l.big_endian)
    ++ (be_bytes 4 l.format_version
        ++ (be_bytes 4 l.page_size
            ++ (be_bytes 4 l.checkpoint_seq ++ (be_bytes 4 l.salt.0 ++ be_bytes 4 l.salt.1))))

unfoldable pub header_chain : LogHeader → Chain
header_chain l = wal_checksum (0, 0) (header_words l) l.big_endian

unfoldable pub sqlite_log : LogHeader → List Logged → Bytes
unfolding header_chain write_frames
sqlite_log l frames =
    let hdr : Chain = header_chain l in
    (header_words l ++ (be_bytes 4 hdr.0 ++ be_bytes 4 hdr.1))
    ++ write_frames l.big_endian l.salt hdr frames

-- `(page_number, db_size_after_commit, fill)`
pub record Write : Type 0 where
  pub page_number : ℕ
  pub db_size : ℕ
  pub fill : ℕ

abbrev pub logged : ℕ → Write → Logged
logged page_size w = record {
  page_number = w.page_number;
  db_size = w.db_size;
  page = replicate page_size w.fill;
}

unfoldable pub build_valid_wal : ℕ → ℕ × ℕ → List Write → Bytes
unfolding sqlite_log
build_valid_wal page_size salt frames =
    sqlite_log
      (record {
        big_endian = true;
        format_version = 3007000;
        page_size = page_size;
        checkpoint_seq = 0;
        salt = salt;
      })
      (map (logged page_size) frames)
