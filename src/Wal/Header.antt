-- ===== src/Wal/Header.antt =====
-- crates/walrust-core/src/wal.rs: the header of the log, its checksum, and the errors.
pub mod Laws
use walrust.Base.{
  ℕ, ◌+◌, Bool, not, ◌&&◌, ◌||◌, Option, none, some, length, take, drop, leb, ltb, ◌==◌,
  if◌then◌else◌, Result, ok, err, ◌>>=◌, Bytes, be_at,
}
use walrust.Wal.Checksum.{Chain, wal_checksum, magic_is_big_endian}

-- `WalValidationError`, and the texts of `anyhow` as kinds.
pub data WalError : Type 0 where
  invalid_header_checksum : WalError
  invalid_magic : ℕ → WalError
  not_found io unexpected_eof : WalError
  reverification_failed : ℕ → WalError
  shrank_during_read salt_changed_during_read : WalError

pub record WalHeader : Type 0 where
  pub magic : ℕ
  pub format_version : ℕ
  pub page_size : ℕ
  pub checkpoint_seq : ℕ
  pub salt1 : ℕ
  pub salt2 : ℕ
  pub checksum1 : ℕ
  pub checksum2 : ℕ

unfoldable pub salt : WalHeader → ℕ × ℕ
salt h = (h.salt1, h.salt2)

abbrev pub pair_eq : ℕ × ℕ → ℕ × ℕ → Bool
pair_eq a b = (a.0 == b.0) && (a.1 == b.1)

unfoldable pub is_different_generation : WalHeader → WalHeader → Bool
is_different_generation h other = not (h.salt1 == other.salt1) || not (h.salt2 == other.salt2)

abbrev pub wal_header_size : ℕ
wal_header_size = 32

abbrev pub frame_header_size : ℕ
frame_header_size = 24

abbrev pub wal_magic_le : ℕ
wal_magic_le = 0x377f_0682

abbrev pub wal_magic_be : ℕ
wal_magic_be = 0x377f_0683

-- What a path leads to.
pub data WalFile : Type 0 where
  missing unreadable : WalFile
  holding : Bytes → WalFile

-- `File::open`
abbrev pub open_file : WalFile → Result Bytes WalError
open_file missing = err not_found
open_file unreadable = err io
open_file (holding bytes) = ok bytes

-- `seek`, then `read_exact`.
unfoldable pub read_exact : Bytes → ℕ → ℕ → Result Bytes WalError
read_exact bytes from len =
    if leb (from + len) (length bytes) then ok (take len (drop from bytes)) else err unexpected_eof

unfoldable pub validate_header_checksum : Bytes → Bool → Result Chain WalError
validate_header_checksum header big_endian =
    let stored : Chain = (be_at 24 4 header, be_at 28 4 header) in
    if pair_eq stored (0, 0)
    then err invalid_header_checksum
    else if pair_eq (wal_checksum (0, 0) (take 24 header) big_endian) stored
    then ok stored
    else err invalid_header_checksum

abbrev pub header_of : Bytes → WalHeader
header_of buf = record {
  magic = be_at 0 4 buf;
  format_version = be_at 4 4 buf;
  page_size = be_at 8 4 buf;
  checkpoint_seq = be_at 12 4 buf;
  salt1 = be_at 16 4 buf;
  salt2 = be_at 20 4 buf;
  checksum1 = be_at 24 4 buf;
  checksum2 = be_at 28 4 buf;
}

unfoldable pub read_header : WalFile → Result (Option WalHeader) WalError
read_header missing = ok none
read_header unreadable = err io
read_header (holding bytes) =
    if ltb (length bytes) wal_header_size
    then ok none
    else (let magic : ℕ = be_at 0 4 (take 32 bytes) in
        if not (magic == wal_magic_le) && not (magic == wal_magic_be)
        then err (invalid_magic magic)
        else ok (some (header_of (take 32 bytes))))

unfoldable pub get_wal_size : WalFile → Result ℕ WalError
get_wal_size missing = ok 0
get_wal_size unreadable = err io
get_wal_size (holding bytes) = ok (length bytes)

-- What the checked readers take from a header: the seed of the chain, the byte order, the salt.
pub record HeaderSeed : Type 0 where
  pub seed : Chain
  pub big_endian : Bool
  pub salt : ℕ × ℕ

-- `None` for a file without a header or with another magic number.
unfoldable pub header_seed : ℕ → Bytes → Result (Option HeaderSeed) WalError
unfolding validate_header_checksum read_exact magic_is_big_endian
header_seed file_size bytes =
    if leb wal_header_size file_size
    then (read_exact bytes 0 32 >>= λ header.
        let magic : ℕ = be_at 0 4 header in
        if (magic == wal_magic_be) || (magic == wal_magic_le)
        then (validate_header_checksum header (magic_is_big_endian magic) >>= λ seed. ok (
            some (record {
              seed = seed;
              big_endian = magic_is_big_endian magic;
              salt = (be_at 16 4 header, be_at 20 4 header);
            })))
        else ok none)
    else ok none

-- Is the salt, if a header is there, the one from before?
unfoldable pub same_salt : WalFile → ℕ × ℕ → Result (Unit {0}) WalError
unfolding read_header salt
same_salt file before = do
  header ← read_header file
  elim header [
    | none ↦ ok tt
    | some h ↦ if pair_eq (salt h) before then ok tt else err salt_changed_during_read
  ]

-- Did the file shrink below the frames that are returned, or did its salt change?
unfoldable pub detect_reset_during_read :
    WalFile → WalFile → ℕ → Option (ℕ × ℕ) → Result (Unit {0}) WalError
unfolding get_wal_size same_salt
detect_reset_during_read size_file header_file committed_end salt_before =
    get_wal_size size_file >>= λ size_after.
    if ltb size_after committed_end
    then err shrank_during_read
    else elim salt_before [ none ↦ ok tt | some before ↦ same_salt header_file before ]
