-- ===== src/Compaction/Header.antt =====
-- crates/walrust-core/src/compaction/layout.rs: the light header of a source, and its parser.

use walrust.Base.{
  ℕ, ◌+◌, Bool, true, false, Option, none, some, [], ◌∷◌, ◌&&◌, not, ltb, ◌==◌, if◌then◌else◌,
  length, take, drop, Result, ok, err, ◌>>=◌, Bytes, from_be, to_i64, ℤ,
}
use Prim.Native.Nat.{◌/◌, ◌%◌}
use walrust.Compaction.Errors.{CompactionError, mixed_geometry}

-- `PageIdSize` of hadb-changeset; its number is its width in bytes.
pub data PageIdSize : Type 0 where
  u32 u64 : PageIdSize

unfoldable pub width : PageIdSize → ℕ
width u32 = 4
width u64 = 8

pub record SourceHeader : Type 0 where
  pub page_id_size : PageIdSize
  pub page_size : ℕ
  pub seq : ℕ
  pub prev_checksum : ℕ
  pub page_count : ℕ
  pub created_ms : ℤ
  pub declared_end_checksum : Option ℕ

abbrev pub header_v1_size : ℕ
header_v1_size = 40

abbrev pub declared_field : ℕ
declared_field = 8

abbrev pub flag_compacted : ℕ
flag_compacted = 0x80

-- "HADBP"
abbrev pub magic : Bytes
magic = 0x48 ∷ 0x41 ∷ 0x44 ∷ 0x42 ∷ 0x50 ∷ []

abbrev pub bytes_eq : Bytes → Bytes → Bool
bytes_eq [] [] = true
bytes_eq (a ∷ l) (b ∷ m) = (a == b) && bytes_eq l m
bytes_eq _ _ = false

-- `head[from..from + len]`
abbrev pub field : ℕ → ℕ → Bytes → Bytes
field from len head = take len (drop from head)

-- `head[offset]`, 0 past the end: the callers test the length first.
abbrev pub byte_at : ℕ → Bytes → ℕ
byte_at offset head = from_be (field offset 1 head)

-- Is the object compacted? The flag is bit 7 of the flags byte.
unfoldable pub parse_compacted : ℕ → ℕ → Result Bool CompactionError
parse_compacted version flags =
    if version == 1
    then ok false
    else if version == 2
    then (if flags / 128 % 2 == 0 then err mixed_geometry else ok true)
    else err mixed_geometry

unfoldable pub parse_page_id_size : ℕ → Result PageIdSize CompactionError
parse_page_id_size b = if b == 4 then ok u32 else if b == 8 then ok u64 else err mixed_geometry

unfoldable pub parse_declared : Bool → Bytes → Result (Option ℕ) CompactionError
parse_declared compacted head =
    if compacted
    then (if ltb (length head) (header_v1_size + declared_field)
        then err mixed_geometry
        else ok (some (from_be (field header_v1_size 8 head))))
    else ok none

unfoldable pub parse_source_header : Bytes → Result SourceHeader CompactionError
unfolding parse_compacted parse_page_id_size parse_declared
parse_source_header head =
    if ltb (length head) header_v1_size
    then err mixed_geometry
    else if not (bytes_eq (take 5 head) magic)
    then err mixed_geometry
    else do
      compacted ← parse_compacted (byte_at 5 head) (byte_at 6 head)
      page_id_size ← parse_page_id_size (byte_at 7 head)
      declared_end_checksum ← parse_declared compacted head
      ok (record {
        page_id_size = page_id_size;
        page_size = from_be (field 8 4 head);
        seq = from_be (field 12 8 head);
        prev_checksum = from_be (field 20 8 head);
        page_count = from_be (field 28 4 head);
        created_ms = to_i64 (from_be (field 32 8 head));
        declared_end_checksum = declared_end_checksum;
      })

unfoldable pub body_offset : SourceHeader → ℕ
body_offset h = elim h.declared_end_checksum [
  | some e ↦ header_v1_size + declared_field
  | none ↦ header_v1_size
]
