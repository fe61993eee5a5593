-- ===== src/Ltx/File.antt =====
-- crates/walrust-core/src/ltx.rs: `apply_decoded_changeset_to_db`, on a file that can be opened and written.
use walrust.Base.{
  ℕ, ◌+◌, ◌-◌, ◌&&◌, Option, none, some, List, [], ◌∷◌, if◌then◌else◌, ltb, leb, length, ok, err,
  Bytes, get_elem?,
}
use Prim.Native.Nat.{max}
use walrust.Compaction.Merge.{PageEntry, is_empty}
use walrust.Ltx.{
  Checked, Changeset, size_overflow, validate_sqlite_page_size, changeset_end_page_count,
  validate_sqlite_changeset, checked_mul, sqlite_page_offset,
}

-- A file: its length and its bytes, of which those past the length do not count.
pub record DbFile : Type 0 where
  pub len : ℕ
  pub byte : ℕ → ℕ

-- What a read at an offset gives.
abbrev pub read_at : DbFile → ℕ → ℕ
read_at f k = if ltb k f.len then f.byte k else 0

abbrev pub byte_or : ℕ → Option ℕ → ℕ
byte_or d none = d
byte_or d (some b) = b

-- `seek` and `write_all`; bytes between the end and the offset are 0.
unfoldable pub write_at : ℕ → Bytes → DbFile → DbFile
write_at offset bytes f = record {
  len = max f.len (offset + length bytes);
  byte = λ k.
      if leb offset k && ltb k (offset + length bytes)
      then byte_or 0 (get_elem? bytes (k - offset))
      else read_at f k;
}

-- `set_len`: what is added reads as 0.
unfoldable pub set_len : ℕ → DbFile → DbFile
set_len n f = record { len = n; byte = read_at f }

-- The loop over the pages: the error that stops it, if any, and the file that it leaves.
unfoldable pub write_pages : ℕ → List PageEntry → DbFile → Checked × DbFile
unfolding write_at
write_pages page_size [] f = (ok tt, f)
write_pages page_size (page ∷ pages) f =
    let rest = write_pages page_size pages f in
    if is_empty page.bytes then rest else (elim (sqlite_page_offset page.page_id page_size) [
      | err e ↦ (err e, f)
      | ok offset ↦ write_pages page_size pages (write_at offset page.bytes f)
    ])

-- The file is cut or grown to the size that the changeset declares.
unfoldable pub resize : Changeset → DbFile → Checked × DbFile
unfolding set_len
resize c f = elim (changeset_end_page_count c) [
  | err e ↦ (err e, f)
  | ok none ↦ (ok tt, f)
  | ok (some epc) ↦ elim (validate_sqlite_page_size c.page_size) [
    | err e ↦ (err e, f)
    | ok page_size ↦ elim (checked_mul epc page_size) [
      | none ↦ (err size_overflow, f)
      | some len ↦ (ok tt, set_len len f)
    ]
  ]
]

unfoldable pub apply_decoded_changeset_to_db : Changeset → DbFile → Checked × DbFile
unfolding write_pages resize
apply_decoded_changeset_to_db c f = elim (validate_sqlite_changeset c) [
  | err e ↦ (err e, f)
  | ok _ ↦
      let (written, g) = write_pages c.page_size c.pages f in
      elim written [ err e ↦ (err e, g) | ok _ ↦ resize c g ]
]
