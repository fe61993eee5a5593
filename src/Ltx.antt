-- ===== src/Ltx.antt =====
-- crates/walrust-core/src/ltx.rs: the validation of SQLite changesets, and their application to a
-- database file in place. Encoding and decoding are the changeset library's.
pub mod File
pub mod Offsets
pub mod Writes
pub mod Applied
use walrust.Base.{
  ℕ, zero, suc, ◌+◌, ◌-◌, ◌*◌, ◌/◌, ◌%◌, ◌^◌, Bool, true, false, not, ◌&&◌, ◌||◌, Option, none,
  some, List, [], ◌∷◌, if◌then◌else◌, ◌==◌, ltb, leb, length, Result, ok, err, ◌>>=◌,
}
use walrust.Compaction.Header.{PageIdSize, u32, u64}
use walrust.Compaction.Merge.{PageEntry, is_empty}
use walrust.Compaction.Merge.Output.{size_eq}

-- The errors of the module, one for each message.
pub data LtxError : Type 0 where
  invalid_page_size : ℕ → LtxError
  unsupported_flags : ℕ → LtxError
  invalid_page_id_size : LtxError
  page_count_mismatch : ℕ → ℕ → LtxError
  page_zero : LtxError
  unmarked_empty_page : ℕ → LtxError
  multiple_markers : LtxError
  missing_marker : LtxError
  past_end : ℕ → ℕ → LtxError
  wrong_page_bytes : ℕ → ℕ → LtxError
  offset_overflow : ℕ → LtxError
  size_overflow : LtxError

-- `Result<()>`.
abbrev pub Checked : Type 0
Checked = Result (Unit {0}) LtxError

-- `PhysicalChangeset` of hadb-changeset, as far as the module reads it.
pub record Changeset : Type 0 where
  pub flags : ℕ
  pub page_id_size : PageIdSize
  pub page_size : ℕ
  pub page_count : ℕ
  pub pages : List PageEntry

abbrev pub min_sqlite_page_size : ℕ
min_sqlite_page_size = 512

abbrev pub max_sqlite_page_size : ℕ
max_sqlite_page_size = 65536

-- `u32::is_power_of_two`.
abbrev pub power_from : ℕ → ℕ → Bool
power_from zero n = n == 1
power_from (suc k) n = (n == 2 ^ suc k) || power_from k n

unfoldable pub validate_sqlite_page_size : ℕ → Result ℕ LtxError
validate_sqlite_page_size page_size =
    if leb min_sqlite_page_size page_size
      && leb page_size max_sqlite_page_size
      && power_from 31 page_size
    then ok page_size
    else err (invalid_page_size page_size)

-- `flags & FLAG_END_PAGE_COUNT_MARKER`, whose bit is the lowest.
abbrev pub has_marker_flag : ℕ → Bool
has_marker_flag flags = flags % 2 == 1

unfoldable pub marker_loop : ℕ → Option ℕ → List PageEntry → Result (Option ℕ) LtxError
marker_loop flags found [] = elim found [
  | some epc ↦ ok (some epc)
  | none ↦ if has_marker_flag flags then err missing_marker else ok none
]
marker_loop flags found (page ∷ pages) =
    let rest = marker_loop flags found pages in
    let marked = marker_loop flags (some (page.page_id - 1)) pages in
    if not (is_empty page.bytes)
    then rest
    else if not (has_marker_flag flags)
    then err (unmarked_empty_page page.page_id)
    else if page.page_id == 0
    then err page_zero
    else (elim found [ some epc ↦ err multiple_markers | none ↦ marked ])

unfoldable pub changeset_end_page_count : Changeset → Result (Option ℕ) LtxError
unfolding marker_loop
changeset_end_page_count c = marker_loop c.flags none c.pages

unfoldable pub is_past : Option ℕ → ℕ → Bool
is_past none page_num = false
is_past (some epc) page_num = ltb epc page_num

abbrev pub size_of : Option ℕ → ℕ
size_of none = 0
size_of (some epc) = epc

-- The loop over the pages of `validate_sqlite_changeset`.
unfoldable pub validate_pages : ℕ → Option ℕ → List PageEntry → Checked
unfolding is_past
validate_pages page_size epc [] = ok tt
validate_pages page_size epc (page ∷ pages) =
    let rest = validate_pages page_size epc pages in
    if page.page_id == 0
    then err page_zero
    else if is_empty page.bytes
    then rest
    else if is_past epc page.page_id
    then err (past_end page.page_id (size_of epc))
    else if length page.bytes == page_size
    then rest
    else err (wrong_page_bytes page.page_id (length page.bytes))

unfoldable pub validate_sqlite_changeset : Changeset → Checked
unfolding validate_sqlite_page_size changeset_end_page_count validate_pages
validate_sqlite_changeset c = validate_sqlite_page_size c.page_size >>= λ page_size.
    if not (c.flags / 2 == 0)
    then err (unsupported_flags c.flags)
    else if not (size_eq c.page_id_size u32)
    then err invalid_page_id_size
    else if not (c.page_count == length c.pages)
    then err (page_count_mismatch c.page_count (length c.pages))
    else (changeset_end_page_count c >>= λ epc. validate_pages page_size epc c.pages)

-- `checked_mul` of a `u64`.
abbrev pub checked_mul : ℕ → ℕ → Option ℕ
checked_mul a b = if ltb (a * b) (2 ^ 64) then some (a * b) else none

unfoldable pub sqlite_page_offset : ℕ → ℕ → Result ℕ LtxError
unfolding validate_sqlite_page_size
sqlite_page_offset page_num page_size =
    if page_num == 0
    then err page_zero
    else (validate_sqlite_page_size page_size >>= λ size. elim (checked_mul (page_num - 1) size) [
      | some offset ↦ ok offset
      | none ↦ err (offset_overflow page_num)
    ])
