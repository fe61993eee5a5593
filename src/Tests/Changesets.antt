-- ===== src/Tests/Changesets.antt =====
-- A changeset of one page and a marker, which is applied to a file of four pages.
use walrust.Base.{
  ℕ, zero, suc, ◌+◌, ◌-◌, ◌*◌, ◌^◌, ◌≤◌, ◌<◌, ◌≡◌, refl, some, [], ◌∷◌, here, there, ok, Bytes,
  arith,
}
use walrust.Compaction.Header.{u32}
use walrust.Compaction.Merge.Output.{size_eq}
use walrust.Ltx.{
  Changeset, changeset_end_page_count, validate_sqlite_changeset, validate_sqlite_page_size,
  sqlite_page_offset,
}
use walrust.Ltx.File.{DbFile, read_at, apply_decoded_changeset_to_db}
use walrust.Ltx.Writes.{FitsU32, last_bytes, after_write, sqlite_page_offset_bounds}
use walrust.Ltx.Applied.{HasSize, up_to, apply_decoded_changeset_to_db_reads}

abbrev fill : ℕ → ℕ → Bytes
fill zero b = []
fill (suc n) b = b ∷ fill n b

abbrev changeset : Changeset
changeset = record {
  flags = 1;
  page_id_size = u32;
  page_size = 512;
  page_count = 2;
  pages = record { page_id = 2; bytes = fill 512 7 } ∷ record { page_id = 4; bytes = [] } ∷ [];
}

abbrev file : DbFile
file = record { len = 2048; byte = λ k. 5 }

fits : FitsU32 changeset.pages
fits p here = omega arith
fits p (there here) = omega arith
fits p (there (there m)) = elim m [ ]

is_valid : validate_sqlite_changeset changeset ≡ ok tt
unfolding validate_sqlite_changeset size_eq
is_valid = refl

three_pages : changeset_end_page_count changeset ≡ ok (some 3)
unfolding changeset_end_page_count
three_pages = refl

-- Page 2 is new, page 3 is as it was, and page 4 is gone.
second_page : read_at (apply_decoded_changeset_to_db changeset file).1 600 ≡ 7
unfolding apply_decoded_changeset_to_db validate_sqlite_changeset size_eq sqlite_page_offset
second_page = refl

third_page : read_at (apply_decoded_changeset_to_db changeset file).1 1100 ≡ 5
unfolding apply_decoded_changeset_to_db validate_sqlite_changeset size_eq sqlite_page_offset
third_page = refl

fourth_page : read_at (apply_decoded_changeset_to_db changeset file).1 1600 ≡ 0
unfolding apply_decoded_changeset_to_db validate_sqlite_changeset size_eq sqlite_page_offset
fourth_page = refl

apply_decoded_changeset_to_db_reads_example :
    ((apply_decoded_changeset_to_db changeset file).0 ≡ ok tt)
    × HasSize (some 3) 512 (apply_decoded_changeset_to_db changeset file).1
    × ((n i : ℕ)
        → i < 512
        → read_at (apply_decoded_changeset_to_db changeset file).1 (n * 512 + i)
          ≡ up_to
              (some 3)
              n
              (after_write (last_bytes (suc n) changeset.pages) (read_at file (n * 512 + i)) i))
apply_decoded_changeset_to_db_reads_example =
    apply_decoded_changeset_to_db_reads changeset (some 3) file fits is_valid three_pages

a_page_size : validate_sqlite_page_size 4096 ≡ ok 4096
unfolding validate_sqlite_page_size
a_page_size = refl

sqlite_page_offset_bounds_example :
    (sqlite_page_offset 9 4096 ≡ ok ((9 - 1) * 4096)) × ((9 - 1) * 4096 + 4096 ≤ 2 ^ 48)
sqlite_page_offset_bounds_example =
    sqlite_page_offset_bounds 9 4096 (λ e. absurd (omega (arith, e))) (omega arith) a_page_size
