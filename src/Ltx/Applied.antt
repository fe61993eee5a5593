-- ===== src/Ltx/Applied.antt =====
-- crates/walrust-core/src/ltx.rs: what a file holds after a valid changeset was applied to it.
use walrust.Base.{
  ℕ, suc, ◌+◌, ◌-◌, ◌*◌, ◌^◌, ◌≤◌, ◌<◌, ◌≡◌, refl, ◌∙◌, sym, ap, subst, inl, inr, ◌⊎◌, true, false,
  Option, none, some, List, [], ◌∷◌, ◌==◌, ltb, length, ok, In, here, there, arith, Bool-cases,
  Option-cases, lt→ltb, ltb→lt, if◌then◌else◌,
}
use walrust.Compaction.Merge.{PageEntry, is_empty}
use walrust.Ltx.{
  Changeset, validate_sqlite_page_size, changeset_end_page_count, marker_loop, has_marker_flag,
  validate_sqlite_changeset, checked_mul,
}
use walrust.Ltx.File.{DbFile, read_at, set_len, write_pages, resize, apply_decoded_changeset_to_db}
use walrust.Ltx.Offsets.{validate_sqlite_page_size-ok, validate_sqlite_changeset-IsValid}
use walrust.Ltx.Writes.{
  last_bytes, after_write, FitsU32, product_fits, le_row, row_le, write_pages_reads,
}

-- A declared size is the number before that of a page of the changeset.
marker_loop-In :
    (flags : ℕ) (found : Option ℕ) (pages : List PageEntry) {epc : ℕ}
    → marker_loop flags found pages ≡ ok (some epc)
    → (found ≡ some epc) ⊎ ((p : PageEntry) × In p pages × (epc ≡ p.page_id - 1))
unfolding marker_loop
marker_loop-In flags (some x) [] {epc} h = inl (cc h)
marker_loop-In flags none [] {epc} h = elim (Bool-cases (has_marker_flag flags)) [
  | inl e ↦ absurd (cc (rw e at h))
  | inr e ↦ absurd (cc (rw e at h))
]
marker_loop-In flags found (p ∷ pages) {epc} h = elim (Bool-cases (is_empty p.bytes)) [
  | inr e ↦ later (marker_loop-In flags found pages (rw (e, marker_loop) at h))
  | inl e ↦ elim (Bool-cases (has_marker_flag flags)) [
    | inr f ↦ absurd (cc (rw (e, f, marker_loop) at h))
    | inl f ↦ elim (Bool-cases (p.page_id == 0)) [
      | inl g ↦ absurd (cc (rw (e, f, g, marker_loop) at h))
      | inr g ↦ elim (Option-cases found) [
        | inr (x, k) ↦ absurd (cc (rw (e, f, g, k, marker_loop) at h))
        | inl k ↦
            elim (marker_loop-In flags (some (p.page_id - 1)) pages
              (rw (e, f, g, k, marker_loop) at h)) [
                | inl same ↦ inr (p, here, sym (cc same))
                | inr (q, m, same) ↦ inr (q, there m, same)
              ]
      ]
    ]
  ]
]
  where
    later :
        (found ≡ some epc) ⊎ ((q : PageEntry) × In q pages × (epc ≡ q.page_id - 1))
        → (found ≡ some epc) ⊎ ((q : PageEntry) × In q (p ∷ pages) × (epc ≡ q.page_id - 1))
    later (inl k) = inl k
    later (inr (q, m, same)) = inr (q, there m, same)

-- A page `n + 1` is kept up to the declared size, and reads as 0 behind it.
abbrev pub up_to : Option ℕ → ℕ → ℕ → ℕ
up_to none n x = x
up_to (some epc) n x = if ltb n epc then x else 0

-- The length of the file, if a size is declared.
abbrev pub HasSize : Option ℕ → ℕ → DbFile → Type 0
HasSize none size f = Unit
HasSize (some epc) size f = f.len ≡ epc * size

resize_reads :
    (c : Changeset) (epc : Option ℕ) (g : DbFile)
    → changeset_end_page_count c ≡ ok epc
    → validate_sqlite_page_size c.page_size ≡ ok c.page_size
    → FitsU32 c.pages
    → ((resize c g).0 ≡ ok tt)
      × HasSize epc c.page_size (resize c g).1
      × ((n i : ℕ)
          → i < c.page_size
          → read_at (resize c g).1 (n * c.page_size + i)
            ≡ up_to epc n (read_at g (n * c.page_size + i)))
unfolding resize changeset_end_page_count
resize_reads c none g e valid fits = (rw (e, resize) refl, tt, λ n i h. rw (e, resize) refl)
resize_reads c (some epc) g e valid fits =
    let (same, low, high) = validate_sqlite_page_size-ok c.page_size valid in
    let small : epc * c.page_size < 2 ^ 64 =
      product_fits epc c.page_size (bound (marker_loop-In c.flags none c.pages e)) high in
    let checked : checked_mul epc c.page_size ≡ some (epc * c.page_size) =
      rw (lt→ltb _ _ small) refl in
    let done : resize c g ≡ (ok tt, set_len (epc * c.page_size) g) =
      rw (e, valid, checked, resize) refl in
    (
      ap (λ r. r.0) done,
      ap (λ r. r.1.len) done,
      λ n i h.
          ap (λ r. read_at r.1 (n * c.page_size + i)) done ∙ cut n i h (Bool-cases (ltb n epc)),
    )
  where
    not_less : (a b : ℕ) → b ≤ a → ltb a b ≡ false
    not_less a b l = ground arith

    ge_of : (a b : ℕ) → ltb a b ≡ false → b ≤ a
    ge_of a b l = ground arith

    bound :
        (none ≡ some epc) ⊎ ((p : PageEntry) × In p c.pages × (epc ≡ p.page_id - 1)) → epc < 2 ^ 32
    bound (inl k) = absurd (cc k)
    bound (inr (p, m, k)) = omega (arith, fits p m, k)

    cut :
        (n i : ℕ)
        → i < c.page_size
        → (ltb n epc ≡ true) ⊎ (ltb n epc ≡ false)
        → read_at (set_len (epc * c.page_size) g) (n * c.page_size + i)
          ≡ up_to (some epc) n (read_at g (n * c.page_size + i))
    cut n i h (inl k) =
        let inside : ltb (n * c.page_size + i) (epc * c.page_size) ≡ true =
          lt→ltb _ _ (omega (arith, row_le n epc c.page_size (ltb→lt n epc k), h)) in
        rw (k, inside) refl
    cut n i h (inr k) =
        let outside : ltb (n * c.page_size + i) (epc * c.page_size) ≡ false =
          not_less _ _ (omega (arith, le_row epc n c.page_size (ge_of n epc k))) in
        rw (k, outside) refl

-- A changeset that is valid, with page numbers of 32 bits, is applied without an error; then each byte
-- of each page is that of the last page of the changeset with its number, or else what it was before,
-- and 0 in the pages past the size that the changeset declares, which is then the size of the file.
pub apply_decoded_changeset_to_db_reads :
    (c : Changeset) (epc : Option ℕ) (f : DbFile)
    → FitsU32 c.pages
    → validate_sqlite_changeset c ≡ ok tt
    → changeset_end_page_count c ≡ ok epc
    → ((apply_decoded_changeset_to_db c f).0 ≡ ok tt)
      × HasSize epc c.page_size (apply_decoded_changeset_to_db c f).1
      × ((n i : ℕ)
          → i < c.page_size
          → read_at (apply_decoded_changeset_to_db c f).1 (n * c.page_size + i)
            ≡ up_to epc n
                (after_write (last_bytes (suc n) c.pages) (read_at f (n * c.page_size + i)) i))
unfolding apply_decoded_changeset_to_db
apply_decoded_changeset_to_db_reads c epc f fits valid declares =
    let v = validate_sqlite_changeset-IsValid c valid in
    let (wrote, pages) = write_pages_reads c.page_size v.epc c.pages f v.size v.pages fits in
    let (sized, length, cut) =
      resize_reads c epc (write_pages c.page_size c.pages f).1 declares v.size fits in
    let run : apply_decoded_changeset_to_db c f ≡ resize c (write_pages c.page_size c.pages f).1 =
      rw (valid, wrote, apply_decoded_changeset_to_db) refl in
    (
      ap (λ r. r.0) run ∙ sized,
      subst (λ r. HasSize epc c.page_size r.1) (sym run) length,
      λ n i h.
          ap (λ r. read_at r.1 (n * c.page_size + i)) run
          ∙ cut n i h
          ∙ ap (up_to epc n) (pages n i h),
    )
