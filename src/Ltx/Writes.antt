-- ===== src/Ltx/Writes.antt =====
-- crates/walrust-core/src/ltx.rs: the pages that the loop writes, and the file's other bytes.
use native.Mathlib.Decide.{ℕ_discrete}
use native.Mathlib.Nat.{mul-le-mul_left, mul_comm}
use Prim.Native.Nat.{max}
use walrust.Base.{
  ℕ, suc, ◌+◌, ◌-◌, ◌*◌, ◌^◌, ◌≤◌, ◌<◌, ◌≡◌, ◌≢◌, refl, ◌∙◌, sym, ap, inl, inr, ◌⊎◌, true, false,
  ◌&&◌, Option, none, some, List, [], ◌∷◌, ◌==◌, ltb, leb, length, ok, err, In, here, there, arith,
  Bool-cases, Option-cases, ==→eq, le→leb, lt→ltb, ltb→lt, Bytes, get_elem?, if◌then◌else◌,
}
use walrust.Compaction.Merge.{PageEntry, is_empty}
use walrust.Ltx.{offset_overflow, validate_sqlite_page_size, checked_mul, sqlite_page_offset}
use walrust.Ltx.File.{DbFile, read_at, byte_or, write_at, write_pages}
use walrust.Ltx.Offsets.{IsPageOf, validate_sqlite_page_size-ok}

-- The bytes of the last page that has the number and is not empty.
abbrev pub last_bytes : ℕ → List PageEntry → Option Bytes
last_bytes n [] = none
last_bytes n (p ∷ pages) = elim (last_bytes n pages) [
  | some b ↦ some b
  | none ↦ if is_empty p.bytes then none else if p.page_id == n then some p.bytes else none
]

-- Byte `i` of a page that was `old` before.
abbrev pub after_write : Option Bytes → ℕ → ℕ → ℕ
after_write none old i = old
after_write (some b) old i = byte_or 0 (get_elem? b i)

-- A page number of SQLite has 32 bits.
abbrev pub FitsU32 : List PageEntry → Type 0
FitsU32 pages = (p : PageEntry) → In p pages → p.page_id < 2 ^ 32

pub product_fits : (a b : ℕ) → a < 2 ^ 32 → b ≤ 65536 → a * b < 2 ^ 64
product_fits a b h k =
    let bound : a * b ≤ a * 65536 = mul-le-mul_left a k in omega (arith, bound, h)

pub le_row : (n m size : ℕ) → n ≤ m → n * size ≤ m * size
le_row n m size h =
    let step : size * n ≤ size * m = mul-le-mul_left size h in
    omega (arith, step, mul_comm size n, mul_comm size m)

pub row_le : (n m size : ℕ) → n < m → n * size + size ≤ m * size
row_le n m size h =
    let step : size * suc n ≤ size * m = mul-le-mul_left size (omega (arith, h)) in
    let left : size * suc n ≡ n * size + size = mul_comm size (suc n) ∙ omega arith in
    let right : size * m ≡ m * size = mul_comm size m in omega (arith, step, left, right)

pub sqlite_page_offset_valid :
    (page_num page_size : ℕ)
    → page_num ≢ 0
    → page_num < 2 ^ 32
    → validate_sqlite_page_size page_size ≡ ok page_size
    → sqlite_page_offset page_num page_size ≡ ok ((page_num - 1) * page_size)
unfolding sqlite_page_offset
sqlite_page_offset_valid page_num page_size nonzero fits valid =
    let (same, low, high) = validate_sqlite_page_size-ok page_size valid in
    let small : (page_num - 1) * page_size < 2 ^ 64 =
      product_fits (page_num - 1) page_size (omega (arith, fits)) high in
    let inside : ltb ((page_num - 1) * page_size) (2 ^ 64) ≡ true = lt→ltb _ _ small in
    elim (Bool-cases (page_num == 0)) [
      | inl z ↦ absurd (nonzero (==→eq _ _ z))
      | inr z ↦
          let checked : checked_mul (page_num - 1) page_size ≡ some ((page_num - 1) * page_size) =
            rw inside refl in
          rw (z, valid)
            (ap
              (λ (o : Option ℕ). elim o [
                | some offset ↦ ok offset
                | none ↦ err (offset_overflow page_num)
              ])
              checked)
    ]

-- For page numbers of 32 bits and a valid page size the offset is computed without overflow, and the
-- page ends within 2 ^ 48 bytes.
pub sqlite_page_offset_bounds :
    (page_num page_size : ℕ)
    → page_num ≢ 0
    → page_num < 2 ^ 32
    → validate_sqlite_page_size page_size ≡ ok page_size
    → (sqlite_page_offset page_num page_size ≡ ok ((page_num - 1) * page_size))
      × ((page_num - 1) * page_size + page_size ≤ 2 ^ 48)
sqlite_page_offset_bounds page_num page_size nonzero fits valid =
    let (same, low, high) = validate_sqlite_page_size-ok page_size valid in
    let row = row_le (page_num - 1) page_num page_size (omega (arith, nonzero)) in
    let wide : page_num * page_size ≤ page_num * 65536 = mul-le-mul_left page_num high in
    (sqlite_page_offset_valid page_num page_size nonzero fits valid, omega (arith, row, wide, fits))

out_test : (o k e : ℕ) → (k < o) ⊎ (e ≤ k) → (leb o k && ltb k e) ≡ false
out_test o k e (inl h) = ground arith
out_test o k e (inr h) = ground arith

below_max : (k a b : ℕ) → ltb k (max a b) ≡ false → ltb k a ≡ false
below_max k a b h = ground arith

write_at_in :
    (o : ℕ) (b : Bytes) (f : DbFile) (i : ℕ)
    → i < length b
    → read_at (write_at o b f) (o + i) ≡ byte_or 0 (get_elem? b i)
unfolding write_at
write_at_in o b f i h =
    let inside : ltb (o + i) (max f.len (o + length b)) ≡ true = lt→ltb _ _ (omega (arith, h)) in
    let from : leb o (o + i) ≡ true = le→leb _ _ (omega arith) in
    let to : ltb (o + i) (o + length b) ≡ true = lt→ltb _ _ (omega (arith, h)) in
    let back : (o + i) - o ≡ i = omega arith in rw (inside, from, to, back) refl

write_at_out :
    (o : ℕ) (b : Bytes) (f : DbFile) (k : ℕ)
    → (k < o) ⊎ (o + length b ≤ k)
    → read_at (write_at o b f) k ≡ read_at f k
unfolding write_at
write_at_out o b f k h =
    let outside : (leb o k && ltb k (o + length b)) ≡ false = out_test o k (o + length b) h in
    elim (Bool-cases (ltb k (max f.len (o + length b)))) [
      | inl e ↦ rw (e, outside) refl
      | inr e ↦
          let beyond : ltb k f.len ≡ false = below_max k f.len (o + length b) e in
          rw (e, beyond) refl
    ]

-- A page that is written, at its place, and the other pages.
write_page :
    (m size n i : ℕ) (b : Bytes) (f : DbFile)
    → length b ≡ size
    → i < size
    → read_at (write_at (m * size) b f) (n * size + i)
      ≡ (if m == n then byte_or 0 (get_elem? b i) else read_at f (n * size + i))
write_page m size n i b f whole inside = elim (ℕ_discrete m n) [
  | yes eq ↦ rw (==_yes m n eq) (
      ap (λ k. read_at (write_at (m * size) b f) (k * size + i)) (sym eq)
      ∙ write_at_in (m * size) b f i (omega (arith, whole, inside)))
  | no ne ↦
      rw (==_no m n ne)
        (write_at_out (m * size) b f (n * size + i) (place ne (Bool-cases (ltb m n))))
]
  where
    above : (a c : ℕ) → a ≢ c → ltb a c ≡ false → c < a
    above a c ne e = ground arith

    ==_yes : (a c : ℕ) → a ≡ c → (a == c) ≡ true
    ==_yes a c e = ground arith

    ==_no : (a c : ℕ) → a ≢ c → (a == c) ≡ false
    ==_no a c e = ground arith

    place :
        m ≢ n
        → (ltb m n ≡ true) ⊎ (ltb m n ≡ false)
        → (n * size + i < m * size) ⊎ (m * size + length b ≤ n * size + i)
    place ne (inl e) = inr (omega (arith, row_le m n size (ltb→lt m n e), whole))
    place ne (inr e) = inl (omega (arith, row_le n m size (above m n ne e), inside))

last_bytes_empty :
    (n : ℕ) (p : PageEntry) (pages : List PageEntry)
    → is_empty p.bytes ≡ true
    → last_bytes n (p ∷ pages) ≡ last_bytes n pages
last_bytes_empty n p pages e = elim (Option-cases (last_bytes n pages)) [
  | inl f ↦ rw (f, e) refl
  | inr (b, f) ↦ rw f refl
]

pred_eq : (a n : ℕ) → a ≢ 0 → ((a - 1) == n) ≡ (a == suc n)
pred_eq a n h = ground arith

-- One page that is written, and then the later ones.
after_write_page :
    (size n i : ℕ) (p : PageEntry) (pages : List PageEntry) (f : DbFile)
    → is_empty p.bytes ≡ false
    → p.page_id ≢ 0
    → length p.bytes ≡ size
    → i < size
    → after_write
        (last_bytes (suc n) pages)
        (read_at (write_at ((p.page_id - 1) * size) p.bytes f) (n * size + i))
        i
      ≡ after_write (last_bytes (suc n) (p ∷ pages)) (read_at f (n * size + i)) i
after_write_page size n i p pages f e numbered whole inside =
    elim (Option-cases (last_bytes (suc n) pages)) [
      | inr (b, g) ↦ rw g refl
      | inl g ↦
          let wrote = write_page (p.page_id - 1) size n i p.bytes f whole inside in
          elim (Bool-cases (p.page_id == suc n)) [
            | inl t ↦ rw (g, e, t) (rw (pred_eq p.page_id n numbered, t) at wrote)
            | inr t ↦ rw (g, e, t) (rw (pred_eq p.page_id n numbered, t) at wrote)
          ]
    ]

-- The loop ends well, and each page reads as its last version.
pub write_pages_reads :
    (size : ℕ) (epc : Option ℕ) (pages : List PageEntry) (f : DbFile)
    → validate_sqlite_page_size size ≡ ok size
    → ((p : PageEntry) → In p pages → IsPageOf size epc p)
    → FitsU32 pages
    → ((write_pages size pages f).0 ≡ ok tt)
      × ((n i : ℕ)
          → i < size
          → read_at (write_pages size pages f).1 (n * size + i)
            ≡ after_write (last_bytes (suc n) pages) (read_at f (n * size + i)) i)
unfolding write_pages
write_pages_reads size epc [] f valid are fits = (refl, λ n i h. refl)
write_pages_reads size epc (p ∷ pages) f valid are fits = elim (Bool-cases (is_empty p.bytes)) [
  | inl e ↦
      let (done, reads) =
        write_pages_reads size epc pages f valid (λ q m. are q (there m))
          (λ q m. fits q (there m)) in
      (
        rw (e, write_pages) done,
        λ n i h.
            rw (e, write_pages)
              (reads n i h
                ∙ ap (λ o. after_write o (read_at f (n * size + i)) i)
                    (sym (last_bytes_empty (suc n) p pages e))),
      )
  | inr e ↦
      let offset =
        sqlite_page_offset_valid p.page_id size (are p here).numbered (fits p here) valid in
      let (done, reads) =
        write_pages_reads size epc pages (write_at ((p.page_id - 1) * size) p.bytes f) valid
          (λ q m. are q (there m)) (λ q m. fits q (there m)) in
      let stepped : write_pages size (p ∷ pages) f
          ≡ write_pages size pages (write_at ((p.page_id - 1) * size) p.bytes f) =
        rw (e, offset, write_pages) refl in
      (
        ap (λ r. r.0) stepped ∙ done,
        λ n i h.
            ap (λ r. read_at r.1 (n * size + i)) stepped
            ∙ (reads n i h
                ∙ after_write_page size n i p pages f e (are p here).numbered ((are p here).whole e)
                    h),
      )
]
