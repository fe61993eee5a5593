-- ===== src/Wal/Committed/Grow.antt =====
-- crates/walrust-core/src/wal.rs: the frames of a log that keeps its bytes up to an offset.
use walrust.Base.{
  ℕ, zero, suc, ◌+◌, ◌-◌, ◌*◌, ◌≤◌, ◌≡◌, refl, List, [], ◌∷◌, ◌++◌, length, length-append, take,
  drop, leb, le→leb, true, ap, Bytes, arith,
}
use native.Mathlib.Nat.{zero-add, zero-mul, add-zero, suc-add, mul-add-div_right}
use walrust.Wal.Header.{header_seed, read_exact}
use walrust.Wal.Frame.{frame_size}
use walrust.Wal.Reading.{full_frames}
use walrust.Wal.Committed.{frame_at, frames_at}

take-take-append :
    {A : Type 0} (n : ℕ) (xs ys : List A) → n ≤ length xs → take n (xs ++ ys) ≡ take n xs
take-take-append zero xs ys h = refl
take-take-append (suc n) [] ys h = absurd (omega (arith, h))
take-take-append (suc n) (x ∷ xs) ys h =
    ap (λ l. x ∷ l) (take-take-append n xs ys (omega (arith, h)))

-- A slice that ends within the kept bytes.
slice-append :
    {A : Type 0} (n s : ℕ) (xs ys : List A)
    → s + n ≤ length xs
    → take n (drop s (xs ++ ys)) ≡ take n (drop s xs)
slice-append n zero xs ys h = take-take-append n xs ys (omega (arith, h))
slice-append n (suc s) [] ys h = absurd (omega (arith, h))
slice-append n (suc s) (x ∷ xs) ys h = slice-append n s xs ys (omega (arith, h))

module _ (page_size : ℕ) (bytes more : Bytes) where
  frame_at-append :
      (pos : ℕ)
      → pos + frame_size page_size ≤ length bytes
      → frame_at page_size (bytes ++ more) pos ≡ frame_at page_size bytes pos
  frame_at-append pos h = rw (
    slice-append 24 pos bytes more (omega (arith, h)),
    slice-append page_size (pos + 24) bytes more (omega (arith, h)),
  )

  pub frames_at-append :
      (n pos : ℕ)
      → pos + n * frame_size page_size ≤ length bytes
      → frames_at page_size (bytes ++ more) n pos ≡ frames_at page_size bytes n pos
  frames_at-append zero pos h = refl
  frames_at-append (suc n) pos h = rw (
    frame_at-append pos (omega (arith, h)),
    frames_at-append n (pos + frame_size page_size) (omega (arith, h)),
  )

pub frames_at-split :
    (page_size : ℕ) (bytes : Bytes) (n k pos : ℕ)
    → frames_at page_size bytes (n + k) pos
      ≡ frames_at page_size bytes n pos
        ++ frames_at page_size bytes k (pos + n * frame_size page_size)
frames_at-split page_size bytes zero k pos = rw (zero-add, zero-mul, add-zero)
frames_at-split page_size bytes (suc n) k pos =
    let next : pos + suc n * frame_size page_size
        ≡ pos + frame_size page_size + n * frame_size page_size =
      omega arith in
    rw (suc-add, next, frames_at-split page_size bytes n k (pos + frame_size page_size))

-- The frames of the bytes that are kept, and those behind them.
pub full_frames-split :
    (page_size n file_size from : ℕ)
    → from + n * frame_size page_size ≤ file_size
    → full_frames page_size file_size from
      ≡ n + full_frames page_size file_size (from + n * frame_size page_size)
unfolding full_frames
full_frames-split page_size n file_size from h =
    let parts : file_size - from
        ≡ n * frame_size page_size + (file_size - (from + n * frame_size page_size)) =
      omega (arith, h) in
    rw parts (
      mul-add-div_right {m = frame_size page_size} (omega arith) n
        (file_size - (from + n * frame_size page_size)))

pub header_seed-append :
    (bytes more : Bytes)
    → 32 ≤ length bytes
    → header_seed (length (bytes ++ more)) (bytes ++ more) ≡ header_seed (length bytes) bytes
unfolding header_seed read_exact
header_seed-append bytes more h =
    let long : leb 32 (length (bytes ++ more)) ≡ true =
      le→leb 32 (length (bytes ++ more)) (omega (arith, h, length-append bytes more)) in
    let short : leb 32 (length bytes) ≡ true = le→leb 32 (length bytes) h in
    rw (header_seed, long, short, take-take-append 32 bytes more h)
