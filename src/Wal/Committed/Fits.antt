-- ===== src/Wal/Committed/Fits.antt =====
-- crates/walrust-core/src/wal.rs: the committed prefix behind an offset lies within the file.
use walrust.Base.{
  ℕ, zero, suc, ◌+◌, ◌-◌, ◌*◌, ◌≤◌, ◌<◌, ◌≡◌, refl, Bool, false, Option, none, some, List, [], ◌∷◌,
  ◌++◌, map, length, length-append, take, leb, ◌==◌, ap, Bytes, arith,
}
use native.Mathlib.Nat.{mul-le-mul_right}
use walrust.Wal.Header.{HeaderSeed}
use walrust.Wal.Frame.{Frame, frame_size}
use walrust.Wal.Reading.{Checks, full_frames}
use walrust.Wal.Committed.{EndsWith, last, more, Prefix, frame_at, frames_at, committed}
use walrust.Wal.Committed.Laws.{committed-IsCommitted}

-- The prefix that is committed behind `from`.
abbrev pub committed_from : Checks → ℕ → Bytes → ℕ → Option Prefix
committed_from c page_size bytes from =
    committed c.validate c.against c.running
      (frames_at page_size bytes (full_frames page_size (length bytes) from) from)

pub take-map :
    {A B : Type 0} (f : A → B) (xs : List A) (ys : List B)
    → take (length xs) (map f xs ++ ys) ≡ map f xs
take-map f [] ys = refl
take-map f (x ∷ xs) ys = rw (take-map f xs ys)

pub take-map_append :
    {A B : Type 0} (f : A → B) (xs ys : List A) → take (length xs) (map f (xs ++ ys)) ≡ map f xs
take-map_append f [] ys = refl
take-map_append f (x ∷ xs) ys = rw (take-map_append f xs ys)

pub length-frames_at :
    (page_size : ℕ) (bytes : Bytes) (n pos : ℕ) → length (frames_at page_size bytes n pos) ≡ n
length-frames_at page_size bytes zero pos = refl
length-frames_at page_size bytes (suc n) pos =
    ap suc (length-frames_at page_size bytes n (pos + frame_size page_size))

-- The frames that were found lie within the file.
abbrev pub Fits : ℕ → Bytes → ℕ → Option Prefix → Type 0
Fits page_size bytes from none = Unit
Fits page_size bytes from (some p) =
    (0 < length p.frames) × (from + length p.frames * frame_size page_size ≤ length bytes)

pub EndsWith-pos :
    (validate : Bool) (h : HeaderSeed) {size : ℕ} {fs : List Frame}
    → EndsWith validate h size fs
    → 0 < length fs
EndsWith-pos validate h (last e positive) = omega arith
EndsWith-pos validate h (more ends) = omega arith

within : (k n d len from : ℕ) → k ≤ n → 0 < n → 0 < d → n * d ≤ len - from → from + k * d ≤ len
within k n d len from le positive wide fits = grind (arith, mul-le-mul_right d le)

pub room : (n len from : ℕ) → leb len from ≡ false → n ≤ len - from → from + n ≤ len
room n len from inside fits = ground arith

pub inside_of :
    (n d len from : ℕ) → (n == 0) ≡ false → 0 < d → n * d ≤ len - from → leb len from ≡ false
inside_of n d len from full wide fits = grind (arith)

pub committed-Fits :
    (c : Checks) (page_size : ℕ) (bytes : Bytes) (from n : ℕ)
    → n * frame_size page_size ≤ length bytes - from
    → 0 < n
    → (o : Option Prefix)
    → committed c.validate c.against c.running (frames_at page_size bytes n from) ≡ o
    → Fits page_size bytes from o
committed-Fits c page_size bytes from n fits positive none e = tt
committed-Fits c page_size bytes from n fits positive (some p) e =
    let found = committed-IsCommitted c.validate c.against c.running _ e in
    (
      EndsWith-pos c.validate c.against found.ends,
      within (length p.frames) n (frame_size page_size) (length bytes) from
          (omega (
            arith,
            ap length found.splits,
            length-append p.frames found.tail,
            length-frames_at page_size bytes n from,
          ))
          positive (omega arith) fits,
    )

-- The frames of a prefix stand at the front of those that were read.
pub frames_at-prefix :
    (page_size : ℕ) (bytes : Bytes) (n pos : ℕ) (gs tail : List Frame)
    → frames_at page_size bytes n pos ≡ gs ++ tail
    → frames_at page_size bytes (length gs) pos ≡ gs
frames_at-prefix page_size bytes n pos [] tail e = refl
frames_at-prefix page_size bytes zero pos (g ∷ gs) tail e = cc
frames_at-prefix page_size bytes (suc n) pos (g ∷ gs) tail e =
    let first : frame_at page_size bytes pos ≡ g = cc e in
    rw (first, frames_at-prefix page_size bytes n (pos + frame_size page_size) gs tail (cc e))
