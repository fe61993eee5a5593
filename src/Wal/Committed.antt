-- ===== src/Wal/Committed.antt =====
-- crates/walrust-core/src/wal.rs: what the checked readers are to find: the longest run of frames
-- that pass the chain and end with a commit.
pub mod Laws
pub mod Fits
pub mod Grow
use walrust.Base.{
  ℕ, zero, suc, ◌+◌, ◌-◌, ◌*◌, ◌≤◌, ◌<◌, ◌≡◌, refl, ◌⊎◌, inl, inr, Bool, true, false, Option, none,
  some, List, [], ◌∷◌, ◌++◌, length, take, drop, ltb, if◌then◌else◌, Bool-cases, Option-cases, ok,
  Bytes, arith,
}
use walrust.Wal.Checksum.{Chain}
use walrust.Wal.Header.{HeaderSeed, read_exact}
use walrust.Wal.Frame.{Frame, db_size, frame_size, read_frame, check_frame}

-- The frame that stands at an offset.
abbrev pub frame_at : ℕ → Bytes → ℕ → Frame
frame_at page_size bytes pos = record {
  header = take 24 (drop pos bytes);
  page = take page_size (drop (pos + 24) bytes);
}

abbrev pub frames_at : ℕ → Bytes → ℕ → ℕ → List Frame
frames_at page_size bytes zero pos = []
frames_at page_size bytes (suc n) pos =
    frame_at page_size bytes pos ∷ frames_at page_size bytes n (pos + frame_size page_size)

pub record Prefix : Type 0 where
  pub frames : List Frame
  pub chain : Chain
  pub size : ℕ

module _ (validate : Bool) (h : HeaderSeed) where
  unfoldable pub committed : Chain → List Frame → Option Prefix
  committed s [] = none
  committed s (f ∷ fs) = elim (check_frame validate h s f) [
    | none ↦ none
    | some next ↦ elim (committed next fs) [
      | some p ↦ some (record p { frames = f ∷ p.frames })
      | none ↦
          if ltb 0 (db_size f)
          then some (record { frames = f ∷ []; chain = next; size = db_size f })
          else none
    ]
  ]

  -- The frames pass one after another, from a chain to a chain.
  pub data Passes : Chain → List Frame → Chain → Type 0 where
    done : {s : Chain} → Passes s [] s
    pass :
        {s next t : Chain} {f : Frame} {fs : List Frame}
        → check_frame validate h s f ≡ some next
        → Passes next fs t
        → Passes s (f ∷ fs) t

  -- The last frame commits, with a size.
  pub data EndsWith (size : ℕ) : List Frame → Type 0 where
    last : {f : Frame} → db_size f ≡ size → 0 < size → EndsWith size (f ∷ [])
    more : {f : Frame} {fs : List Frame} → EndsWith size fs → EndsWith size (f ∷ fs)

pub read_frame_lem :
    (page_size : ℕ) (bytes : Bytes) (pos : ℕ)
    → pos + frame_size page_size ≤ length bytes
    → read_frame page_size bytes pos ≡ ok (frame_at page_size bytes pos)
unfolding read_frame read_exact
read_frame_lem page_size bytes pos fits = ground arith
