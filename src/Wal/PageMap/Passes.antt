-- ===== src/Wal/PageMap/Passes.antt =====
-- crates/walrust-core/src/wal.rs: the two passes of `read_frames_as_page_map_checked`, over a file that
-- nothing writes to.
use walrust.Base.{
  ℕ, zero, suc, ◌+◌, ◌*◌, ◌≤◌, ◌≡◌, refl, inl, inr, Bool, true, Option, none, some, List, [], ◌∷◌,
  ◌++◌, map, length, ltb, if◌then◌else◌, Bool-cases, Option-cases, ap, ◌∙◌, Result, ok, ◌>>=◌,
  Bytes, arith,
}
use mathlib.Core.List.{foldl}
use walrust.Wal.Checksum.{Chain}
use walrust.Wal.Header.{WalError, HeaderSeed}
use walrust.Wal.Frame.{Frame, page_number, db_size, frame_size, check_frame}
use walrust.Wal.Reading.{Checks}
use walrust.Wal.Committed.{
  Prefix, frame_at, frames_at, committed, read_frame_lem, Passes, done, pass,
}
use walrust.Wal.PageMap.{
  PageMap, insert_page, FrameHeaders, scan_loop, last_commit, reverify, emit_loop,
}

abbrev pub header_pair : Frame → ℕ × ℕ
header_pair f = (page_number f, db_size f)

abbrev pub boundary : Option Prefix → Option (ℕ × ℕ)
boundary none = none
boundary (some p) = some (length p.frames, p.size)

abbrev pub add_page : PageMap → Frame → PageMap
add_page m f = insert_page (page_number f) f.page m

module _ (validate : Bool) (h : HeaderSeed) where
  -- The frames up to the first that fails.
  pub passed : Chain → List Frame → List Frame
  passed s [] = []
  passed s (f ∷ fs) = elim (check_frame validate h s f) [
    | none ↦ []
    | some next ↦ f ∷ passed next fs
  ]

  last_commit-cons :
      (f : Frame) (next : Chain) (fs : List Frame) (o : Option Prefix)
      → last_commit (map header_pair (passed next fs)) ≡ boundary o
      → last_commit (map header_pair (f ∷ passed next fs))
        ≡ boundary (elim o [
          | some p ↦ some (record p { frames = f ∷ p.frames })
          | none ↦
              if ltb 0 (db_size f)
              then some (record { frames = f ∷ []; chain = next; size = db_size f })
              else none
        ])
  unfolding last_commit
  last_commit-cons f next fs (some p) e = rw (last_commit, e)
  last_commit-cons f next fs none e = elim (Bool-cases (ltb 0 (db_size f))) [
    | inl commits ↦ rw (last_commit, e, commits)
    | inr plain ↦ rw (last_commit, e, plain)
  ]

  pub last_commit-passed :
      (s : Chain) (fs : List Frame)
      → last_commit (map header_pair (passed s fs)) ≡ boundary (committed validate h s fs)
  unfolding passed committed last_commit
  last_commit-passed s [] = refl
  last_commit-passed s (f ∷ fs) = elim (Option-cases (check_frame validate h s f)) [
    | inl bad ↦ rw (passed, committed, bad)
    | inr (next, good) ↦
        rw (passed, committed, good)
          (last_commit-cons f next fs (committed validate h next fs) (last_commit-passed next fs))
  ]

  pub passed-append :
      (s t : Chain) (gs tail : List Frame)
      → Passes validate h s gs t
      → passed s (gs ++ tail) ≡ gs ++ passed t tail
  unfolding passed
  passed-append s t [] tail done = refl
  passed-append s t (f ∷ gs) tail (pass {next} e ps) =
      rw (passed, e, passed-append next t gs tail ps)

module _ (c : Checks) (page_size : ℕ) (bytes : Bytes) where
  abbrev scan : ℕ → ℕ → ℕ → Chain → Result FrameHeaders WalError
  scan = scan_loop c page_size (λ round. bytes)

  scan-suc :
      (left round pos : ℕ) (s : Chain)
      → pos + frame_size page_size ≤ length bytes
      → scan (suc left) round pos s
        ≡ elim (check_frame c.validate c.against s (frame_at page_size bytes pos)) [
          | none ↦ ok []
          | some next ↦ scan left (suc round) (pos + frame_size page_size) next >>= λ rest.
              ok (header_pair (frame_at page_size bytes pos) ∷ rest)
        ]
  unfolding scan_loop
  scan-suc left round pos s fits = rw (scan_loop, read_frame_lem page_size bytes pos fits)

  pub scan_loop_lem :
      (left round pos : ℕ) (s : Chain)
      → pos + left * frame_size page_size ≤ length bytes
      → scan_loop c page_size (λ round. bytes) left round pos s
        ≡ ok (map header_pair (passed c.validate c.against s (frames_at page_size bytes left pos)))
  unfolding passed scan_loop
  scan_loop_lem zero round pos s fits = refl
  scan_loop_lem (suc left) round pos s fits =
      elim (Option-cases (check_frame c.validate c.against s (frame_at page_size bytes pos))) [
        | inl bad ↦ rw (scan-suc left round pos s (omega (arith, fits)), passed, bad)
        | inr (next, good) ↦
            rw (scan-suc left round pos s (omega (arith, fits)), passed, good)
              (rw (
                scan_loop_lem left (suc round) (pos + frame_size page_size) next
                  (omega (arith, fits))))
      ]

  -- The chain that the second pass ends with.
  abbrev pub chain_after : Option Chain → Chain → Option Chain
  chain_after unchecked t = if c.validate then some t else unchecked

  chain_after_start :
      (o : Option Chain) (s : Chain) → (c.validate ≡ true → o ≡ some s) → o ≡ chain_after o s
  chain_after_start o s seeded = elim (Bool-cases c.validate) [
    | inl v ↦ rw v (seeded v)
    | inr v ↦ rw v
  ]

  chain_after_again :
      (o : Option Chain) (s t : Chain) → chain_after (chain_after o s) t ≡ chain_after o t
  chain_after_again o s t = elim (Bool-cases c.validate) [ inl v ↦ rw v | inr v ↦ rw v ]

  reverify_lem :
      (index : ℕ) (o : Option Chain) (s next : Chain) (f : Frame)
      → (c.validate ≡ true → o ≡ some s)
      → check_frame c.validate c.against s f ≡ some next
      → reverify c index o f ≡ ok (chain_after o next)
  unfolding reverify check_frame
  reverify_lem index o s next f seeded good = elim (Bool-cases c.validate) [
    | inl v ↦ rw (seeded v) (ground (arith, seeded v))
    | inr v ↦ ground arith
  ]

  pub emit_loop_lem :
      (gs : List Frame) (round pos : ℕ) (o : Option Chain) (s t : Chain) (m : PageMap)
      → (c.validate ≡ true → o ≡ some s)
      → Passes c.validate c.against s gs t
      → frames_at page_size bytes (length gs) pos ≡ gs
      → pos + length gs * frame_size page_size ≤ length bytes
      → emit_loop c page_size (λ round. bytes) (map header_pair gs) round pos o m
        ≡ ok (foldl add_page m gs, chain_after o t)
  unfolding emit_loop
  emit_loop_lem [] round pos o s t m seeded done there fits =
      ap (λ x. ok (m, x)) (chain_after_start o s seeded)
  emit_loop_lem (f ∷ gs) round pos o s t m seeded (pass {next} e ps) there fits =
      let same : frame_at page_size bytes pos ≡ f = cc there in
      rw (emit_loop, read_frame_lem page_size bytes pos (omega (arith, fits)), same)
        (rw (reverify_lem round o s next f seeded e, ap (λ x. x.page) same)
          (emit_loop_lem gs (suc round) (pos + frame_size page_size) (chain_after o next) next t
              (add_page m f) (λ v. rw v) ps (cc there) (omega (arith, fits))
            ∙ ap (λ x. ok (foldl add_page m (f ∷ gs), x)) (chain_after_again o next t)))
