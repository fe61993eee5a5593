-- ===== src/Wal/Unchecked/Laws.antt =====
-- crates/walrust-core/src/wal.rs: where each frame passes its check, the reader that does not validate
-- returns what the validating one does.
use walrust.Base.{
  ℕ, zero, suc, ◌+◌, ◌*◌, ◌≤◌, ◌<◌, ◌≡◌, refl, inl, inr, Bool, false, Option, none, some, List, [],
  ◌∷◌, map, length, take, leb, ltb, ◌==◌, ==→eq, if◌then◌else◌, Bool-cases, ap, sym, ◌∙◌, Result,
  ok, Bytes, arith,
}
use walrust.Wal.Checksum.{Chain}
use walrust.Wal.Header.{WalError, HeaderSeed, holding, header_seed}
use walrust.Wal.Frame.{Frame, db_size, frame_size}
use walrust.Wal.Reading.{Checks, still, full_frames, checks, seed_chain, start_pos}
use walrust.Wal.Reading.Laws.{full_frames_fit}
use walrust.Wal.Committed.{Prefix, frames_at, committed, read_frame_lem, Passes, done, pass}
use walrust.Wal.Committed.Laws.{committed-IsCommitted}
use walrust.Wal.Committed.Fits.{committed_from, take-map_append, room, inside_of, EndsWith-pos}
use walrust.Wal.Pages.{ParsedFrame, parsed, PagesRead, no_pages, read_frames_as_pages_checked}
use walrust.Wal.Pages.Still.{pages_of, read_pages-still}
use walrust.Wal.Pages.Sound.{whole_frames}
use walrust.Wal.Unchecked.{frames_loop, committed_frames, read_frames_as_pages}

frames_loop_lem :
    (page_size : ℕ) (bytes : Bytes) (left pos : ℕ)
    → pos + left * frame_size page_size ≤ length bytes
    → frames_loop page_size bytes left pos ≡ ok (map parsed (frames_at page_size bytes left pos))
unfolding frames_loop
frames_loop_lem page_size bytes zero pos fits = refl
frames_loop_lem page_size bytes (suc left) pos fits =
    rw (frames_loop, read_frame_lem page_size bytes pos (omega (arith, fits)))
      (rw (frames_loop_lem page_size bytes left (pos + frame_size page_size) (omega (arith, fits))))

abbrev count_of : Option Prefix → ℕ × ℕ
count_of none = (0, 0)
count_of (some p) = (length p.frames, p.size)

committed_frames-cons :
    (f : Frame) (n : Chain) (fs : List Frame) (o : Option Prefix)
    → committed_frames (map parsed fs) ≡ count_of o
    → ((p : Prefix) → o ≡ some p → 0 < length p.frames)
    → committed_frames (map parsed (f ∷ fs))
      ≡ count_of (elim o [
        | some p ↦ some (record p { frames = f ∷ p.frames })
        | none ↦
            if ltb 0 (db_size f)
            then some (record { frames = f ∷ []; chain = n; size = db_size f })
            else none
      ])
unfolding committed_frames
committed_frames-cons f n fs none e full = elim (Bool-cases (ltb 0 (db_size f))) [
  | inl commits ↦ rw (committed_frames, e, commits)
  | inr plain ↦ rw (committed_frames, e, plain)
]
committed_frames-cons f n fs (some p) e full =
    let several : (length p.frames == 0) ≡ false = ground (arith, full p refl) in
    rw (committed_frames, e, several) (ap (λ n. (n, p.size)) (omega arith))

module _ (validate : Bool) (h : HeaderSeed) where
  committed_frames-Passes :
      {s t : Chain} (fs : List Frame)
      → Passes validate h s fs t
      → committed_frames (map parsed fs) ≡ count_of (committed validate h s fs)
  unfolding committed_frames committed
  committed_frames-Passes [] done = refl
  committed_frames-Passes {s} (f ∷ fs) (pass {next} e ps) =
      rw (committed, e)
        (committed_frames-cons f next fs (committed validate h next fs)
          (committed_frames-Passes fs ps)
          (λ p found.
            EndsWith-pos validate h (committed-IsCommitted validate h next fs found).ends))

-- What the reader without validation returns of the other's result.
abbrev pub unchecked_of : PagesRead → List ParsedFrame × ℕ × ℕ
unchecked_of r = (r.frames, r.new_offset, r.final_db_size)

module _ (page_size : ℕ) (bytes : Bytes) (start_offset : ℕ) (chain_seed : Option Chain)
    (h : Option HeaderSeed) where
  abbrev from : ℕ
  from = start_pos start_offset

  abbrev c : Checks
  c = checks h from chain_seed

  -- The rest of the reader behind its loop.
  after_loop :
      (o : Option Prefix)
      → committed c.validate c.against c.running (whole_frames page_size bytes from) ≡ o
      → if◌then◌else◌ {A = Result (List ParsedFrame × ℕ × ℕ) WalError}
          ((count_of o).0 == 0)
          (ok ([], from, 0))
          (ok (
            take (count_of o).0 (map parsed (whole_frames page_size bytes from)),
            from + (count_of o).0 * frame_size page_size,
            (count_of o).1,
          ))
        ≡ ok (unchecked_of (pages_of c page_size from chain_seed (seed_chain h from chain_seed) o))
  after_loop none found = refl
  after_loop (some p) found =
      let split =
        committed-IsCommitted c.validate c.against c.running (whole_frames page_size bytes from)
          found in
      let positive = EndsWith-pos c.validate c.against split.ends in
      let several : (length p.frames == 0) ≡ false = ground (arith, positive) in
      rw (several, split.splits, take-map_append parsed p.frames split.tail)

  -- Where the header can be read and every whole frame passes its check, the reader that does not
  -- validate returns the frames, the offset and the size that the validating one does.
  pub read_frames_as_pages-eq-checked :
      {t : Chain} (r : PagesRead)
      → header_seed (length bytes) bytes ≡ ok h
      → Passes c.validate c.against c.running (whole_frames page_size bytes from) t
      → read_frames_as_pages_checked (still bytes) page_size start_offset chain_seed ≡ ok r
      → read_frames_as_pages (holding bytes) page_size start_offset ≡ ok (unchecked_of r)
  unfolding read_frames_as_pages committed
  read_frames_as_pages-eq-checked r header ps reads =
      let n : ℕ = full_frames page_size (length bytes) from in
      let o : Option Prefix = committed_from c page_size bytes from in
      let returned : pages_of c page_size from chain_seed (seed_chain h from chain_seed) o ≡ r =
        cc (sym (read_pages-still page_size bytes start_offset chain_seed h header) ∙ reads) in
      let counted =
        committed_frames-Passes c.validate c.against (whole_frames page_size bytes from) ps in
      elim (Bool-cases (n == 0)) [
        | inl empty ↦
            let nothing : o ≡ none =
              ap (λ k. committed c.validate c.against c.running (frames_at page_size bytes k from))
                (==→eq n 0 empty) in
            let same : no_pages from chain_seed ≡ r =
              sym (ap (pages_of c page_size from chain_seed (seed_chain h from chain_seed)) nothing)
              ∙ returned in
            rw (read_frames_as_pages, empty)
              (elim (Bool-cases (leb (length bytes) from)) [
                | inl beyond ↦ rw beyond (ap (λ x. ok (unchecked_of x)) same)
                | inr inside ↦ rw inside (ap (λ x. ok (unchecked_of x)) same)
              ])
        | inr full ↦
            let fits = full_frames_fit page_size (length bytes) from in
            let inside : leb (length bytes) from ≡ false =
              inside_of n (frame_size page_size) (length bytes) from full (omega arith) fits in
            rw
              (
                read_frames_as_pages,
                inside,
                full,
                frames_loop_lem page_size bytes n from
                    (room (n * frame_size page_size) (length bytes) from inside fits),
              )
              (rw counted (after_loop o refl ∙ ap (λ x. ok (unchecked_of x)) returned))
      ]
