-- ===== src/Wal/Pages/Sound.antt =====
-- crates/walrust-core/src/wal.rs: what `read_frames_as_pages_checked` returns of a file that nothing
-- writes to is the longest run of sound frames that ends with a commit.
use walrust.Base.{
  ℕ, ◌+◌, ◌*◌, ◌≤◌, ◌≡◌, ◌≢◌, refl, inl, inr, Option, some, List, [], ◌++◌, map, length, length-map,
  Bool-cases, ==→eq, ◌==◌, Option-cases, Result-cases, ap, sym, subst, ◌∙◌, ok, if◌then◌else◌,
  Bytes, arith,
}
use walrust.Wal.Checksum.{Chain}
use walrust.Wal.Header.{HeaderSeed, header_seed}
use walrust.Wal.Frame.{Frame, frame_size}
use walrust.Wal.Reading.{Checks, still, full_frames, checks, seed_chain, start_pos}
use walrust.Wal.Committed.{Prefix, frames_at, committed, Passes, EndsWith}
use walrust.Wal.Committed.Laws.{committed-IsCommitted, committed_longest}
use walrust.Wal.Reading.Laws.{full_frames_fit}
use walrust.Wal.Committed.Fits.{committed_from, Fits, committed-Fits}
use walrust.Wal.Pages.{parsed, PagesRead, read_frames_as_pages_checked}
use walrust.Wal.Pages.Still.{pages_of, read_pages-still}

-- The frames of the file behind an offset, as many as are whole.
abbrev pub whole_frames : ℕ → Bytes → ℕ → List Frame
whole_frames page_size bytes from =
    frames_at page_size bytes (full_frames page_size (length bytes) from) from

-- What a reading that returns frames has found.
pub record IsSound (c : Checks) (page_size : ℕ) (bytes : Bytes) (from : ℕ)
    (unchecked : Option Chain) (r : PagesRead) : Type 0 where
  pub kept : List Frame
  pub tail : List Frame
  pub chain : Chain
  pub splits : whole_frames page_size bytes from ≡ kept ++ tail
  pub frames : r.frames ≡ map parsed kept
  pub passes : Passes c.validate c.against c.running kept chain
  pub ends : EndsWith c.validate c.against r.final_db_size kept
  pub out : r.out_chain ≡ (if c.validate then some chain else unchecked)
  pub inside : r.new_offset ≤ length bytes
  pub offset : r.new_offset ≡ from + length kept * frame_size page_size

-- A reading that succeeds has read the header, and returns what the prefix gives.
pub read_pages-inv :
    (page_size : ℕ) (bytes : Bytes) (start_offset : ℕ) (chain_seed : Option Chain) (r : PagesRead)
    → read_frames_as_pages_checked (still bytes) page_size start_offset chain_seed ≡ ok r
    → (h : Option HeaderSeed) × (header_seed (length bytes) bytes ≡ ok h)
      × (r ≡ (
          let from = start_pos start_offset in
          let c = checks h from chain_seed in
          pages_of c page_size from chain_seed
            (seed_chain h from chain_seed)
            (committed_from c page_size bytes from)))
unfolding read_frames_as_pages_checked
read_pages-inv page_size bytes start_offset chain_seed r e =
    elim (Result-cases (header_seed (length bytes) bytes)) [
      | inr (failure, bad) ↦ absurd (cc (rw (read_frames_as_pages_checked, bad) at e))
      | inl (h, good) ↦
          (h, good, cc (sym e ∙ read_pages-still page_size bytes start_offset chain_seed h good))
    ]

committed_from-Fits :
    (c : Checks) (page_size : ℕ) (bytes : Bytes) (from : ℕ) {p : Prefix}
    → committed_from c page_size bytes from ≡ some p
    → Fits page_size bytes from (some p)
unfolding committed
committed_from-Fits c page_size bytes from {p} found =
    let n : ℕ = full_frames page_size (length bytes) from in
    elim (Bool-cases (n == 0)) [
      | inl empty ↦ absurd (cc (rw (==→eq n 0 empty) at found))
      | inr full ↦
          committed-Fits c page_size bytes from n (full_frames_fit page_size (length bytes) from)
            (ground arith) (some p) found
    ]

module _ (page_size : ℕ) (bytes : Bytes) (start_offset : ℕ) (chain_seed : Option Chain)
    (r : PagesRead) (h : Option HeaderSeed) (header : header_seed (length bytes) bytes ≡ ok h)
    (reads : read_frames_as_pages_checked (still bytes) page_size start_offset chain_seed
      ≡ ok r) where
  abbrev from : ℕ
  from = start_pos start_offset

  abbrev c : Checks
  c = checks h from chain_seed

  abbrev pages : Option Prefix → PagesRead
  pages = pages_of c page_size from chain_seed (seed_chain h from chain_seed)

  returned : r ≡ pages (committed_from c page_size bytes from)
  returned = cc (sym reads ∙ read_pages-still page_size bytes start_offset chain_seed h header)

  -- If a reading returns frames, they are the first of the file behind the offset, and each passed its
  -- check from the seed on; the last commits with the size, and the chain and the offset are its own.
  pub read_pages-IsSound :
      r.frames ≢ [] → IsSound c page_size bytes from (seed_chain h from chain_seed) r
  read_pages-IsSound some_frames = elim (Option-cases (committed_from c page_size bytes from)) [
    | inl nothing ↦ absurd (some_frames (ap (λ x. x.frames) (returned ∙ ap pages nothing)))
    | inr (p, found) ↦
        let split =
          committed-IsCommitted c.validate c.against c.running (whole_frames page_size bytes from)
            found in
        subst (IsSound c page_size bytes from (seed_chain h from chain_seed))
          (sym (returned ∙ ap pages found))
          (record {
            kept = p.frames;
            tail = split.tail;
            chain = p.chain;
            splits = split.splits;
            frames = refl;
            passes = split.passes;
            ends = split.ends;
            out = refl;
            inside = (committed_from-Fits c page_size bytes from found).1;
            offset = refl;
          })
  ]

  -- No longer run of frames from there on passes and ends with a commit.
  pub read_pages_longest :
      (gs tail : List Frame) (size : ℕ) (t : Chain)
      → whole_frames page_size bytes from ≡ gs ++ tail
      → Passes c.validate c.against c.running gs t
      → EndsWith c.validate c.against size gs
      → length gs ≤ length r.frames
  read_pages_longest gs tail size t splits passes ends =
      let (p, found, longer) =
        committed_longest c.validate c.against c.running t gs tail size passes ends in
      let found' : committed_from c page_size bytes from ≡ some p =
        ap (committed c.validate c.against c.running) splits ∙ found in
      let frames : r.frames ≡ map parsed p.frames =
        ap (λ x. x.frames) (returned ∙ ap pages found') in
      omega (arith, longer, ap length frames, length-map parsed p.frames)
