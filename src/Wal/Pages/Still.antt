-- ===== src/Wal/Pages/Still.antt =====
-- crates/walrust-core/src/wal.rs: `read_frames_as_pages_checked` of a file that nothing writes to
-- returns the committed prefix.
use walrust.Base.{
  ℕ, ◌+◌, ◌*◌, ◌≡◌, refl, inl, inr, false, Option, none, some, List, [], map, length, leb, ◌==◌,
  ==→eq, if◌then◌else◌, Bool-cases, ap, ok, Bytes, arith,
}
use walrust.Wal.Checksum.{Chain}
use walrust.Wal.Header.{HeaderSeed, header_seed}
use walrust.Wal.Header.Laws.{detect_reset-still}
use walrust.Wal.Frame.{frame_size}
use walrust.Wal.Reading.{Checks, still, full_frames, checks, seed_chain, start_pos}
use walrust.Wal.Reading.Laws.{full_frames_fit}
use walrust.Wal.Committed.{Prefix, committed}
use walrust.Wal.Committed.Fits.{committed_from, take-map, Fits, committed-Fits, room, inside_of}
use walrust.Wal.Pages.{
  ParsedFrame, parsed, Progress, PagesRead, no_pages, finish_pages, read_pages_at,
  read_frames_as_pages_checked,
}
use walrust.Wal.Pages.Loop.{pages_loop_lem, Extends}

-- What the reader returns for a prefix.
abbrev pub pages_of : Checks → ℕ → ℕ → Option Chain → Option Chain → Option Prefix → PagesRead
pages_of c page_size from chain_seed unchecked none = no_pages from chain_seed
pages_of c page_size from chain_seed unchecked (some p) = record {
  frames = map parsed p.frames;
  new_offset = from + length p.frames * frame_size page_size;
  final_db_size = p.size;
  out_chain = if c.validate then some p.chain else unchecked;
}

module _ (page_size : ℕ) (bytes : Bytes) (from : ℕ) (chain_seed : Option Chain)
    (h : Option HeaderSeed) where
  abbrev c : Checks
  c = checks h from chain_seed

  abbrev unchecked : Option Chain
  unchecked = seed_chain h from chain_seed

  abbrev before : Progress
  before = record {
    frames = [];
    committed_count = 0;
    committed_chain = unchecked;
    final_db_size = 0;
  }

  finish_pages-Extends :
      (o : Option Prefix) (extra : List ParsedFrame) (q : Progress)
      → header_seed (length bytes) bytes ≡ ok h
      → Extends c unchecked page_size bytes before o extra q
      → Fits page_size bytes from o
      → finish_pages (still bytes) page_size from chain_seed h q
        ≡ ok (pages_of c page_size from chain_seed unchecked o)
  unfolding finish_pages
  finish_pages-Extends none extra q e (frames, count, chain, size) fits = rw (finish_pages, count)
  finish_pages-Extends (some p) extra q e (frames, count, chain, size) (positive, fits) =
      let exact : q.committed_count ≡ length p.frames = omega (arith, count) in
      let several : (length p.frames == 0) ≡ false = ground arith in
      rw (finish_pages, exact, several, detect_reset-still bytes h _ e fits, frames, chain, size)
        (ap
          (λ l.
            ok (record (pages_of c page_size from chain_seed unchecked (some p)) { frames = l }))
          (take-map parsed p.frames extra))

  pub read_pages_at-still :
      header_seed (length bytes) bytes ≡ ok h
      → read_pages_at (still bytes) page_size (length bytes) from chain_seed h
        ≡ ok
            (pages_of c page_size from chain_seed unchecked (committed_from c page_size bytes from))
  unfolding read_pages_at committed
  read_pages_at-still e = elim (Bool-cases (full_frames page_size (length bytes) from == 0)) [
    | inl empty ↦
        rw (empty, ==→eq (full_frames page_size (length bytes) from) 0 empty) (ground arith)
    | inr full ↦
        let inside : leb (length bytes) from ≡ false =
          inside_of (full_frames page_size (length bytes) from) (frame_size page_size)
            (length bytes) from full (omega arith)
            (full_frames_fit page_size (length bytes) from) in
        let (extra, q, looped, x) =
          pages_loop_lem c unchecked page_size bytes (full_frames page_size (length bytes) from) 0
            from c.running before
            (room (full_frames page_size (length bytes) from * frame_size page_size) (length bytes)
              from inside (full_frames_fit page_size (length bytes) from)) in
        rw (inside, full, looped)
          (finish_pages-Extends (committed_from c page_size bytes from) extra q e x (
            committed-Fits c page_size bytes from (full_frames page_size (length bytes) from)
              (full_frames_fit page_size (length bytes) from) (ground arith)
              (committed_from c page_size bytes from) refl))
  ]

pub read_pages-still :
    (page_size : ℕ) (bytes : Bytes) (start_offset : ℕ) (chain_seed : Option Chain)
    (h : Option HeaderSeed)
    → header_seed (length bytes) bytes ≡ ok h
    → read_frames_as_pages_checked (still bytes) page_size start_offset chain_seed ≡ (
        let from = start_pos start_offset in
        let c = checks h from chain_seed in
        ok (
          pages_of c page_size from chain_seed
            (seed_chain h from chain_seed)
            (committed_from c page_size bytes from)))
unfolding read_frames_as_pages_checked
read_pages-still page_size bytes start_offset chain_seed h e =
    rw (read_frames_as_pages_checked, e)
      (read_pages_at-still page_size bytes (start_pos start_offset) chain_seed h e)
