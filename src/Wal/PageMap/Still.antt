-- ===== src/Wal/PageMap/Still.antt =====
-- crates/walrust-core/src/wal.rs: on a file that nothing writes to, `read_frames_as_page_map_checked`
-- returns what `read_frames_as_pages_checked` does, with one version of each page.
use walrust.Base.{
  ℕ, ◌+◌, ◌*◌, ◌≡◌, refl, inl, inr, true, false, Option, none, some, List, [], ◌∷◌, ◌++◌, map,
  length, length-map, take, filter, leb, ltb, ==→eq, ◌==◌, if◌then◌else◌, Bool-cases, Result-cases,
  ap, sym, ◌∙◌, ok, ◌>>=◌, Bytes, arith,
}
use mathlib.Core.List.{foldl}
use walrust.Wal.Checksum.{Chain}
use walrust.Wal.Header.{HeaderSeed, header_seed}
use walrust.Wal.Header.Laws.{detect_reset-still}
use walrust.Wal.Frame.{Frame, frame_size}
use walrust.Wal.Reading.{Checks, still, full_frames, checks, seed_chain, start_pos}
use walrust.Wal.Reading.Laws.{full_frames_fit}
use walrust.Wal.Committed.{Prefix, frames_at, committed}
use walrust.Wal.Committed.Laws.{committed-IsCommitted}
use walrust.Wal.Committed.Fits.{
  committed_from, take-map_append, Fits, committed-Fits, room, inside_of, frames_at-prefix,
}
use walrust.Wal.Pages.{ParsedFrame, parsed, PagesRead, read_frames_as_pages_checked}
use walrust.Wal.Pages.Still.{pages_of, read_pages-still}
use walrust.Wal.PageMap.{
  PageMap, insert_page, MapRead, no_map, commits_of, finish_map, read_map_at,
  read_frames_as_page_map_checked,
}
use walrust.Wal.PageMap.Passes.{
  header_pair, boundary, add_page, passed, last_commit-passed, passed-append, scan_loop_lem,
  emit_loop_lem,
}

-- What the map reader returns for a prefix.
abbrev pub map_of : Checks → ℕ → ℕ → Option Chain → Option Chain → Option Prefix → MapRead
map_of c page_size from chain_seed unchecked none = no_map from chain_seed
map_of c page_size from chain_seed unchecked (some p) = record {
  page_map = foldl add_page [] p.frames;
  committed_frames = length p.frames;
  new_offset = from + length p.frames * frame_size page_size;
  final_db_size = p.size;
  commit_count = commits_of (map header_pair p.frames);
  out_chain = if c.validate then some p.chain else unchecked;
}

-- Where the reader validates, it begins with the chain that it checks against.
pub checks-seeded :
    (h : Option HeaderSeed) (from : ℕ) (chain_seed : Option Chain)
    → (checks h from chain_seed).validate ≡ true
    → seed_chain h from chain_seed ≡ some (checks h from chain_seed).running
unfolding checks seed_chain
checks-seeded none from chain_seed v = cc
checks-seeded (some h) from none v = ground arith
checks-seeded (some h) from (some s) v = ground arith

module _ (page_size : ℕ) (bytes : Bytes) (from : ℕ) (chain_seed : Option Chain)
    (h : Option HeaderSeed) where
  abbrev c : Checks
  c = checks h from chain_seed

  abbrev unchecked : Option Chain
  unchecked = seed_chain h from chain_seed

  finish_map_lem :
      (n : ℕ) (o : Option Prefix)
      → header_seed (length bytes) bytes ≡ ok h
      → committed c.validate c.against c.running (frames_at page_size bytes n from) ≡ o
      → Fits page_size bytes from o
      → finish_map (still bytes) page_size from chain_seed h c (
          map header_pair
            (passed c.validate c.against c.running (frames_at page_size bytes n from)))
        ≡ ok (map_of c page_size from chain_seed unchecked o)
  unfolding finish_map
  finish_map_lem n none e found fits =
      let no_commit =
        last_commit-passed c.validate c.against c.running (frames_at page_size bytes n from)
        ∙ ap boundary found in
      rw (finish_map, no_commit)
  finish_map_lem n (some p) e found (positive, fits) =
      let fs : List Frame = frames_at page_size bytes n from in
      let split = committed-IsCommitted c.validate c.against c.running fs found in
      let commit = last_commit-passed c.validate c.against c.running fs ∙ ap boundary found in
      let front : passed c.validate c.against c.running fs
          ≡ p.frames ++ passed c.validate c.against p.chain split.tail =
        ap (passed c.validate c.against c.running) split.splits
        ∙ passed-append c.validate c.against c.running p.chain p.frames split.tail split.passes in
      let headers : take (length p.frames)
            (map header_pair (passed c.validate c.against c.running fs))
          ≡ map header_pair p.frames =
        ap (λ l. take (length p.frames) (map header_pair l)) front
        ∙ take-map_append header_pair p.frames _ in
      let emitted =
        emit_loop_lem c page_size bytes p.frames 0 from unchecked c.running p.chain []
          (checks-seeded h from chain_seed) split.passes
          (frames_at-prefix page_size bytes n from p.frames split.tail split.splits) fits in
      rw (finish_map, commit) (rw (headers, emitted, detect_reset-still bytes h _ e fits))

  read_map_at-still :
      header_seed (length bytes) bytes ≡ ok h
      → read_map_at (still bytes) page_size (length bytes) from chain_seed h
        ≡ ok (map_of c page_size from chain_seed unchecked (committed_from c page_size bytes from))
  unfolding read_map_at committed
  read_map_at-still e = elim (Bool-cases (full_frames page_size (length bytes) from == 0)) [
    | inl empty ↦
        rw (empty, ==→eq (full_frames page_size (length bytes) from) 0 empty) (ground arith)
    | inr full ↦
        let n : ℕ = full_frames page_size (length bytes) from in
        let fits = full_frames_fit page_size (length bytes) from in
        let inside : leb (length bytes) from ≡ false =
          inside_of n (frame_size page_size) (length bytes) from full (omega arith) fits in
        rw
          (
            inside,
            full,
            scan_loop_lem c page_size bytes n 0 from c.running
                (room (n * frame_size page_size) (length bytes) from inside fits),
          )
          (finish_map_lem n (committed_from c page_size bytes from) e refl (
            committed-Fits c page_size bytes from n fits (ground arith)
              (committed_from c page_size bytes from) refl))
  ]

pub read_map-still :
    (page_size : ℕ) (bytes : Bytes) (start_offset : ℕ) (chain_seed : Option Chain)
    (h : Option HeaderSeed)
    → header_seed (length bytes) bytes ≡ ok h
    → read_frames_as_page_map_checked (still bytes) page_size start_offset chain_seed ≡ (
        let from = start_pos start_offset in
        let c = checks h from chain_seed in
        ok (
          map_of c page_size from chain_seed
            (seed_chain h from chain_seed)
            (committed_from c page_size bytes from)))
unfolding read_frames_as_page_map_checked
read_map-still page_size bytes start_offset chain_seed h e =
    rw (read_frames_as_page_map_checked, e)
      (read_map_at-still page_size bytes (start_pos start_offset) chain_seed h e)

-- The page map that the frames of the other reader give, in their order.
abbrev pub last_versions : PageMap → List ParsedFrame → PageMap
last_versions m [] = m
last_versions m (f ∷ fs) = last_versions (insert_page f.page_number f.page m) fs

abbrev pub as_map : PagesRead → MapRead
as_map r = record {
  page_map = last_versions [] r.frames;
  committed_frames = length r.frames;
  new_offset = r.new_offset;
  final_db_size = r.final_db_size;
  commit_count = length (filter (λ f. ltb 0 f.db_size) r.frames);
  out_chain = r.out_chain;
}

last_versions-map :
    (m : PageMap) (fs : List Frame) → last_versions m (map parsed fs) ≡ foldl add_page m fs
last_versions-map m [] = refl
last_versions-map m (f ∷ fs) = last_versions-map (add_page m f) fs

filter-parsed :
    (fs : List Frame)
    → length (filter (λ f. ltb 0 f.db_size) (map parsed fs))
      ≡ length (filter (λ h. ltb 0 h.1) (map header_pair fs))
filter-parsed [] = refl
filter-parsed (f ∷ fs) = ground (arith, filter-parsed fs)

as_map-pages_of :
    (c : Checks) (page_size from : ℕ) (chain_seed unchecked : Option Chain) (o : Option Prefix)
    → as_map (pages_of c page_size from chain_seed unchecked o)
      ≡ map_of c page_size from chain_seed unchecked o
unfolding commits_of
as_map-pages_of c page_size from chain_seed unchecked none = refl
as_map-pages_of c page_size from chain_seed unchecked (some p) =
    rw (last_versions-map [] p.frames, length-map parsed p.frames, filter-parsed p.frames)

-- On a file that nothing writes to, the map reader returns what the reader of frames does, errors
-- included: the last version of each page, the number of frames and of commits among them, and the
-- same offset, size and chain.
pub page_map-eq-pages :
    (page_size : ℕ) (bytes : Bytes) (start_offset : ℕ) (chain_seed : Option Chain)
    → read_frames_as_page_map_checked (still bytes) page_size start_offset chain_seed ≡ (
        read_frames_as_pages_checked (still bytes) page_size start_offset chain_seed >>= λ r.
        ok (as_map r))
unfolding read_frames_as_page_map_checked read_frames_as_pages_checked
page_map-eq-pages page_size bytes start_offset chain_seed =
    elim (Result-cases (header_seed (length bytes) bytes)) [
      | inr (failure, e) ↦ rw (read_frames_as_page_map_checked, read_frames_as_pages_checked, e)
      | inl (h, e) ↦
          read_map-still page_size bytes start_offset chain_seed h e
          ∙ sym (
              ap (λ r. r >>= λ r. ok (as_map r))
                (read_pages-still page_size bytes start_offset chain_seed h e)
              ∙ ap ok (
                  as_map-pages_of (checks h (start_pos start_offset) chain_seed) page_size
                    (start_pos start_offset) chain_seed
                    (seed_chain h (start_pos start_offset) chain_seed)
                    (committed_from (checks h (start_pos start_offset) chain_seed) page_size bytes
                      (start_pos start_offset))))
    ]
