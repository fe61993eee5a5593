-- ===== src/Wal/PageMap.antt =====
-- crates/walrust-core/src/wal.rs: `read_frames_as_page_map_checked`, which passes over the log twice
-- and keeps one version of each page.
pub mod Passes
pub mod Still
pub mod Verified
pub mod Backed
use walrust.Base.{
  ℕ, zero, suc, ◌+◌, ◌*◌, not, Option, none, some, List, [], ◌∷◌, length, take, filter, leb, ltb,
  ◌==◌, if◌then◌else◌, Result, ok, err, ◌>>=◌, ◌>>◌, Bytes,
}
use walrust.Wal.Checksum.{Chain}
use walrust.Wal.Header.{
  WalError, reverification_failed, HeaderSeed, open_file, header_seed, detect_reset_during_read,
}
use walrust.Wal.Frame.{
  Frame, page_number, db_size, frame_size, read_frame, verify_frame_checksum, check_frame,
}
use walrust.Wal.Reading.{Observed, Checks, start_pos, full_frames, checks, seed_chain, salt_of}

-- A hash map from page numbers, as its pairs.
abbrev pub PageMap : Type 0
PageMap = List (ℕ × Bytes)

unfoldable pub insert_page : ℕ → Bytes → PageMap → PageMap
insert_page n page m = (n, page) ∷ filter (λ p. not (p.0 == n)) m

-- `(page_number, db_size)` of `frame_headers`; the index of a frame is its place in the list.
abbrev pub FrameHeaders : Type 0
FrameHeaders = List (ℕ × ℕ)

-- The first pass, of whose rounds `left` are left.
unfoldable pub scan_loop :
    Checks → ℕ → (ℕ → Bytes) → ℕ → ℕ → ℕ → Chain → Result FrameHeaders WalError
unfolding read_frame check_frame
scan_loop c page_size view zero round pos running = ok []
scan_loop c page_size view (suc left) round pos running =
    read_frame page_size (view round) pos >>= λ f.
    elim (check_frame c.validate c.against running f) [
      | none ↦ ok []
      | some next ↦
          scan_loop c page_size view left (suc round) (pos + frame_size page_size) next >>= λ rest.
          ok ((page_number f, db_size f) ∷ rest)
    ]

-- The last frame that commits: how many frames there are up to it, and its size.
unfoldable pub last_commit : FrameHeaders → Option (ℕ × ℕ)
last_commit [] = none
last_commit ((n, size) ∷ rest) = elim (last_commit rest) [
  | some (count, final) ↦ some (suc count, final)
  | none ↦ if ltb 0 size then some (1, size) else none
]

unfoldable pub commits_of : FrameHeaders → ℕ
commits_of headers = length (filter (λ h. ltb 0 h.1) headers)

-- `if validate { if let Some(seed) = out_chain { … } }`, for the frame of an index.
unfoldable pub reverify : Checks → ℕ → Option Chain → Frame → Result (Option Chain) WalError
unfolding verify_frame_checksum
reverify c index none f = ok none
reverify c index (some seed) f =
    if c.validate
    then elim (verify_frame_checksum seed f.header f.page c.against.big_endian) [
      | some next ↦ ok (some next)
      | none ↦ err (reverification_failed (index + 1))
    ]
    else ok (some seed)

-- The second pass, over the committed frames.
unfoldable pub emit_loop :
    Checks
    → ℕ
    → (ℕ → Bytes)
    → FrameHeaders
    → ℕ
    → ℕ
    → Option Chain
    → PageMap
    → Result (PageMap × Option Chain) WalError
unfolding read_frame reverify insert_page
emit_loop c page_size view [] round pos out_chain m = ok (m, out_chain)
emit_loop c page_size view ((n, size) ∷ rest) round pos out_chain m =
    read_frame page_size (view round) pos >>= λ f. reverify c round out_chain f >>= λ next.
    emit_loop c page_size view rest (suc round) (pos + frame_size page_size) next
      (insert_page n f.page m)

-- `(page_map, committed_frames, new_offset, final_db_size, commit_count, out_chain)`
pub record MapRead : Type 0 where
  pub page_map : PageMap
  pub committed_frames : ℕ
  pub new_offset : ℕ
  pub final_db_size : ℕ
  pub commit_count : ℕ
  pub out_chain : Option Chain

abbrev pub no_map : ℕ → Option Chain → MapRead
no_map from chain_seed = record {
  page_map = [];
  committed_frames = 0;
  new_offset = from;
  final_db_size = 0;
  commit_count = 0;
  out_chain = chain_seed;
}

-- What follows the first pass.
unfoldable pub finish_map :
    Observed
    → ℕ
    → ℕ
    → Option Chain
    → Option HeaderSeed
    → Checks
    → FrameHeaders
    → Result MapRead WalError
unfolding last_commit commits_of emit_loop seed_chain detect_reset_during_read
finish_map o page_size from chain_seed h c headers = elim (last_commit headers) [
  | none ↦ ok (no_map from chain_seed)
  | some (count, final) ↦
      emit_loop c page_size o.pass_two (take count headers) 0 from (seed_chain h from chain_seed) []
      >>= λ emitted.
          let new_offset : ℕ = from + count * frame_size page_size in
          detect_reset_during_read o.size_after o.header_after new_offset (salt_of h)
          >> ok (record {
            page_map = emitted.0;
            committed_frames = count;
            new_offset = new_offset;
            final_db_size = final;
            commit_count = commits_of (take count headers);
            out_chain = emitted.1;
          })
]

unfoldable pub read_map_at :
    Observed → ℕ → ℕ → ℕ → Option Chain → Option HeaderSeed → Result MapRead WalError
unfolding full_frames checks scan_loop finish_map
read_map_at o page_size file_size from chain_seed h =
    if leb file_size from
    then ok (no_map from chain_seed)
    else if full_frames page_size file_size from == 0
    then ok (no_map from chain_seed)
    else (let c : Checks = checks h from chain_seed in
        scan_loop c page_size o.pass_one (full_frames page_size file_size from) 0 from c.running
        >>= finish_map o page_size from chain_seed h c)

unfoldable pub read_frames_as_page_map_checked :
    Observed → ℕ → ℕ → Option Chain → Result MapRead WalError
unfolding header_seed start_pos read_map_at
read_frames_as_page_map_checked o page_size start_offset chain_seed = do
  bytes ← open_file o.opened
  h ← header_seed (length bytes) o.at_header
  read_map_at o page_size (length bytes) (start_pos start_offset) chain_seed h
