-- ===== src/Wal/Pages.antt =====
-- crates/walrust-core/src/wal.rs: `read_frames_as_pages_checked`, the reader of the shadow log.
pub mod Loop
pub mod Still
pub mod Sound
pub mod Continue
pub mod Resume
use walrust.Base.{
  ℕ, zero, suc, ◌+◌, ◌*◌, Bool, Option, none, some, List, [], ◌∷◌, ◌++◌, length, take, leb, ltb,
  ◌==◌, if◌then◌else◌, Result, ok, err, ◌>>=◌, ◌>>◌, Bytes,
}
use walrust.Wal.Checksum.{Chain}
use walrust.Wal.Header.{WalError, HeaderSeed, open_file, header_seed, detect_reset_during_read}
use walrust.Wal.Frame.{Frame, page_number, db_size, frame_size, read_frame, check_frame}
use walrust.Wal.Reading.{Observed, Checks, start_pos, full_frames, checks, seed_chain, salt_of}

pub record ParsedFrame : Type 0 where
  pub page_number : ℕ
  pub db_size : ℕ
  pub page : Bytes

abbrev pub parsed : Frame → ParsedFrame
parsed f = record { page_number = page_number f; db_size = db_size f; page = f.page }

-- The variables of the loop.
pub record Progress : Type 0 where
  pub frames : List ParsedFrame
  pub committed_count : ℕ
  pub committed_chain : Option Chain
  pub final_db_size : ℕ

-- A frame that passed is pushed, and counts as the boundary if it commits.
unfoldable pub push_frame : Checks → Option Chain → Chain → Frame → Progress → Progress
push_frame c unchecked running f p =
    let frames : List ParsedFrame = p.frames ++ (parsed f ∷ []) in
    if ltb 0 (db_size f)
    then record {
      frames = frames;
      committed_count = length frames;
      committed_chain = if c.validate then some running else unchecked;
      final_db_size = db_size f;
    }
    else record p { frames = frames }

-- The loop over the frames, of which `left` are left.
unfoldable pub pages_loop :
    Checks
    → Option Chain
    → ℕ
    → (ℕ → Bytes)
    → ℕ
    → ℕ
    → ℕ
    → Chain
    → Progress
    → Result Progress WalError
unfolding read_frame check_frame push_frame
pages_loop c unchecked page_size view zero round pos running p = ok p
pages_loop c unchecked page_size view (suc left) round pos running p =
    read_frame page_size (view round) pos >>= λ f.
    elim (check_frame c.validate c.against running f) [
      | none ↦ ok p
      | some next ↦
          pages_loop c unchecked page_size view left (suc round) (pos + frame_size page_size) next
            (push_frame c unchecked next f p)
    ]

-- `(frames, new_offset, final_db_size, out_chain)`
pub record PagesRead : Type 0 where
  pub frames : List ParsedFrame
  pub new_offset : ℕ
  pub final_db_size : ℕ
  pub out_chain : Option Chain

abbrev pub no_pages : ℕ → Option Chain → PagesRead
no_pages from chain_seed = record {
  frames = [];
  new_offset = from;
  final_db_size = 0;
  out_chain = chain_seed;
}

-- What follows the loop.
unfoldable pub finish_pages :
    Observed → ℕ → ℕ → Option Chain → Option HeaderSeed → Progress → Result PagesRead WalError
unfolding detect_reset_during_read
finish_pages o page_size from chain_seed h p =
    if p.committed_count == 0
    then ok (no_pages from chain_seed)
    else (let new_offset : ℕ = from + p.committed_count * frame_size page_size in
        detect_reset_during_read o.size_after o.header_after new_offset (salt_of h)
        >> ok (record {
          frames = take p.committed_count p.frames;
          new_offset = new_offset;
          final_db_size = p.final_db_size;
          out_chain = p.committed_chain;
        }))

unfoldable pub read_pages_at :
    Observed → ℕ → ℕ → ℕ → Option Chain → Option HeaderSeed → Result PagesRead WalError
unfolding full_frames checks seed_chain pages_loop finish_pages
read_pages_at o page_size file_size from chain_seed h =
    if leb file_size from
    then ok (no_pages from chain_seed)
    else if full_frames page_size file_size from == 0
    then ok (no_pages from chain_seed)
    else (let c : Checks = checks h from chain_seed in
        let unchecked : Option Chain = seed_chain h from chain_seed in
        pages_loop c unchecked page_size o.pass_one (full_frames page_size file_size from) 0 from
          c.running
          (record {
            frames = [];
            committed_count = 0;
            committed_chain = unchecked;
            final_db_size = 0;
          })
        >>= finish_pages o page_size from chain_seed h)

unfoldable pub read_frames_as_pages_checked :
    Observed → ℕ → ℕ → Option Chain → Result PagesRead WalError
unfolding header_seed start_pos read_pages_at
read_frames_as_pages_checked o page_size start_offset chain_seed = do
  bytes ← open_file o.opened
  h ← header_seed (length bytes) o.at_header
  read_pages_at o page_size (length bytes) (start_pos start_offset) chain_seed h
