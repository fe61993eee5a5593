-- ===== src/Wal/Unchecked.antt =====
-- crates/walrust-core/src/wal.rs: the readers that do not validate, and the one that looks for resets.
-- They open the file and read it in one piece here: what changes meanwhile is modelled for the reader
-- with metadata alone, which looks for it.
pub mod Laws
use walrust.Base.{
  ℕ, zero, suc, ◌+◌, ◌-◌, ◌*◌, ◌/◌, Bool, true, false, not, ◌&&◌, ◌||◌, Option, none, some, List,
  [], ◌∷◌, ◌++◌, length, take, leb, ltb, ◌==◌, if◌then◌else◌, Result, ok, err, ◌>>=◌, Bytes, be_at,
}
use Prim.Native.Nat.{max}
use walrust.Wal.Header.{
  WalError, unexpected_eof, WalFile, missing, unreadable, holding, not_found, io, open_file,
  read_exact, read_header, get_wal_size, salt, pair_eq, wal_header_size, frame_header_size,
}
use walrust.Wal.Frame.{Frame, db_size, frame_size, read_frame}
use walrust.Wal.Reading.{start_pos, full_frames}
use walrust.Wal.Pages.{ParsedFrame, parsed}

unfoldable pub read_wal : WalFile → Result Bytes WalError
read_wal missing = ok []
read_wal unreadable = err io
read_wal (holding bytes) = ok bytes

-- `(frames_data, new_offset, frame_count)`; an offset past the end begins behind the header again.
unfoldable pub read_frames_from : WalFile → ℕ → ℕ → Result (Bytes × ℕ × ℕ) WalError
unfolding read_exact full_frames
read_frames_from file page_size start_offset = open_file file >>= λ bytes.
    let from : ℕ =
      if (start_offset == 0) || ltb (length bytes) start_offset
      then wal_header_size
      else start_offset in
    if leb (length bytes) from
    then ok ([], from, 0)
    else (let frames : ℕ = full_frames page_size (length bytes) from in
        if frames == 0
        then ok ([], from, 0)
        else (let bytes_to_read : ℕ = frames * frame_size page_size in
            read_exact bytes from bytes_to_read >>= λ read.
            ok (read, from + bytes_to_read, frames)))

-- The loop of `count_wal_commits`: eight bytes are read of each frame, and the rest is skipped.
unfoldable pub count_loop : ℕ → Bytes → ℕ → ℕ → ℕ → Result ℕ WalError
unfolding read_exact
count_loop page_size bytes zero pos count = ok count
count_loop page_size bytes (suc left) pos count = read_exact bytes pos 8 >>= λ prefix.
    count_loop page_size bytes left (pos + frame_size page_size)
      (if ltb 0 (be_at 4 4 prefix) then count + 1 else count)

unfoldable pub count_wal_commits : WalFile → ℕ → Result ℕ WalError
unfolding count_loop full_frames
count_wal_commits missing page_size = ok 0
count_wal_commits unreadable page_size = err io
count_wal_commits (holding bytes) page_size =
    if ltb (length bytes) wal_header_size
    then ok 0
    else count_loop page_size bytes (full_frames page_size (length bytes) wal_header_size)
        wal_header_size 0

-- The loop of `read_frames_as_pages`.
unfoldable pub frames_loop : ℕ → Bytes → ℕ → ℕ → Result (List ParsedFrame) WalError
unfolding read_frame
frames_loop page_size bytes zero pos = ok []
frames_loop page_size bytes (suc left) pos = read_frame page_size bytes pos >>= λ f.
    frames_loop page_size bytes left (pos + frame_size page_size) >>= λ rest. ok (parsed f ∷ rest)

-- `rposition(|frame| frame.db_size > 0)` and one more, or 0; and the size of that frame.
unfoldable pub committed_frames : List ParsedFrame → ℕ × ℕ
committed_frames [] = (0, 0)
committed_frames (f ∷ fs) =
    let rest : ℕ × ℕ = committed_frames fs in
    if rest.0 == 0
    then (if ltb 0 f.db_size then (1, f.db_size) else (0, 0))
    else (rest.0 + 1, rest.1)

-- `(frames, new_offset, final_db_size)`
unfoldable pub read_frames_as_pages : WalFile → ℕ → ℕ → Result (List ParsedFrame × ℕ × ℕ) WalError
unfolding start_pos full_frames frames_loop committed_frames
read_frames_as_pages file page_size start_offset = open_file file >>= λ bytes.
    let from : ℕ = start_pos start_offset in
    if leb (length bytes) from
    then ok ([], from, 0)
    else if full_frames page_size (length bytes) from == 0
    then ok ([], from, 0)
    else (frames_loop page_size bytes (full_frames page_size (length bytes) from) from >>= λ frames.
        let c : ℕ × ℕ = committed_frames frames in
        if c.0 == 0
        then ok ([], from, 0)
        else ok (take c.0 frames, from + c.0 * frame_size page_size, c.1))

pub record WalReadResult : Type 0 where
  pub frames : List ParsedFrame
  pub new_offset : ℕ
  pub max_db_size : ℕ
  pub salt : ℕ × ℕ
  pub truncated_during_read : Bool

-- The loop of `read_frames_with_metadata`, whose file may end early in a round: the frames, and
-- whether it did. The bytes are those that the file holds in each round.
unfoldable pub metadata_loop : ℕ → (ℕ → Bytes) → ℕ → ℕ → ℕ → List ParsedFrame × Bool
unfolding read_frame
metadata_loop page_size view zero round pos = ([], false)
metadata_loop page_size view (suc left) round pos =
    let rest = metadata_loop page_size view left (suc round) (pos + frame_size page_size) in
    elim (read_frame page_size (view round) pos) [
      | ok f ↦ (parsed f ∷ rest.0, rest.1)
      | err failure ↦ ([], true)
    ]

abbrev pub max_size : List ParsedFrame → ℕ
max_size [] = 0
max_size (f ∷ fs) = max f.db_size (max_size fs)

-- Was another salt expected? The salt (0, 0) stands for none.
unfoldable pub checkpoint_detected : Option (ℕ × ℕ) → ℕ × ℕ → Bool
checkpoint_detected none current = false
checkpoint_detected (some expected) current =
    not (pair_eq expected current) && not (pair_eq expected (0, 0))

-- The part behind the header, of a file from an offset on.
unfoldable pub metadata_frames :
    WalFile → (ℕ → Bytes) → WalFile → ℕ → ℕ → ℕ × ℕ → Result WalReadResult WalError
unfolding full_frames metadata_loop get_wal_size
metadata_frames file view size_after page_size from current =
    let nothing : WalReadResult = record {
      frames = [];
      new_offset = from;
      max_db_size = 0;
      salt = current;
      truncated_during_read = false;
    } in
    open_file file >>= λ bytes.
    if leb (length bytes) from
    then ok nothing
    else if full_frames page_size (length bytes) from == 0
    then ok nothing
    else (let read =
          metadata_loop page_size view (full_frames page_size (length bytes) from) 0 from in
        get_wal_size size_after >>= λ size. ok (record {
          frames = read.0;
          new_offset = from + length read.0 * frame_size page_size;
          max_db_size = max_size read.0;
          salt = current;
          truncated_during_read = read.1 || ltb size (length bytes);
        }))

-- The header is read from the first file, the frames from the second and its later states, and the
-- size is looked at in the last.
unfoldable pub read_frames_with_metadata :
    WalFile
    → WalFile
    → (ℕ → Bytes)
    → WalFile
    → ℕ
    → ℕ
    → Option (ℕ × ℕ)
    → Result WalReadResult WalError
unfolding read_header salt checkpoint_detected start_pos metadata_frames
read_frames_with_metadata header_file file view size_after page_size start_offset expected_salt =
    read_header header_file >>= λ found. elim found [
      | none ↦ ok (record {
        frames = [];
        new_offset = start_offset;
        max_db_size = 0;
        salt = (0, 0);
        truncated_during_read = false;
      })
      | some header ↦
          if checkpoint_detected expected_salt (salt header)
          then ok (record {
            frames = [];
            new_offset = 0;
            max_db_size = 0;
            salt = salt header;
            truncated_during_read = false;
          })
          else metadata_frames file view size_after page_size (start_pos start_offset) (salt header)
    ]
