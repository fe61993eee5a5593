-- ===== src/Wal/Writer/Roundtrip.antt =====
-- crates/walrust-core/src/wal.rs: a log that SQLite writes is read back up to its last commit.
use walrust.Base.{
  ℕ, Bool, ◌+◌, ◌*◌, ◌/◌, ◌≡◌, ◌≢◌, inl, inr, true, false, Option, none, some, List, [], ◌∷◌, ◌++◌,
  map, length, length-append, length-map, All, Bool-cases, ap, ◌∙◌, ok, Bytes, be_bytes, arith,
}
use native.Mathlib.Nat.{mul-div_cancel}
use walrust.Wal.Checksum.{Chain, IsWords, wal_checksum-IsWords}
use walrust.Wal.Header.{HeaderSeed, pair_eq, header_seed, validate_header_checksum}
use walrust.Wal.Header.Laws.{pair_eq_refl}
use walrust.Wal.Frame.{frame_size}
use walrust.Wal.Reading.{still, full_frames, start_pos, checks, seed_chain}
use walrust.Wal.Committed.{Prefix, frames_at, committed}
use walrust.Wal.Committed.Grow.{header_seed-append}
use walrust.Wal.Pages.{parsed, PagesRead, no_pages, read_frames_as_pages_checked}
use walrust.Wal.Pages.Still.{pages_of, read_pages-still}
use walrust.Wal.Writer.{Logged, LogHeader, write_frames, header_words, header_chain, sqlite_log}
use walrust.Wal.Writer.Frames.{
  from_be-be_bytes_4, IsLogged, written_frames, frames_at-written, length-write_frames,
}
use walrust.Wal.Writer.Found.{
  upto_commit, as_parsed, chain_upto, size_of_last, Finds, committed-written,
}

pair_eq-ne : (a b : ℕ × ℕ) → a ≢ b → pair_eq a b ≡ false
pair_eq-ne a b differs = elim (Bool-cases (pair_eq a b)) [
  | inl same ↦ absurd (differs (ground arith))
  | inr e ↦ e
]

module _ (l : LogHeader) (salts : IsWords l.salt) where
  abbrev h : HeaderSeed
  h = record { seed = header_chain l; big_endian = l.big_endian; salt = l.salt }

  abbrev header : Bytes
  header = header_words l ++ (be_bytes 4 (header_chain l).0 ++ be_bytes 4 (header_chain l).1)

  header_chain-IsWords : IsWords (header_chain l)
  unfolding header_chain
  header_chain-IsWords =
      wal_checksum-IsWords (0, 0) (header_words l) l.big_endian (omega arith, omega arith)

  validate-header :
      header_chain l ≢ (0, 0) → validate_header_checksum header l.big_endian ≡ ok (header_chain l)
  unfolding validate_header_checksum header_chain
  validate-header nonzero =
      let c : Chain = header_chain l in
      rw (
        from_be-be_bytes_4 c.0 header_chain-IsWords.0,
        from_be-be_bytes_4 c.1 header_chain-IsWords.1,
        pair_eq-ne c (0, 0) nonzero,
        pair_eq_refl c,
      )

-- The header alone is taken over, in the byte order of its magic number.
header_alone :
    (be : Bool) (version page_size checkpoint : ℕ) (salt : ℕ × ℕ) (salts : IsWords salt)
    → (let l : LogHeader = record {
      big_endian = be;
      format_version = version;
      page_size = page_size;
      checkpoint_seq = checkpoint;
      salt = salt;
    } in
        header_chain l ≢ (0, 0) → header_seed 32 (header l salts) ≡ ok (some (h l salts)))
unfolding header_seed
header_alone true version page_size checkpoint salt salts nonzero =
    let l : LogHeader = record {
      big_endian = true;
      format_version = version;
      page_size = page_size;
      checkpoint_seq = checkpoint;
      salt = salt;
    } in
    rw (header_seed, validate-header l salts nonzero)
      (λ i. ok (
        some (record (h l salts) {
          salt = (from_be-be_bytes_4 salt.0 salts.0 i, from_be-be_bytes_4 salt.1 salts.1 i);
        })))
header_alone false version page_size checkpoint salt salts nonzero =
    let l : LogHeader = record {
      big_endian = false;
      format_version = version;
      page_size = page_size;
      checkpoint_seq = checkpoint;
      salt = salt;
    } in
    rw (header_seed, validate-header l salts nonzero)
      (λ i. ok (
        some (record (h l salts) {
          salt = (from_be-be_bytes_4 salt.0 salts.0 i, from_be-be_bytes_4 salt.1 salts.1 i);
        })))

module _ (l : LogHeader) (salts : IsWords l.salt) where
  header_seed-written :
      (ws : List Logged)
      → header_chain l ≢ (0, 0)
      → header_seed (length (sqlite_log l ws)) (sqlite_log l ws) ≡ ok (some (h l salts))
  unfolding header_seed sqlite_log
  header_seed-written ws nonzero =
      header_seed-append (header l salts) (write_frames l.big_endian l.salt (header_chain l) ws)
        (omega arith)
      ∙ header_alone l.big_endian l.format_version l.page_size l.checkpoint_seq l.salt salts nonzero

  abbrev after_header : ℕ
  after_header = 32

  whole-written :
      (ws : List Logged)
      → All (IsLogged l.page_size) ws
      → frames_at l.page_size
          (sqlite_log l ws)
          (full_frames l.page_size (length (sqlite_log l ws)) after_header)
          after_header
        ≡ written_frames l.big_endian l.salt (header_chain l) ws
  unfolding full_frames sqlite_log
  whole-written ws fit =
      let s : Chain = header_chain l in
      ap (λ n. frames_at l.page_size (sqlite_log l ws) n after_header)
        (ap (λ n. n / frame_size l.page_size)
            (omega (
              arith,
              length-append (header l salts) (write_frames l.big_endian l.salt s ws),
              length-write_frames l.page_size l.big_endian l.salt s ws fit,
            ))
          ∙ mul-div_cancel (length ws) {n = frame_size l.page_size} (omega arith))
      ∙ frames_at-written l.page_size l.big_endian l.salt s ws (header l salts) fit

  -- What the reader is to return for the writes.
  abbrev pub expected : List Logged → PagesRead
  expected ws = record {
    frames = map as_parsed (upto_commit ws);
    new_offset = 32 + length (upto_commit ws) * frame_size l.page_size;
    final_db_size = size_of_last (upto_commit ws);
    out_chain = elim (upto_commit ws) [
      | [] ↦ none
      | w ∷ vs ↦ some (chain_upto l.big_endian (header_chain l) (w ∷ vs))
    ];
  }

  pages_of-Finds :
      (vs : List Logged) (o : Option Prefix)
      → Finds l salts (header_chain l) vs o
      → pages_of
          (checks (some (h l salts)) 32 none)
          l.page_size
          32
          none
          (seed_chain (some (h l salts)) 32 none)
          o
        ≡ record {
          frames = map as_parsed vs;
          new_offset = 32 + length vs * frame_size l.page_size;
          final_db_size = size_of_last vs;
          out_chain = elim vs [
            | [] ↦ none
            | w ∷ us ↦ some (chain_upto l.big_endian (header_chain l) (w ∷ us))
          ];
        }
  unfolding checks
  pages_of-Finds [] none e = ap (λ n. no_pages n none) (omega arith)
  pages_of-Finds (v ∷ vs) none e = absurd (cc e)
  pages_of-Finds [] (some p) (positive, frames, chain, size) = absurd (omega (arith, positive))
  pages_of-Finds (v ∷ vs) (some p) (positive, frames, chain, size) =
      let count : length p.frames ≡ length (v ∷ vs) =
        omega
          (arith, ap length frames, length-map parsed p.frames, length-map as_parsed (v ∷ vs)) in
      rw (frames, count, chain, size)

  -- A log that SQLite's format prescribes, in either byte order, is read back from its start: the
  -- frames up to the last commit, the offset behind them, the size that the commit gives, and the
  -- chain at that commit. The page numbers, sizes and salts are of 32 bits, each page is of the page
  -- size, and the header's checksum is not the pair (0, 0).
  pub read_pages-sqlite_log :
      (ws : List Logged)
      → All (IsLogged l.page_size) ws
      → header_chain l ≢ (0, 0)
      → read_frames_as_pages_checked (still (sqlite_log l ws)) l.page_size 0 none ≡ ok (expected ws)
  unfolding start_pos checks
  read_pages-sqlite_log ws fit nonzero =
      read_pages-still l.page_size (sqlite_log l ws) 0 none (some (h l salts))
        (header_seed-written ws nonzero)
      ∙ ap ok (
          ap
            (λ fs.
              pages_of (checks (some (h l salts)) 32 none) l.page_size 32 none
                (seed_chain (some (h l salts)) 32 none)
                (committed true (h l salts) (header_chain l) fs))
            (whole-written ws fit)
          ∙ pages_of-Finds (upto_commit ws)
              (committed true (h l salts) (header_chain l)
                (written_frames l.big_endian l.salt (header_chain l) ws))
              (committed-written l salts (header_chain l) ws (header_chain-IsWords l salts) fit))
