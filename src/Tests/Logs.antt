-- ===== src/Tests/Logs.antt =====
-- crates/walrust-core/src/wal.rs at concrete data: logs of pages of eight bytes.
use walrust.Base.{
  false, ℕ, ◌≤◌, ◌≡◌, ◌≢◌, refl, true, none, some, List, [], ◌∷◌, ◌++◌, length, replicate, drop,
  take, ok, err, ◌>>=◌, arith, Bytes,
}
use walrust.Wal.Checksum.{wal_checksum}
use walrust.Wal.Header.{HeaderSeed, holding, header_seed, shrank_during_read}
use walrust.Wal.Frame.{Frame, check_frame}
use walrust.Wal.Reading.{Observed, still, full_frames, start_pos, checks, seed_chain}
use walrust.Wal.Committed.{frame_at, Passes, done, pass, last, more}
use walrust.Wal.Pages.{ParsedFrame, PagesRead, read_frames_as_pages_checked}
use walrust.Wal.Pages.Sound.{IsSound, read_pages-IsSound, read_pages_longest}
use walrust.Wal.Pages.Continue.{joined}
use walrust.Wal.Pages.Resume.{read_pages_resume}
use walrust.Wal.PageMap.{MapRead, read_frames_as_page_map_checked}
use walrust.Wal.PageMap.Still.{as_map, page_map-eq-pages}
use walrust.Wal.PageMap.Verified.{IsBacked}
use walrust.Wal.PageMap.Backed.{page_map-IsBacked}
use walrust.Wal.Unchecked.{read_frames_as_pages}
use walrust.Wal.Unchecked.Laws.{unchecked_of, read_frames_as_pages-eq-checked}
use walrust.Wal.Writer.{Write, Logged, LogHeader, header_chain, sqlite_log, build_valid_wal}
use walrust.Wal.Writer.Roundtrip.{expected, read_pages-sqlite_log}

abbrev write : ℕ → ℕ → ℕ → Write
write n size fill = record { page_number = n; db_size = size; fill = fill }

abbrev salt : ℕ × ℕ
salt = (0x11, 0x22)

-- Pages 1 and 2 and a commit, then page 1 without one.
abbrev begun : List Write
begun = write 1 0 7 ∷ write 2 2 9 ∷ write 1 0 5 ∷ []

-- The last frame was overwritten, and commits.
abbrev gone_on : List Write
gone_on = write 1 0 7 ∷ write 2 2 9 ∷ write 1 3 6 ∷ []

abbrev wal : Bytes
unfolding build_valid_wal
wal = build_valid_wal 8 salt begun

abbrev longer : Bytes
unfolding build_valid_wal
longer = build_valid_wal 8 salt gone_on

abbrev seed : HeaderSeed
seed = record { seed = (369411832, 3168640731); big_endian = true; salt = (17, 34) }

wal_header : header_seed (length wal) wal ≡ ok (some seed)
unfolding header_seed wal longer wal_checksum
wal_header = refl

abbrev page : ℕ → ℕ → ℕ → ParsedFrame
page n size fill = record { page_number = n; db_size = size; page = replicate 8 fill }

abbrev two_pages : PagesRead
two_pages = record {
  frames = page 1 0 7 ∷ page 2 2 9 ∷ [];
  new_offset = 96;
  final_db_size = 2;
  out_chain = some (3719128035, 1363204346);
}

two_pages_read : read_frames_as_pages_checked (still wal) 8 0 none ≡ ok two_pages
unfolding read_frames_as_pages_checked wal longer wal_checksum
two_pages_read = refl

abbrev one_page : PagesRead
one_page = record {
  frames = page 1 3 6 ∷ [];
  new_offset = 128;
  final_db_size = 3;
  out_chain = some (3038992575, 995652768);
}

one_page_read :
    read_frames_as_pages_checked
      (still (take 96 wal ++ drop 96 longer))
      8
      96
      (some (3719128035, 1363204346))
    ≡ ok one_page
unfolding read_frames_as_pages_checked wal longer wal_checksum
one_page_read = refl

read_pages_resume_example :
    read_frames_as_pages_checked (still (take 96 wal ++ drop 96 longer)) 8 0 none
    ≡ ok (joined two_pages one_page)
unfolding start_pos
read_pages_resume_example =
    read_pages_resume 8 wal (drop 96 longer) 0 none two_pages one_page (omega arith) (λ e. cc e)
      two_pages_read one_page_read

read_pages-IsSound_example :
    IsSound (checks (some seed) 32 none) 8 wal 32 (some seed.seed) two_pages
unfolding start_pos seed_chain checks
read_pages-IsSound_example =
    read_pages-IsSound 8 wal 0 none two_pages (some seed) wal_header two_pages_read (λ e. cc e)

page_map-eq-pages_example :
    read_frames_as_page_map_checked (still longer) 8 0 none
    ≡ (read_frames_as_pages_checked (still longer) 8 0 none >>= λ r. ok (as_map r))
page_map-eq-pages_example = page_map-eq-pages 8 longer 0 none

abbrev three_pages_map : MapRead
three_pages_map = record {
  page_map = (1, replicate 8 6) ∷ (2, replicate 8 9) ∷ [];
  committed_frames = 3;
  new_offset = 128;
  final_db_size = 3;
  commit_count = 2;
  out_chain = some (3038992575, 995652768);
}

-- The file grows while it is read, which is no reset.
abbrev growing : Observed
growing = record (still longer) {
  size_after = holding (longer ++ 0 ∷ []);
  header_after = holding (longer ++ 0 ∷ []);
}

growing_read : read_frames_as_page_map_checked growing 8 0 none ≡ ok three_pages_map
unfolding read_frames_as_page_map_checked wal longer wal_checksum
growing_read = refl

-- The file is shorter afterwards.
shrinking_read :
    read_frames_as_page_map_checked
      (record (still longer) { size_after = holding (take 40 longer) })
      8
      0
      none
    ≡ err shrank_during_read
unfolding read_frames_as_page_map_checked wal longer wal_checksum
shrinking_read = refl

longer_header : header_seed (length longer) longer ≡ ok (some seed)
unfolding header_seed wal longer wal_checksum
longer_header = refl

page_map-IsBacked_example : IsBacked growing 8 32 seed seed.seed three_pages_map
unfolding start_pos seed_chain checks
page_map-IsBacked_example =
    page_map-IsBacked growing 8 0 none seed longer seed.seed three_pages_map refl longer_header refl
      (omega arith) growing_read

-- A log of the other byte order, of a later format and checkpoint: page 3, then page 1 and a commit.
abbrev little : LogHeader
little = record {
  big_endian = false;
  format_version = 3007001;
  page_size = 8;
  checkpoint_seq = 4;
  salt = salt;
}

abbrev pages_logged : List Logged
pages_logged =
    record { page_number = 3; db_size = 0; page = 1 ∷ 2 ∷ 3 ∷ 4 ∷ 5 ∷ 6 ∷ 7 ∷ 8 ∷ [] }
    ∷ record { page_number = 1; db_size = 3; page = 8 ∷ 7 ∷ 6 ∷ 5 ∷ 4 ∷ 3 ∷ 2 ∷ 1 ∷ [] }
    ∷ []

nonzero_chain : header_chain little ≢ (0, 0)
unfolding header_chain wal_checksum
nonzero_chain e = cc e

read_pages-sqlite_log_example :
    read_frames_as_pages_checked (still (sqlite_log little pages_logged)) 8 0 none
    ≡ ok (expected little (omega arith, omega arith) pages_logged)
read_pages-sqlite_log_example =
    read_pages-sqlite_log little (omega arith, omega arith) pages_logged
      ((omega arith, omega arith, refl), ((omega arith, omega arith, refl), tt)) nonzero_chain

abbrev first_frames : Bytes → List Frame
first_frames b = frame_at 8 b 32 ∷ frame_at 8 b 64 ∷ []

two_pass : Passes true seed seed.seed (first_frames wal) (3719128035, 1363204346)
unfolding check_frame wal wal_checksum
two_pass = pass {next = (1772712330, 7372096)} refl (pass refl done)

read_pages_longest_example : 2 ≤ length two_pages.frames
unfolding start_pos checks wal full_frames
read_pages_longest_example =
    read_pages_longest 8 wal 0 none two_pages (some seed) wal_header two_pages_read
      (first_frames wal) (frame_at 8 wal 96 ∷ []) 2 (3719128035, 1363204346) refl two_pass
      (more (last refl (omega arith)))

abbrev three_pages : PagesRead
three_pages = joined two_pages one_page

three_pages_read : read_frames_as_pages_checked (still longer) 8 0 none ≡ ok three_pages
unfolding read_frames_as_pages_checked joined longer wal_checksum
three_pages_read = refl

three_pass :
    Passes true seed seed.seed
      (frame_at 8 longer 32 ∷ frame_at 8 longer 64 ∷ frame_at 8 longer 96 ∷ [])
      (3038992575, 995652768)
unfolding check_frame longer wal_checksum
three_pass =
    pass {next = (1772712330, 7372096)} refl
      (pass {next = (3719128035, 1363204346)} refl (pass refl done))

read_frames_as_pages-eq-checked_example :
    read_frames_as_pages (holding longer) 8 0 ≡ ok (unchecked_of three_pages)
unfolding start_pos checks longer full_frames
read_frames_as_pages-eq-checked_example =
    read_frames_as_pages-eq-checked 8 longer 0 none (some seed) three_pages longer_header three_pass
      three_pages_read
