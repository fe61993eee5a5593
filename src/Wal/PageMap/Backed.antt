-- ===== src/Wal/PageMap/Backed.antt =====
-- crates/walrust-core/src/wal.rs: whatever happens to the file while `read_frames_as_page_map_checked`
-- reads it, the pages that are returned are backed by one verified chain of the second pass.
use walrust.Base.{
  List, ◌≤◌, map, map-take, length-map, All, sym, ◌∙◌, ℕ, ◌+◌, ◌*◌, ◌<◌, ◌≡◌, inl, inr, true,
  Option, none, some, [], length, length-take, take, leb, ◌==◌, Bool-cases, Option-cases, >>=-eq-ok,
  ap, subst, ok, ◌>>=◌, ◌>>◌, Bytes, arith,
}
use walrust.Wal.Checksum.{Chain}
use walrust.Wal.Header.{pair_eq, HeaderSeed, holding, header_seed, detect_reset_during_read}
use walrust.Wal.Frame.{Frame, frame_salt, frame_size}
use walrust.Wal.Reading.{Observed, Checks, full_frames, checks, seed_chain, start_pos}
use walrust.Wal.PageMap.{
  PageMap, FrameHeaders, MapRead, no_map, last_commit, commits_of, scan_loop, emit_loop, finish_map,
  read_map_at, read_frames_as_page_map_checked,
}
use walrust.Wal.PageMap.Passes.{header_pair}
use walrust.Wal.PageMap.Still.{checks-seeded}
use walrust.Wal.PageMap.Verified.{
  Verified, store_pages, Verified-take, All-take, scan_loop_sound, last_commit-take, IsBacked,
  emit_loop_sound, last_commit_bound, detect_reset_sound,
}

module _ (o : Observed) (page_size from : ℕ) (chain_seed : Option Chain) (h : HeaderSeed)
    (r : MapRead) (s : Chain) (seeded : seed_chain (some h) from chain_seed ≡ some s)
    (validates : (checks (some h) from chain_seed).validate ≡ true)
    (returns : 0 < r.committed_frames) where
  abbrev c : Checks
  c = checks (some h) from chain_seed

  abbrev result : FrameHeaders → ℕ → ℕ → PageMap × Option Chain → MapRead
  result headers count final emitted = record {
    page_map = emitted.0;
    committed_frames = count;
    new_offset = from + count * frame_size page_size;
    final_db_size = final;
    commit_count = commits_of (take count headers);
    out_chain = emitted.1;
  }

  seed_is : c.running ≡ s
  seed_is = cc (sym (checks-seeded (some h) from chain_seed validates) ∙ seeded)

  -- After the loop and the check for a reset, behind frames that the first pass read.
  result-IsBacked :
      (fs : List Frame) (t : Chain) (count final : ℕ) (emitted : PageMap × Option Chain)
      → Verified page_size h.big_endian o.pass_one 0 from s fs t
      → All (λ f. pair_eq (frame_salt f) h.salt ≡ true) fs
      → last_commit (map header_pair fs) ≡ some (count, final)
      → emit_loop c page_size o.pass_two (take count (map header_pair fs)) 0 from (some s) []
        ≡ ok emitted
      → detect_reset_during_read o.size_after o.header_after
          (from + count * frame_size page_size)
          (some h.salt)
        ≡ ok tt
      → IsBacked o page_size from h s (result (map header_pair fs) count final emitted)
  unfolding checks
  result-IsBacked fs t count final emitted scan salted found looped stable =
      let (gs, u, verified, all, stored, out) =
        emit_loop_sound c page_size o.pass_two validates (take count (map header_pair fs)) 0 from s
          [] emitted looped in
      let (size, size_after, not_shrunk, salt_after) =
        detect_reset_sound o.size_after o.header_after (from + count * frame_size page_size) h.salt
          stable in
      let (scan_end, scan_front) = Verified-take count scan in
      let front : take count (map header_pair fs) ≡ map header_pair (take count fs) =
        map-take header_pair count fs in
      let bound : count ≤ length (map header_pair fs) =
        last_commit_bound (map header_pair fs) count final found in
      let scanned_all : length (take count fs) ≡ count =
        omega (arith, length-take count fs, length-map header_pair fs, bound) in
      let emitted_all : length gs ≡ count =
        omega (arith, all, length-take count (map header_pair fs), bound) in
      let ended = last_commit-take (map header_pair fs) count final found in
      record {
        scanned = take count fs;
        scan_end = scan_end;
        scan = scan_front;
        salted = All-take (λ f. pair_eq (frame_salt f) h.salt ≡ true) count fs salted;
        commits = ap last_commit (sym front) ∙ ended ∙ ap (λ n. some (n, final)) (sym scanned_all);
        commit_count = ap commits_of front;
        frames = gs;
        chain = u;
        verified = verified;
        same_count = scanned_all ∙ sym emitted_all;
        all_committed = emitted_all;
        stored = stored ∙ ap (λ l. store_pages [] l gs) front;
        ends = ap (λ n. from + n * frame_size page_size) (sym emitted_all);
        out = out;
        size = size;
        size_after = size_after;
        not_shrunk = not_shrunk;
        salt_after = salt_after;
      }

  finish_found :
      (fs : List Frame) (t : Chain) (count final : ℕ)
      → Verified page_size h.big_endian o.pass_one 0 from s fs t
      → All (λ f. pair_eq (frame_salt f) h.salt ≡ true) fs
      → last_commit (map header_pair fs) ≡ some (count, final)
      → (emit_loop c page_size o.pass_two (take count (map header_pair fs)) 0 from (some s) []
          >>= λ emitted.
              detect_reset_during_read o.size_after o.header_after
                (from + count * frame_size page_size)
                (some h.salt)
              >> ok (result (map header_pair fs) count final emitted))
        ≡ ok r
      → IsBacked o page_size from h s r
  finish_found fs t count final scan salted found e =
      let headers : FrameHeaders = map header_pair fs in
      let (emitted, looped, e1) =
        >>=-eq-ok (emit_loop c page_size o.pass_two (take count headers) 0 from (some s) []) _ e in
      let (u, stable, e2) =
        >>=-eq-ok
          (detect_reset_during_read o.size_after o.header_after
            (from + count * frame_size page_size) (some h.salt))
          (λ u. ok (result headers count final emitted)) e1 in
      subst (IsBacked o page_size from h s) (cc e2)
        (result-IsBacked fs t count final emitted scan salted found looped stable)

  finish_map_sound :
      (fs : List Frame) (t : Chain)
      → Verified page_size h.big_endian o.pass_one 0 from s fs t
      → All (λ f. pair_eq (frame_salt f) h.salt ≡ true) fs
      → finish_map o page_size from chain_seed (some h) c (map header_pair fs) ≡ ok r
      → IsBacked o page_size from h s r
  unfolding finish_map
  finish_map_sound fs t scan salted e = elim (Option-cases (last_commit (map header_pair fs))) [
    | inl nothing ↦
        let same : no_map from chain_seed ≡ r = cc (rw (finish_map, nothing) at e) in
        absurd (omega (arith, returns, ap (λ x. x.committed_frames) same))
    | inr ((count, final), found) ↦
        finish_found fs t count final scan salted found (rw (finish_map, found, seeded) at e)
  ]

  scanned_sound :
      (left : ℕ) (headers : FrameHeaders)
      → scan_loop c page_size o.pass_one left 0 from c.running ≡ ok headers
      → finish_map o page_size from chain_seed (some h) c headers ≡ ok r
      → IsBacked o page_size from h s r
  unfolding checks
  scanned_sound left headers scanned e =
      let (fs, t, scan, salted, same) =
        scan_loop_sound c page_size o.pass_one validates left 0 from c.running headers scanned in
      finish_map_sound fs t
        (subst (λ x. Verified page_size h.big_endian o.pass_one 0 from x fs t) seed_is scan) salted
        (subst (λ l. finish_map o page_size from chain_seed (some h) c l ≡ ok r) same e)

  read_map_at_sound :
      (file_size : ℕ)
      → read_map_at o page_size file_size from chain_seed (some h) ≡ ok r
      → IsBacked o page_size from h s r
  unfolding read_map_at
  read_map_at_sound file_size e = elim (Bool-cases (leb file_size from)) [
    | inl beyond ↦
        let same : no_map from chain_seed ≡ r = cc (rw (read_map_at, beyond) at e) in
        absurd (omega (arith, returns, ap (λ x. x.committed_frames) same))
    | inr inside ↦ elim (Bool-cases (full_frames page_size file_size from == 0)) [
      | inl empty ↦
          let same : no_map from chain_seed ≡ r = cc (rw (read_map_at, inside, empty) at e) in
          absurd (omega (arith, returns, ap (λ x. x.committed_frames) same))
      | inr full ↦
          let (headers, scanned, e1) =
            >>=-eq-ok
              (scan_loop c page_size o.pass_one (full_frames page_size file_size from) 0 from
                c.running)
              (finish_map o page_size from chain_seed (some h) c)
              (rw (read_map_at, inside, full) at e) in
          scanned_sound (full_frames page_size file_size from) headers scanned e1
    ]
  ]

seed_chain-validates :
    (h : HeaderSeed) (from : ℕ) (chain_seed : Option Chain) (s : Chain)
    → seed_chain (some h) from chain_seed ≡ some s
    → (checks (some h) from chain_seed).validate ≡ true
unfolding seed_chain checks
seed_chain-validates h from none s e = ground arith
seed_chain-validates h from (some c) s e = ground arith

-- Whatever happens to the file between the steps of the reading: behind a map that is returned are
-- two runs of frames, of one length, each read one behind another and each with checksums that continue
-- the chain that the reading began with. The first pass read the one, whose frames bear the salt of the
-- header, and the last of which commits with the size that is returned; the second pass read the other,
-- up to the chain that is returned. The map holds the pages of the second run, each under the number in
-- its frame of the first run, the last one of each number; the counts of frames and of commits and the
-- offset are those of the runs. Afterwards the file was not shorter than that offset, nor did its
-- header, if it had one, bear another salt. The log has a sound header, the reading begins behind it or
-- has a chain to go on from, and it returns frames.
pub page_map-IsBacked :
    (o : Observed) (page_size start_offset : ℕ) (chain_seed : Option Chain) (h : HeaderSeed)
    (bytes : Bytes) (s : Chain) (r : MapRead)
    → o.opened ≡ holding bytes
    → header_seed (length bytes) o.at_header ≡ ok (some h)
    → seed_chain (some h) (start_pos start_offset) chain_seed ≡ some s
    → 0 < r.committed_frames
    → read_frames_as_page_map_checked o page_size start_offset chain_seed ≡ ok r
    → IsBacked o page_size (start_pos start_offset) h s r
unfolding read_frames_as_page_map_checked
page_map-IsBacked o page_size start_offset chain_seed h bytes s r opened header seeded returns e =
    read_map_at_sound o page_size (start_pos start_offset) chain_seed h r s seeded
      (seed_chain-validates h (start_pos start_offset) chain_seed s seeded) returns (length bytes)
      (rw (read_frames_as_page_map_checked, opened, header) at e)
