-- ===== src/Wal/PageMap/Verified.antt =====
-- crates/walrust-core/src/wal.rs: the second pass of `read_frames_as_page_map_checked`, over a file that may
-- change, verifies each frame anew.
use walrust.Base.{
  ℕ, suc, ◌+◌, ◌≤◌, ◌≡◌, refl, inl, inr, Bool, true, false, Option, some, List, [], ◌∷◌, length,
  ltb, Bool-cases, Option-cases, >>=-eq-ok, sym, subst, ok, Bytes, arith, take, map, All, ap, ◌∙◌,
  zero, ◌*◌,
}
use walrust.Wal.Checksum.{Chain}
use walrust.Wal.PageMap.Passes.{header_pair}
use walrust.Wal.Header.{
  pair_eq, WalFile, HeaderSeed, get_wal_size, same_salt, detect_reset_during_read,
}
use walrust.Wal.Frame.{
  Frame, frame_size, read_frame, verify_frame_checksum, frame_salt, check_frame, page_number,
  db_size,
}
use walrust.Wal.Reading.{Observed, Checks}
use walrust.Wal.PageMap.{
  PageMap, insert_page, FrameHeaders, MapRead, last_commit, reverify, emit_loop, scan_loop,
  commits_of,
}

-- Frames that were read one after another, each in its round, and whose checksums continue a chain.
pub data Verified (page_size : ℕ) (big_endian : Bool) (view : ℕ → Bytes)
    : ℕ → ℕ → Chain → List Frame → Chain → Type 0 where
  done : {round pos : ℕ} {s : Chain} → Verified page_size big_endian view round pos s [] s
  next :
      {round pos : ℕ} {s n t : Chain} {f : Frame} {fs : List Frame}
      → read_frame page_size (view round) pos ≡ ok f
      → verify_frame_checksum s f.header f.page big_endian ≡ some n
      → Verified page_size big_endian view (suc round) (pos + frame_size page_size) n fs t
      → Verified page_size big_endian view round pos s (f ∷ fs) t

-- The map of the pages of frames, under the numbers that the first pass read.
pub store_pages : PageMap → FrameHeaders → List Frame → PageMap
store_pages m ((n, size) ∷ headers) (f ∷ fs) = store_pages (insert_page n f.page m) headers fs
store_pages m headers fs = m

pub Verified-take :
    (n : ℕ) {page_size : ℕ} {big_endian : Bool} {view : ℕ → Bytes} {round pos : ℕ} {s t : Chain}
    {fs : List Frame}
    → Verified page_size big_endian view round pos s fs t
    → (u : Chain) × Verified page_size big_endian view round pos s (take n fs) u
Verified-take zero {s} v = (s, done)
Verified-take (suc n) {s} done = (s, done)
Verified-take (suc n) (next read sound v) = let (u, w) = Verified-take n v in (u, next read sound w)

pub All-take : {A : Type 0} (P : A → Type 0) (n : ℕ) (xs : List A) → All P xs → All P (take n xs)
All-take P zero xs a = tt
All-take P (suc n) [] a = tt
All-take P (suc n) (x ∷ xs) (p, a) = (p, All-take P n xs a)

module _ (c : Checks) (page_size : ℕ) (view : ℕ → Bytes) (validates : c.validate ≡ true) where
  reverify_sound :
      (round : ℕ) (s : Chain) (f : Frame) (o : Option Chain)
      → reverify c round (some s) f ≡ ok o
      → (n : Chain) × (o ≡ some n)
        × (verify_frame_checksum s f.header f.page c.against.big_endian ≡ some n)
  unfolding reverify
  reverify_sound round s f o e =
      elim (Option-cases (verify_frame_checksum s f.header f.page c.against.big_endian)) [
        | inl bad ↦ absurd (cc (rw (reverify, validates, bad) at e))
        | inr (n, good) ↦ (n, sym (cc (rw (reverify, validates, good) at e)), good)
      ]

  check_frame_sound :
      (s : Chain) (f : Frame) {n : Chain}
      → check_frame c.validate c.against s f ≡ some n
      → (pair_eq (frame_salt f) c.against.salt ≡ true)
        × (verify_frame_checksum s f.header f.page c.against.big_endian ≡ some n)
  unfolding check_frame
  check_frame_sound s f e = elim (Bool-cases (pair_eq (frame_salt f) c.against.salt)) [
    | inl salted ↦ (salted, (rw (check_frame, validates, salted) at e))
    | inr other ↦ absurd (cc (rw (check_frame, validates, other) at e))
  ]

  -- The frames that the first pass reads.
  pub scan_loop_sound :
      (left round pos : ℕ) (s : Chain) (headers : FrameHeaders)
      → scan_loop c page_size view left round pos s ≡ ok headers
      → (fs : List Frame) × (t : Chain) × Verified page_size c.against.big_endian view round pos s
          fs t
        × All (λ f. pair_eq (frame_salt f) c.against.salt ≡ true) fs
        × (headers ≡ map header_pair fs)
  unfolding scan_loop
  scan_loop_sound zero round pos s headers e = ([], s, done, tt, sym (cc e))
  scan_loop_sound (suc left) round pos s headers e =
      let (f, read, e1) = >>=-eq-ok (read_frame page_size (view round) pos) _ e in
      elim (Option-cases (check_frame c.validate c.against s f)) [
        | inl bad ↦ ([], s, done, tt, sym (cc (rw bad at e1)))
        | inr (n, good) ↦
            let (rest, scanned, e2) =
              >>=-eq-ok (scan_loop c page_size view left (suc round) (pos + frame_size page_size) n)
                (λ rest. ok ((page_number f, db_size f) ∷ rest)) (rw good at e1) in
            let (fs, t, v, salted, same) =
              scan_loop_sound left (suc round) (pos + frame_size page_size) n rest scanned in
            let (salt, sound) = check_frame_sound s f good in
            (
              f ∷ fs,
              t,
              next read sound v,
              (salt, salted),
              sym (cc e2) ∙ ap (λ l. (page_number f, db_size f) ∷ l) same,
            )
      ]

  pub emit_loop_sound :
      (headers : FrameHeaders) (round pos : ℕ) (s : Chain) (m : PageMap)
      (out : PageMap × Option Chain)
      → emit_loop c page_size view headers round pos (some s) m ≡ ok out
      → (fs : List Frame) × (t : Chain) × Verified page_size c.against.big_endian view round pos s
          fs t
        × (length fs ≡ length headers)
        × (out.0 ≡ store_pages m headers fs)
        × (out.1 ≡ some t)
  unfolding emit_loop store_pages
  emit_loop_sound [] round pos s m out e = ([], s, done, refl, cc e, cc e)
  emit_loop_sound ((n, size) ∷ headers) round pos s m out e =
      let (f, read, e1) = >>=-eq-ok (read_frame page_size (view round) pos) _ e in
      let (o, verified, e2) = >>=-eq-ok (reverify c round (some s) f) _ e1 in
      let (v, same, sound) = reverify_sound round s f o verified in
      let (fs, t, rest, count, stored, out_chain) =
        emit_loop_sound headers (suc round) (pos + frame_size page_size) v (insert_page n f.page m)
          out
          (subst
            (λ x.
              emit_loop c page_size view headers (suc round) (pos + frame_size page_size) x
                (insert_page n f.page m)
              ≡ ok out)
            same e2) in
      (f ∷ fs, t, next read sound rest, omega (arith, count), stored, out_chain)

-- What stands behind a map that was returned.
pub record IsBacked (o : Observed) (page_size from : ℕ) (h : HeaderSeed) (s : Chain) (r : MapRead)
    : Type 0 where
  pub scanned : List Frame
  pub scan_end : Chain
  pub scan : Verified page_size h.big_endian o.pass_one 0 from s scanned scan_end
  pub salted : All (λ f. pair_eq (frame_salt f) h.salt ≡ true) scanned
  pub commits : last_commit (map header_pair scanned) ≡ some (length scanned, r.final_db_size)
  pub commit_count : r.commit_count ≡ commits_of (map header_pair scanned)
  pub frames : List Frame
  pub chain : Chain
  pub verified : Verified page_size h.big_endian o.pass_two 0 from s frames chain
  pub same_count : length scanned ≡ length frames
  pub all_committed : length frames ≡ r.committed_frames
  pub stored : r.page_map ≡ store_pages [] (map header_pair scanned) frames
  pub ends : r.new_offset ≡ from + length frames * frame_size page_size
  pub out : r.out_chain ≡ some chain
  pub size : ℕ
  pub size_after : get_wal_size o.size_after ≡ ok size
  pub not_shrunk : r.new_offset ≤ size
  pub salt_after : same_salt o.header_after h.salt ≡ ok tt

ltb-false-le : (a b : ℕ) → ltb a b ≡ false → b ≤ a
ltb-false-le a b h = ground arith

pub last_commit_bound :
    (headers : FrameHeaders) (count final : ℕ)
    → last_commit headers ≡ some (count, final)
    → count ≤ length headers
unfolding last_commit
last_commit_bound [] count final e = absurd (cc e)
last_commit_bound ((n, size) ∷ headers) count final e = elim (Option-cases (last_commit headers)) [
  | inr ((k, f), found) ↦
      let same : suc k ≡ count = cc (rw (last_commit, found) at e) in
      omega (arith, same, last_commit_bound headers k f found)
  | inl nothing ↦ elim (Bool-cases (ltb 0 size)) [
    | inl commits ↦
        let same : 1 ≡ count = cc (rw (last_commit, nothing, commits) at e) in omega (arith, same)
    | inr plain ↦ absurd (cc (rw (last_commit, nothing, plain) at e))
  ]
]

pub detect_reset_sound :
    (size_file header_file : WalFile) (end : ℕ) (salt : ℕ × ℕ)
    → detect_reset_during_read size_file header_file end (some salt) ≡ ok tt
    → (size : ℕ) × (get_wal_size size_file ≡ ok size)
      × (end ≤ size)
      × (same_salt header_file salt ≡ ok tt)
unfolding detect_reset_during_read
detect_reset_sound size_file header_file end salt e =
    let (size, found, e1) = >>=-eq-ok (get_wal_size size_file) _ e in
    elim (Bool-cases (ltb size end)) [
      | inl shrunk ↦ absurd (cc (rw shrunk at e1))
      | inr fits ↦ (size, found, ltb-false-le size end fits, (rw fits at e1))
    ]

-- The frames up to the last commit end with it.
pub last_commit-take :
    (headers : FrameHeaders) (count final : ℕ)
    → last_commit headers ≡ some (count, final)
    → last_commit (take count headers) ≡ some (count, final)
unfolding last_commit
last_commit-take [] count final e = absurd (cc e)
last_commit-take ((n, size) ∷ headers) count final e = elim (Option-cases (last_commit headers)) [
  | inr ((k, f), found) ↦
      let same : suc k ≡ count = cc (rw (last_commit, found) at e) in
      let size_same : f ≡ final = cc (rw (last_commit, found) at e) in
      let later = last_commit-take headers k f found in
      subst (λ m. last_commit (take m ((n, size) ∷ headers)) ≡ some (m, final)) same
        (rw (last_commit, later, size_same) refl)
  | inl nothing ↦ elim (Bool-cases (ltb 0 size)) [
    | inl commits ↦
        let same : 1 ≡ count = cc (rw (last_commit, nothing, commits) at e) in
        let size_same : size ≡ final = cc (rw (last_commit, nothing, commits) at e) in
        subst (λ m. last_commit (take m ((n, size) ∷ headers)) ≡ some (m, final)) same
          (rw commits (ap (λ m. some (1, m)) size_same))
    | inr plain ↦ absurd (cc (rw (last_commit, nothing, plain) at e))
  ]
]
