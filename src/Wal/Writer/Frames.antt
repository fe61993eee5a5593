-- ===== src/Wal/Writer/Frames.antt =====
-- crates/walrust-core/src/wal.rs: the frames of a log that SQLite writes are those that a reader finds,
-- and each passes its check.
use walrust.Base.{
  ℕ, Bool, All, ◌+◌, ◌*◌, ◌<◌, ◌^◌, ◌≡◌, refl, true, some, List, [], ◌∷◌, ◌++◌, length,
  length-append, take, drop, ap, sym, ◌∙◌, Bytes, be_bytes, from_be, arith,
}
use mathlib.Core.List.{append_assoc}
use mathlib.Core.Path.{ap₂}
use native.Mathlib.Nat.{zero-add, suc-add}
use walrust.Wal.Checksum.{Chain, wal_checksum, IsWords, wal_checksum-IsWords}
use walrust.Wal.Header.{HeaderSeed, pair_eq}
use walrust.Wal.Header.Laws.{pair_eq_refl}
use walrust.Wal.Frame.{Frame, frame_size, frame_salt, check_frame, verify_frame_checksum}
use walrust.Wal.Committed.{frame_at, frames_at}
use walrust.Wal.Writer.{Logged, words, next_chain, frame_header, write_frames}

pub from_be-be_bytes_4 : (n : ℕ) → n < 2 ^ 32 → from_be (be_bytes 4 n) ≡ n
from_be-be_bytes_4 n h = omega (arith, h)

-- The fields fit their words, and the page is whole.
abbrev pub IsLogged : ℕ → Logged → Type 0
IsLogged page_size w = (w.page_number < 2 ^ 32) × (w.db_size < 2 ^ 32) × (length w.page ≡ page_size)

check_frame-passes :
    (h : HeaderSeed) (s : Chain) (f : Frame) {n : Chain}
    → pair_eq (frame_salt f) h.salt ≡ true
    → verify_frame_checksum s f.header f.page h.big_endian ≡ some n
    → check_frame true h s f ≡ some n
unfolding check_frame
check_frame-passes h s f salted sound = rw (check_frame, salted) sound

module _ (be : Bool) (salt : ℕ × ℕ) where
  abbrev pub written : Chain → Logged → Frame
  written next w = record { header = frame_header salt next w; page = w.page }

  unfoldable pub written_frames : Chain → List Logged → List Frame
  unfolding next_chain
  written_frames running [] = []
  written_frames running (w ∷ ws) =
      let next : Chain = next_chain be running w in written next w ∷ written_frames next ws

  pub next_chain-IsWords : (s : Chain) (w : Logged) → IsWords s → IsWords (next_chain be s w)
  unfolding next_chain
  next_chain-IsWords s w h =
      wal_checksum-IsWords (wal_checksum s (words w) be) w.page be
        (wal_checksum-IsWords s (words w) be h)

  salt-written : (next : Chain) (w : Logged) → IsWords salt → frame_salt (written next w) ≡ salt
  salt-written next w salts =
      λ i. (from_be-be_bytes_4 salt.0 salts.0 i, from_be-be_bytes_4 salt.1 salts.1 i)

  verify-written :
      (s : Chain) (w : Logged)
      → IsWords s
      → verify_frame_checksum s (frame_header salt (next_chain be s w) w) w.page be
        ≡ some (next_chain be s w)
  unfolding verify_frame_checksum next_chain
  verify-written s w hs =
      let n : Chain = next_chain be s w in
      let fits = next_chain-IsWords s w hs in
      rw (from_be-be_bytes_4 n.0 fits.0, from_be-be_bytes_4 n.1 fits.1, pair_eq_refl n)

  pub check_frame-written :
      (h : HeaderSeed) (s : Chain) (w : Logged)
      → h.salt ≡ salt
      → h.big_endian ≡ be
      → IsWords salt
      → IsWords s
      → check_frame true h s (written (next_chain be s w) w) ≡ some (next_chain be s w)
  check_frame-written h s w same big salts hs =
      let n : Chain = next_chain be s w in
      check_frame-passes h s (written n w)
        (ap (λ x. pair_eq x h.salt) (salt-written n w salts ∙ sym same) ∙ pair_eq_refl h.salt)
        (ap (verify_frame_checksum s (frame_header salt n w) w.page) big ∙ verify-written s w hs)

drop-length_add {ℓ} :
    {A : Type ℓ} (n : ℕ) (xs ys : List A) → drop (length xs + n) (xs ++ ys) ≡ drop n ys
drop-length_add n [] ys = rw zero-add
drop-length_add n (x ∷ xs) ys = rw suc-add (drop-length_add n xs ys)

drop-length {ℓ} : {A : Type ℓ} (xs ys : List A) → drop (length xs) (xs ++ ys) ≡ ys
drop-length [] ys = refl
drop-length (x ∷ xs) ys = drop-length xs ys

take-length {ℓ} : {A : Type ℓ} (xs ys : List A) → take (length xs) (xs ++ ys) ≡ xs
take-length [] ys = refl
take-length (x ∷ xs) ys = ap (λ l. x ∷ l) (take-length xs ys)

-- The frame behind bytes that were written before.
frame_at-written :
    (page_size : ℕ) (be : Bool) (salt : ℕ × ℕ) (next : Chain) (w : Logged) (before rest : Bytes)
    → length w.page ≡ page_size
    → frame_at page_size (before ++ (frame_header salt next w ++ (w.page ++ rest))) (length before)
      ≡ written be salt next w
frame_at-written page_size be salt next w before rest whole =
    let bytes : Bytes = frame_header salt next w ++ (w.page ++ rest) in
    rw (
      drop-length before bytes,
      drop-length_add 24 before bytes,
      ap (λ n. take n (w.page ++ rest)) (sym whole) ∙ take-length w.page rest,
    )

pub length-header :
    (salt : ℕ × ℕ) (next : Chain) (w : Logged) → length (frame_header salt next w) ≡ 24
length-header salt next w = refl

pub frames_at-written :
    (page_size : ℕ) (be : Bool) (salt : ℕ × ℕ) (s : Chain) (ws : List Logged) (before : Bytes)
    → All (IsLogged page_size) ws
    → frames_at page_size (before ++ write_frames be salt s ws) (length ws) (length before)
      ≡ written_frames be salt s ws
unfolding write_frames written_frames
frames_at-written page_size be salt s [] before fit = refl
frames_at-written page_size be salt s (w ∷ ws) before ((number, size, whole), fit) =
    let next : Chain = next_chain be s w in
    let now : Bytes = frame_header salt next w ++ w.page in
    let rest : Bytes = write_frames be salt next ws in
    let regroup : before ++ (frame_header salt next w ++ (w.page ++ rest))
        ≡ (before ++ now) ++ rest =
      ap (λ l. before ++ l) (sym (append_assoc (frame_header salt next w) w.page rest))
      ∙ sym (append_assoc before now rest) in
    let reached : length before + frame_size page_size ≡ length (before ++ now) =
      omega
        (arith, length-append before now, length-append (frame_header salt next w) w.page, whole) in
    ap₂ ◌∷◌ (frame_at-written page_size be salt next w before rest whole) (
      ap (λ b. frames_at page_size b (length ws) (length before + frame_size page_size)) regroup
      ∙ ap (frames_at page_size ((before ++ now) ++ rest) (length ws)) reached
      ∙ frames_at-written page_size be salt next ws (before ++ now) fit)

pub length-write_frames :
    (page_size : ℕ) (be : Bool) (salt : ℕ × ℕ) (s : Chain) (ws : List Logged)
    → All (IsLogged page_size) ws
    → length (write_frames be salt s ws) ≡ length ws * frame_size page_size
unfolding write_frames
length-write_frames page_size be salt s [] fit = omega arith
length-write_frames page_size be salt s (w ∷ ws) ((number, size, whole), fit) =
    let next : Chain = next_chain be s w in
    let rest : Bytes = write_frames be salt next ws in
    omega
      (arith, length-write_frames page_size be salt next ws fit, length-append w.page rest, whole)
