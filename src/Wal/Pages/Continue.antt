-- ===== src/Wal/Pages/Continue.antt =====
-- crates/walrust-core/src/wal.rs: how the search behind an offset goes on where the log keeps the bytes
-- before it.
use walrust.Base.{
  ℕ, ◌+◌, ◌*◌, ◌≤◌, ◌<◌, ◌≡◌, refl, inl, inr, false, Option, none, some, List, [], ◌∷◌, ◌++◌, map,
  length, length-append, Bool-cases, ap, sym, subst, ◌∙◌, if◌then◌else◌, ◌==◌, ◌||◌, Bytes, arith,
}
use mathlib.Core.List.{map-append, append-nil}
use walrust.Wal.Checksum.{Chain}
use walrust.Wal.Header.{HeaderSeed}
use walrust.Wal.Frame.{Frame, frame_size, check_frame}
use walrust.Wal.Reading.{Checks, full_frames, checks, seed_chain, start_pos}
use walrust.Wal.Committed.{Prefix, frames_at, committed, Passes, done, pass, EndsWith}
use walrust.Wal.Committed.Laws.{go_on, committed-append, committed-IsCommitted}
use walrust.Wal.Committed.Grow.{frames_at-append, frames_at-split, full_frames-split}
use walrust.Wal.Committed.Fits.{committed_from, EndsWith-pos}
use walrust.Wal.Pages.{parsed, PagesRead}
use walrust.Wal.Pages.Still.{pages_of}
use walrust.Wal.Pages.Sound.{whole_frames}

-- Without validation the chain stays.
Passes-unchecked : (h : HeaderSeed) {s t : Chain} {fs : List Frame} → Passes false h s fs t → s ≡ t
unfolding check_frame
Passes-unchecked h done = refl
Passes-unchecked h (pass e ps) = cc (Passes-unchecked h ps)

-- The checks of a reading that goes on are those of the reading before, with its chain.
checks-resume :
    (h : Option HeaderSeed) (from next : ℕ) (chain_seed : Option Chain) (t : Chain)
    → (next == 32) ≡ false
    → ((checks h from chain_seed).validate ≡ false → (checks h from chain_seed).running ≡ t)
    → checks h next
        (if (checks h from chain_seed).validate then some t else seed_chain h from chain_seed)
      ≡ record (checks h from chain_seed) { running = t }
unfolding checks seed_chain
checks-resume none from next chain_seed t differs unchecked =
    ap (λ s. record (checks none from chain_seed) { running = s }) (unchecked refl)
checks-resume (some h) from next none t differs unchecked = elim (Bool-cases (from == 32)) [
  | inl first ↦ rw (differs, first)
  | inr later ↦
      rw (differs, later)
        (ap (λ s. record { running = s; validate = false; against = h })
          (subst (λ b. (b || false) ≡ false → (if b then h.seed else (0, 0)) ≡ t) later unchecked
            refl))
]
checks-resume (some h) from next (some s) t differs unchecked = elim (Bool-cases (from == 32)) [
  | inl first ↦ rw (differs, first)
  | inr later ↦ rw (differs, later)
]

seed_chain-resume :
    (h : Option HeaderSeed) (from next : ℕ) (chain_seed o : Option Chain)
    → (next == 32) ≡ false
    → seed_chain h next o ≡ o
unfolding seed_chain
seed_chain-resume none from next chain_seed o differs = refl
seed_chain-resume (some h) from next chain_seed o differs = rw differs

-- The result of the second reading behind that of the first.
unfoldable pub joined : PagesRead → PagesRead → PagesRead
joined r q = record {
  frames = r.frames ++ q.frames;
  new_offset = q.new_offset;
  final_db_size = elim q.frames [ [] ↦ r.final_db_size | f ∷ fs ↦ q.final_db_size ];
  out_chain = q.out_chain;
}

pub beyond :
    (from n page_size offset : ℕ)
    → 32 ≤ from
    → 0 < n
    → offset ≡ from + n * frame_size page_size
    → 32 < offset
beyond from n page_size offset behind positive e = grind arith

pub start_pos_lem : (n : ℕ) → 32 < n → start_pos n ≡ n
unfolding start_pos
start_pos_lem n h = ground arith

distribute : (a b c d : ℕ) → a + (b + c) * d ≡ a + b * d + c * d
distribute a b c d = grind arith

-- What the first reading leaves to the second, where the log keeps the bytes that were read.
module _ (page_size : ℕ) (bytes more : Bytes) (from : ℕ) (chain_seed : Option Chain)
    (h : Option HeaderSeed) (gs : List Frame) (t : Chain) (size : ℕ) where
  abbrev pub c : Checks
  c = checks h from chain_seed

  abbrev pub next : ℕ
  next = from + length gs * frame_size page_size

  abbrev pub after : Option Chain
  after = if c.validate then some t else seed_chain h from chain_seed

  whole_frames-split :
      next ≤ length bytes
      → frames_at page_size bytes (length gs) from ≡ gs
      → whole_frames page_size (bytes ++ more) from
        ≡ gs ++ whole_frames page_size (bytes ++ more) next
  whole_frames-split fits kept =
      let n : ℕ = full_frames page_size (length (bytes ++ more)) next in
      ap (λ k. frames_at page_size (bytes ++ more) k from)
        (full_frames-split page_size (length gs) (length (bytes ++ more)) from
          (omega (arith, fits, length-append bytes more)))
      ∙ frames_at-split page_size (bytes ++ more) (length gs) n from
      ∙ ap (λ l. l ++ frames_at page_size (bytes ++ more) n next)
          (frames_at-append page_size bytes more (length gs) from fits ∙ kept)

  abbrev pub first : PagesRead
  first = record {
    frames = map parsed gs;
    new_offset = next;
    final_db_size = size;
    out_chain = after;
  }

  -- The size is that of the second reading where it returns frames.
  last_size :
      (fs : List Frame) (n : ℕ)
      → 0 < length fs
      → n ≡ elim (map parsed fs) [ [] ↦ size | f ∷ rest ↦ n ]
  last_size [] n some_frames = absurd (omega (arith, some_frames))
  last_size (f ∷ fs) n some_frames = refl

  joined-some :
      (out : Option Chain) (p : Prefix)
      → 0 < length p.frames
      → record {
        frames = map parsed (gs ++ p.frames);
        new_offset = from + length (gs ++ p.frames) * frame_size page_size;
        final_db_size = p.size;
        out_chain = out;
      }
        ≡ joined first (record {
          frames = map parsed p.frames;
          new_offset = next + length p.frames * frame_size page_size;
          final_db_size = p.size;
          out_chain = out;
        })
  unfolding joined
  joined-some out p some_frames =
      let offset : from + length (gs ++ p.frames) * frame_size page_size
          ≡ next + length p.frames * frame_size page_size =
        rw (length-append gs p.frames)
          (distribute from (length gs) (length p.frames) (frame_size page_size)) in
      rw (joined, ← last_size p.frames p.size some_frames, map-append parsed gs p.frames, offset)

  joined-go_on :
      (o : Option Prefix)
      → ((p : Prefix) → o ≡ some p → 0 < length p.frames)
      → pages_of c page_size from chain_seed
          (seed_chain h from chain_seed)
          (go_on c.validate c.against gs t size o)
        ≡ joined first (pages_of (record c { running = t }) page_size next after after o)
  unfolding joined
  joined-go_on none full = ap (λ l. record first { frames = l }) (sym (append-nil (map parsed gs)))
  joined-go_on (some p) full = elim (Bool-cases c.validate) [
    | inl v ↦ rw v (joined-some (some p.chain) p (full p refl))
    | inr v ↦ rw v (joined-some (seed_chain h from chain_seed) p (full p refl))
  ]

  pub resumed :
      next ≤ length bytes
      → (next == 32) ≡ false
      → frames_at page_size bytes (length gs) from ≡ gs
      → Passes c.validate c.against c.running gs t
      → EndsWith c.validate c.against size gs
      → pages_of c page_size from chain_seed
          (seed_chain h from chain_seed)
          (committed_from c page_size (bytes ++ more) from)
        ≡ joined first (
            pages_of
              (checks h next after)
              page_size
              next
              after
              (seed_chain h next after)
              (committed_from (checks h next after) page_size (bytes ++ more) next))
  resumed fits differs kept passes ends =
      let whole : List Frame = whole_frames page_size (bytes ++ more) next in
      let search =
        ap (committed c.validate c.against c.running) (whole_frames-split fits kept)
        ∙ committed-append c.validate c.against c.running t gs whole size passes ends in
      rw
        (
          seed_chain-resume h from next chain_seed after differs,
          checks-resume h from next chain_seed t differs (λ v.
              Passes-unchecked c.against (subst (λ b. Passes b c.against c.running gs t) v passes)),
        )
        (ap (pages_of c page_size from chain_seed (seed_chain h from chain_seed)) search
          ∙ joined-go_on (committed c.validate c.against t whole) (λ p found.
            EndsWith-pos c.validate c.against
              (committed-IsCommitted c.validate c.against t whole found).ends))
