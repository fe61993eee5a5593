-- ===== src/Wal/Committed/Laws.antt =====
-- crates/walrust-core/src/wal.rs: the committed prefix passes, ends with a commit, and is the longest
-- that does; and a reader can go on behind it.
use walrust.Base.{
  ℕ, ◌≤◌, ◌<◌, ◌≡◌, refl, inl, inr, Bool, true, Option, none, some, List, [], ◌∷◌, ◌++◌, length,
  ltb, Bool-cases, Option-cases, ap, subst, ◌∙◌, length-append, lt→ltb, tests, arith,
}
use walrust.Wal.Checksum.{Chain}
use walrust.Wal.Header.{HeaderSeed}
use walrust.Wal.Frame.{Frame, db_size, check_frame}
use walrust.Wal.Committed.{Prefix, committed, Passes, done, pass, EndsWith, last, more}

module _ (validate : Bool) (h : HeaderSeed) where
  -- What a prefix found is.
  pub record IsCommitted (s : Chain) (fs : List Frame) (p : Prefix) : Type 0 where
    pub tail : List Frame
    pub splits : fs ≡ p.frames ++ tail
    pub passes : Passes validate h s p.frames p.chain
    pub ends : EndsWith validate h p.size p.frames

  abbrev cons_prefix : Frame → Prefix → Prefix
  cons_prefix f p = record p { frames = f ∷ p.frames }

  cons-IsCommitted :
      (s next : Chain) (f : Frame) (fs : List Frame) (p : Prefix)
      → check_frame validate h s f ≡ some next
      → IsCommitted next fs p
      → IsCommitted s (f ∷ fs) (cons_prefix f p)
  cons-IsCommitted s next f fs p e c = record {
    tail = c.tail;
    splits = ap (λ l. f ∷ l) c.splits;
    passes = pass e c.passes;
    ends = more c.ends;
  }

  abbrev single : Frame → Chain → Prefix
  single f next = record { frames = f ∷ []; chain = next; size = db_size f }

  single-IsCommitted :
      (s next : Chain) (f : Frame) (fs : List Frame)
      → check_frame validate h s f ≡ some next
      → ltb 0 (db_size f) ≡ true
      → IsCommitted s (f ∷ fs) (single f next)
  single-IsCommitted s next f fs e commits = record {
    tail = fs;
    splits = refl;
    passes = pass e done;
    ends = last refl (omega (tests, commits));
  }

  pub committed-IsCommitted :
      (s : Chain) (fs : List Frame) {p : Prefix}
      → committed validate h s fs ≡ some p
      → IsCommitted s fs p
  unfolding committed
  committed-IsCommitted s [] e = cc
  committed-IsCommitted s (f ∷ fs) {p} e = elim (Option-cases (check_frame validate h s f)) [
    | inl bad ↦ cc (rw (bad, committed) at e)
    | inr (next, good) ↦ elim (Option-cases (committed validate h next fs)) [
      | inr (q, rest) ↦
          let same : cons_prefix f q ≡ p = cc (rw (good, rest, committed) at e) in
          subst (IsCommitted s (f ∷ fs)) same
            (cons-IsCommitted s next f fs q good (committed-IsCommitted next fs rest))
      | inl rest ↦ elim (Bool-cases (ltb 0 (db_size f))) [
        | inl yes_commits ↦
            let same : single f next ≡ p = cc (rw (good, rest, yes_commits, committed) at e) in
            subst (IsCommitted s (f ∷ fs)) same (single-IsCommitted s next f fs good yes_commits)
        | inr no_commit ↦ cc (rw (good, rest, no_commit, committed) at e)
      ]
    ]
  ]

  committed-more :
      (s next : Chain) (f : Frame) (fs : List Frame) (q : Prefix)
      → check_frame validate h s f ≡ some next
      → committed validate h next fs ≡ some q
      → committed validate h s (f ∷ fs) ≡ some (cons_prefix f q)
  unfolding committed
  committed-more s next f fs q e rest = rw (committed, e, rest)

  committed-single :
      (s next : Chain) (f : Frame) (fs : List Frame)
      → check_frame validate h s f ≡ some next
      → committed validate h next fs ≡ none
      → 0 < db_size f
      → committed validate h s (f ∷ fs) ≡ some (single f next)
  unfolding committed
  committed-single s next f fs e rest positive =
      rw (committed, e, rest, lt→ltb 0 (db_size f) positive)

  -- Behind frames that pass and end with a commit the search begins anew.
  abbrev pub go_on : List Frame → Chain → ℕ → Option Prefix → Option Prefix
  go_on gs t size none = some (record { frames = gs; chain = t; size = size })
  go_on gs t size (some p) = some (record p { frames = gs ++ p.frames })

  go_on-cons :
      (s next : Chain) (f : Frame) (fs gs : List Frame) (t : Chain) (size : ℕ) (o : Option Prefix)
      → check_frame validate h s f ≡ some next
      → committed validate h next fs ≡ go_on gs t size o
      → committed validate h s (f ∷ fs) ≡ go_on (f ∷ gs) t size o
  go_on-cons s next f fs gs t size none e rest = committed-more s next f fs _ e rest
  go_on-cons s next f fs gs t size (some p) e rest = committed-more s next f fs _ e rest

  pub committed-append :
      (s t : Chain) (gs tail : List Frame) (size : ℕ)
      → Passes validate h s gs t
      → EndsWith validate h size gs
      → committed validate h s (gs ++ tail) ≡ go_on gs t size (committed validate h t tail)
  committed-append s t [] tail size ps ends = elim ends [ ]
  committed-append s t (f ∷ []) tail size (pass e done) (last sized positive) =
      elim (Option-cases (committed validate h t tail)) [
        | inr (q, rest) ↦ rw rest (committed-more s t f tail q e rest)
        | inl rest ↦ rw rest (
            committed-single s t f tail e rest (omega (arith, sized, positive))
            ∙ ap (λ n. some (record { frames = f ∷ []; chain = t; size = n })) sized)
      ]
  committed-append s t (f ∷ []) tail size ps (more ends) = elim ends [ ]
  committed-append s t (f ∷ g ∷ gs) tail size (pass {next} e ps) (more ends) =
      go_on-cons s next f _ (g ∷ gs) t size (committed validate h t tail) e
        (committed-append next t (g ∷ gs) tail size ps ends)

  -- No longer run of frames passes and ends with a commit.
  pub committed_longest :
      (s t : Chain) (gs tail : List Frame) (size : ℕ)
      → Passes validate h s gs t
      → EndsWith validate h size gs
      → (p : Prefix) × (committed validate h s (gs ++ tail) ≡ some p)
        × (length gs ≤ length p.frames)
  committed_longest s t gs tail size ps ends = elim (Option-cases (committed validate h t tail)) [
    | inl rest ↦ (
      record { frames = gs; chain = t; size = size },
      committed-append s t gs tail size ps ends ∙ ap (go_on gs t size) rest,
      omega arith,
    )
    | inr (q, rest) ↦ (
      record q { frames = gs ++ q.frames },
      committed-append s t gs tail size ps ends ∙ ap (go_on gs t size) rest,
      omega (arith, length-append gs q.frames),
    )
  ]
