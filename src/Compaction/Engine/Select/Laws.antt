-- ===== src/Compaction/Engine/Select/Laws.antt =====
-- What `find_existing_merged` finds, and what it refuses.
use walrust.Base.{
  ℕ, ◌≤◌, ◌≡◌, ◌⊎◌, inl, inr, refl, ◌∙◌, sym, subst, true, false, Option, none, some, List, [], ◌∷◌,
  Result, ok, err, In, here, there, All, Bool-cases, leb, arith,
}
use walrust.Compaction.Layout.{SeqRange, LayoutFile, range_eq, IsOrdered}
use walrust.Compaction.Errors.{CompactionError, overlapping_existing}
use walrust.Compaction.Engine.Select.{ranges_overlap, find_loop, find_existing_merged}

-- A number lies in both ranges.
abbrev pub IsShared : SeqRange → SeqRange → Type 0
IsShared a b = (n : ℕ) × (a.min ≤ n) × (n ≤ a.max) × (b.min ≤ n) × (n ≤ b.max)

ranges_overlap-IsShared :
    (a b : SeqRange) → IsOrdered a → IsOrdered b → ranges_overlap a b ≡ true → IsShared a b
unfolding ranges_overlap
ranges_overlap-IsShared a b oa ob h = elim (Bool-cases (leb a.min b.min)) [
  | inl e ↦ (b.min, ground arith, ground arith, omega arith, ob)
  | inr e ↦ (a.min, omega arith, oa, ground arith, ground arith)
]

ranges_overlap-none : (a b : SeqRange) → ranges_overlap a b ≡ false → ¬ IsShared a b
unfolding ranges_overlap
ranges_overlap-none a b h (n, p, q, r, s) = ground (arith, h, p, q, r, s)

-- A file of another range that shares numbers with the range.
abbrev pub IsForeign : SeqRange → LayoutFile → Type 0
IsForeign range f = (range_eq f.range range ≡ false) × IsShared f.range range

-- The three outcomes: a foreign object is refused; else an object of the range is found; else there
-- is none.
abbrev pub IsFound :
    SeqRange → List LayoutFile → Result (Option LayoutFile) CompactionError → Type 0
IsFound range files (err e) =
    (e ≡ overlapping_existing) × (f : LayoutFile) × In f files × IsForeign range f
IsFound range files (ok (some f)) =
    In f files × (range_eq f.range range ≡ true) × All (λ g. ¬ IsForeign range g) files
IsFound range files (ok none) =
    All (λ g. (range_eq g.range range ≡ false) × (¬ IsShared g.range range)) files

-- The same of the loop, with the match that it starts from.
abbrev IsFoundFrom :
    SeqRange
    → Option LayoutFile
    → List LayoutFile
    → Result (Option LayoutFile) CompactionError
    → Type 0
IsFoundFrom range exact files (err e) =
    (e ≡ overlapping_existing) × (f : LayoutFile) × In f files × IsForeign range f
IsFoundFrom range exact files (ok (some f)) =
    ((exact ≡ some f) ⊎ In f files × (range_eq f.range range ≡ true))
    × All (λ g. ¬ IsForeign range g) files
IsFoundFrom range exact files (ok none) =
    (exact ≡ none) × All (λ g. (range_eq g.range range ≡ false) × (¬ IsShared g.range range)) files

module _ (range : SeqRange) (f : LayoutFile) (files : List LayoutFile) where
  -- A file of exactly the range.
  match-step :
      (exact : Option LayoutFile) (r : Result (Option LayoutFile) CompactionError)
      → range_eq f.range range ≡ true
      → IsFoundFrom range (some f) files r
      → IsFoundFrom range exact (f ∷ files) r
  match-step exact (err e) q (p, g, m, o) = (p, g, there m, o)
  match-step exact (ok none) q (p, a) = absurd (cc p)
  match-step exact (ok (some g)) q (inl p, a) =
      let same : f ≡ g = cc in
      (
        inr (
          subst (λ (x : LayoutFile). In x (f ∷ files)) same here,
          subst (λ (x : LayoutFile). range_eq x.range range ≡ true) same q,
        ),
        (λ o. cc (sym q ∙ o.0), a),
      )
  match-step exact (ok (some g)) q (inr (m, e), a) = (inr (there m, e), (λ o. cc (sym q ∙ o.0), a))

  -- A file that shares no number with the range.
  pass-step :
      (exact : Option LayoutFile) (r : Result (Option LayoutFile) CompactionError)
      → range_eq f.range range ≡ false
      → ¬ IsShared f.range range
      → IsFoundFrom range exact files r
      → IsFoundFrom range exact (f ∷ files) r
  pass-step exact (err e) q n (p, g, m, o) = (p, g, there m, o)
  pass-step exact (ok none) q n (p, a) = (p, ((q, n), a))
  pass-step exact (ok (some g)) q n (inl p, a) = (inl p, (λ o. n o.1, a))
  pass-step exact (ok (some g)) q n (inr (m, e), a) = (inr (there m, e), (λ o. n o.1, a))

find_loop-IsFoundFrom :
    (range : SeqRange) (exact : Option LayoutFile) (files : List LayoutFile)
    → IsOrdered range
    → All (λ g. IsOrdered g.range) files
    → IsFoundFrom range exact files (find_loop range exact files)
unfolding find_loop
find_loop-IsFoundFrom range none [] o a = (refl, tt)
find_loop-IsFoundFrom range (some f) [] o a = (inl refl, tt)
find_loop-IsFoundFrom range exact (f ∷ files) o (of, a) =
    elim (Bool-cases (range_eq f.range range)) [
      | inl q ↦
          rw q (match-step range f files exact _ q (find_loop-IsFoundFrom range (some f) files o a))
      | inr q ↦ elim (Bool-cases (ranges_overlap f.range range)) [
        | inl s ↦ rw (q, s) (refl, f, here, (q, ranges_overlap-IsShared f.range range of o s))
        | inr s ↦
            rw (q, s)
              (pass-step range f files exact _ q (ranges_overlap-none f.range range s)
                (find_loop-IsFoundFrom range exact files o a))
      ]
    ]

-- An object of another range that shares numbers with the target range is refused, and only that;
-- else an object of exactly the range is found if there is one (ordered ranges).
pub find_existing_merged-IsFound :
    (target_files : List LayoutFile) (range : SeqRange)
    → IsOrdered range
    → All (λ f. IsOrdered f.range) target_files
    → IsFound range target_files (find_existing_merged target_files range)
unfolding find_existing_merged
find_existing_merged-IsFound files range o a =
    known (find_loop range none files) (find_loop-IsFoundFrom range none files o a)
  where
    known :
        (r : Result (Option LayoutFile) CompactionError)
        → IsFoundFrom range none files r
        → IsFound range files r
    known (err e) h = h
    known (ok none) (p, a) = a
    known (ok (some f)) (inl p, a) = absurd (cc p)
    known (ok (some f)) (inr (m, e), a) = (m, e, a)
