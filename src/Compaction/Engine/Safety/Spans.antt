-- ===== src/Compaction/Engine/Safety/Spans.antt =====
-- The range of a merge holds the ranges of its sources.
use walrust.Base.{
  ℕ, ◌+◌, ◌≤◌, ◌<◌, ◌≡◌, true, List, [], ◌∷◌, map, arith, take, drop, In, here, there,
  take-drop-take, map-take, map-drop, u64_max, ◌∙◌, ap,
}
use walrust.Compaction.Layout.{LayoutFile}
use walrust.Compaction.Engine.Batch.Laws.{IsRun}
use walrust.Compaction.Engine.Select.{range_subset}
use walrust.Compaction.Engine.Run.{last_of}

-- Ranges that are not inverted and end below the last number.
abbrev pub HasRanges : List LayoutFile → Type 0
HasRanges files =
    (f : LayoutFile) → In f files → (f.range.min ≤ f.range.max) × (f.range.max < u64_max)

run_within :
    (f : LayoutFile) (fs : List LayoutFile)
    → IsRun (map (λ g. g.range) (f ∷ fs))
    → HasRanges (f ∷ fs)
    → (g : LayoutFile) → In g (f ∷ fs)
    → (f.range.min ≤ g.range.min) × (g.range.max ≤ (last_of f fs).range.max)
run_within f [] run ok g here = (omega arith, omega arith)
run_within f [] run ok g (there m) = elim m [ ]
run_within f (h ∷ fs) run ok g here =
    let first = run_within h fs run.1 (λ x n. ok x (there n)) h here in
    (omega arith, ground (arith, run.0, ok f here, ok h (there here), first))
run_within f (h ∷ fs) run ok g (there m) =
    let r = run_within h fs run.1 (λ x n. ok x (there n)) g m in
    (ground (arith, run.0, ok f here, r), r.1)

pub run-range_subset :
    (f : LayoutFile) (fs : List LayoutFile)
    → IsRun (map (λ g. g.range) (f ∷ fs))
    → HasRanges (f ∷ fs)
    → (g : LayoutFile) → In g (f ∷ fs)
    → range_subset g.range (record { min = f.range.min; max = (last_of f fs).range.max }) ≡ true
unfolding range_subset
run-range_subset f fs run ok g m = let r = run_within f fs run ok g m in ground (arith, r.0, r.1)

-- The ranges of a batch, which is found among the eligible ones, are those of its files.
pub batch_ranges :
    (files : List LayoutFile) (eligible start len : ℕ)
    → start + len ≤ eligible
    → take len (drop start (map (λ f. f.range) (take eligible files)))
      ≡ map (λ f. f.range) (take len (drop start files))
batch_ranges files eligible start len h =
    ap (take len) (map-drop (λ f. f.range) start (take eligible files))
    ∙ map-take (λ f. f.range) len (drop start (take eligible files))
    ∙ ap (map (λ f. f.range)) (take-drop-take len start eligible files h)
