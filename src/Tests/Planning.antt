-- ===== src/Tests/Planning.antt =====
-- crates/walrust-core/src/compaction/planner.rs, restore.rs and coverage.rs at concrete data.
use walrust.Base.{
  ℕ, zero, suc, ◌↔◌, ◌≤◌, ◌<◌, ◌≡◌, ◌≢◌, ◌⊎◌, refl, none, some, true, false, List, [], ◌∷◌, arith,
  In, here, there, All, Result, ok, err, String, length, pos,
}
use walrust.Compaction.Layout.{Level, SeqRange, LayoutFile}
use walrust.Compaction.Planner.{
  PlanCandidate, RestorePlan, chain_gap, pitr_inside_merged_window, pitr_inside_snapshot_span,
  plan_restore, refine_gap_with_snapshot_spans,
}
use walrust.Compaction.Planner.Chain.{Chains}
use walrust.Compaction.Planner.Sound.{plan_restore-Chains, plan_restore-ends}
use walrust.Compaction.Planner.Complete.{IsLaminar, plan_restore_complete}
use walrust.Compaction.Planner.Refuse.{Explains, plan_restore-Explains, refine_gap_lem}
use walrust.Compaction.Planner.Gather.{
  listing, all_candidates, plan_over_layout, plan_gathered, plan_over_layout-eq-plan,
  plan_over_layout-listing,
}
use walrust.Compaction.Coverage.{ranges_cover}
use walrust.Compaction.Coverage.Laws.{Holds, ranges_cover_iff}

abbrev span : ℕ → ℕ → SeqRange
span a b = record { min = a; max = b }

abbrev object : String → Level → ℕ → ℕ → PlanCandidate
object k l a b = record { key = k; level = l; range = span a b }

-- A merged object beside two of the points that it supersedes, and the fine tail.
abbrev bucket : List PlanCandidate
bucket =
    object "0000/4" 0 4 4
    ∷ object "0000/5" 0 5 5
    ∷ object "L1/4-5" 1 4 5
    ∷ object "0000/6" 0 6 6
    ∷ []

abbrev plan : RestorePlan
plan = record { floor = 3; target = 6; files = object "L1/4-5" 1 4 5 ∷ object "0000/6" 0 6 6 ∷ [] }

plan-bucket : plan_restore bucket 3 6 ≡ some (ok plan)
unfolding plan_restore
plan-bucket = refl

gap_after_six : plan_restore bucket 3 9 ≡ some (err (chain_gap 7 6))
unfolding plan_restore
gap_after_six = refl

inside_window :
    plan_restore (object "L1/4-10" 1 4 10 ∷ []) 3 7
    ≡ some (err (pitr_inside_merged_window 7 4 10 3 10))
unfolding plan_restore
inside_window = refl

-- Over candidates that cross, extending furthest can miss a plan: 1-3 and 4-9 would do.
crossing :
    plan_restore (object "a" 1 1 5 ∷ object "b" 1 1 3 ∷ object "c" 1 4 9 ∷ []) 0 9
    ≡ some (err (chain_gap 6 5))
unfolding plan_restore
crossing = refl

plan_restore-Chains_example : Chains 3 plan.files 6 × All (λ c. In c bucket) plan.files
plan_restore-Chains_example =
    plan_restore-Chains bucket 3 6 (omega arith) {plan = plan} (omega arith) plan-bucket

plan_restore-ends_example : plan_restore bucket 3 9 ≢ none
plan_restore-ends_example = plan_restore-ends bucket 3 9 (omega arith)

abbrev two : List PlanCandidate
two = object "L1/4-5" 1 4 5 ∷ object "0000/5" 0 5 5 ∷ []

two-IsLaminar : IsLaminar two
two-IsLaminar a b here here = omega arith
two-IsLaminar a b here (there here) = omega arith
two-IsLaminar a b here (there (there m)) = elim m [ ]
two-IsLaminar a b (there here) here = omega arith
two-IsLaminar a b (there here) (there here) = omega arith
two-IsLaminar a b (there here) (there (there m)) = elim m [ ]
two-IsLaminar a b (there (there m)) j = elim m [ ]

plan_restore_complete_example :
    (p : RestorePlan) × (plan_restore two 3 5 ≡ some (ok p)) × (length p.files ≤ 1)
plan_restore_complete_example =
    plan_restore_complete two 3 5 (omega arith) two-IsLaminar (object "L1/4-5" 1 4 5 ∷ [])
      (refl, omega arith, refl) (here, tt)

plan_restore-Explains_example : Explains bucket 3 9 (chain_gap 7 6)
plan_restore-Explains_example =
    plan_restore-Explains bucket 3 9 (omega arith) (chain_gap 7 6) gap_after_six

refine_gap_lem_example :
    ((refine_gap_with_snapshot_spans (chain_gap 5 4) (9 ∷ 20 ∷ []) 7 ≡ chain_gap 5 4)
      × All (λ s. s < 7) (9 ∷ 20 ∷ []))
    ⊎ ((above : ℕ) × (refine_gap_with_snapshot_spans (chain_gap 5 4) (9 ∷ 20 ∷ []) 7
          ≡ pitr_inside_snapshot_span 7 4 above)
        × In above (9 ∷ 20 ∷ [])
        × (7 ≤ above)
        × All (λ s. (s < 7) ⊎ (above ≤ s)) (9 ∷ 20 ∷ []))
refine_gap_lem_example = refine_gap_lem 5 4 7 (9 ∷ 20 ∷ [])

refined :
    refine_gap_with_snapshot_spans (chain_gap 5 4) (9 ∷ 20 ∷ []) 7 ≡ pitr_inside_snapshot_span 7 4 9
unfolding refine_gap_with_snapshot_spans
refined = refl

abbrev file : String → Level → ℕ → ℕ → LayoutFile
file k l a b = record { key = k; level = l; range = span a b; last_modified_ms = pos 0 }

-- L1 is empty, and L2 is not.
abbrev levels : Level → List LayoutFile
levels zero = file "0000/9" 0 9 9 ∷ []
levels (suc zero) = []
levels (suc (suc zero)) = file "L2/4-8" 2 4 8 ∷ []
levels (suc (suc (suc n))) = []

abbrev lists : Level → Result (List LayoutFile) String
lists l = ok (levels l)

plan_over_levels :
    plan_over_layout lists 3 9
    ≡ some (
        ok (record {
          floor = 3;
          target = 9;
          files = object "L2/4-8" 2 4 8 ∷ object "0000/9" 0 9 9 ∷ [];
        }))
unfolding plan_over_layout
plan_over_levels = refl

plan_over_layout-eq-plan_example :
    plan_over_layout lists 3 9 ≡ plan_gathered 3 9 (ok (all_candidates levels))
plan_over_layout-eq-plan_example =
    plan_over_layout-eq-plan lists levels (λ l. refl) 3 9
      (unfold all_candidates in (omega arith, (omega arith, tt)))

abbrev breaks : Level → Result (List LayoutFile) String
breaks zero = ok []
breaks (suc l) = err "503"

plan_over_layout-listing_example :
    (e : String) × (plan_over_layout breaks 3 9 ≡ some (err (listing e)))
plan_over_layout-listing_example = plan_over_layout-listing breaks 3 9 2 (omega arith) refl

covers : ranges_cover 1 10 (span 6 10 ∷ span 1 5 ∷ []) ≡ true
unfolding ranges_cover
covers = refl

hole_at_six : ranges_cover 1 10 (span 1 5 ∷ span 7 10 ∷ []) ≡ false
unfolding ranges_cover
hole_at_six = refl

ranges_cover_iff_example :
    (ranges_cover 1 10 (span 6 10 ∷ span 1 5 ∷ []) ≡ true)
    ↔ ((n : ℕ) → 1 ≤ n → n ≤ 10 → Holds (span 6 10 ∷ span 1 5 ∷ []) n)
ranges_cover_iff_example = ranges_cover_iff (span 6 10 ∷ span 1 5 ∷ []) 1 10
