-- ===== src/Compaction/Planner.antt =====
-- crates/walrust-core/src/compaction/planner.rs: the greedy restore planner, and the candidates
-- that restore.rs gathers for it.
pub mod Chain
pub mod Sound
pub mod Complete
pub mod Refuse
pub mod Gather
use walrust.Base.{
  ℕ, zero, suc, ◌+◌, ◌-◌, String, true, false, Option, none, some, List, [], ◌∷◌, ◌++◌, ◌&&◌, ltb,
  leb, ◌==◌, filter, max_by_key, min_by_key, Result, ok, err,
}
use walrust.Compaction.Layout.{Level, SeqRange, LayoutFile}

pub record PlanCandidate : Type 0 where
  pub key : String
  pub level : Level
  pub range : SeqRange

pub record RestorePlan : Type 0 where
  pub floor : ℕ
  pub target : ℕ
  pub files : List PlanCandidate

pub data PlanError : Type 0 where
  -- needed, nearest_below
  chain_gap : ℕ → ℕ → PlanError
  -- target, window_min, window_max, nearest_below, nearest_above
  pitr_inside_merged_window : ℕ → ℕ → ℕ → ℕ → ℕ → PlanError
  -- target, nearest_below, nearest_above
  pitr_inside_snapshot_span : ℕ → ℕ → ℕ → PlanError

-- The object that begins at `need` and extends the chain furthest without passing `target`.
pub best_within : List PlanCandidate → ℕ → ℕ → Option PlanCandidate
best_within candidates need target =
    max_by_key (λ c. c.range.max)
      (filter (λ c. (c.range.min == need) && leb c.range.max target) candidates)

-- The tightest window that begins at `need` and passes `target`.
pub overshoot : List PlanCandidate → ℕ → ℕ → Option PlanCandidate
overshoot candidates need target =
    min_by_key (λ c. c.range.max)
      (filter (λ c. (c.range.min == need) && ltb target c.range.max) candidates)

-- The error of one round in which nothing extends the chain.
pub refuse : Option PlanCandidate → ℕ → ℕ → PlanError
refuse (some w) target cursor =
    pitr_inside_merged_window target w.range.min w.range.max cursor w.range.max
refuse none target cursor = chain_gap (cursor + 1) cursor

-- `while cursor < target`. `none` means that the fuel ran out. In the body `cursor` is below
-- `target`, so that `cursor + 1` is at most `target` and does not overflow.
pub plan_loop :
    ℕ → List PlanCandidate → ℕ → ℕ → ℕ → List PlanCandidate → Option (Result RestorePlan PlanError)
plan_loop zero candidates floor target cursor files = none
plan_loop (suc fuel) candidates floor target cursor files = elim (ltb cursor target) [
  | true ↦ elim (best_within candidates (cursor + 1) target) [
    | some pick ↦ plan_loop fuel candidates floor target pick.range.max (files ++ (pick ∷ []))
    | none ↦ some (err (refuse (overshoot candidates (cursor + 1) target) target cursor))
  ]
  | false ↦ some (ok (record { floor = floor; target = target; files = files }))
]

-- A round moves the cursor up, so `target - floor` rounds and the last test suffice.
unfoldable pub plan_restore : List PlanCandidate → ℕ → ℕ → Option (Result RestorePlan PlanError)
unfolding plan_loop best_within overshoot refuse
plan_restore candidates floor target =
    plan_loop (suc (target - floor)) candidates floor target floor []

-- `refine_gap_with_snapshot_spans`: a gap that a later snapshot absorbs is decay, not a loss.
unfoldable pub refine_gap_with_snapshot_spans : PlanError → List ℕ → ℕ → PlanError
refine_gap_with_snapshot_spans (chain_gap needed nearest_below) later_snapshot_maxes target =
    elim (min_by_key (λ s. s) (filter (λ s. leb target s) later_snapshot_maxes)) [
      | some above ↦ pitr_inside_snapshot_span target nearest_below above
      | none ↦ chain_gap needed nearest_below
    ]
refine_gap_with_snapshot_spans e later_snapshot_maxes target = e
