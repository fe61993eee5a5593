-- ===== src/Compaction/Prune.antt =====
-- crates/walrust-core/src/compaction/prune.rs: which merged objects fall to a retention watermark.
pub mod Newest
pub mod Retained
use Prim.Native.Nat.{max}
use text.Mathlib.Text.{◌==◌ as str_eq}
use walrust.Base.{
  ℕ, Bool, true, false, not, Option, none, some, List, [], ◌∷◌, ◌&&◌, ltb, ◌==◌, filter, any,
  if◌then◌else◌,
}
use walrust.Compaction.Layout.{Level, SeqRange, LayoutFile}

-- The hash map from a level to the highest `range.max` seen there.
abbrev pub Newest : Type 0
Newest = List (Level × ℕ)

pub newest_at : Level → Newest → Option ℕ
newest_at l [] = none
newest_at l ((k, m) ∷ rest) = if k == l then some m else newest_at l rest

-- `entry(level).and_modify(max).or_insert(..)`
pub record_newest : Level → ℕ → Newest → Newest
record_newest l n [] = (l, n) ∷ []
record_newest l n ((k, m) ∷ rest) =
    if k == l then (k, max m n) ∷ rest else (k, m) ∷ record_newest l n rest

pub newest_loop : List LayoutFile → Newest → Newest
newest_loop [] newest = newest
newest_loop (f ∷ files) newest = newest_loop files (record_newest f.level f.range.max newest)

pub is_newest_at_level : Newest → LayoutFile → Bool
is_newest_at_level newest f = elim (newest_at f.level newest) [
  | some m ↦ f.range.max == m
  | none ↦ false
]

unfoldable pub plan_level_prune : List LayoutFile → ℕ → List LayoutFile
unfolding is_newest_at_level newest_at record_newest newest_loop
plan_level_prune level_files watermark =
    filter
      (λ f. ltb f.range.max watermark && not (is_newest_at_level (newest_loop level_files []) f))
      level_files

-- The deletion of the planned objects by their keys (`delete_objects` in src/sync/prune.rs).
unfoldable pub surviving : List LayoutFile → List LayoutFile → List LayoutFile
surviving deleted files = filter (λ f. not (any (λ d. str_eq d.key f.key) deleted)) files
