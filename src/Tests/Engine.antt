-- ===== src/Tests/Engine.antt =====
-- crates/walrust-core/src/compaction/engine.rs at concrete data.
use walrust.Base.{
  String, ok, err, pos, ℕ, ◌+◌, ◌≤◌, ◌≡◌, ◌⊎◌, refl, none, some, List, [], ◌∷◌, arith, take, drop,
  length,
}
use walrust.Compaction.Layout.{SeqRange, LayoutFile}
use walrust.Compaction.Errors.{overlapping_existing}
use walrust.Compaction.Engine.Select.{find_existing_merged}
use walrust.Compaction.Engine.Select.Laws.{IsFound, find_existing_merged-IsFound}
use walrust.Compaction.Engine.Batch.{contiguous_batch}
use walrust.Compaction.Engine.Batch.Laws.{
  IsRun, NoLinkBefore, contiguous_batch_sound, contiguous_batch-oldest, contiguous_batch-none,
}

abbrev point : ℕ → SeqRange
point n = record { min = n; max = n }

-- A snapshot took number 2, so that 1 stands alone.
abbrev broken : List SeqRange
broken = point 1 ∷ point 3 ∷ point 4 ∷ point 5 ∷ []

abbrev lone : List SeqRange
lone = point 1 ∷ point 3 ∷ point 5 ∷ []

-- The batch size, and the length of the run.
abbrev two : ℕ
two = 2

abbrev one : ℕ
one = 1

broken_batch : contiguous_batch broken 2 ≡ some (1, 2)
unfolding contiguous_batch
broken_batch = refl

lone_batch : contiguous_batch lone 2 ≡ none
unfolding contiguous_batch
lone_batch = refl

contiguous_batch_sound_example :
    (1 + 2 ≤ length broken)
    × (two ≤ two)
    × (two ≤ two ⊎ (two ≡ one) × (two ≡ one))
    × IsRun (take 2 (drop 1 broken))
contiguous_batch_sound_example = contiguous_batch_sound broken 2 1 2 broken_batch

contiguous_batch-oldest_example : NoLinkBefore 1 broken
contiguous_batch-oldest_example = contiguous_batch-oldest broken 2 1 2 broken_batch (omega arith)

contiguous_batch-none_example : NoLinkBefore (length lone) lone
contiguous_batch-none_example = contiguous_batch-none lone 2 (omega arith) lone_batch

abbrev object : String → ℕ → ℕ → LayoutFile
object k a b = record {
  key = k;
  level = 1;
  range = record { min = a; max = b };
  last_modified_ms = pos 0;
}

-- One object of the range, one beside it.
abbrev targets : List LayoutFile
targets = object "a" 1 4 ∷ object "b" 5 8 ∷ []

finds_b : find_existing_merged targets (record { min = 5; max = 8 }) ≡ ok (some (object "b" 5 8))
unfolding find_existing_merged
finds_b = refl

refuses_overlap :
    find_existing_merged targets (record { min = 4; max = 8 }) ≡ err overlapping_existing
unfolding find_existing_merged
refuses_overlap = refl

find_existing_merged-IsFound_example :
    IsFound
      (record { min = 4; max = 8 })
      targets
      (find_existing_merged targets (record { min = 4; max = 8 }))
find_existing_merged-IsFound_example =
    find_existing_merged-IsFound targets (record { min = 4; max = 8 }) (omega arith)
      (omega arith, (omega arith, tt))
