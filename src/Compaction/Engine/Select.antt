-- ===== src/Compaction/Engine/Select.antt =====
-- The engine's tests on ranges.
pub mod Laws
use walrust.Base.{
  ℕ, Bool, false, Option, none, some, List, [], ◌∷◌, map, ◌&&◌, leb, ◌==◌, if◌then◌else◌, sort_by,
  Result, ok, err,
}
use walrust.Compaction.Layout.{SeqRange, LayoutFile, key_le, range_eq}
use walrust.Compaction.Errors.{CompactionError, overlapping_existing}
use walrust.Compaction.Engine.Batch.{links}

unfoldable pub ranges_overlap : SeqRange → SeqRange → Bool
ranges_overlap a b = leb a.min b.max && leb b.min a.max

unfoldable pub range_subset : SeqRange → SeqRange → Bool
range_subset a b = leb b.min a.min && leb a.max b.max

-- The loop of `find_existing_merged`, with the exact match found so far.
unfoldable pub find_loop :
    SeqRange → Option LayoutFile → List LayoutFile → Result (Option LayoutFile) CompactionError
unfolding ranges_overlap
find_loop range exact [] = ok exact
find_loop range exact (f ∷ files) =
    let found = find_loop range (some f) files in
    let passed = find_loop range exact files in
    if range_eq f.range range
    then found
    else if ranges_overlap f.range range
    then err overlapping_existing
    else passed

unfoldable pub find_existing_merged :
    List LayoutFile → SeqRange → Result (Option LayoutFile) CompactionError
unfolding find_loop
find_existing_merged target_files range = find_loop range none target_files

-- Each range goes on where the one before it ends, and the last ends at `end`.
unfoldable pub tiles_from : ℕ → SeqRange → List SeqRange → Bool
tiles_from end r [] = r.max == end
tiles_from end r (s ∷ rest) = links r s && tiles_from end s rest

unfoldable pub tiles_sorted : SeqRange → List SeqRange → Bool
unfolding tiles_from
tiles_sorted range [] = false
tiles_sorted range (r ∷ rest) = (r.min == range.min) && tiles_from range.max r rest

-- Its caller has left out the empty list, on which the source would panic.
unfoldable pub tiles_exactly : List LayoutFile → SeqRange → Bool
unfolding tiles_sorted
tiles_exactly subs range = tiles_sorted range (sort_by key_le (map (λ f. f.range) subs))
