-- ===== src/Compaction/Engine/Converge.antt =====
-- `converge_interrupted_delete`: finishing a deletion of sources that was cut short.
use text.Mathlib.Text.{◌==◌ as str_eq}
use walrust.Base.{
  ℕ, Bool, true, false, Option, none, some, List, [], ◌∷◌, ◌++◌, if◌then◌else◌, filter, any, length,
  Result, ok, err,
}
use walrust.Compaction.Layout.{LayoutFile}
use walrust.Compaction.Errors.{CompactionError, storage}
use walrust.Compaction.Engine.Select.{range_subset, tiles_exactly}
use walrust.Compaction.Engine.Store.{
  Physical, M, pure, raise, attempt, ◌>>=◌, ◌>>◌, CompactionLayout,
}
use walrust.Compaction.Engine.Verify.{verify_covers, endpoint_chain_evidence}

pub data CompactionOutcome : Type 0 where
  no_op : CompactionOutcome
  merged : ℕ → LayoutFile → CompactionOutcome
  converged_existing_deletion : ℕ → LayoutFile → CompactionOutcome

-- The sources to delete, and the first cover found.
pub record Leftovers : Type 0 where
  pub deletable : List LayoutFile
  pub cover : Option LayoutFile

-- Present sources wholly covered by the object.
unfoldable pub covered_by : LayoutFile → List LayoutFile → List LayoutFile
unfolding range_subset
covered_by m sources = filter (λ s. range_subset s.range m.range) sources

-- Each source is deleted once, also under several covers.
unfoldable pub add_leftovers : List LayoutFile → List LayoutFile → List LayoutFile
add_leftovers deletable [] = deletable
add_leftovers deletable (s ∷ subs) =
    add_leftovers
      (if any (λ d. str_eq d.key s.key) deletable then deletable else deletable ++ (s ∷ [])) subs

unfoldable pub get_or_insert : Option LayoutFile → LayoutFile → Option LayoutFile
get_or_insert none m = some m
get_or_insert (some c) m = some c

-- An unsound cover is skipped; a failed read is passed on.
unfoldable pub is_storage : CompactionError → Bool
is_storage storage = true
is_storage _ = false

-- `is_empty()`
abbrev pub is_nil : List LayoutFile → Bool
is_nil [] = true
is_nil (f ∷ fs) = false

module _ (P : Physical) (L : CompactionLayout) where
  -- A cover that verifies, and whose ends agree with the sources at them, makes them leftovers.
  unfoldable pub take_cover :
      LayoutFile
      → List LayoutFile
      → Leftovers
      → Result P.Changeset CompactionError
      → M L.State Leftovers
  unfolding add_leftovers get_or_insert endpoint_chain_evidence is_storage
  take_cover m subs acc (err e) = if is_storage e then raise e else pure acc
  take_cover m subs acc (ok cs) = do
    agrees ← endpoint_chain_evidence P L m cs subs
    pure (
        if agrees
        then record {
          deletable = add_leftovers acc.deletable subs;
          cover = get_or_insert acc.cover m;
        }
        else acc)

  -- One round of the loop over the objects at the target level.
  unfoldable pub consider : LayoutFile → List LayoutFile → Leftovers → M L.State Leftovers
  unfolding take_cover tiles_exactly verify_covers
  consider m subs acc =
      if is_nil subs
      then pure acc
      else if tiles_exactly subs m.range
      then pure acc
      else (do sound ← attempt (verify_covers P L m); take_cover m subs acc sound)

  unfoldable pub find_leftovers :
      List LayoutFile → List LayoutFile → Leftovers → M L.State Leftovers
  unfolding consider covered_by
  find_leftovers sources [] acc = pure acc
  find_leftovers sources (m ∷ target_files) acc = do
    acc' ← consider m (covered_by m sources) acc
    find_leftovers sources target_files acc'

  unfoldable pub delete_leftovers : Leftovers → M L.State (Option CompactionOutcome)
  delete_leftovers acc = elim acc.deletable [
    | [] ↦ pure none
    | f ∷ rest ↦ elim acc.cover [
      -- not reached: a leftover comes with a cover
      | none ↦ pure none
      | some cover ↦ (do
        L.delete (f ∷ rest)
        pure (some (converged_existing_deletion (length (f ∷ rest)) cover)))
    ]
  ]

  unfoldable pub converge_interrupted_delete :
      List LayoutFile → List LayoutFile → M L.State (Option CompactionOutcome)
  unfolding find_leftovers delete_leftovers
  converge_interrupted_delete target_files sources =
      if is_nil sources then pure none else if is_nil target_files then pure none else (do
        acc ← find_leftovers sources target_files (record { deletable = []; cover = none })
        delete_leftovers acc)
