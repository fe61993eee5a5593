-- ===== src/Compaction/Engine/Run.antt =====
-- `run_level_compaction`.

use walrust.Base.{
  ℕ, Option, none, some, List, [], ◌∷◌, map, ltb, ◌==◌, if◌then◌else◌, length, take, drop, add_u32,
  Result, ok, err, Bytes, ℤ,
}
use walrust.Compaction.Layout.{Level, SeqRange, LayoutFile}
use walrust.Compaction.Errors.{CompactionError, verification_failed}
use walrust.Compaction.Trigger.{eligible_prefix_len}
use walrust.Compaction.Merge.{MergeInput}
use walrust.Compaction.Merge.Output.{MergeResult, merge_changesets}
use walrust.Compaction.Engine.Batch.{contiguous_batch}
use walrust.Compaction.Engine.Select.{find_existing_merged}
use walrust.Compaction.Engine.Store.{
  Physical, M, pure, raise, attempt, ◌>>=◌, ◌>>◌, CompactionLayout,
}
use walrust.Compaction.Engine.Verify.{verify_merged_bytes, verify_existing}
use walrust.Compaction.Engine.Converge.{
  CompactionOutcome, no_op, merged, converged_existing_deletion, converge_interrupted_delete,
}

abbrev pub last_of : LayoutFile → List LayoutFile → LayoutFile
last_of f [] = f
last_of f (g ∷ rest) = last_of g rest

-- The clock `SystemTime::now()` of the merge is the number `created_ms`.
module _ (P : Physical) (sha256 : Bytes → Bytes) (L : CompactionLayout) (created_ms : ℕ) where
  unfoldable pub open_inputs : List LayoutFile → M L.State (List MergeInput)
  open_inputs [] = pure []
  open_inputs (f ∷ files) = do
    header ← L.read_header f
    stream ← L.open_source f
    rest ← open_inputs files
    pure (record { header = header; range = f.range; stream = stream } ∷ rest)

  -- A merge that ran out of fuel does not happen; it would be an error.
  unfoldable pub run_merge_changesets : List MergeInput → M L.State MergeResult
  run_merge_changesets inputs s = elim (merge_changesets sha256 inputs created_ms) [
    | none ↦ (err verification_failed, s)
    | some r ↦ (r, s)
  ]

  -- `.map_err(|e| VerificationFailed(..))`
  unfoldable pub self_check : MergeResult → Bytes → M L.State (Unit {0})
  unfolding verify_merged_bytes
  self_check r bytes =
      elim (verify_merged_bytes P bytes r.prev_checksum r.declared_end_checksum r.page_count) [
        | ok cs ↦ pure tt
        | err e ↦ raise verification_failed
      ]

  -- Steps 6 and 7: a failed read-back deletes the output and keeps the sources.
  unfoldable pub after_readback :
      List LayoutFile → LayoutFile → Result (Unit {0}) CompactionError → M L.State CompactionOutcome
  after_readback sources output (err e) = do
    ignored ← attempt (L.delete (output ∷ []))
    raise verification_failed
  after_readback sources output (ok t) = do L.delete sources; pure (merged (length sources) output)

  -- Steps 3 to 7.
  unfoldable pub merge_fresh : Level → SeqRange → List LayoutFile → M L.State CompactionOutcome
  unfolding open_inputs run_merge_changesets self_check after_readback
  merge_fresh target_level range sources = do
    inputs ← open_inputs sources
    result ← run_merge_changesets inputs
    self_check result result.bytes
    output ← L.write_merged target_level range result.bytes
    readback ← L.read_bytes output
    sound ← attempt (self_check result readback)
    after_readback sources output sound

  -- Step 2, of an object that covers exactly the range.
  unfoldable pub recover :
      Level
      → SeqRange
      → LayoutFile
      → LayoutFile
      → List LayoutFile
      → Result (Unit {0}) CompactionError
      → M L.State CompactionOutcome
  unfolding merge_fresh
  recover target_level range existing first rest (ok t) = do
    L.delete (first ∷ rest)
    pure (converged_existing_deletion (length (first ∷ rest)) existing)
  recover target_level range existing first rest (err torn) = do
    L.delete (existing ∷ [])
    merge_fresh target_level range (first ∷ rest)

  unfoldable pub merge_batch :
      Level → List LayoutFile → LayoutFile → List LayoutFile → M L.State CompactionOutcome
  unfolding recover find_existing_merged verify_existing
  merge_batch target_level target_files first rest =
      let range : SeqRange = record {
        min = first.range.min;
        max = (last_of first rest).range.max;
      } in
      elim (find_existing_merged target_files range) [
        | err e ↦ raise e
        | ok none ↦ merge_fresh target_level range (first ∷ rest)
        | ok (some existing) ↦ (do
          sound ← attempt (verify_existing P L existing first (last_of first rest))
          recover target_level range existing first rest sound)
      ]

  unfoldable pub eligible_count : Level → List LayoutFile → ℕ → ℤ → ℕ
  unfolding eligible_prefix_len
  eligible_count source_level files keep_fine_window now_ms =
      if source_level == 0
      then eligible_prefix_len (map (λ f. f.last_modified_ms) files) now_ms keep_fine_window
      else length files

  -- The empty list is not reached: a batch has a file.
  unfoldable pub merge_selected :
      Level → List LayoutFile → List LayoutFile → M L.State CompactionOutcome
  unfolding merge_batch
  merge_selected target_level target_files [] = pure no_op
  merge_selected target_level target_files (first ∷ rest) =
      merge_batch target_level target_files first rest

  -- Step 1, behind the convergence.
  unfoldable pub select_and_merge :
      Level → ℕ → ℕ → ℤ → List LayoutFile → List LayoutFile → M L.State CompactionOutcome
  unfolding eligible_count contiguous_batch merge_selected
  select_and_merge source_level batch keep_fine_window now_ms files target_files =
      let eligible = eligible_count source_level files keep_fine_window now_ms in
      if ltb eligible batch
      then pure no_op
      else (elim (contiguous_batch (map (λ f. f.range) (take eligible files)) batch) [
        | none ↦ pure no_op
        | some (start, len) ↦
            merge_selected (add_u32 source_level 1) target_files (take len (drop start files))
      ])

  unfoldable pub or_merge :
      M L.State CompactionOutcome → Option CompactionOutcome → M L.State CompactionOutcome
  or_merge merge none = merge
  or_merge merge (some outcome) = pure outcome

  unfoldable pub run_level_compaction : Level → ℕ → ℕ → ℤ → M L.State CompactionOutcome
  unfolding select_and_merge converge_interrupted_delete or_merge
  run_level_compaction source_level batch keep_fine_window now_ms =
      if batch == 0 then pure no_op else (do
        files ← L.list_level source_level
        target_files ← L.list_level (add_u32 source_level 1)
        converged ← converge_interrupted_delete P L target_files files
        or_merge (select_and_merge source_level batch keep_fine_window now_ms files target_files)
            converged)
