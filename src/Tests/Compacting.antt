-- ===== src/Tests/Compacting.antt =====
-- A compaction run on the bucket in memory, and its safety there.
use walrust.Base.{
  ◌++◌, arith, ℕ, ◌≡◌, ◌≢◌, ◌⊎◌, refl, none, some, [], ◌∷◌, List, Result, ok, pos, add_u32,
}
use walrust.Compaction.Layout.{LayoutFile}
use walrust.Compaction.Errors.{CompactionError}
use walrust.Compaction.Header.{u32, u64, parse_source_header}
use walrust.Compaction.Merge.{MergeInput}
use walrust.Compaction.Merge.Output.{merge_changesets, out_header, out_flags}
use walrust.Compaction.Engine.Store.{◌>>=◌}
use walrust.Compaction.Engine.Converge.{CompactionOutcome, merged}
use walrust.Compaction.Engine.Run.{run_level_compaction}
use walrust.Compaction.Engine.Safety.{IsFolded}
use walrust.Compaction.Engine.Safety.Run.{run_level_compaction-IsSafe}
use walrust.Compaction.Merge.Roundtrip.{parse_source_header-out_header}
use walrust.Compaction.Merge.Fuel.{merge_changesets_ends}
use walrust.Tests.Bucket.{State, headers, bucket, store_laws, initial}

-- A hash that is its input stands for SHA-256.
abbrev run : Result CompactionOutcome CompactionError × State
run = run_level_compaction headers (λ b. b) bucket 5000 0 2 0 (pos 9) initial

-- Both sources went into one object, and are gone.
merges_two :
    run.0
    ≡ ok (
        merged 2 (record {
          key = "m";
          level = 1;
          range = record { min = 1; max = 2 };
          last_modified_ms = pos 0;
        }))
unfolding run_level_compaction merge_changesets parse_source_header out_header ◌>>=◌
merges_two = refl

deletes_sources : run.1 "a" ≡ none
unfolding run_level_compaction merge_changesets parse_source_header out_header ◌>>=◌
deletes_sources = refl

run_level_compaction-IsSafe_example :
    (run.1 "a" ≡ initial "a")
    ⊎ (files : List LayoutFile) × ((bucket.list_level 0 initial).0 ≡ ok files)
      × IsFolded headers store_laws (add_u32 0 1) files "a" run.1
run_level_compaction-IsSafe_example =
    run_level_compaction-IsSafe headers (λ b. b) 5000 store_laws 0 2 0 (pos 9) initial "a" refl

-- Two sources of one chain, which both hold page 1.
abbrev source : ℕ → ℕ → ℕ → MergeInput
source n prev last = record {
  header = record {
    page_id_size = u32;
    page_size = 4096;
    seq = n;
    prev_checksum = prev;
    page_count = 1;
    created_ms = pos 0;
    declared_end_checksum = some last;
  };
  range = record { min = n; max = n };
  stream = record { pages = record { page_id = 1; bytes = n ∷ [] } ∷ []; fault = none };
}

merge_changesets_ends_example :
    merge_changesets (λ b. b) (source 1 0 7 ∷ source 2 7 9 ∷ []) 5000 ≢ none
merge_changesets_ends_example =
    merge_changesets_ends (λ b. b) (source 1 0 7 ∷ source 2 7 9 ∷ []) 5000

parse_source_header-out_header_example :
    parse_source_header (out_header u64 (out_flags (some 3)) 4096 9 5 2 1000 7 ++ (1 ∷ 2 ∷ []))
    ≡ ok (record {
      page_id_size = u64;
      page_size = 4096;
      seq = 9;
      prev_checksum = 5;
      page_count = 2;
      created_ms = pos 1000;
      declared_end_checksum = some 7;
    })
parse_source_header-out_header_example =
    parse_source_header-out_header u64 (some 3) 4096 9 5 2 1000 7 (1 ∷ 2 ∷ []) (omega arith)
      (omega arith) (omega arith) (omega arith) (omega arith) (omega arith)
