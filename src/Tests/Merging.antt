-- ===== src/Tests/Merging.antt =====
-- A merge of two sources: both hold page 1, and the last one shrinks the database to four pages.
use walrust.Base.{
  arith, ℕ, ◌≡◌, refl, none, some, [], ◌∷◌, ◌++◌, List, ok, err, pos, Bytes, zero, suc,
}
use walrust.Compaction.Header.{u32, SourceHeader}
use walrust.Compaction.Merge.{MergeInput, PageEntry}
use walrust.Compaction.Merge.Output.{MergeResult, merge_changesets}
use walrust.Compaction.Merge.Run.{Ascending}
use walrust.Compaction.Merge.LastWriter.{source_pages, IsMergeOf, declared_size}
use walrust.Compaction.Merge.Emits.{written}
use walrust.Compaction.Merge.Merged.{IsObject, marker_bytes, merge_changesets-IsMergeOf}

abbrev header : ℕ → ℕ → ℕ → SourceHeader
header n prev last = record {
  page_id_size = u32;
  page_size = 4096;
  seq = n;
  prev_checksum = prev;
  page_count = 3;
  created_ms = pos 0;
  declared_end_checksum = some last;
}

abbrev page : ℕ → Bytes → PageEntry
page n b = record { page_id = n; bytes = b }

abbrev older : MergeInput
older = record {
  header = header 1 0 7;
  range = record { min = 1; max = 1 };
  stream = record {
    pages = page 1 (10 ∷ []) ∷ page 3 (30 ∷ []) ∷ page 6 (60 ∷ []) ∷ [];
    fault = none;
  };
}

abbrev newer : MergeInput
newer = record {
  header = header 2 7 9;
  range = record { min = 2; max = 2 };
  stream = record { pages = page 1 (11 ∷ []) ∷ page 2 (20 ∷ []) ∷ page 5 [] ∷ []; fault = none };
}

abbrev object : Bytes
object = elim (merge_changesets (λ b. b) (older ∷ newer ∷ []) 5000) [
  | none ↦ []
  | some r ↦ elim r [ ok out ↦ out.bytes | err e ↦ [] ]
]

abbrev out : MergeResult
out = record {
  bytes = object;
  range = record { min = 1; max = 2 };
  out_seq = 2;
  prev_checksum = 0;
  declared_end_checksum = 9;
  page_count = 4;
}

merges : merge_changesets (λ b. b) (older ∷ newer ∷ []) 5000 ≡ some (ok out)
unfolding merge_changesets
merges = refl

ascend : (i : ℕ) → Ascending (source_pages (older ∷ newer ∷ []) i)
ascend zero = ((omega arith, (omega arith, tt)), ((omega arith, tt), (tt, tt)))
ascend (suc zero) = ((omega arith, (omega arith, tt)), ((omega arith, tt), (tt, tt)))
ascend (suc (suc i)) = tt

merge_changesets-IsMergeOf_example :
    (pages : List PageEntry) × IsMergeOf (older ∷ newer ∷ []) pages
    × IsObject older.header 5000
        (declared_size (older ∷ newer ∷ []) 1)
        (written u32 (declared_size (older ∷ newer ∷ []) 1) pages
          ++ marker_bytes u32 (declared_size (older ∷ newer ∷ []) 1))
        out
merge_changesets-IsMergeOf_example =
    merge_changesets-IsMergeOf (λ b. b) older (newer ∷ []) 5000 out ascend (tt, (tt, (refl, tt)))
      merges
