-- ===== src/Compaction/Merge/Output.antt =====
-- crates/walrust-core/src/compaction/merge.rs: what the merge does before and behind its loop.
use Prim.Native.Nat.{min, max}
use walrust.Base.{
  ℕ, suc, ◌+◌, ◌%◌, ◌^◌, Bool, true, false, Option, none, some, List, [], ◌∷◌, ◌++◌, map, ◌&&◌,
  ◌==◌, if◌then◌else◌, length, take, Result, ok, err, Bytes, be_bytes, from_be, add_u64,
}
use walrust.Compaction.Layout.{SeqRange}
use walrust.Compaction.Errors.{CompactionError, empty_source_set, mixed_geometry, non_contiguous}
use walrust.Compaction.Header.{PageIdSize, u32, u64, width, SourceHeader, magic}
use walrust.Compaction.Merge.{
  PageEntry, PageStream, MergeInput, MergeState, emit_page, flush, prime, merge_loop,
}

pub record MergeResult : Type 0 where
  pub bytes : Bytes
  pub range : SeqRange
  pub out_seq : ℕ
  pub prev_checksum : ℕ
  pub declared_end_checksum : ℕ
  pub page_count : ℕ

-- The canonical marker of the final size; `(epc + 1) as u32` wraps.
unfoldable pub marker : PageIdSize → ℕ → PageEntry
marker u32 epc = record { page_id = add_u64 epc 1 % 2 ^ 32; bytes = [] }
marker u64 epc = record { page_id = add_u64 epc 1; bytes = [] }

unfoldable pub emit_marker : PageIdSize → MergeState → MergeState
unfolding marker emit_page
emit_marker size st = elim st.final_end_page_count [
  | none ↦ st
  | some epc ↦ emit_page size (marker size epc) st
]

abbrev pub flag_end_page_count_marker : ℕ
flag_end_page_count_marker = 0x01

-- `flags`: compacted, and the marker bit where a size is declared.
unfoldable pub out_flags : Option ℕ → ℕ
out_flags none = 0x80
out_flags (some epc) = 0x80 + flag_end_page_count_marker

-- The header of the output, of 48 bytes.
unfoldable pub out_header : PageIdSize → ℕ → ℕ → ℕ → ℕ → ℕ → ℕ → ℕ → Bytes
unfolding width
out_header size flags page_size out_seq prev_checksum page_count created_ms declared_end =
    magic
    ++ ((2 ∷ flags ∷ width size ∷ [])
        ++ (be_bytes 4 page_size
            ++ (be_bytes 8 out_seq
                ++ (be_bytes 8 prev_checksum
                    ++ (be_bytes 4 page_count
                        ++ (be_bytes 8 created_ms ++ be_bytes 8 declared_end))))))

unfoldable pub size_eq : PageIdSize → PageIdSize → Bool
size_eq u32 u32 = true
size_eq u64 u64 = true
size_eq _ _ = false

-- All sources have the geometry of the first.
unfoldable pub same_geometry : SourceHeader → List MergeInput → Bool
unfolding size_eq
same_geometry first [] = true
same_geometry first (s ∷ rest) =
    if size_eq s.header.page_id_size first.page_id_size && (s.header.page_size == first.page_size)
    then same_geometry first rest
    else false

abbrev pub min_of : ℕ → List MergeInput → ℕ
min_of m [] = m
min_of m (s ∷ rest) = min_of (min m s.range.min) rest

abbrev pub min_over : List MergeInput → ℕ
min_over [] = 0
min_over (s ∷ rest) = min_of s.range.min rest

abbrev pub max_of : ℕ → List MergeInput → ℕ
max_of m [] = m
max_of m (s ∷ rest) = max_of (max m s.range.max) rest

abbrev pub last_header : SourceHeader → List MergeInput → SourceHeader
last_header h [] = h
last_header h (s ∷ rest) = last_header s.header rest

-- The loop from its start: the frontier primed with one page of each source, then every page.
unfoldable pub start : ℕ → List MergeInput → MergeState
start prev_checksum sources = record {
  heap = [];
  streams = map (λ s. s.stream) sources;
  source_hashers = map (λ s. be_bytes 8 s.header.prev_checksum) sources;
  pending = none;
  final_end_page_count = none;
  body = [];
  hasher = be_bytes 8 prev_checksum;
  page_count = 0;
}

unfoldable pub page_total : List PageStream → ℕ
page_total [] = 0
page_total (s ∷ rest) = length s.pages + page_total rest

module _ (sha256 : Bytes → Bytes) where
  unfoldable pub finalize : Bytes → ℕ
  finalize hasher = from_be (take 8 (sha256 hasher))

  -- The chain end of each source: declared, or else its content checksum.
  unfoldable pub chain_ends : List MergeInput → List Bytes → List ℕ
  unfolding finalize
  chain_ends (s ∷ sources) (h ∷ hashers) =
      elim s.header.declared_end_checksum [ some e ↦ e | none ↦ finalize h ]
      ∷ chain_ends sources hashers
  chain_ends _ _ = []

  -- Each source chains from the end of the one before it, which is `prev_end` for the first.
  unfoldable pub contiguous : ℕ → List MergeInput → List ℕ → Bool
  contiguous prev_end (s ∷ sources) (e ∷ ends) =
      if s.header.prev_checksum == prev_end then contiguous e sources ends else false
  contiguous prev_end _ _ = true

  abbrev pub last_end : ℕ → List ℕ → ℕ
  last_end e [] = e
  last_end e (f ∷ ends) = last_end f ends

  -- Finalize: linkage, marker, header and checksum. The caller has seen that there is a source.
  unfoldable pub finish :
      SourceHeader → List MergeInput → ℕ → MergeState → Result MergeResult CompactionError
  unfolding chain_ends contiguous finalize emit_marker out_header out_flags
  finish first sources created_ms st =
      let flushed = emit_marker first.page_id_size (flush first.page_id_size st) in
      let ends = chain_ends sources flushed.source_hashers in
      if contiguous first.prev_checksum sources ends
      then (let declared_end = last_end 0 ends in
          let out_seq = (last_header first sources).seq in
          let header =
            out_header first.page_id_size (out_flags flushed.final_end_page_count) first.page_size
              out_seq first.prev_checksum flushed.page_count created_ms declared_end in
          ok (record {
            bytes = header ++ (flushed.body ++ be_bytes 8 (finalize flushed.hasher));
            range = record { min = min_over sources; max = max_of 0 sources };
            out_seq = out_seq;
            prev_checksum = first.prev_checksum;
            declared_end_checksum = declared_end;
            page_count = flushed.page_count;
          }))
      else err non_contiguous

  unfoldable pub after_loop :
      SourceHeader
      → List MergeInput
      → ℕ
      → Option (Result MergeState CompactionError)
      → Option (Result MergeResult CompactionError)
  unfolding finish
  after_loop first sources created_ms none = none
  after_loop first sources created_ms (some (err e)) = some (err e)
  after_loop first sources created_ms (some (ok st)) = some (finish first sources created_ms st)

  -- Each round of the loop pops one page, so the number of pages and the last test suffice.
  unfoldable pub run_merge :
      SourceHeader → List MergeInput → ℕ → Option (Result MergeResult CompactionError)
  unfolding prime merge_loop after_loop start page_total
  run_merge first sources created_ms =
      let n = length sources in
      elim (prime first.page_id_size n n 0 (start first.prev_checksum sources)) [
        | err e ↦ some (err e)
        | ok st ↦
            after_loop first sources created_ms
              (merge_loop first.page_id_size n (suc (page_total (map (λ s. s.stream) sources))) st)
      ]

  -- `merge_changesets` at the time `created_ms`; `none` means that the fuel ran out.
  unfoldable pub merge_changesets :
      List MergeInput → ℕ → Option (Result MergeResult CompactionError)
  unfolding same_geometry run_merge
  merge_changesets [] created_ms = some (err empty_source_set)
  merge_changesets (s ∷ rest) created_ms =
      if same_geometry s.header (s ∷ rest)
      then run_merge s.header (s ∷ rest) created_ms
      else some (err mixed_geometry)
