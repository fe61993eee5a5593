-- ===== src/Compaction/Merge.antt =====
-- crates/walrust-core/src/compaction/merge.rs: the streaming k-way merge. SHA-256 is a parameter:
-- a hasher is the bytes fed to it.
pub mod Output
pub mod Fuel
pub mod Roundtrip
pub mod Run
pub mod Order
pub mod Popped
pub mod Marks
pub mod Winners
pub mod Primed
pub mod LastWriter
pub mod Merged
pub mod Emits
use Prim.Native.Nat.{min, max}
use walrust.Base.{
  ℕ, zero, suc, ◌+◌, ◌-◌, ◌%◌, ◌^◌, Bool, true, false, Option, none, some, List, [], ◌∷◌, ◌++◌, map,
  ◌&&◌, ◌||◌, ltb, leb, ◌==◌, if◌then◌else◌, get_elem?, set, length, take, Result, ok, err, ◌>>=◌,
  Bytes, be_bytes, from_be, add_u32, add_u64,
}
use walrust.Compaction.Layout.{SeqRange}
use walrust.Compaction.Errors.{CompactionError, empty_source_set, mixed_geometry, non_contiguous}
use walrust.Compaction.Header.{PageIdSize, u32, u64, width, SourceHeader, magic}

-- `PageEntry` of hadb-changeset. The id's width is the source's `page_id_size`, which the merge
-- checks to be the same in all sources.
pub record PageEntry : Type 0 where
  pub page_id : ℕ
  pub bytes : Bytes

-- A `ChangesetPageStream`: the pages it has yet to yield, and the error it then ends with, if any.
pub record PageStream : Type 0 where
  pub pages : List PageEntry
  pub fault : Option CompactionError

pub record MergeInput : Type 0 where
  pub header : SourceHeader
  pub range : SeqRange
  pub stream : PageStream

-- A page of the frontier; a higher `order` is a later source.
pub record HeapPage : Type 0 where
  pub order : ℕ
  pub page : PageEntry

-- `Ord for HeapPage`, read from the top of the heap: the smallest page id, and of equal ids the
-- smallest order, is popped first.
abbrev pub pops_first : HeapPage → HeapPage → Bool
pops_first a b =
    ltb a.page.page_id b.page.page_id || ((a.page.page_id == b.page.page_id) && leb a.order b.order)

-- `BinaryHeap`, as the list of its pages in the order in which it pops them.
unfoldable pub heap_push : HeapPage → List HeapPage → List HeapPage
heap_push p [] = p ∷ []
heap_push p (q ∷ heap) = if pops_first p q then p ∷ q ∷ heap else q ∷ heap_push p heap

-- The variables of `merge_changesets` that its loops change. `body` is `buf` behind the header,
-- which is written with its final values once they are known.
pub record MergeState : Type 0 where
  pub heap : List HeapPage
  pub streams : List PageStream
  pub source_hashers : List Bytes
  pub pending : Option HeapPage
  pub final_end_page_count : Option ℕ
  pub body : Bytes
  pub hasher : Bytes
  pub page_count : ℕ

-- What is hashed, and written, of a page.
unfoldable pub page_bytes : PageIdSize → PageEntry → Bytes
unfolding width
page_bytes size page =
    be_bytes (width size) page.page_id ++ (be_bytes 4 (length page.bytes) ++ page.bytes)

abbrev pub is_empty : Bytes → Bool
is_empty [] = true
is_empty (b ∷ bs) = false

unfoldable pub should_emit : PageEntry → Option ℕ → Bool
should_emit page final_end_page_count =
    if is_empty page.bytes
    then false
    else (elim final_end_page_count [ some epc ↦ leb page.page_id epc | none ↦ true ])

unfoldable pub emit_page : PageIdSize → PageEntry → MergeState → MergeState
unfolding page_bytes
emit_page size page st = record st {
  body = st.body ++ page_bytes size page;
  hasher = st.hasher ++ page_bytes size page;
  page_count = add_u32 st.page_count 1;
}

-- `capture_epc`, of a page that was read from source `order` of `n`.
unfoldable pub capture_epc : ℕ → ℕ → PageEntry → Option ℕ → Option ℕ
capture_epc n order page final_epc =
    if (suc order == n) && is_empty page.bytes then some (page.page_id - 1) else final_epc

-- `sources[order].stream.next_page()`, and what is done with its page.
unfoldable pub pull : PageIdSize → ℕ → ℕ → MergeState → Result MergeState CompactionError
unfolding page_bytes capture_epc heap_push
pull size n order st = elim (get_elem? st.streams order) [
  | none ↦ ok st
  | some s ↦ elim s.pages [
    | [] ↦ elim s.fault [ none ↦ ok st | some e ↦ err e ]
    | page ∷ rest ↦ ok (record st {
      streams = set st.streams order (record s { pages = rest });
      source_hashers = elim (get_elem? st.source_hashers order) [
        | none ↦ st.source_hashers
        | some h ↦ set st.source_hashers order (h ++ page_bytes size page)
      ];
      final_end_page_count = capture_epc n order page st.final_end_page_count;
      heap = heap_push (record { order = order; page = page }) st.heap;
    })
  ]
]

-- One page of each source.
unfoldable pub prime : PageIdSize → ℕ → ℕ → ℕ → MergeState → Result MergeState CompactionError
unfolding pull
prime size n zero order st = ok st
prime size n (suc left) order st = pull size n order st >>= λ st'. prime size n left (suc order) st'

-- The pending winner is written, unless it is superseded or past the final size.
unfoldable pub flush : PageIdSize → MergeState → MergeState
unfolding should_emit emit_page
flush size st = elim st.pending [
  | none ↦ st
  | some p ↦
      if should_emit p.page st.final_end_page_count
      then record (emit_page size p.page st) { pending = none }
      else record st { pending = none }
]

-- The winner of a page id after one more page of it, or the first page of the next id.
unfoldable pub resolve : PageIdSize → HeapPage → MergeState → MergeState
unfolding flush
resolve size top st = elim st.pending [
  | none ↦ record st { pending = some top }
  | some p ↦
      if p.page.page_id == top.page.page_id
      then (if leb p.order top.order then record st { pending = some top } else st)
      else record (flush size st) { pending = some top }
]

-- `while let Some(top) = heap.pop()`. `none` means that the fuel ran out.
unfoldable pub merge_loop :
    PageIdSize → ℕ → ℕ → MergeState → Option (Result MergeState CompactionError)
unfolding resolve pull
merge_loop size n zero st = none
merge_loop size n (suc fuel) st = elim st.heap [
  | [] ↦ some (ok st)
  | top ∷ heap ↦ elim (pull size n top.order (resolve size top (record st { heap = heap }))) [
    | err e ↦ some (err e)
    | ok st' ↦ merge_loop size n fuel st'
  ]
]
