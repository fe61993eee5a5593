-- ===== src/Compaction/Merge/LastWriter.antt =====
-- crates/walrust-core/src/compaction/merge.rs: the merge writes, for each page id of the sources, the
-- page of the last source that has one.
use walrust.Base.{
  ℕ, zero, suc, ◌+◌, ◌≤◌, ◌≡◌, refl, ◌∙◌, sym, ap, subst, inl, inr, List, [], ◌∷◌, ◌++◌, In, arith,
  ok, IsSorted, Option, none, some, get_elem?, length, length-map, map,
}
use walrust.Compaction.Header.{PageIdSize}
use walrust.Compaction.Merge.{
  PageEntry, HeapPage, MergeInput, pops_first, MergeState, prime, flush, merge_loop,
}
use walrust.Compaction.Merge.Run.{
  Ascending, Run, stop, round, merge_loop-Run, resolve-streams, resolve-epc,
}
use walrust.Compaction.Merge.Order.{Waits, IsFrontier}
use walrust.Compaction.Merge.Popped.{Run-Waits, Waits-Run, Run-IsSorted, round-IsFrontier}
use walrust.Compaction.Merge.Winners.{winners-IsLast, winners-id, winners-Ascending}
use walrust.Compaction.Merge.Marks.{
  pages_of_stream, final_epc, MarksOnce, pull-MarkSteps, MarkStep-final,
}
use walrust.Compaction.Merge.Emits.{
  final_at, written, IsPopped, chosen, Run-written, In-pages_at, pages_at-stop,
}
use walrust.Compaction.Merge.Primed.{IsPrimed, prime-IsPrimed, IsPrimed-IsFrontier}
use walrust.Compaction.Merge.Output.{start}

-- The pages of source `i`.
abbrev pub source_pages : List MergeInput → ℕ → List PageEntry
source_pages sources i = pages_of_stream (get_elem? (map (λ s. s.stream) sources) i)

-- A page of a source whose id no later source has a page of.
abbrev pub IsLastWrite : List MergeInput → PageEntry → Type 0
IsLastWrite sources w =
    (i : ℕ) × In w (source_pages sources i)
    × ((j : ℕ) (q : PageEntry) → In q (source_pages sources j) → q.page_id ≡ w.page_id → j ≤ i)

-- The pages of the sources, each id once, in the order of the ids, as the last source wrote it.
pub record IsMergeOf (sources : List MergeInput) (pages : List PageEntry) : Type 0 where
  pub ascending : Ascending pages
  pub last : (w : PageEntry) → In w pages → IsLastWrite sources w
  pub complete :
      (i : ℕ) (p : PageEntry)
      → In p (source_pages sources i)
      → (w : PageEntry) × In w pages × (w.page_id ≡ p.page_id)

-- The size that the last source declares.
abbrev pub declared_size : List MergeInput → ℕ → Option ℕ
declared_size sources l = final_epc none (source_pages sources l)

-- At the end the size is the declared one.
Run-final :
    (size : PageIdSize) (l : ℕ) {st end : MergeState} {popped : List HeapPage}
    → Run size (suc l) st popped end
    → IsFrontier st
    → end.final_end_page_count ≡ final_at l st
Run-final size l {st} (stop empty) f =
    sym (ap (final_epc st.final_end_page_count) (pages_at-stop st l empty f))
Run-final size l {st} (round {next} {top} {heap} head pulled r) f =
    Run-final size l r (round-IsFrontier size (suc l) st next top heap head pulled f)
    ∙ MarkStep-final (pull-MarkSteps size l top.order _ pulled)
    ∙ (λ i.
        final_epc (resolve-epc size top (record st { heap = heap }) i)
          (pages_of_stream (get_elem? (resolve-streams size top (record st { heap = heap }) i) l)))

chosen-IsMergeOf :
    (sources : List MergeInput) (popped : List HeapPage)
    → IsSorted pops_first popped
    → ((x : HeapPage) → In x popped → In x.page (source_pages sources x.order))
    → ((x : HeapPage) → In x.page (source_pages sources x.order) → In x popped)
    → IsMergeOf sources (chosen none popped)
chosen-IsMergeOf sources [] sorted to from = record {
  ascending = tt;
  last = λ w m. elim m [ ];
  complete = λ i p m. elim (from (record { order = i; page = p }) m) [ ];
}
chosen-IsMergeOf sources (x ∷ xs) sorted to from = record {
  ascending = winners-Ascending x xs sorted;
  last = λ w m.
      let (z, member, found, last) = winners-IsLast x xs sorted w m in
      (
        z.order,
        subst (λ v. In v (source_pages sources z.order)) found (to z member),
        λ j q inside same.
            last (record { order = j; page = q }) (from (record { order = j; page = q }) inside)
              same,
      );
  complete = λ i p m.
      winners-id x xs (record { order = i; page = p }) (from (record { order = i; page = p }) m);
}

get_elem?-past : {A : Type 0} (xs : List A) (i : ℕ) → length xs ≤ i → get_elem? xs i ≡ none
get_elem?-past [] i h = refl
get_elem?-past (x ∷ xs) zero h = absurd (omega (arith, h))
get_elem?-past (x ∷ xs) (suc i) h = get_elem?-past xs i (omega (arith, h))

start-IsPrimed :
    (prev : ℕ) (sources : List MergeInput) (l : ℕ)
    → length sources ≡ suc l
    → ((i : ℕ) → Ascending (source_pages sources i))
    → MarksOnce (source_pages sources l)
    → IsPrimed l 0 (start prev sources) (start prev sources)
unfolding start
start-IsPrimed prev sources l count ascending once = record {
  sorted = tt;
  ascending = λ i s e. subst (λ o. Ascending (pages_of_stream o)) e (ascending i);
  led = λ i range s p e m. elim range [
    | inl below ↦ absurd (omega (arith, below))
    | inr past ↦ absurd (
        cc (
          sym e
          ∙ get_elem?-past (map (λ s. s.stream) sources) i
              (omega (arith, past, count, length-map (λ (s : MergeInput). s.stream) sources))))
  ];
  kept = λ x w. w;
  no_other = λ x w. w;
  marked = record { once = once; fresh = inl refl };
  final = refl;
  pending = refl;
  body = refl;
}

In-Waits :
    (prev : ℕ) (sources : List MergeInput) (x : HeapPage)
    → In x.page (source_pages sources x.order)
    → Waits (start prev sources) x
unfolding start
In-Waits prev sources x m = inr (In-pages_at (start prev sources) x.order m)

Waits-In :
    (prev : ℕ) (sources : List MergeInput) (x : HeapPage)
    → Waits (start prev sources) x
    → In x.page (source_pages sources x.order)
unfolding start
Waits-In prev sources x (inl m) = elim m [ ]
Waits-In prev sources x (inr (s, e, m)) = subst (λ o. In x.page (pages_of_stream o)) (sym e) m

-- The loop, from the start to the last flush.
pub loop-IsMergeOf :
    (size : PageIdSize) (prev : ℕ) (sources : List MergeInput) (l fuel : ℕ) {st end : MergeState}
    → length sources ≡ suc l
    → ((i : ℕ) → Ascending (source_pages sources i))
    → MarksOnce (source_pages sources l)
    → prime size (suc l) (suc l) 0 (start prev sources) ≡ ok st
    → merge_loop size (suc l) fuel st ≡ some (ok end)
    → (pages : List PageEntry) × IsMergeOf sources pages
      × ((flush size end).body ≡ written size (declared_size sources l) pages)
      × (end.final_end_page_count ≡ declared_size sources l)
unfolding start
loop-IsMergeOf size prev sources l fuel {st} {end} count ascending once h k =
    let p =
      prime-IsPrimed size l (suc l) 0 h (start-IsPrimed prev sources l count ascending once) in
    let f = IsPrimed-IsFrontier l (suc l + 0) (omega arith) p in
    let (popped, r) = merge_loop-Run size (suc l) fuel st k in
    let wrote =
      Run-written size l r f p.marked
        (subst (λ o. IsPopped o popped) (sym p.pending) (Run-IsSorted size (suc l) r f)) in
    (
      chosen none popped,
      chosen-IsMergeOf sources popped (Run-IsSorted size (suc l) r f)
          (λ x m. Waits-In prev sources x (p.no_other x (Run-Waits size (suc l) r f x m)))
          (λ x m. Waits-Run size (suc l) r f x (p.kept x (In-Waits prev sources x m))),
      wrote ∙ (λ i. p.body i ++ written size (p.final i) (chosen (p.pending i) popped)),
      Run-final size l r f ∙ p.final,
    )
