-- ===== src/Compaction/Merge/Run.antt =====
-- crates/walrust-core/src/compaction/merge.rs: the rounds of the merge's loop, and the order in which
-- they pop the pages of sources whose page ids ascend.
use walrust.Base.{
  ℕ, zero, suc, ◌<◌, ◌≡◌, refl, subst, inl, inr, some, List, [], ◌∷◌, All, arith, ok, Result-cases,
}
use walrust.Compaction.Header.{PageIdSize}
use walrust.Compaction.Merge.{PageEntry, HeapPage, MergeState, pull, resolve, merge_loop}

abbrev pub Ascending : List PageEntry → Type 0
Ascending [] = Unit
Ascending (p ∷ ps) = All (λ q. p.page_id < q.page_id) ps × Ascending ps

-- The rounds of a loop that ends, and the pages that they pop.
pub data Run (size : PageIdSize) (n : ℕ) : MergeState → List HeapPage → MergeState → Type 0 where
  stop : {st : MergeState} → st.heap ≡ [] → Run size n st [] st
  round :
      {st next end : MergeState} {top : HeapPage} {heap popped : List HeapPage}
      → st.heap ≡ top ∷ heap
      → pull size n top.order (resolve size top (record st { heap = heap })) ≡ ok next
      → Run size n next popped end
      → Run size n st (top ∷ popped) end

pub merge_loop-Run :
    (size : PageIdSize) (n fuel : ℕ) (st : MergeState) {end : MergeState}
    → merge_loop size n fuel st ≡ some (ok end)
    → (popped : List HeapPage) × Run size n st popped end
unfolding merge_loop
merge_loop-Run size n zero st e = absurd (cc e)
merge_loop-Run size n (suc fuel) st {end} e =
    go (λ next f. merge_loop-Run size n fuel next f) st.heap refl
  where
    go :
        ((next : MergeState)
          → merge_loop size n fuel next ≡ some (ok end)
          → (popped : List HeapPage) × Run size n next popped end)
        → (heap : List HeapPage) → st.heap ≡ heap
        → (popped : List HeapPage) × Run size n st popped end
    go later [] q =
        let same : st ≡ end = cc (rw (q, merge_loop) at e) in
        ([], subst (Run size n st []) same (stop q))
    go later (top ∷ heap) q =
        elim (Result-cases (pull size n top.order (resolve size top (record st { heap = heap })))) [
          | inr (failure, f) ↦ absurd (cc (rw (q, f, merge_loop) at e))
          | inl (next, f) ↦
              let (popped, r) = later next (rw (q, f, merge_loop) at e) in
              (top ∷ popped, round q f r)
        ]

-- What a round's resolution leaves alone.
pub resolve-heap :
    (size : PageIdSize) (top : HeapPage) (st : MergeState) → (resolve size top st).heap ≡ st.heap
unfolding resolve
resolve-heap size top st = ground arith

pub resolve-streams :
    (size : PageIdSize) (top : HeapPage) (st : MergeState)
    → (resolve size top st).streams ≡ st.streams
unfolding resolve
resolve-streams size top st = ground arith

pub resolve-epc :
    (size : PageIdSize) (top : HeapPage) (st : MergeState)
    → (resolve size top st).final_end_page_count ≡ st.final_end_page_count
unfolding resolve
resolve-epc size top st = ground arith
