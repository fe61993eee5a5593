-- ===== src/Compaction/Merge/Fuel.antt =====
-- The merge returns: each round of its loop pops a page, and pages are not made.
use walrust.Base.{
  ℕ, zero, suc, ◌+◌, ◌<◌, ◌≡◌, ◌≢◌, refl, ◌∙◌, sym, ap, inl, inr, none, some, List, [], ◌∷◌, ◌==◌,
  leb, length, get_elem?, set, map, arith, Result, ok, err, Bytes, >>=-eq-ok, Bool-cases,
  Option-cases, Result-cases,
}
use walrust.Compaction.Errors.{CompactionError}
use walrust.Compaction.Header.{PageIdSize, SourceHeader}
use walrust.Compaction.Merge.{
  PageEntry, PageStream, MergeInput, HeapPage, pops_first, heap_push, MergeState, pull, prime,
  flush, resolve, merge_loop, should_emit, emit_page,
}
use walrust.Compaction.Merge.Output.{
  start, page_total, after_loop, run_merge, merge_changesets, same_geometry,
}

length-heap_push :
    (p : HeapPage) (heap : List HeapPage) → length (heap_push p heap) ≡ suc (length heap)
unfolding heap_push
length-heap_push p [] = refl
length-heap_push p (q ∷ heap) = elim (Bool-cases (pops_first p q)) [
  | inl e ↦ rw e refl
  | inr e ↦ rw e (omega (arith, length-heap_push p heap))
]

-- A page that is taken from a stream.
page_total-set :
    (streams : List PageStream) (i : ℕ) (s : PageStream) (page : PageEntry) (rest : List PageEntry)
    → get_elem? streams i ≡ some s
    → s.pages ≡ page ∷ rest
    → suc (page_total (set streams i (record s { pages = rest }))) ≡ page_total streams
unfolding page_total
page_total-set [] i s page rest h e = cc
page_total-set (t ∷ streams) zero s page rest h e =
    let same : t ≡ s = cc in
    let long : length t.pages ≡ suc (length rest) =
      ap (λ (x : PageStream). length x.pages) same ∙ ap length e in
    omega (arith, long)
page_total-set (t ∷ streams) (suc i) s page rest h e =
    omega (arith, page_total-set streams i s page rest h e)

-- The pages that are yet to be popped.
abbrev pages_left : MergeState → ℕ
pages_left st = length st.heap + page_total st.streams

pull-pages_left :
    (size : PageIdSize) (n order : ℕ) (st : MergeState) {st' : MergeState}
    → pull size n order st ≡ ok st'
    → pages_left st' ≡ pages_left st
unfolding pull
pull-pages_left size n order st {st' = st'} h = elim (Option-cases (get_elem? st.streams order)) [
  | inl e ↦ let same : st ≡ st' = cc (rw (e, pull) at h) in ap pages_left (sym same)
  | inr (s, e) ↦ go s e s.pages refl
]
  where
    go :
        (s : PageStream)
        → get_elem? st.streams order ≡ some s
        → (pages : List PageEntry) → s.pages ≡ pages
        → pages_left st' ≡ pages_left st
    go s e [] q = elim (Option-cases s.fault) [
      | inl f ↦ let same : st ≡ st' = cc (rw (e, q, f, pull) at h) in ap pages_left (sym same)
      | inr (x, f) ↦ absurd (cc (rw (e, q, f, pull) at h))
    ]
    go s e (page ∷ rest) q =
        let heap : heap_push (record { order = order; page = page }) st.heap ≡ st'.heap =
          cc (rw (e, q, pull) at h) in
        let streams : set st.streams order (record s { pages = rest }) ≡ st'.streams =
          cc (rw (e, q, pull) at h) in
        omega (
          arith,
          ap length heap,
          length-heap_push (record { order = order; page = page }) st.heap,
          ap page_total streams,
          page_total-set st.streams order s page rest e q,
        )

flush-pages_left :
    (size : PageIdSize) (st : MergeState) → pages_left (flush size st) ≡ pages_left st
unfolding flush emit_page
flush-pages_left size st = elim (Option-cases st.pending) [
  | inl e ↦ rw (e, flush) refl
  | inr (p, e) ↦ elim (Bool-cases (should_emit p.page st.final_end_page_count)) [
    | inl t ↦ rw (e, t, flush) refl
    | inr t ↦ rw (e, t, flush) refl
  ]
]

resolve-pages_left :
    (size : PageIdSize) (top : HeapPage) (st : MergeState)
    → pages_left (resolve size top st) ≡ pages_left st
unfolding resolve
resolve-pages_left size top st = elim (Option-cases st.pending) [
  | inl e ↦ rw (e, resolve) refl
  | inr (p, e) ↦ elim (Bool-cases (p.page.page_id == top.page.page_id)) [
    | inl t ↦ elim (Bool-cases (leb p.order top.order)) [
      | inl u ↦ rw (e, t, u, resolve) refl
      | inr u ↦ rw (e, t, u, resolve) refl
    ]
    | inr t ↦ rw (e, t, resolve) (flush-pages_left size st)
  ]
]

merge_loop_ends :
    (size : PageIdSize) (n fuel : ℕ) (st : MergeState)
    → pages_left st < fuel
    → merge_loop size n fuel st ≢ none
unfolding merge_loop
merge_loop_ends size n zero st h e = absurd (omega (arith, h))
merge_loop_ends size n (suc fuel) st h e =
    go (λ st' less. merge_loop_ends size n fuel st' less) st.heap refl
  where
    go :
        ((st' : MergeState) → pages_left st' < fuel → merge_loop size n fuel st' ≢ none)
        → (heap : List HeapPage) → st.heap ≡ heap
        → ⊥
    go later [] q = absurd (cc (rw (q, merge_loop) at e))
    go later (top ∷ heap) q =
        let popped = resolve size top (record st { heap = heap }) in
        let left : suc (pages_left popped) ≡ pages_left st =
          omega (arith, resolve-pages_left size top (record st { heap = heap }), ap length q) in
        elim (Result-cases (pull size n top.order popped)) [
          | inl (st', r) ↦
              later st' (omega (arith, h, left, pull-pages_left size n top.order popped r))
                (rw (q, r, merge_loop) at e)
          | inr (x, r) ↦ absurd (cc (rw (q, r, merge_loop) at e))
        ]

prime-pages_left :
    (size : PageIdSize) (n left order : ℕ) (st : MergeState) {st' : MergeState}
    → prime size n left order st ≡ ok st'
    → pages_left st' ≡ pages_left st
unfolding prime
prime-pages_left size n zero order st {st' = st'} h =
    let same : st ≡ st' = cc in ap pages_left (sym same)
prime-pages_left size n (suc left) order st h =
    let (mid, p, q) = >>=-eq-ok (pull size n order st) _ h in
    prime-pages_left size n left (suc order) mid q ∙ pull-pages_left size n order st p

after_loop-some :
    (sha256 : Bytes → Bytes) (first : SourceHeader) (sources : List MergeInput) (created_ms : ℕ)
    (r : Result MergeState CompactionError)
    → after_loop sha256 first sources created_ms (some r) ≢ none
unfolding after_loop
after_loop-some sha256 first sources created_ms (ok st) e = cc
after_loop-some sha256 first sources created_ms (err x) e = cc

run_merge_ends :
    (sha256 : Bytes → Bytes) (first : SourceHeader) (sources : List MergeInput) (created_ms : ℕ)
    → run_merge sha256 first sources created_ms ≢ none
unfolding run_merge start
run_merge_ends sha256 first sources created_ms e = elim (Result-cases primed) [
  | inr (x, p) ↦ absurd (cc (rw (p, run_merge) at e))
  | inl (st, p) ↦
      let few : pages_left st < fuel =
        omega (
          arith,
          prime-pages_left first.page_id_size n n 0 (start first.prev_checksum sources) p,
        ) in
      elim (Option-cases (merge_loop first.page_id_size n fuel st)) [
        | inl q ↦ merge_loop_ends first.page_id_size n fuel st few q
        | inr (r, q) ↦ after_loop-some sha256 first sources created_ms r (rw (p, q, run_merge) at e)
      ]
]
  where
    n : ℕ
    n = length sources

    fuel : ℕ
    fuel = suc (page_total (map (λ s. s.stream) sources))

    primed : Result MergeState CompactionError
    primed = prime first.page_id_size n n 0 (start first.prev_checksum sources)

-- The merge never runs out of fuel: it ends with an object or an error.
pub merge_changesets_ends :
    (sha256 : Bytes → Bytes) (sources : List MergeInput) (created_ms : ℕ)
    → merge_changesets sha256 sources created_ms ≢ none
unfolding merge_changesets
merge_changesets_ends sha256 [] created_ms e = cc
merge_changesets_ends sha256 (s ∷ rest) created_ms e =
    elim (Bool-cases (same_geometry s.header (s ∷ rest))) [
      | inl g ↦ run_merge_ends sha256 s.header (s ∷ rest) created_ms (rw (g, merge_changesets) at e)
      | inr g ↦ absurd (cc (rw (g, merge_changesets) at e))
    ]
