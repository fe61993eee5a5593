-- ===== src/Compaction/Merge/Order.antt =====
-- crates/walrust-core/src/compaction/merge.rs: the pages are popped in the order of their ids, and of
-- their sources for one id, if the page ids of each source ascend.
use walrust.Base.{
  ℕ, zero, suc, ◌<◌, ◌≡◌, ◌≢◌, refl, ◌∙◌, sym, ap, subst, inl, inr, ◌⊎◌, some, List, [], ◌∷◌, true,
  false, get_elem?, set, In, here, there, All-In, arith, ok, Option-cases, IsSorted, insert_by,
  In-insert_by, insert_by-In, insert_by-IsSorted, if◌then◌else◌,
}
use native.Mathlib.Decide.{ℕ_discrete}
use walrust.Compaction.Header.{PageIdSize}
use walrust.Compaction.Merge.{
  PageEntry, PageStream, HeapPage, pops_first, heap_push, MergeState, pull,
}
use walrust.Compaction.Merge.Run.{Ascending}

-- The pages that are to be popped.
abbrev pub Waits : MergeState → HeapPage → Type 0
Waits st x =
    In x st.heap ⊎ ((s : PageStream) × (get_elem? st.streams x.order ≡ some s) × In x.page s.pages)

-- Each page of a stream has a page before it in the heap.
abbrev pub LedAt : MergeState → ℕ → Type 0
LedAt st i =
    (s : PageStream) (p : PageEntry)
    → get_elem? st.streams i ≡ some s
    → In p s.pages
    → (q : HeapPage) × In q st.heap × (q.order ≡ i) × (q.page.page_id < p.page_id)

pub record IsFrontier (st : MergeState) : Type 0 where
  pub sorted : IsSorted pops_first st.heap
  pub led : (i : ℕ) → LedAt st i
  pub ascending : (i : ℕ) (s : PageStream) → get_elem? st.streams i ≡ some s → Ascending s.pages

heap_push-eq :
    (p : HeapPage) (heap : List HeapPage) → heap_push p heap ≡ insert_by pops_first p heap
unfolding heap_push
heap_push-eq p [] = refl
heap_push-eq p (q ∷ heap) =
    ap (λ l. if pops_first p q then p ∷ q ∷ heap else q ∷ l) (heap_push-eq p heap)

pops_first_total : (a b : HeapPage) → pops_first a b ≡ false → pops_first b a ≡ true
pops_first_total a b h = ground arith

pub pops_first_trans :
    (a b c : HeapPage) → pops_first a b ≡ true → pops_first b c ≡ true → pops_first a c ≡ true
pops_first_trans a b c h k = ground arith

heap_push-IsSorted :
    (p : HeapPage) (heap : List HeapPage)
    → IsSorted pops_first heap
    → IsSorted pops_first (heap_push p heap)
heap_push-IsSorted p heap s =
    rw (heap_push-eq p heap)
      (insert_by-IsSorted pops_first pops_first_total pops_first_trans p heap s)

heap_push-In :
    (p : HeapPage) (heap : List HeapPage) {x : HeapPage} → In x (p ∷ heap) → In x (heap_push p heap)
heap_push-In p heap m = rw (heap_push-eq p heap) (insert_by-In pops_first p heap m)

In-heap_push :
    (p : HeapPage) (heap : List HeapPage) {x : HeapPage} → In x (heap_push p heap) → In x (p ∷ heap)
In-heap_push p heap m = In-insert_by pops_first p heap (rw (heap_push-eq p heap) at m)

module _ {A : Type 0} where
  pub get_elem?-set_self :
      (xs : List A) (i : ℕ) (v : A) {x : A}
      → get_elem? xs i ≡ some x
      → get_elem? (set xs i v) i ≡ some v
  get_elem?-set_self [] i v e = absurd (cc e)
  get_elem?-set_self (y ∷ xs) zero v e = refl
  get_elem?-set_self (y ∷ xs) (suc i) v e = get_elem?-set_self xs i v e

  pub get_elem?-set_ne :
      (xs : List A) (i j : ℕ) (v : A) → j ≢ i → get_elem? (set xs i v) j ≡ get_elem? xs j
  get_elem?-set_ne [] i j v ne = refl
  get_elem?-set_ne (y ∷ xs) zero zero v ne = absurd (ne refl)
  get_elem?-set_ne (y ∷ xs) zero (suc j) v ne = refl
  get_elem?-set_ne (y ∷ xs) (suc i) zero v ne = refl
  get_elem?-set_ne (y ∷ xs) (suc i) (suc j) v ne = get_elem?-set_ne xs i j v (λ e. ne (ap suc e))

-- What a pull does: nothing, where the source has no page left, or its next page goes to the heap.
pub data Pulled (order : ℕ) (st : MergeState) : MergeState → Type 0 where
  same :
      ((s : PageStream) → get_elem? st.streams order ≡ some s → s.pages ≡ []) → Pulled order st st
  moved :
      {next : MergeState} {s : PageStream} {page : PageEntry} {rest : List PageEntry}
      → get_elem? st.streams order ≡ some s
      → s.pages ≡ page ∷ rest
      → next.streams ≡ set st.streams order (record s { pages = rest })
      → next.heap ≡ heap_push (record { order = order; page = page }) st.heap
      → Pulled order st next

pub pull-Pulled :
    (size : PageIdSize) (n order : ℕ) (st : MergeState) {next : MergeState}
    → pull size n order st ≡ ok next
    → Pulled order st next
unfolding pull
pull-Pulled size n order st {next} h = elim (Option-cases (get_elem? st.streams order)) [
  | inl e ↦
      let eq : st ≡ next = cc (rw (e, pull) at h) in
      subst (Pulled order st) eq (same (λ s f. absurd (cc (sym e ∙ f))))
  | inr (s, e) ↦ go s e s.pages refl
]
  where
    go :
        (s : PageStream)
        → get_elem? st.streams order ≡ some s
        → (pages : List PageEntry) → s.pages ≡ pages
        → Pulled order st next
    go s e [] q = elim (Option-cases s.fault) [
      | inl f ↦
          let eq : st ≡ next = cc (rw (e, q, f, pull) at h) in
          subst (Pulled order st) eq
            (same (λ t g. let eq2 : t ≡ s = cc in ap (λ (x : PageStream). x.pages) eq2 ∙ q))
      | inr (x, f) ↦ absurd (cc (rw (e, q, f, pull) at h))
    ]
    go s e (page ∷ rest) q =
        moved e q (sym (cc (rw (e, q, pull) at h))) (sym (cc (rw (e, q, pull) at h)))

abbrev pub AllAscend : MergeState → Type 0
AllAscend st = (i : ℕ) (s : PageStream) → get_elem? st.streams i ≡ some s → Ascending s.pages

-- The stream of a source after its page was pulled.
moved_stream :
    (before after : List PageStream) (i order : ℕ) (s t : PageStream) (rest : List PageEntry)
    → i ≡ order
    → get_elem? before order ≡ some s
    → after ≡ set before order (record s { pages = rest })
    → get_elem? after i ≡ some t
    → t.pages ≡ rest
moved_stream before after i order s t rest at found streams e =
    let new : get_elem? after i ≡ some (record s { pages = rest }) =
      ap (λ l. get_elem? l i) streams
      ∙ ap (get_elem? (set before order (record s { pages = rest }))) at
      ∙ get_elem?-set_self before order (record s { pages = rest }) found in
    let eq : t ≡ record s { pages = rest } = cc in ap (λ (x : PageStream). x.pages) eq

other_stream :
    (before after : List PageStream) (i order : ℕ) (s : PageStream)
    → i ≢ order
    → after ≡ set before order s
    → get_elem? after i ≡ get_elem? before i
other_stream before after i order s ne streams =
    ap (λ l. get_elem? l i) streams ∙ get_elem?-set_ne before order i s ne

pub In-uncons : {A : Type 0} {x y : A} {l : List A} → In x (y ∷ l) → (x ≡ y) ⊎ In x l
In-uncons here = inl refl
In-uncons (there m) = inr m

-- After a pull the source's pages are led, and those of the others as before.
pub Pulled-LedAt :
    {order : ℕ} {st next : MergeState}
    → Pulled order st next
    → AllAscend st
    → (i : ℕ) → (i ≢ order → LedAt st i)
    → LedAt next i
Pulled-LedAt {order} (same empty) asc i led s p e m = elim (ℕ_discrete i order) [
  | no ne ↦ led ne s p e m
  | yes eq ↦
      let none_left = empty s (ap (get_elem? _) (sym eq) ∙ e) in elim (subst (In p) none_left m) [ ]
]
Pulled-LedAt {order} {st} {next} (moved {s} {page} {rest} found pages streams heap) asc i led t p e
      m =
    elim (ℕ_discrete i order) [
      | no ne ↦
          let (q, member, o, less) =
            led ne t p (sym (other_stream st.streams next.streams i order _ ne streams) ∙ e) m in
          (q, subst (In q) (sym heap) (heap_push-In _ st.heap (there member)), o, less)
      | yes eq ↦
          let left = moved_stream st.streams next.streams i order s t rest eq found streams e in
          let tops = subst Ascending pages (asc order s found) in
          (
            record { order = order; page = page },
            subst (In _) (sym heap) (heap_push-In _ st.heap here),
            sym eq,
            All-In (λ q. page.page_id < q.page_id) rest tops.0 (subst (In p) left m),
          )
    ]

pub Pulled-AllAscend :
    {order : ℕ} {st next : MergeState} → Pulled order st next → AllAscend st → AllAscend next
Pulled-AllAscend (same empty) asc i t e = asc i t e
Pulled-AllAscend {order} {st} {next} (moved {s} {page} {rest} found pages streams heap) asc i t e =
    elim (ℕ_discrete i order) [
      | no ne ↦ asc i t (sym (other_stream st.streams next.streams i order _ ne streams) ∙ e)
      | yes eq ↦
          let left = moved_stream st.streams next.streams i order s t rest eq found streams e in
          subst Ascending (sym left) (subst Ascending pages (asc order s found)).1
    ]

pub Pulled-IsSorted :
    {order : ℕ} {st next : MergeState}
    → Pulled order st next
    → IsSorted pops_first st.heap
    → IsSorted pops_first next.heap
Pulled-IsSorted (same empty) sorted = sorted
Pulled-IsSorted {st} (moved found pages streams heap) sorted =
    subst (IsSorted pops_first) (sym heap) (heap_push-IsSorted _ st.heap sorted)

-- The same pages wait before and after a pull.
pub Pulled-Waits :
    {order : ℕ} {st next : MergeState}
    → Pulled order st next
    → (x : HeapPage) → Waits next x
    → Waits st x
Pulled-Waits (same empty) x w = w
Pulled-Waits {order} {st} (moved {s} {page} {rest} found pages streams heap) x (inl m) =
    elim (In-uncons (In-heap_push _ st.heap (subst (In x) heap m))) [
      | inr n ↦ inl n
      | inl eq ↦ inr (
        s,
        ap (λ (y : HeapPage). get_elem? st.streams y.order) eq ∙ found,
        subst (λ (y : HeapPage). In y.page s.pages) (sym eq) (subst (In page) (sym pages) here),
      )
    ]
Pulled-Waits {order} {st} {next} (moved {s} {page} {rest} found pages streams heap) x
      (inr (t, e, m)) =
    elim (ℕ_discrete x.order order) [
      | no ne ↦
          inr (t, sym (other_stream st.streams next.streams x.order order _ ne streams) ∙ e, m)
      | yes eq ↦
          let left =
            moved_stream st.streams next.streams x.order order s t rest eq found streams e in
          inr (
            s,
            ap (get_elem? st.streams) eq ∙ found,
            subst (In x.page) (sym pages) (there (subst (In x.page) left m)),
          )
    ]

pub Waits-Pulled :
    {order : ℕ} {st next : MergeState}
    → Pulled order st next
    → (x : HeapPage) → Waits st x
    → Waits next x
Waits-Pulled (same empty) x w = w
Waits-Pulled {order} {st} (moved {s} {page} {rest} found pages streams heap) x (inl m) =
    inl (subst (In x) (sym heap) (heap_push-In _ st.heap (there m)))
Waits-Pulled {order} {st} {next} (moved {s} {page} {rest} found pages streams heap) x
      (inr (t, e, m)) =
    elim (ℕ_discrete x.order order) [
      | no ne ↦ inr (t, other_stream st.streams next.streams x.order order _ ne streams ∙ e, m)
      | yes eq ↦
          let same_source : t ≡ s = cc (ap (get_elem? st.streams) (sym eq) ∙ e) in
          let was : In x.page (page ∷ rest) =
            subst (In x.page) (ap (λ (y : PageStream). y.pages) same_source ∙ pages) m in
          elim (In-uncons was) [
            | inl first ↦ inl (
                subst (In x) (sym heap) (
                  heap_push-In _ st.heap (
                    subst (λ y. In x (y ∷ st.heap)) (λ i. record { order = eq i; page = first i })
                      here)))
            | inr later ↦ inr (
              record s { pages = rest },
              ap (λ l. get_elem? l x.order) streams
                  ∙ ap (get_elem? (set st.streams order (record s { pages = rest }))) eq
                  ∙ get_elem?-set_self st.streams order (record s { pages = rest }) found,
              later,
            )
          ]
    ]
