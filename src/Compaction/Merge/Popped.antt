-- ===== src/Compaction/Merge/Popped.antt =====
-- crates/walrust-core/src/compaction/merge.rs: the loop pops every page, in order.
use walrust.Base.{
  ℕ, ◌≤◌, ◌<◌, ◌≡◌, ◌≢◌, ◌∙◌, sym, ap, subst, inl, inr, ◌⊎◌, List, ◌∷◌, true, get_elem?, In, here,
  there, All-In, In-All, arith, ok, IsSorted,
}
use walrust.Compaction.Header.{PageIdSize}
use walrust.Compaction.Merge.{HeapPage, pops_first, MergeState, pull, resolve}
use walrust.Compaction.Merge.Run.{Run, stop, round, resolve-heap, resolve-streams}
use walrust.Compaction.Merge.Order.{
  Waits, LedAt, AllAscend, IsFrontier, Pulled, pull-Pulled, Pulled-LedAt, Pulled-AllAscend,
  Pulled-IsSorted, Pulled-Waits, Waits-Pulled, In-uncons,
}

pub lt-pops_first : (a b : HeapPage) → a.page.page_id < b.page.page_id → pops_first a b ≡ true
lt-pops_first a b h = ground arith

pub pops_first-le : (a b : HeapPage) → pops_first a b ≡ true → a.page.page_id ≤ b.page.page_id
pops_first-le a b h = ground arith

module _ (size : PageIdSize) (n : ℕ) (st next : MergeState) (top : HeapPage) (heap : List HeapPage)
    (head : st.heap ≡ top ∷ heap)
    (pulled : pull size n top.order (resolve size top (record st { heap = heap })) ≡ ok next) where
  abbrev mid : MergeState
  mid = resolve size top (record st { heap = heap })

  pulls : Pulled top.order mid next
  pulls = pull-Pulled size n top.order mid pulled

  heap_mid : mid.heap ≡ heap
  heap_mid = resolve-heap size top (record st { heap = heap })

  streams_mid : mid.streams ≡ st.streams
  streams_mid = resolve-streams size top (record st { heap = heap })

  mid-LedAt : (i : ℕ) → LedAt st i → i ≢ top.order → LedAt mid i
  mid-LedAt i led ne s p e m =
      let (q, member, o, less) = led s p (ap (λ l. get_elem? l i) (sym streams_mid) ∙ e) m in
      elim (In-uncons (subst (In q) head member)) [
        | inl first ↦ absurd (ne (sym o ∙ ap (λ (x : HeapPage). x.order) first))
        | inr later ↦ (q, subst (In q) (sym heap_mid) later, o, less)
      ]

  mid-AllAscend : AllAscend st → AllAscend mid
  mid-AllAscend asc i s e = asc i s (ap (λ l. get_elem? l i) (sym streams_mid) ∙ e)

  pub round-IsFrontier : IsFrontier st → IsFrontier next
  round-IsFrontier f = record {
    sorted =
        Pulled-IsSorted pulls (
          subst (IsSorted pops_first) (sym heap_mid) (subst (IsSorted pops_first) head f.sorted).1);
    led = λ i. Pulled-LedAt pulls (mid-AllAscend f.ascending) i (mid-LedAt i (f.led i));
    ascending = Pulled-AllAscend pulls (mid-AllAscend f.ascending);
  }

  mid-Waits : (x : HeapPage) → Waits mid x → Waits st x
  mid-Waits x (inl m) = inl (subst (In x) (sym head) (there (subst (In x) heap_mid m)))
  mid-Waits x (inr (s, e, m)) = inr (s, ap (λ l. get_elem? l x.order) (sym streams_mid) ∙ e, m)

  Waits-mid : (x : HeapPage) → Waits st x → (x ≡ top) ⊎ Waits mid x
  Waits-mid x (inl m) = elim (In-uncons (subst (In x) head m)) [
    | inl first ↦ inl first
    | inr later ↦ inr (inl (subst (In x) (sym heap_mid) later))
  ]
  Waits-mid x (inr (s, e, m)) = inr (inr (s, ap (λ l. get_elem? l x.order) streams_mid ∙ e, m))

  -- The page that is popped comes before all that wait behind it.
  top_first : IsFrontier st → (x : HeapPage) → Waits mid x → pops_first top x ≡ true
  top_first f x (inl m) =
      All-In (λ y. pops_first top y ≡ true) heap (subst (IsSorted pops_first) head f.sorted).0
        (subst (In x) heap_mid m)
  top_first f x (inr (s, e, m)) =
      let (q, member, o, less) =
        f.led x.order s x.page (ap (λ l. get_elem? l x.order) (sym streams_mid) ∙ e) m in
      elim (In-uncons (subst (In q) head member)) [
        | inl first ↦
            lt-pops_first top x (omega (arith, less, ap (λ (y : HeapPage). y.page.page_id) first))
        | inr later ↦
            let before =
              All-In (λ y. pops_first top y ≡ true) heap
                (subst (IsSorted pops_first) head f.sorted).0 later in
            lt-pops_first top x (omega (arith, less, pops_first-le top q before))
      ]

-- All pages are popped, and no others, each before those behind it.
pub Run-Waits :
    (size : PageIdSize) (n : ℕ) {st end : MergeState} {popped : List HeapPage}
    → Run size n st popped end
    → IsFrontier st
    → (x : HeapPage) → In x popped
    → Waits st x
Run-Waits size n (stop empty) f x m = elim m [ ]
Run-Waits size n {st} (round {next} {top} {heap} head pulled r) f x m = elim (In-uncons m) [
  | inl first ↦ inl (subst (In x) (sym head) (subst (λ y. In y (top ∷ heap)) (sym first) here))
  | inr later ↦ mid-Waits size n st next top heap head pulled x (
      Pulled-Waits (pulls size n st next top heap head pulled) x
        (Run-Waits size n r (round-IsFrontier size n st next top heap head pulled f) x later))
]

pub Waits-Run :
    (size : PageIdSize) (n : ℕ) {st end : MergeState} {popped : List HeapPage}
    → Run size n st popped end
    → IsFrontier st
    → (x : HeapPage) → Waits st x
    → In x popped
Waits-Run size n {st} (stop empty) f x (inl m) = subst (In x) empty m
Waits-Run size n {st} (stop empty) f x (inr (s, e, m)) =
    let (q, member, o, less) = f.led x.order s x.page e m in elim (subst (In q) empty member) [ ]
Waits-Run size n {st} (round {next} {top} {heap} {popped} head pulled r) f x w =
    elim (Waits-mid size n st next top heap head pulled x w) [
      | inl first ↦ subst (λ y. In y (top ∷ popped)) (sym first) here
      | inr later ↦ there (
          Waits-Run size n r (round-IsFrontier size n st next top heap head pulled f) x
            (Waits-Pulled (pulls size n st next top heap head pulled) x later))
    ]

pub Run-IsSorted :
    (size : PageIdSize) (n : ℕ) {st end : MergeState} {popped : List HeapPage}
    → Run size n st popped end
    → IsFrontier st
    → IsSorted pops_first popped
Run-IsSorted size n (stop empty) f = tt
Run-IsSorted size n {st} (round {next} {top} {heap} {popped} head pulled r) f =
    let front = round-IsFrontier size n st next top heap head pulled f in
    (
      In-All (λ y. pops_first top y ≡ true) popped
          (λ x m. top_first size n st next top heap head pulled f x (
            Pulled-Waits (pulls size n st next top heap head pulled) x
              (Run-Waits size n r front x m))),
      Run-IsSorted size n r front,
    )
