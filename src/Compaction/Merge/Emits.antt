-- ===== src/Compaction/Merge/Emits.antt =====
-- crates/walrust-core/src/compaction/merge.rs: what the loop's rounds write.
use walrust.Base.{
  ℕ, suc, ◌≤◌, ◌<◌, ◌≡◌, ◌≢◌, refl, ◌∙◌, sym, ap, subst, inl, inr, Option, none, some, List, [],
  ◌∷◌, ◌++◌, ◌==◌, true, false, leb, get_elem?, In, here, All-In, arith, ok, Bytes, Option-cases,
  Bool-cases, if◌then◌else◌, le→leb, ==→eq, IsSorted,
}
use mathlib.Core.List.{append_assoc, append-nil}
use walrust.Compaction.Header.{PageIdSize}
use walrust.Compaction.Merge.{
  PageEntry, PageStream, HeapPage, pops_first, MergeState, page_bytes, should_emit, emit_page, pull,
  flush, resolve,
}
use walrust.Compaction.Merge.Run.{Run, stop, round, resolve-streams, resolve-epc}
use walrust.Compaction.Merge.Order.{IsFrontier, In-uncons}
use walrust.Compaction.Merge.Popped.{round-IsFrontier, pops_first-le}
use walrust.Compaction.Merge.Marks.{
  pages_at, pages_of_stream, final_epc, IsMarked, should_emit-final, MarkSteps, MarkStep-IsMarked,
  MarkStep-final, pull-MarkSteps,
}
use walrust.Compaction.Merge.Winners.{winners, pops_first-order, ==_ne}

-- The bytes of the pages that are written under the final size.
abbrev pub written : PageIdSize → Option ℕ → List PageEntry → Bytes
written size c [] = []
written size c (p ∷ ps) =
    if should_emit p c then page_bytes size p ++ written size c ps else written size c ps

abbrev pub chosen : Option HeapPage → List HeapPage → List PageEntry
chosen none [] = []
chosen none (x ∷ xs) = winners x xs
chosen (some p) xs = winners p xs

-- The pending page was popped before those that are yet to be.
abbrev pub IsPopped : Option HeapPage → List HeapPage → Type 0
IsPopped none xs = IsSorted pops_first xs
IsPopped (some p) xs = IsSorted pops_first (p ∷ xs)

pub pull-keeps :
    (size : PageIdSize) (n order : ℕ) (st : MergeState) {next : MergeState}
    → pull size n order st ≡ ok next
    → (next.pending ≡ st.pending) × (next.body ≡ st.body)
unfolding pull
pull-keeps size n order st {next} h = elim (Option-cases (get_elem? st.streams order)) [
  | inl e ↦ keep st (cc (rw (e, pull) at h))
  | inr (s, e) ↦ go s e s.pages refl
]
  where
    keep : (st' : MergeState) → st' ≡ next → (next.pending ≡ st'.pending) × (next.body ≡ st'.body)
    keep st' e =
        (ap (λ (x : MergeState). x.pending) (sym e), ap (λ (x : MergeState). x.body) (sym e))

    go :
        (s : PageStream)
        → get_elem? st.streams order ≡ some s
        → (pages : List PageEntry) → s.pages ≡ pages
        → (next.pending ≡ st.pending) × (next.body ≡ st.body)
    go s e [] q = elim (Option-cases s.fault) [
      | inl f ↦ keep st (cc (rw (e, q, f, pull) at h))
      | inr (x, f) ↦ absurd (cc (rw (e, q, f, pull) at h))
    ]
    go s e (page ∷ rest) q = (sym (cc (rw (e, q, pull) at h)), sym (cc (rw (e, q, pull) at h)))

flush-body :
    (size : PageIdSize) (st : MergeState) (p : HeapPage)
    → st.pending ≡ some p
    → (flush size st).body ≡ (
        if should_emit p.page st.final_end_page_count
        then st.body ++ page_bytes size p.page
        else st.body)
unfolding flush emit_page
flush-body size st p e = elim (Bool-cases (should_emit p.page st.final_end_page_count)) [
  | inl f ↦ rw (e, f, flush) refl
  | inr f ↦ rw (e, f, flush) refl
]

-- A round's resolution: the new page is pending, and the old one written if the id is another.
resolve-none :
    (size : PageIdSize) (top : HeapPage) (st : MergeState)
    → st.pending ≡ none
    → ((resolve size top st).pending ≡ some top) × ((resolve size top st).body ≡ st.body)
unfolding resolve
resolve-none size top st e = (rw (e, resolve) refl, rw (e, resolve) refl)

resolve_same :
    (size : PageIdSize) (top p : HeapPage) (st : MergeState)
    → st.pending ≡ some p
    → (p.page.page_id == top.page.page_id) ≡ true
    → leb p.order top.order ≡ true
    → ((resolve size top st).pending ≡ some top) × ((resolve size top st).body ≡ st.body)
unfolding resolve
resolve_same size top p st e f g = (rw (e, f, g, resolve) refl, rw (e, f, g, resolve) refl)

resolve_next :
    (size : PageIdSize) (top p : HeapPage) (st : MergeState)
    → st.pending ≡ some p
    → (p.page.page_id == top.page.page_id) ≡ false
    → ((resolve size top st).pending ≡ some top)
      × ((resolve size top st).body ≡ (
          if should_emit p.page st.final_end_page_count
          then st.body ++ page_bytes size p.page
          else st.body))
unfolding resolve
resolve_next size top p st e f =
    (rw (e, f, resolve) refl, rw (e, f, resolve) (flush-body size st p e))

-- What the round writes and what is yet to be written are what was to be written before it.
resolve-written :
    (size : PageIdSize) (top : HeapPage) (popped : List HeapPage) (st : MergeState) (c : Option ℕ)
    → IsPopped st.pending (top ∷ popped)
    → ((p : HeapPage)
        → st.pending ≡ some p
        → (p.page.page_id == top.page.page_id) ≡ false
        → should_emit p.page st.final_end_page_count ≡ should_emit p.page c)
    → ((resolve size top st).pending ≡ some top)
      × ((resolve size top st).body ++ written size c (winners top popped)
          ≡ st.body ++ written size c (chosen st.pending (top ∷ popped)))
unfolding winners
resolve-written size top popped st c sorted emit = elim (Option-cases st.pending) [
  | inl e ↦ let (pending, body) = resolve-none size top st e in (pending, rw (body, e) refl)
  | inr (p, e) ↦ elim (Bool-cases (p.page.page_id == top.page.page_id)) [
    | inl f ↦
        let before : IsPopped (some p) (top ∷ popped) =
          subst (λ q. IsPopped q (top ∷ popped)) e sorted in
        let later : leb p.order top.order ≡ true =
          le→leb _ _ (pops_first-order p top before.0.0 (==→eq _ _ f)) in
        let (pending, body) = resolve_same size top p st e f later in
        (pending, rw (body, e, f) refl)
    | inr f ↦
        let (pending, body) = resolve_next size top p st e f in
        let settled = emit p e f in
        (
          pending,
          elim (Bool-cases (should_emit p.page c)) [
            | inl g ↦
                rw (body, e, f, settled, g)
                  (append_assoc st.body (page_bytes size p.page)
                    (written size c (winners top popped)))
            | inr g ↦ rw (body, e, f, settled, g) refl
          ],
        )
  ]
]

pub In-pages_at :
    (st : MergeState) (l : ℕ) {m : PageEntry}
    → In m (pages_at st l)
    → (s : PageStream) × (get_elem? st.streams l ≡ some s) × In m s.pages
In-pages_at st l {m} member = elim (Option-cases (get_elem? st.streams l)) [
  | inl e ↦ elim (subst (λ o. In m (pages_of_stream o)) e member) [ ]
  | inr (s, e) ↦ (s, e, subst (λ o. In m (pages_of_stream o)) e member)
]

pub pages_at-stop : (st : MergeState) (l : ℕ) → st.heap ≡ [] → IsFrontier st → pages_at st l ≡ []
pages_at-stop st l empty f = go (pages_at st l) refl
  where
    go : (ps : List PageEntry) → pages_at st l ≡ ps → pages_at st l ≡ []
    go [] e = e
    go (p ∷ ps) e =
        let (s, found, member) = In-pages_at st l {m = p} (subst (In p) (sym e) here) in
        let (q, inside, o, less) = f.led l s p found member in elim (subst (In q) empty inside) [ ]

-- A page of a smaller id than the one that is popped is past the marker by more than one.
past_marker :
    (st : MergeState) (l : ℕ) (top : HeapPage) (heap : List HeapPage)
    → st.heap ≡ top ∷ heap
    → IsFrontier st
    → (p m : PageEntry) → p.page_id < top.page.page_id
    → In m (pages_at st l)
    → suc p.page_id < m.page_id
past_marker st l top heap head f p m before member =
    let (s, found, inside) = In-pages_at st l member in
    let (q, waits, o, less) = f.led l s m found inside in
    elim (In-uncons (subst (In q) head waits)) [
      | inl e ↦ omega (arith, before, less, ap (λ (x : HeapPage). x.page.page_id) e)
      | inr later ↦
          let first : top.page.page_id ≤ q.page.page_id = pops_first-le top q (
            All-In (λ y. pops_first top y ≡ true) heap (subst (IsSorted pops_first) head f.sorted).0
              later) in
          omega (arith, before, less, first)
    ]

IsPopped-tail :
    (pending : Option HeapPage) (top : HeapPage) (popped : List HeapPage)
    → IsPopped pending (top ∷ popped)
    → IsPopped (some top) popped
IsPopped-tail none top popped sorted = sorted
IsPopped-tail (some p) top popped sorted = sorted.1

IsPopped-le :
    (pending : Option HeapPage) (top : HeapPage) (popped : List HeapPage) (p : HeapPage)
    → pending ≡ some p
    → IsPopped pending (top ∷ popped)
    → p.page.page_id ≤ top.page.page_id
IsPopped-le pending top popped p e sorted =
    pops_first-le p top (subst (λ o. IsPopped o (top ∷ popped)) e sorted).0.0

lt_of : (a b : ℕ) → a ≢ b → a ≤ b → a < b
lt_of a b ne le = omega (arith, ne, le)

-- The size that the last source will have declared, and the pages to be written up to there.
abbrev pub final_at : ℕ → MergeState → Option ℕ
final_at l st = final_epc st.final_end_page_count (pages_at st l)

flush-none :
    (size : PageIdSize) (st : MergeState) → st.pending ≡ none → (flush size st).body ≡ st.body
unfolding flush
flush-none size st e = rw (e, flush) refl

flush_last :
    (size : PageIdSize) (l : ℕ) (st : MergeState)
    → st.heap ≡ []
    → IsFrontier st
    → (flush size st).body ≡ st.body ++ written size (final_at l st) (chosen st.pending [])
unfolding winners
flush_last size l st empty f = elim (Option-cases st.pending) [
  | inl e ↦ flush-none size st e ∙ rw e (sym (append-nil st.body))
  | inr (p, e) ↦
      let known : final_at l st ≡ st.final_end_page_count =
        ap (final_epc st.final_end_page_count) (pages_at-stop st l empty f) in
      flush-body size st p e ∙ (elim (Bool-cases (should_emit p.page st.final_end_page_count)) [
        | inl g ↦
            rw (e, known, g) (ap (λ b. st.body ++ b) (sym (append-nil (page_bytes size p.page))))
        | inr g ↦ rw (e, known, g) (sym (append-nil st.body))
      ])
]

pub Run-written :
    (size : PageIdSize) (l : ℕ) {st end : MergeState} {popped : List HeapPage}
    → Run size (suc l) st popped end
    → IsFrontier st
    → IsMarked st.final_end_page_count (pages_at st l)
    → IsPopped st.pending popped
    → (flush size end).body ≡ st.body ++ written size (final_at l st) (chosen st.pending popped)
Run-written size l {st} (stop empty) f marked sorted = flush_last size l st empty f
Run-written size l {st} {end} (round {next} {top} {heap} {popped} head pulled r) f marked sorted =
    let mid : MergeState = resolve size top (record st { heap = heap }) in
    let steps : MarkSteps l mid next = pull-MarkSteps size l top.order mid pulled in
    let epc : mid.final_end_page_count ≡ st.final_end_page_count =
      resolve-epc size top (record st { heap = heap }) in
    let pages : pages_at mid l ≡ pages_at st l =
      ap (λ ss. pages_of_stream (get_elem? ss l))
        (resolve-streams size top (record st { heap = heap })) in
    let marked_mid : IsMarked mid.final_end_page_count (pages_at mid l) =
      subst (λ c. IsMarked c (pages_at mid l)) (sym epc)
        (subst (IsMarked st.final_end_page_count) (sym pages) marked) in
    let final : final_at l next ≡ final_at l st =
      MarkStep-final steps ∙ (λ i. final_epc (epc i) (pages i)) in
    let (pending, kept) = pull-keeps size (suc l) top.order mid pulled in
    let (now, wrote) =
      resolve-written size top popped (record st { heap = heap }) (final_at l st) sorted
        (λ p e ne.
          should_emit-final st.final_end_page_count (pages_at st l) p.page marked (λ m member.
            past_marker st l top heap head f p.page m
              (lt_of p.page.page_id top.page.page_id (==_ne _ _ ne)
                (IsPopped-le st.pending top popped p e sorted))
              member)) in
    let later =
      Run-written size l r (round-IsFrontier size (suc l) st next top heap head pulled f)
        (MarkStep-IsMarked steps marked_mid)
        (subst (λ o. IsPopped o popped) (sym (pending ∙ now))
          (IsPopped-tail st.pending top popped sorted)) in
    later ∙ (λ i. kept i ++ written size (final i) (chosen ((pending ∙ now) i) popped)) ∙ wrote
