-- ===== src/Compaction/Merge/Marks.antt =====
-- crates/walrust-core/src/compaction/merge.rs: the final size, which the last source declares by a marker
-- behind its pages, is known before a page past it is written.
use walrust.Base.{
  ℕ, suc, ◌-◌, ◌<◌, ◌≡◌, ◌≢◌, refl, ◌∙◌, sym, ap, subst, inl, inr, ◌⊎◌, Option, none, some, List,
  [], ◌∷◌, ◌==◌, true, false, leb, get_elem?, set, In, here, there, All, arith, ok, Option-cases,
  Bool-cases, if◌then◌else◌, le→leb, ==→eq, ==_refl,
}
use native.Mathlib.Decide.{ℕ_discrete}
use walrust.Compaction.Header.{PageIdSize}
use walrust.Compaction.Merge.{
  PageEntry, PageStream, MergeState, is_empty, should_emit, capture_epc, pull,
}
use walrust.Compaction.Merge.Order.{get_elem?-set_self, get_elem?-set_ne}

abbrev pub pages_of_stream : Option PageStream → List PageEntry
pages_of_stream none = []
pages_of_stream (some s) = s.pages

abbrev pub pages_at : MergeState → ℕ → List PageEntry
pages_at st i = pages_of_stream (get_elem? st.streams i)

-- The size that is known after pages of the last source.
abbrev pub final_epc : Option ℕ → List PageEntry → Option ℕ
final_epc c [] = c
final_epc c (p ∷ ps) = final_epc (if is_empty p.bytes then some (p.page_id - 1) else c) ps

-- At most the last page is empty, which is the marker of the size.
abbrev pub MarksOnce : List PageEntry → Type 0
MarksOnce [] = Unit
MarksOnce (p ∷ ps) = (if◌then◌else◌ {A = Type 0} (is_empty p.bytes) (ps ≡ []) Unit) × MarksOnce ps

abbrev pub IsFull : PageEntry → Type 0
IsFull p = is_empty p.bytes ≡ false

final_epc-full : (c : Option ℕ) (ps : List PageEntry) → All IsFull ps → final_epc c ps ≡ c
final_epc-full c [] full = refl
final_epc-full c (p ∷ ps) full = rw (full.0) (final_epc-full c ps full.1)

-- The size of the marker, if there is one.
final_epc-marker :
    (ps : List PageEntry)
    → MarksOnce ps
    → (final_epc none ps ≡ none)
      ⊎ ((m : PageEntry) × In m ps × (final_epc none ps ≡ some (m.page_id - 1)))
final_epc-marker [] once = inl refl
final_epc-marker (p ∷ ps) (last, once) = elim (Bool-cases (is_empty p.bytes)) [
  | inl e ↦
      let ends : ps ≡ [] = subst (λ b. if◌then◌else◌ {A = Type 0} b (ps ≡ []) Unit) e last in
      inr (p, here, rw (e, ends) refl)
  | inr e ↦ elim (final_epc-marker ps once) [
    | inl nothing ↦ inl (rw (e) nothing)
    | inr (m, member, found) ↦ inr (m, there member, rw (e) found)
  ]
]

-- What is known of the size, and of the last source's pages that are yet to come.
pub record IsMarked (c : Option ℕ) (ps : List PageEntry) : Type 0 where
  pub once : MarksOnce ps
  pub fresh : (c ≡ none) ⊎ All IsFull ps

-- A page that is written under the size known so far would be written under the final one, where the
-- marker, if it waits, is past the page by more than one.
pub should_emit-final :
    (c : Option ℕ) (ps : List PageEntry) (p : PageEntry)
    → IsMarked c ps
    → ((m : PageEntry) → In m ps → suc p.page_id < m.page_id)
    → should_emit p c ≡ should_emit p (final_epc c ps)
unfolding should_emit
should_emit-final c ps p marked past = elim marked.fresh [
  | inr full ↦ rw (final_epc-full c ps full) refl
  | inl unknown ↦ rw unknown (elim (final_epc-marker ps marked.once) [
    | inl nothing ↦ rw nothing refl
    | inr (m, member, found) ↦
        let below : leb p.page_id (m.page_id - 1) ≡ true =
          le→leb _ _ (omega (arith, past m member)) in
        rw (found, below)
          (elim (Bool-cases (is_empty p.bytes)) [ inl e ↦ rw e refl | inr e ↦ rw e refl ])
  ])
]

-- What is known after one more page.
abbrev epc_after : Option ℕ → PageEntry → Option ℕ
epc_after c p = if is_empty p.bytes then some (p.page_id - 1) else c

IsMarked-tail :
    (c : Option ℕ) (p : PageEntry) (ps : List PageEntry)
    → IsMarked c (p ∷ ps)
    → IsMarked (epc_after c p) ps
IsMarked-tail c p ps marked = elim (Bool-cases (is_empty p.bytes)) [
  | inl e ↦
      let ends : ps ≡ [] =
        subst (λ b. if◌then◌else◌ {A = Type 0} b (ps ≡ []) Unit) e marked.once.0 in
      record { once = marked.once.1; fresh = inr (subst (All IsFull) (sym ends) tt) }
  | inr e ↦ record {
    once = marked.once.1;
    fresh = elim marked.fresh [ inl c0 ↦ inl (rw e c0) | inr full ↦ inr full.1 ];
  }
]

-- A pull moves the marker nearer, or is of another source.
pub data MarkStep (c : Option ℕ) (ps : List PageEntry) : Option ℕ → List PageEntry → Type 0 where
  unmoved : MarkStep c ps c ps
  seen :
      {p : PageEntry} {rest : List PageEntry} → ps ≡ p ∷ rest → MarkStep c ps (epc_after c p) rest

pub MarkStep-IsMarked :
    {c d : Option ℕ} {ps qs : List PageEntry} → MarkStep c ps d qs → IsMarked c ps → IsMarked d qs
MarkStep-IsMarked unmoved marked = marked
MarkStep-IsMarked {c} {ps} (seen {p} {rest} e) marked =
    IsMarked-tail c p rest (subst (IsMarked c) e marked)

pub MarkStep-final :
    {c d : Option ℕ} {ps qs : List PageEntry} → MarkStep c ps d qs → final_epc d qs ≡ final_epc c ps
MarkStep-final unmoved = refl
MarkStep-final {c} (seen e) = ap (final_epc c) (sym e)

pub MarkStep-In :
    {c d : Option ℕ} {ps qs : List PageEntry} {m : PageEntry}
    → MarkStep c ps d qs
    → In m qs
    → In m ps
MarkStep-In unmoved member = member
MarkStep-In {m} (seen e) member = subst (In m) (sym e) (there member)

abbrev pub MarkSteps : ℕ → MergeState → MergeState → Type 0
MarkSteps l st next =
    MarkStep st.final_end_page_count (pages_at st l) next.final_end_page_count (pages_at next l)

capture_epc-other :
    (l order : ℕ) (p : PageEntry) (c : Option ℕ) → order ≢ l → capture_epc (suc l) order p c ≡ c
unfolding capture_epc
capture_epc-other l order p c ne = elim (Bool-cases (suc order == suc l)) [
  | inl e ↦ absurd (ne (omega (arith, ==→eq _ _ e)))
  | inr e ↦ rw e refl
]

capture_epc-own :
    (l order : ℕ) (p : PageEntry) (c : Option ℕ)
    → order ≡ l
    → capture_epc (suc l) order p c ≡ epc_after c p
unfolding capture_epc
capture_epc-own l order p c eq = rw (eq, ==_refl (suc l)) refl

pub pull-MarkSteps :
    (size : PageIdSize) (l order : ℕ) (st : MergeState) {next : MergeState}
    → pull size (suc l) order st ≡ ok next
    → MarkSteps l st next
unfolding pull
pull-MarkSteps size l order st {next} h = elim (Option-cases (get_elem? st.streams order)) [
  | inl e ↦ let eq : st ≡ next = cc (rw (e, pull) at h) in subst (MarkSteps l st) eq unmoved
  | inr (s, e) ↦ go s e s.pages refl
]
  where
    go :
        (s : PageStream)
        → get_elem? st.streams order ≡ some s
        → (pages : List PageEntry) → s.pages ≡ pages
        → MarkSteps l st next
    go s e [] q = elim (Option-cases s.fault) [
      | inl f ↦
          let eq : st ≡ next = cc (rw (e, q, f, pull) at h) in subst (MarkSteps l st) eq unmoved
      | inr (x, f) ↦ absurd (cc (rw (e, q, f, pull) at h))
    ]
    go s e (page ∷ rest) q =
        let streams : set st.streams order (record s { pages = rest }) ≡ next.streams =
          cc (rw (e, q, pull) at h) in
        let epc : capture_epc (suc l) order page st.final_end_page_count
            ≡ next.final_end_page_count =
          cc (rw (e, q, pull) at h) in
        elim (ℕ_discrete order l) [
          | no ne ↦
              let kept : st.final_end_page_count ≡ next.final_end_page_count =
                sym (capture_epc-other l order page st.final_end_page_count ne) ∙ epc in
              let same : pages_at st l ≡ pages_at next l = ap pages_of_stream (
                sym (get_elem?-set_ne st.streams order l _ (λ x. ne (sym x)))
                ∙ ap (λ ss. get_elem? ss l) streams) in
              subst (λ c. MarkStep st.final_end_page_count (pages_at st l) c (pages_at next l)) kept
                (subst (MarkStep st.final_end_page_count (pages_at st l) st.final_end_page_count)
                  same unmoved)
          | yes eq ↦
              let known = sym (capture_epc-own l order page st.final_end_page_count eq) ∙ epc in
              let now : rest ≡ pages_at next l = ap pages_of_stream (
                sym (get_elem?-set_self st.streams order (record s { pages = rest }) e)
                ∙ ap (get_elem? (set st.streams order (record s { pages = rest }))) eq
                ∙ ap (λ ss. get_elem? ss l) streams) in
              let was : pages_at st l ≡ page ∷ rest =
                ap (λ i. pages_at st i) (sym eq) ∙ ap pages_of_stream e ∙ q in
              subst (λ c. MarkStep st.final_end_page_count (pages_at st l) c (pages_at next l))
                known
                (subst
                  (MarkStep st.final_end_page_count (pages_at st l)
                    (epc_after st.final_end_page_count page))
                  now (seen was))
        ]
