-- ===== src/Compaction/Merge/Winners.antt =====
-- crates/walrust-core/src/compaction/merge.rs: the winners of a sequence of pages in popping order.
use walrust.Base.{
  ℕ, ◌≤◌, ◌<◌, ◌≡◌, ◌≢◌, ◌∙◌, sym, ap, inl, inr, List, [], ◌∷◌, ◌==◌, true, false, In, here, there,
  All-In, In-All, arith, Bool-cases, IsSorted, if◌then◌else◌, ==→eq,
}
use walrust.Compaction.Merge.{PageEntry, HeapPage, pops_first}
use walrust.Compaction.Merge.Run.{Ascending}
use walrust.Compaction.Merge.Order.{In-uncons}
use walrust.Compaction.Merge.Popped.{pops_first-le}

-- The last page of each run of pages with one id.
unfoldable pub winners : HeapPage → List HeapPage → List PageEntry
winners p [] = p.page ∷ []
winners p (x ∷ xs) =
    let rest = winners x xs in if p.page.page_id == x.page.page_id then rest else p.page ∷ rest

-- A page of the list that no page of its id follows in a later source.
abbrev pub IsLast : List HeapPage → PageEntry → Type 0
IsLast l w =
    (x : HeapPage) × In x l
    × (x.page ≡ w)
    × ((y : HeapPage) → In y l → y.page.page_id ≡ w.page_id → y.order ≤ x.order)

pub pops_first-order :
    (a b : HeapPage) → pops_first a b ≡ true → a.page.page_id ≡ b.page.page_id → a.order ≤ b.order
pops_first-order a b h e = ground arith

IsSorted-le :
    (p : HeapPage) (l : List HeapPage)
    → IsSorted pops_first (p ∷ l)
    → (x : HeapPage) → In x (p ∷ l)
    → p.page.page_id ≤ x.page.page_id
IsSorted-le p l sorted x m = elim (In-uncons m) [
  | inl e ↦ omega (arith, ap (λ (y : HeapPage). y.page.page_id) e)
  | inr later ↦ pops_first-le p x (All-In (λ y. pops_first p y ≡ true) l sorted.0 later)
]

pub ==_ne : (a b : ℕ) → (a == b) ≡ false → a ≢ b
==_ne a b h e = ground arith

ne_lt : (a b c : ℕ) → a ≢ b → a ≤ b → b ≡ c → a < c
ne_lt a b c ne le e = omega (arith, ne, le, e)

-- A page of another id than the next one's has the id of none behind it.
apart :
    (p x : HeapPage) (xs : List HeapPage)
    → IsSorted pops_first (p ∷ x ∷ xs)
    → (p.page.page_id == x.page.page_id) ≡ false
    → (y : HeapPage) → In y (x ∷ xs)
    → p.page.page_id ≢ y.page.page_id
apart p x xs sorted ne y m same =
    let near : p.page.page_id ≤ x.page.page_id = pops_first-le p x sorted.0.0 in
    let far : x.page.page_id ≤ y.page.page_id = IsSorted-le x xs sorted.1 y m in
    ==_ne p.page.page_id x.page.page_id ne (omega (arith, near, far, same))

pub winners-IsLast :
    (p : HeapPage) (l : List HeapPage)
    → IsSorted pops_first (p ∷ l)
    → (w : PageEntry) → In w (winners p l)
    → IsLast (p ∷ l) w
unfolding winners
winners-IsLast p [] sorted w m = elim (In-uncons m) [
  | inr none ↦ elim none [ ]
  | inl e ↦ (
    p,
    here,
    sym e,
    λ y n same. elim (In-uncons n) [
      | inl f ↦ omega (arith, ap (λ (z : HeapPage). z.order) f)
      | inr none ↦ elim none [ ]
    ],
  )
]
winners-IsLast p (x ∷ xs) sorted w m = elim (Bool-cases (p.page.page_id == x.page.page_id)) [
  | inl e ↦
      let (z, member, found, last) = winners-IsLast x xs sorted.1 w (rw (e, winners) at m) in
      (
        z,
        there member,
        found,
        λ y n same. elim (In-uncons n) [
          | inr later ↦ last y later same
          | inl f ↦
              let id : p.page.page_id ≡ x.page.page_id = ==→eq _ _ e in
              let first : p.order ≤ x.order = pops_first-order p x sorted.0.0 id in
              let second : x.order ≤ z.order =
                last x here (omega (arith, id, same, ap (λ (z : HeapPage). z.page.page_id) f)) in
              omega (arith, first, second, ap (λ (z : HeapPage). z.order) f)
        ],
      )
  | inr e ↦ elim (In-uncons (rw (e, winners) at m)) [
    | inl own ↦ (
      p,
      here,
      sym own,
      λ y n same. elim (In-uncons n) [
        | inl f ↦ omega (arith, ap (λ (z : HeapPage). z.order) f)
        | inr later ↦
            absurd (
              apart p x xs sorted e y later
                (sym (ap (λ (v : PageEntry). v.page_id) own) ∙ sym same))
      ],
    )
    | inr other ↦
        let (z, member, found, last) = winners-IsLast x xs sorted.1 w other in
        (
          z,
          there member,
          found,
          λ y n same. elim (In-uncons n) [
            | inr later ↦ last y later same
            | inl f ↦ absurd (
                apart p x xs sorted e z member (
                  sym (ap (λ (v : HeapPage). v.page.page_id) f)
                  ∙ same
                  ∙ sym (ap (λ (v : PageEntry). v.page_id) found)))
          ],
        )
  ]
]

pub winners-id :
    (p : HeapPage) (l : List HeapPage) (x : HeapPage)
    → In x (p ∷ l)
    → (w : PageEntry) × In w (winners p l) × (w.page_id ≡ x.page.page_id)
unfolding winners
winners-id p [] x m = elim (In-uncons m) [
  | inl e ↦ (p.page, here, ap (λ (v : HeapPage). v.page.page_id) (sym e))
  | inr none ↦ elim none [ ]
]
winners-id p (y ∷ ys) x m = elim (Bool-cases (p.page.page_id == y.page.page_id)) [
  | inl e ↦ elim (In-uncons m) [
    | inr later ↦ let (w, member, id) = winners-id y ys x later in (w, rw (e, winners) member, id)
    | inl f ↦
        let (w, member, id) = winners-id y ys y here in
        (
          w,
          rw (e, winners) member,
          id ∙ sym (==→eq _ _ e) ∙ ap (λ (v : HeapPage). v.page.page_id) (sym f),
        )
  ]
  | inr e ↦ elim (In-uncons m) [
    | inr later ↦
        let (w, member, id) = winners-id y ys x later in (w, rw (e, winners) (there member), id)
    | inl f ↦ (p.page, rw (e, winners) here, ap (λ (v : HeapPage). v.page.page_id) (sym f))
  ]
]

pub winners-Ascending :
    (p : HeapPage) (l : List HeapPage) → IsSorted pops_first (p ∷ l) → Ascending (winners p l)
unfolding winners
winners-Ascending p [] sorted = (tt, tt)
winners-Ascending p (x ∷ xs) sorted = elim (Bool-cases (p.page.page_id == x.page.page_id)) [
  | inl e ↦ rw (e, winners) (winners-Ascending x xs sorted.1)
  | inr e ↦
      rw (e, winners)
        (
          In-All (λ q. p.page.page_id < q.page_id) (winners x xs)
              (λ w m.
                let (z, member, found, last) = winners-IsLast x xs sorted.1 w m in
                let ne : p.page.page_id ≢ z.page.page_id = apart p x xs sorted e z member in
                let le : p.page.page_id ≤ z.page.page_id =
                  IsSorted-le p (x ∷ xs) sorted z (there member) in
                let id : z.page.page_id ≡ w.page_id = ap (λ (v : PageEntry). v.page_id) found in
                ne_lt p.page.page_id z.page.page_id w.page_id ne le id),
          winners-Ascending x xs sorted.1,
        )
]
