-- ===== src/Ltx/Offsets.antt =====
-- crates/walrust-core/src/ltx.rs: the pages of a valid changeset, and where they stand in the file.
use walrust.Base.{
  ℕ, ◌/◌, ◌≤◌, ◌≡◌, ◌≢◌, ◌∙◌, sym, ap, subst, inl, inr, false, Option, List, [], ◌∷◌, ◌==◌, leb,
  length, ok, >>=-eq-ok, In, Bool-cases, ==→eq, leb→le,
}
use walrust.Compaction.Header.{u32}
use walrust.Compaction.Merge.{PageEntry, is_empty}
use walrust.Compaction.Merge.Output.{size_eq}
use walrust.Compaction.Merge.Order.{In-uncons}
use walrust.Ltx.{
  Changeset, power_from, validate_sqlite_page_size, changeset_end_page_count, is_past,
  validate_pages, validate_sqlite_changeset,
}

pub validate_sqlite_page_size-ok :
    (n : ℕ) {m : ℕ} → validate_sqlite_page_size n ≡ ok m → (m ≡ n) × (512 ≤ n) × (n ≤ 65536)
unfolding validate_sqlite_page_size
validate_sqlite_page_size-ok n {m} h = elim (Bool-cases (leb 512 n)) [
  | inr e ↦ absurd (cc (rw (e, validate_sqlite_page_size) at h))
  | inl e ↦ elim (Bool-cases (leb n 65536)) [
    | inr f ↦ absurd (cc (rw (e, f, validate_sqlite_page_size) at h))
    | inl f ↦ elim (Bool-cases (power_from 31 n)) [
      | inr g ↦ absurd (cc (rw (e, f, g, validate_sqlite_page_size) at h))
      | inl g ↦
          (sym (cc (rw (e, f, g, validate_sqlite_page_size) at h)), leb→le _ _ e, leb→le _ _ f)
    ]
  ]
]

-- What validation tells of a page.
pub record IsPageOf (page_size : ℕ) (epc : Option ℕ) (p : PageEntry) : Type 0 where
  pub numbered : p.page_id ≢ 0
  pub within : is_empty p.bytes ≡ false → is_past epc p.page_id ≡ false
  pub whole : is_empty p.bytes ≡ false → length p.bytes ≡ page_size

pub validate_pages-IsPageOf :
    (page_size : ℕ) (epc : Option ℕ) (pages : List PageEntry)
    → validate_pages page_size epc pages ≡ ok tt
    → (p : PageEntry) → In p pages
    → IsPageOf page_size epc p
unfolding validate_pages
validate_pages-IsPageOf page_size epc [] h p m = elim m [ ]
validate_pages-IsPageOf page_size epc (page ∷ pages) h p m = elim (Bool-cases (page.page_id == 0)) [
  | inl z ↦ absurd (cc (rw (z, validate_pages) at h))
  | inr z ↦
      let numbered : page.page_id ≢ 0 = λ e. absurd (cc (sym z ∙ ap (λ n. n == 0) e)) in
      elim (Bool-cases (is_empty page.bytes)) [
        | inl e ↦
            pick
              (record {
                numbered = numbered;
                within = λ f. absurd (cc (sym e ∙ f));
                whole = λ f. absurd (cc (sym e ∙ f));
              })
              (validate_pages-IsPageOf page_size epc pages (rw (z, e, validate_pages) at h) p)
        | inr e ↦ elim (Bool-cases (is_past epc page.page_id)) [
          | inl f ↦ absurd (cc (rw (z, e, f, validate_pages) at h))
          | inr f ↦ elim (Bool-cases (length page.bytes == page_size)) [
            | inr g ↦ absurd (cc (rw (z, e, f, g, validate_pages) at h))
            | inl g ↦
                pick (record { numbered = numbered; within = λ _. f; whole = λ _. ==→eq _ _ g })
                  (validate_pages-IsPageOf page_size epc pages
                    (rw (z, e, f, g, validate_pages) at h) p)
          ]
        ]
      ]
]
  where
    pick :
        IsPageOf page_size epc page
        → (In p pages → IsPageOf page_size epc p)
        → IsPageOf page_size epc p
    pick first later = elim (In-uncons m) [
      | inl e ↦ subst (IsPageOf page_size epc) (sym e) first
      | inr n ↦ later n
    ]

-- A changeset that is valid, with the size that it declares.
pub record IsValid (c : Changeset) : Type 0 where
  pub size : validate_sqlite_page_size c.page_size ≡ ok c.page_size
  pub epc : Option ℕ
  pub declares : changeset_end_page_count c ≡ ok epc
  pub pages : (p : PageEntry) → In p c.pages → IsPageOf c.page_size epc p

pub validate_sqlite_changeset-IsValid :
    (c : Changeset) → validate_sqlite_changeset c ≡ ok tt → IsValid c
unfolding validate_sqlite_changeset
validate_sqlite_changeset-IsValid c h =
    let (size, p, q) = >>=-eq-ok (validate_sqlite_page_size c.page_size) _ h in
    let same : size ≡ c.page_size = (validate_sqlite_page_size-ok c.page_size p).0 in
    elim (Bool-cases (c.flags / 2 == 0)) [
      | inr e ↦ absurd (cc (rw e at q))
      | inl e ↦ elim (Bool-cases (size_eq c.page_id_size u32)) [
        | inr f ↦ absurd (cc (rw (e, f) at q))
        | inl f ↦ elim (Bool-cases (c.page_count == length c.pages)) [
          | inr g ↦ absurd (cc (rw (e, f, g) at q))
          | inl g ↦
              let (epc, d, v) = >>=-eq-ok (changeset_end_page_count c) _ (rw (e, f, g) at q) in
              record {
                size = p ∙ ap ok same;
                epc = epc;
                declares = d;
                pages =
                    validate_pages-IsPageOf c.page_size epc c.pages
                      (subst (λ s. validate_pages s epc c.pages ≡ ok tt) same v);
              }
        ]
      ]
    ]
