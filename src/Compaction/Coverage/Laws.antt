-- ===== src/Compaction/Coverage/Laws.antt =====
-- The sweep decides whether every number of the span lies in some range.
use Prim.Native.Nat.{max}
use walrust.Base.{
  ℕ, ◌+◌, ◌≤◌, ◌<◌, ◌≡◌, ◌↔◌, inl, inr, true, none, some, List, [], ◌∷◌, arith, ltb, leb, filter,
  In, here, there, All-In, In-filter, test-filter, filter-In, sort_by, In-sort_by, sort_by-In,
  sort_by-IsSorted, IsSorted, leb→le, le→leb, ltb, Bool-cases,
}
use walrust.Compaction.Layout.{SeqRange, key_le, key_le_total, key_le_trans, key_le-min}
use walrust.Compaction.Coverage.{sweep, ranges_cover}

-- Some range of the list holds the number.
pub record Holds (ranges : List SeqRange) (n : ℕ) : Type 0 where
  pub range : SeqRange
  pub listed : In range ranges
  pub from : range.min ≤ n
  pub upto : n ≤ range.max

module _ (ranges : List SeqRange) (lo hi : ℕ) where
  sweep-some_sound :
      (f : ℕ) (rs : List SeqRange)
      → ((r : SeqRange) → In r rs → In r ranges)
      → ((n : ℕ) → lo ≤ n → n ≤ f → Holds ranges n)
      → sweep lo hi (some f) rs ≡ true
      → (n : ℕ) → lo ≤ n
      → n ≤ hi
      → Holds ranges n
  unfolding sweep
  sweep-some_sound f [] sub upto h n a b = upto n a (ground arith)
  sweep-some_sound f (r ∷ rs) sub upto h n a b = elim (Bool-cases (leb r.min (f + 1))) [
    | inl near ↦ elim (Bool-cases (leb hi (max f r.max))) [
      | inl done ↦ grown (leb→le _ _ near) n a (ground arith)
      | inr more ↦
          sweep-some_sound (max f r.max) rs (λ s m. sub s (there m)) (grown (leb→le _ _ near))
            (rw (near, more, sweep) at h) n a b
    ]
    | inr far ↦ let stop : leb hi f ≡ true = rw (far, sweep) at h in upto n a (ground arith)
  ]
    where
      grown : r.min ≤ f + 1 → (k : ℕ) → lo ≤ k → k ≤ max f r.max → Holds ranges k
      grown near k c d = elim (Bool-cases (leb k f)) [
        | inl old ↦ upto k c (leb→le k f old)
        | inr new ↦
            let after : f < k = ground arith in
            record { range = r; listed = sub r here; from = omega arith; upto = omega arith }
      ]

  sweep-none_sound :
      (rs : List SeqRange)
      → ((r : SeqRange) → In r rs → In r ranges)
      → ((r : SeqRange) → In r rs → lo ≤ r.max)
      → sweep lo hi none rs ≡ true
      → (n : ℕ) → lo ≤ n
      → n ≤ hi
      → Holds ranges n
  unfolding sweep
  sweep-none_sound [] sub reach h n a b = cc
  sweep-none_sound (r ∷ rs) sub reach h n a b = elim (Bool-cases (leb r.min lo)) [
    | inl near ↦ elim (Bool-cases (leb hi (max r.max lo))) [
      | inl done ↦ first (leb→le _ _ near) n a (ground arith)
      | inr more ↦
          sweep-some_sound (max r.max lo) rs (λ s m. sub s (there m)) (first (leb→le _ _ near))
            (rw (near, more, sweep) at h) n a b
    ]
    | inr far ↦
        sweep-none_sound rs (λ s m. sub s (there m)) (λ s m. reach s (there m))
          (rw (far, sweep) at h) n a b
  ]
    where
      first : r.min ≤ lo → (k : ℕ) → lo ≤ k → k ≤ max r.max lo → Holds ranges k
      first near k c d =
          let far = reach r here in
          record { range = r; listed = sub r here; from = omega arith; upto = omega arith }

  least-min :
      (r : SeqRange) (rs : List SeqRange) (n : ℕ)
      → IsSorted key_le (r ∷ rs)
      → Holds (r ∷ rs) n
      → r.min ≤ n
  least-min r rs n s h = below h.listed h.from
    where
      below : {x : SeqRange} → In x (r ∷ rs) → x.min ≤ n → r.min ≤ n
      below here le = le
      below {x} (there m) le =
          let first = key_le-min r x (All-In (λ y. key_le r y ≡ true) rs s.0 m) in omega arith

  Holds-tail :
      (r : SeqRange) (rs : List SeqRange) (n : ℕ) → r.max < n → Holds (r ∷ rs) n → Holds rs n
  Holds-tail r rs n after h = tail h.range h.listed h.from h.upto
    where
      tail : (x : SeqRange) → In x (r ∷ rs) → x.min ≤ n → n ≤ x.max → Holds rs n
      tail x here a b = absurd (omega arith)
      tail x (there m) a b = record { range = x; listed = m; from = a; upto = b }

  Holds-nil : (n : ℕ) → Holds [] n → ⊥
  Holds-nil n h = none-listed h.listed
    where
      none-listed : {x : SeqRange} → In x [] → ⊥
      none-listed m = elim m [ ]

  sweep-some_complete :
      (f : ℕ) (rs : List SeqRange)
      → IsSorted key_le rs
      → ((n : ℕ) → f < n → n ≤ hi → Holds rs n)
      → sweep lo hi (some f) rs ≡ true
  unfolding sweep
  sweep-some_complete f [] s held = elim (Bool-cases (leb hi f)) [
    | inl done ↦ done
    | inr more ↦ absurd (Holds-nil (f + 1) (held (f + 1) (omega arith) (ground arith)))
  ]
  sweep-some_complete f (r ∷ rs) s held = elim (Bool-cases (leb r.min (f + 1))) [
    | inl near ↦ elim (Bool-cases (leb hi (max f r.max))) [
      | inl done ↦ rw (near, done, sweep)
      | inr more ↦
          rw (near, more, sweep)
            (sweep-some_complete (max f r.max) rs s.1
              (λ n a b. Holds-tail r rs n (omega arith) (held n (omega arith) b)))
    ]
    | inr far ↦ elim (Bool-cases (leb hi f)) [
      | inl done ↦ rw (far, sweep) done
      | inr more ↦
          let le = least-min r rs (f + 1) s (held (f + 1) (omega arith) (ground arith)) in
          absurd (ground arith)
    ]
  ]

  sweep-none_complete :
      (rs : List SeqRange)
      → lo ≤ hi
      → IsSorted key_le rs
      → ((n : ℕ) → lo ≤ n → n ≤ hi → Holds rs n)
      → sweep lo hi none rs ≡ true
  unfolding sweep
  sweep-none_complete [] le s held = absurd (Holds-nil lo (held lo (omega arith) le))
  sweep-none_complete (r ∷ rs) le s held =
      let near = least-min r rs lo s (held lo (omega arith) le) in
      elim (Bool-cases (leb hi (max r.max lo))) [
        | inl done ↦ rw (le→leb _ _ near, done, sweep)
        | inr more ↦
            rw (le→leb _ _ near, more, sweep)
              (sweep-some_complete (max r.max lo) rs s.1
                (λ n a b. Holds-tail r rs n (omega arith) (held n (omega arith) b)))
      ]

  -- `ranges_cover` is true exactly when every number from `lo` to `hi` lies in some range of the
  -- list. An inverted range holds no number, and the order of the list does not matter.
  pub ranges_cover_iff :
      (ranges_cover lo hi ranges ≡ true) ↔ ((n : ℕ) → lo ≤ n → n ≤ hi → Holds ranges n)
  unfolding ranges_cover
  ranges_cover_iff = elim (Bool-cases (ltb hi lo)) [
    | inl empty ↦ (λ h n a b. absurd (ground arith), λ held. rw empty)
    | inr span ↦ (
      λ h.
          sweep-none_sound sorted (λ r m. In-filter _ ranges (In-sort_by key_le kept m))
            (λ r m. leb→le _ _ (test-filter (λ q. leb lo q.max) ranges (In-sort_by key_le kept m)))
            (rw span at h),
      λ held. rw span (
          sweep-none_complete sorted (ground arith)
            (sort_by-IsSorted key_le key_le_total key_le_trans kept)
            (λ n a b. keep n a (held n a b))),
    )
  ]
    where
      kept : List SeqRange
      kept = filter (λ r. leb lo r.max) ranges

      sorted : List SeqRange
      sorted = sort_by key_le kept

      keep : (n : ℕ) → lo ≤ n → Holds ranges n → Holds sorted n
      keep n a h = record {
        range = h.range;
        listed = sort_by-In key_le kept (
            filter-In (λ r. leb lo r.max) ranges h.listed
              (le→leb _ _ (let u = h.upto in omega arith)));
        from = h.from;
        upto = h.upto;
      }
