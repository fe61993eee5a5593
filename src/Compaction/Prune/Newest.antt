-- ===== src/Compaction/Prune/Newest.antt =====
-- What the planned deletions are.
use Prim.Native.Nat.{max}
use walrust.Base.{
  ℕ, ◌≤◌, ◌<◌, ◌≡◌, ◌⊎◌, inl, inr, Bool, not, none, some, List, [], ◌∷◌, ◌&&◌, arith, In, here,
  there, In-filter, test-filter, filter-In, ltb, ◌==◌, if◌then◌else◌, subst,
}
use walrust.Compaction.Layout.{Level, LayoutFile}
use walrust.Compaction.Prune.{
  Newest, newest_at, record_newest, newest_loop, is_newest_at_level, plan_level_prune,
}

newest_at-record :
    (l k n : ℕ) (m : Newest)
    → newest_at l (record_newest k n m) ≡ (
        if k == l
        then some (elim (newest_at k m) [ none ↦ n | some t ↦ max t n ])
        else newest_at l m)
unfolding newest_at record_newest
newest_at-record l k n [] = ground arith
newest_at-record l k n ((j, t) ∷ rest) = ground (arith, newest_at-record l k n rest)

-- What the map holds for a level only grows.
newest_loop-grows :
    (l : ℕ) (files : List LayoutFile) (m : Newest) (k : ℕ)
    → newest_at l m ≡ some k
    → (t : ℕ) × (newest_at l (newest_loop files m) ≡ some t) × (k ≤ t)
unfolding newest_loop
newest_loop-grows l [] m k h = (k, h, omega arith)
newest_loop-grows l (f ∷ files) m k h =
    let step =
      newest_loop-grows l files (record_newest f.level f.range.max m)
        (if f.level == l then max k f.range.max else k)
        (ground (arith, newest_at-record l f.level f.range.max m)) in
    (step.0, step.1, let le = step.2 in ground arith)

newest_loop-bounds :
    (files : List LayoutFile) (m : Newest) {f : LayoutFile}
    → In f files
    → (t : ℕ) × (newest_at f.level (newest_loop files m) ≡ some t) × (f.range.max ≤ t)
unfolding newest_loop
newest_loop-bounds [] m i = elim i [ ]
newest_loop-bounds (f ∷ files) m here =
    let top : ℕ = elim (newest_at f.level m) [ none ↦ f.range.max | some t ↦ max t f.range.max ] in
    let step =
      newest_loop-grows f.level files (record_newest f.level f.range.max m) top
        (ground (arith, newest_at-record f.level f.level f.range.max m)) in
    (step.0, step.1, let le = step.2 in ground arith)
newest_loop-bounds (g ∷ files) m (there i) =
    newest_loop-bounds files (record_newest g.level g.range.max m) i

-- A file at the level that ends there.
abbrev pub EndsAt : Level → ℕ → List LayoutFile → Type 0
EndsAt l t files = (g : LayoutFile) × In g files × (g.level ≡ l) × (g.range.max ≡ t)

newest_loop-attained :
    (l t : ℕ) (files : List LayoutFile) (m : Newest)
    → newest_at l (newest_loop files m) ≡ some t
    → (newest_at l m ≡ some t) ⊎ EndsAt l t files
unfolding newest_loop
newest_loop-attained l t [] m h = inl h
newest_loop-attained l t (f ∷ files) m h =
    elim (newest_loop-attained l t files (record_newest f.level f.range.max m) h) [
      | inr (g, i, a, b) ↦ inr (g, there i, a, b)
      | inl e ↦ elim (split e) [ inl old ↦ inl old | inr new ↦ inr (f, here, new.0, new.1) ]
    ]
  where
    split :
        newest_at l (record_newest f.level f.range.max m) ≡ some t
        → (newest_at l m ≡ some t) ⊎ ((f.level ≡ l) × (f.range.max ≡ t))
    split e = ground (arith, newest_at-record l f.level f.range.max m)

module _ (files : List LayoutFile) (watermark : ℕ) where
  -- The test of `plan_level_prune`.
  abbrev planned : LayoutFile → Bool
  planned f = ltb f.range.max watermark && not (is_newest_at_level (newest_loop files []) f)

  -- A planned object is one of the files, ends below the watermark, and is not the newest of its
  -- level: another file of the level ends later.
  pub plan_level_prune_sound :
      (f : LayoutFile)
      → In f (plan_level_prune files watermark)
      → In f files
        × (f.range.max < watermark)
        × ((g : LayoutFile) × In g files × (g.level ≡ f.level) × (f.range.max < g.range.max))
  unfolding plan_level_prune is_newest_at_level
  plan_level_prune_sound f m =
      let i = In-filter planned files m in
      let t = test-filter planned files m in
      let top = newest_loop-bounds files [] i in
      (
        i,
        ground arith,
        elim (newest_loop-attained f.level top.0 files [] top.1) [
          | inl e ↦ absurd (none-at e)
          | inr (g, j, a, b) ↦ (g, j, a, let le = top.2 in let e = top.1 in ground arith)
        ],
      )
    where
      none-at : {t : ℕ} → newest_at f.level [] ≡ some t → ⊥
      none-at e = ground arith

  -- Every object that ends below the watermark, while another of its level ends later, is planned.
  pub plan_level_prune_complete :
      (f g : LayoutFile)
      → In f files
      → In g files
      → g.level ≡ f.level
      → f.range.max < watermark
      → f.range.max < g.range.max
      → In f (plan_level_prune files watermark)
  unfolding plan_level_prune is_newest_at_level
  plan_level_prune_complete f g i j a b c =
      let top = newest_loop-bounds files [] j in
      let at : newest_at f.level (newest_loop files []) ≡ some top.0 =
        subst (λ l. newest_at l (newest_loop files []) ≡ some top.0) a top.1 in
      let le = top.2 in filter-In planned files i (ground arith)
