-- ===== src/Compaction/Planner/Refuse.antt =====
-- What the planner's errors say is so.
use walrust.Base.{
  ℕ, zero, suc, ◌+◌, ◌-◌, ◌≤◌, ◌<◌, ◌≡◌, ◌⊎◌, inl, inr, refl, none, some, List, [], ◌∷◌, ◌++◌, ◌&&◌,
  arith, In, All, In-All, All-append, ◌≢◌, In-filter, test-filter, filter-In, max_by_key-none,
  min_by_key-In, min_by_key-le, min_by_key-none, min_by_key, leb→le, filter, ltb, leb, ◌==◌,
  Bool-cases, Option-cases, err,
}
use walrust.Compaction.Planner.{
  PlanCandidate, PlanError, chain_gap, pitr_inside_merged_window, pitr_inside_snapshot_span,
  best_within, overshoot, refuse, plan_loop, plan_restore, refine_gap_with_snapshot_spans,
}
use walrust.Compaction.Planner.Chain.{Chains, AllOrdered, Chains-append}
use walrust.Compaction.Planner.Sound.{best_within_lem, pick-lt}

module _ (candidates : List PlanCandidate) (floor target : ℕ) where
  -- Candidates rebuild exactly the numbers above the floor and up to `n`.
  abbrev pub Restorable : ℕ → Type 0
  Restorable n =
      (files : List PlanCandidate) × Chains floor files n × All (λ c. In c candidates) files

  -- What an error claims.
  abbrev pub Explains : PlanError → Type 0
  Explains (chain_gap needed below) =
      (needed ≡ below + 1)
      × (below < target)
      × Restorable below
      × All (λ c. c.range.min ≢ needed) candidates
  Explains (pitr_inside_merged_window t window_min window_max below above) =
      (t ≡ target)
      × (window_min ≡ below + 1)
      × (window_max ≡ above)
      × (below < target)
      × (target < above)
      × Restorable below
      × All (λ c. (c.range.min ≢ window_min) ⊎ (above ≤ c.range.max)) candidates
      × ((c : PlanCandidate) × In c candidates × (c.range.min ≡ window_min) × (c.range.max ≡ above))
  Explains (pitr_inside_snapshot_span t below above) = ⊥

  module _ (need : ℕ) (c : PlanCandidate) (m : In c candidates) (starts : c.range.min ≡ need) where
    none-within : best_within candidates need target ≡ none → target < c.range.max
    unfolding best_within
    none-within e = elim (Bool-cases (leb c.range.max target)) [
      | inl le ↦
          absurd (max_by_key-none (λ d. d.range.max) _ e (filter-In _ candidates m (ground arith)))
      | inr gt ↦ ground arith
    ]

    none-overshoot : overshoot candidates need target ≡ none → c.range.max ≤ target
    unfolding overshoot
    none-overshoot e = elim (Bool-cases (ltb target c.range.max)) [
      | inl gt ↦
          absurd (min_by_key-none (λ d. d.range.max) _ e (filter-In _ candidates m (ground arith)))
      | inr le ↦ ground arith
    ]

    tightest :
        {w : PlanCandidate}
        → best_within candidates need target ≡ none
        → overshoot candidates need target ≡ some w
        → w.range.max ≤ c.range.max
    unfolding overshoot
    tightest e o =
        let far = none-within e in
        min_by_key-le (λ d. d.range.max) _ o (filter-In _ candidates m (ground (arith, far)))

  overshoot_lem :
      (need : ℕ) {w : PlanCandidate}
      → overshoot candidates need target ≡ some w
      → In w candidates × (w.range.min ≡ need) × (target < w.range.max)
  unfolding overshoot
  overshoot_lem need {w} h =
      let m = min_by_key-In (λ c. c.range.max) _ h in
      let t = test-filter (λ c. (c.range.min == need) && ltb target c.range.max) candidates m in
      (In-filter _ candidates m, ground arith, ground arith)

  refuse-Explains :
      (cursor : ℕ)
      → cursor < target
      → Restorable cursor
      → best_within candidates (cursor + 1) target ≡ none
      → Explains (refuse (overshoot candidates (cursor + 1) target) target cursor)
  unfolding refuse
  refuse-Explains cursor lt r e = elim (Option-cases (overshoot candidates (cursor + 1) target)) [
    | inl o ↦
        rw (o, refuse)
          (
            refl,
            lt,
            r,
            In-All _ candidates λ c m s.
                let far = none-within (cursor + 1) c m s e in
                let near = none-overshoot (cursor + 1) c m s o in omega arith,
          )
    | inr (w, o) ↦
        let p = overshoot_lem (cursor + 1) o in
        rw (o, refuse)
          (
            refl,
            p.1,
            refl,
            lt,
            p.2,
            r,
            In-All _ candidates λ c m. elim (Bool-cases (c.range.min == (cursor + 1))) [
              | inl same ↦ inr (tightest (cursor + 1) c m (ground arith) e o)
              | inr other ↦ let at = p.1 in inl (λ same. ground arith)
            ],
            (w, p.0, refl, refl),
          )
  ]

  module _ (ordered : AllOrdered candidates) where
    plan_loop-Explains :
        (fuel cursor : ℕ) (files : List PlanCandidate) (e : PlanError)
        → Chains floor files cursor
        → All (λ c. In c candidates) files
        → plan_loop fuel candidates floor target cursor files ≡ some (err e)
        → Explains e
    unfolding plan_loop
    plan_loop-Explains zero cursor files e ch mem h = absurd (ground arith)
    plan_loop-Explains (suc fuel) cursor files e ch mem h = elim (Bool-cases (ltb cursor target)) [
      | inl lt ↦ elim (Option-cases (best_within candidates (cursor + 1) target)) [
        | inl b ↦
            let same : refuse (overshoot candidates (cursor + 1) target) target cursor ≡ e =
              ground arith in
            rw (← same) (refuse-Explains cursor (ground arith) (files, ch, mem) b)
        | inr (pick, b) ↦
            let p = pick-lt candidates floor target ordered cursor b in
            let k = best_within_lem candidates target (cursor + 1) b in
            plan_loop-Explains fuel pick.range.max (files ++ (pick ∷ [])) e
              (Chains-append floor files pick ch p.0 p.1)
              (All-append (λ c. In c candidates) files (pick ∷ []) mem (k.0, tt))
              (rw (lt, b, plan_loop) at h)
      ]
      | inr ge ↦ absurd (ground arith)
    ]

    -- An error of the planner is right about the candidates, if no range is inverted. A chain gap:
    -- the number below the needed one is restorable and below the target, and no candidate begins
    -- at the needed number. A merged window: the number below the window is restorable and below
    -- the target, a candidate spans the window, the target lies before its end, and every
    -- candidate that begins where it begins ends at its end or later. There is no other error.
    pub plan_restore-Explains :
        (e : PlanError) → plan_restore candidates floor target ≡ some (err e) → Explains e
    unfolding plan_restore
    plan_restore-Explains e h = plan_loop-Explains (suc (target - floor)) floor [] e refl tt h

-- A chain gap becomes decay exactly when some later snapshot covers the target; the error then
-- names the earliest such snapshot, and keeps the restorable number below.
pub refine_gap_lem :
    (needed below target : ℕ) (maxes : List ℕ)
    → ((refine_gap_with_snapshot_spans (chain_gap needed below) maxes target
          ≡ chain_gap needed below)
        × All (λ s. s < target) maxes)
      ⊎ ((above : ℕ) × (refine_gap_with_snapshot_spans (chain_gap needed below) maxes target
            ≡ pitr_inside_snapshot_span target below above)
          × In above maxes
          × (target ≤ above)
          × All (λ s. (s < target) ⊎ (above ≤ s)) maxes)
unfolding refine_gap_with_snapshot_spans
refine_gap_lem needed below target maxes =
    elim (Option-cases (min_by_key (λ s. s) (filter (λ s. leb target s) maxes))) [
      | inl e ↦ inl (
        rw (e, refine_gap_with_snapshot_spans),
        In-All _ maxes λ s m. elim (Bool-cases (leb target s)) [
          | inl le ↦ absurd (min_by_key-none (λ n. n) _ e (filter-In _ maxes m le))
          | inr gt ↦ ground arith
        ],
      )
      | inr (above, e) ↦
          let m = min_by_key-In (λ n. n) _ e in
          inr (
            above,
            rw (e, refine_gap_with_snapshot_spans),
            In-filter _ maxes m,
            leb→le target above (test-filter (λ s. leb target s) maxes m),
            In-All _ maxes λ s k. elim (Bool-cases (leb target s)) [
              | inl le ↦ inr (min_by_key-le (λ n. n) _ e (filter-In _ maxes k le))
              | inr lt ↦ inl (ground arith)
            ],
          )
    ]
