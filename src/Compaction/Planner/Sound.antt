-- ===== src/Compaction/Planner/Sound.antt =====
-- A plan is a chain of candidates from the floor to the target, and planning ends.
use walrust.Base.{
  ℕ, zero, suc, ◌+◌, ◌-◌, ◌≤◌, ◌<◌, ◌≡◌, ◌≢◌, inl, inr, refl, none, some, List, [], ◌∷◌, ◌++◌,
  arith, subst, In, All, All-In, All-append, In-filter, test-filter, max_by_key-In, ltb, leb, ◌==◌,
  Bool-cases, Option-cases, ok, ◌&&◌,
}
use walrust.Compaction.Layout.{IsOrdered}
use walrust.Compaction.Planner.{PlanCandidate, RestorePlan, best_within, plan_loop}
use walrust.Compaction.Planner.{plan_restore}
use walrust.Compaction.Planner.Chain.{Chains, AllOrdered, Chains-append}

module _ (candidates : List PlanCandidate) (target : ℕ) where
  -- What a pick is.
  pub best_within_lem :
      (need : ℕ) {pick : PlanCandidate}
      → best_within candidates need target ≡ some pick
      → In pick candidates × (pick.range.min ≡ need) × (pick.range.max ≤ target)
  unfolding best_within
  best_within_lem need {pick} h =
      let m = max_by_key-In (λ c. c.range.max) _ h in
      let t = test-filter (λ c. (c.range.min == need) && leb c.range.max target) candidates m in
      (In-filter _ candidates m, ground arith, ground arith)

module _ (candidates : List PlanCandidate) (floor target : ℕ)
    (ordered : AllOrdered candidates) where
  module _ (cursor : ℕ) {pick : PlanCandidate} where
    -- Each pick moves the cursor up, and not past the target.
    pub pick-lt :
        best_within candidates (cursor + 1) target ≡ some pick
        → (pick.range.min ≡ cursor + 1) × (cursor < pick.range.max) × (pick.range.max ≤ target)
    pick-lt e =
        let b = best_within_lem candidates target (cursor + 1) e in
        let o = All-In (λ c. IsOrdered c.range) candidates ordered b.0 in
        (omega arith, omega arith, omega arith)

  plan_loop-Chains :
      (fuel cursor : ℕ) (files : List PlanCandidate) {plan : RestorePlan}
      → cursor ≤ target
      → Chains floor files cursor
      → All (λ c. In c candidates) files
      → plan_loop fuel candidates floor target cursor files ≡ some (ok plan)
      → Chains floor plan.files target × All (λ c. In c candidates) plan.files
  unfolding plan_loop
  plan_loop-Chains zero cursor files le ch mem h = absurd (ground arith)
  plan_loop-Chains (suc fuel) cursor files {plan} le ch mem h =
      elim (Bool-cases (ltb cursor target)) [
        | inl lt ↦ elim (Option-cases (best_within candidates (cursor + 1) target)) [
          | inl e ↦ absurd (ground arith)
          | inr (pick, e) ↦
              let p = pick-lt cursor e in
              let b = best_within_lem candidates target (cursor + 1) e in
              plan_loop-Chains fuel pick.range.max (files ++ (pick ∷ [])) p.2
                (Chains-append floor files pick ch p.0 p.1)
                (All-append (λ c. In c candidates) files (pick ∷ []) mem (b.0, tt))
                (rw (lt, e, plan_loop) at h)
        ]
        | inr ge ↦
            let same : files ≡ plan.files = ground arith in
            let at : cursor ≡ target = ground arith in
            subst (λ fs. Chains floor fs target × All (λ c. In c candidates) fs) same
              (subst (λ t. Chains floor files t) at ch, mem)
      ]

  plan_loop-ends :
      (fuel cursor : ℕ) (files : List PlanCandidate)
      → target - cursor < fuel
      → plan_loop fuel candidates floor target cursor files ≢ none
  unfolding plan_loop
  plan_loop-ends zero cursor files h = elim h [ ]
  plan_loop-ends (suc fuel) cursor files h = elim (Bool-cases (ltb cursor target)) [
    | inl lt ↦ elim (Option-cases (best_within candidates (cursor + 1) target)) [
      | inl e ↦ ground arith
      | inr (pick, e) ↦
          let p = pick-lt cursor e in
          rw (lt, e, plan_loop)
            (plan_loop-ends fuel pick.range.max (files ++ (pick ∷ [])) (ground arith))
    ]
    | inr ge ↦ ground arith
  ]

  -- A plan consists of candidates that rebuild exactly the numbers above `floor` and up to
  -- `target`, each once and in ascending order, if no candidate's range is inverted and the
  -- floor is at most the target.
  pub plan_restore-Chains :
      {plan : RestorePlan}
      → floor ≤ target
      → plan_restore candidates floor target ≡ some (ok plan)
      → Chains floor plan.files target × All (λ c. In c candidates) plan.files
  unfolding plan_restore
  plan_restore-Chains le h = plan_loop-Chains (suc (target - floor)) floor [] le refl tt h

  -- Planning ends, with a plan or with an error, if no candidate's range is inverted.
  pub plan_restore-ends : plan_restore candidates floor target ≢ none
  unfolding plan_restore
  plan_restore-ends = plan_loop-ends (suc (target - floor)) floor [] (omega arith)
