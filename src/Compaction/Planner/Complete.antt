-- ===== src/Compaction/Planner/Complete.antt =====
-- Extending the chain furthest finds a plan whenever there is one, and one with the fewest
-- objects, over candidates of which any two are disjoint or nested: the shape that compaction
-- leaves, also when a merge is interrupted.
use walrust.Base.{
  ℕ, zero, suc, ◌+◌, ◌-◌, ◌≤◌, ◌<◌, ◌≡◌, ◌⊎◌, inl, inr, none, some, List, [], ◌∷◌, ◌++◌, ◌&&◌,
  arith, In, All, filter-In, max_by_key-none, le-max_by_key, length, length-append, filter, lt→ltb,
  ltb, leb, ◌==◌, Bool-cases, Option-cases, ok,
}
use walrust.Compaction.Layout.{SeqRange}
use walrust.Compaction.Planner.{PlanCandidate, RestorePlan, best_within, plan_loop}
use walrust.Compaction.Planner.{plan_restore}
use walrust.Compaction.Planner.Chain.{Chains, AllOrdered, Chains-le}
use walrust.Compaction.Planner.Sound.{best_within_lem, pick-lt}

-- One range lies within another.
abbrev pub Within : SeqRange → SeqRange → Type 0
Within a b = (b.min ≤ a.min) × (a.max ≤ b.max)

-- Two ranges are disjoint, or one lies within the other.
abbrev pub Nests : SeqRange → SeqRange → Type 0
Nests a b = (a.max < b.min) ⊎ (b.max < a.min) ⊎ Within a b ⊎ Within b a

abbrev pub IsLaminar : List PlanCandidate → Type 0
IsLaminar candidates =
    (a b : PlanCandidate) → In a candidates → In b candidates → Nests a.range b.range

module _ (candidates : List PlanCandidate) (target : ℕ) (laminar : IsLaminar candidates) where
  -- Where a chain goes on from inside an object, a tail of it goes on from the object's end.
  resume :
      (r : PlanCandidate) (lo : ℕ) (cs : List PlanCandidate)
      → In r candidates
      → r.range.min ≤ lo
      → lo ≤ r.range.max
      → r.range.max ≤ target
      → Chains lo cs target
      → All (λ c. In c candidates) cs
      → (ds : List PlanCandidate) × Chains r.range.max ds target
        × All (λ c. In c candidates) ds
        × (length ds ≤ length cs)
  resume r lo [] m a b t ch mem = ([], omega arith, tt, omega arith)
  resume r lo (c ∷ cs) m a b t ch mem = elim (Bool-cases (ltb lo r.range.max)) [
    | inl lt ↦
        let nests = laminar c r mem.0 m in
        let up = Chains-le c.range.max cs target ch.2 in
        let below : c.range.max ≤ r.range.max = ground arith in
        let rest = resume r c.range.max cs m (ground arith) below t ch.2 mem.1 in
        (rest.0, rest.1, rest.2, omega (arith, rest.3))
    | inr ge ↦ let at : lo ≡ r.range.max = ground arith in (c ∷ cs, rw (← at) ch, mem, omega arith)
  ]

module _ (candidates : List PlanCandidate) (floor target : ℕ) (ordered : AllOrdered candidates)
    (laminar : IsLaminar candidates) where
  plan_loop_complete :
      (fuel cursor : ℕ) (files cs : List PlanCandidate)
      → target - cursor < fuel
      → Chains cursor cs target
      → All (λ c. In c candidates) cs
      → (plan : RestorePlan) × (plan_loop fuel candidates floor target cursor files
          ≡ some (ok plan))
        × (length plan.files ≤ length files + length cs)
  unfolding plan_loop best_within
  plan_loop_complete zero cursor files cs h ch mem = elim h [ ]
  plan_loop_complete (suc fuel) cursor files [] h ch mem =
      (record { floor = floor; target = target; files = files }, ground arith, omega arith)
  plan_loop_complete (suc fuel) cursor files (c ∷ cs) h ch mem =
      elim (Option-cases (best_within candidates (cursor + 1) target)) [
        | inl e ↦ absurd (first-found e)
        | inr (pick, e) ↦
            let p = pick-lt candidates floor target ordered cursor e in
            let b = best_within_lem candidates target (cursor + 1) e in
            let rest =
              resume candidates target laminar pick c.range.max cs b.0 (omega arith) (furthest e)
                p.2 ch.2 mem.1 in
            let done =
              plan_loop_complete fuel pick.range.max (files ++ (pick ∷ [])) rest.0 (omega arith)
                rest.1 rest.2 in
            (
              done.0,
              rw (lt→ltb cursor target (omega arith), e, plan_loop) done.1,
              omega (arith, done.2, rest.3, length-append {0} files (pick ∷ [])),
            )
      ]
    where
      up : c.range.max ≤ target
      up = Chains-le c.range.max cs target ch.2

      kept : In c (filter (λ d. (d.range.min == (cursor + 1)) && leb d.range.max target) candidates)
      kept = filter-In _ candidates mem.0 (ground (arith, up))

      first-found : best_within candidates (cursor + 1) target ≡ none → ⊥
      first-found e = max_by_key-none (λ d. d.range.max) _ e kept

      furthest :
          {pick : PlanCandidate}
          → best_within candidates (cursor + 1) target ≡ some pick
          → c.range.max ≤ pick.range.max
      furthest e = le-max_by_key (λ d. d.range.max) _ e kept

  -- If some candidates rebuild exactly the numbers above `floor` and up to `target`, then
  -- planning succeeds, and with no more objects than those, provided that no range is inverted
  -- and that any two candidates are disjoint or nested.
  pub plan_restore_complete :
      (cs : List PlanCandidate)
      → Chains floor cs target
      → All (λ c. In c candidates) cs
      → (plan : RestorePlan) × (plan_restore candidates floor target ≡ some (ok plan))
        × (length plan.files ≤ length cs)
  unfolding plan_restore
  plan_restore_complete cs ch mem =
      let done = plan_loop_complete (suc (target - floor)) floor [] cs (omega arith) ch mem in
      (done.0, done.1, omega (arith, done.2))
