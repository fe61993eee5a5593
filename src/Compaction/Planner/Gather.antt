-- ===== src/Compaction/Planner/Gather.antt =====
-- crates/walrust-core/src/compaction/restore.rs: the candidates of a restore, gathered from every
-- level, and the plan over them. A listing is a function of the level that may fail.
use mathlib.Core.List.{append_assoc, append-nil}
use walrust.Base.{
  ℕ, zero, suc, ◌+◌, ◌-◌, ◌≤◌, ◌<◌, ◌≡◌, ◌≢◌, refl, sym, ap, Option, none, some, Bool, List, [],
  ◌∷◌, ◌++◌, map, ◌&&◌, arith, All-In, filter, filter-filter, filter-append, max_by_key, min_by_key,
  ltb, leb, if◌then◌else◌, Bool-cases, Option-cases, Result, ok, err, ◌>>=◌, Result-cases, inl, inr,
  ◌∙◌,
}
use walrust.Compaction.Layout.{Level, LayoutFile, IsOrdered}
use walrust.Compaction.Planner.{
  PlanCandidate, RestorePlan, PlanError, best_within, overshoot, plan_loop, plan_restore,
}
use walrust.Compaction.Planner.Chain.{AllOrdered}
use walrust.Compaction.Planner.Sound.{pick-lt}

abbrev pub max_level_probe : ℕ
max_level_probe = 16

abbrev pub to_candidate : LayoutFile → PlanCandidate
to_candidate f = record { key = f.key; level = f.level; range = f.range }

-- Neither wholly at or below the floor nor wholly above the target.
abbrev pub relevant : ℕ → ℕ → PlanCandidate → Bool
relevant floor target c = ltb floor c.range.max && leb c.range.min target

-- The closure `push_from`.
unfoldable pub push_from : ℕ → ℕ → List LayoutFile → List PlanCandidate → List PlanCandidate
push_from floor target [] out = out
push_from floor target (f ∷ files) out =
    push_from floor target files
      (if relevant floor target (to_candidate f) then out ++ (to_candidate f ∷ []) else out)

pub data OverError (E : Type 0) : Type 0 where
  listing : E → OverError E
  planning : PlanError → OverError E

-- The plan over gathered candidates; a failed listing and an error of the planner are passed on.
pub plan_gathered :
    {E : Type 0} → ℕ → ℕ → Result (List PlanCandidate) E → Option (Result RestorePlan (OverError E))
plan_gathered floor target (err e) = some (err (listing e))
plan_gathered floor target (ok candidates) = elim (plan_restore candidates floor target) [
  | none ↦ none
  | some (ok plan) ↦ some (ok plan)
  | some (err e) ↦ some (err (planning e))
]

module _ {E : Type 0} (list_level : Level → Result (List LayoutFile) E) (floor target : ℕ) where
  -- `for level in 1..=MAX_LEVEL_PROBE`, over the levels left.
  unfoldable pub gather_levels : ℕ → Level → List PlanCandidate → Result (List PlanCandidate) E
  gather_levels zero level out = ok out
  gather_levels (suc left) level out = list_level level >>= λ files.
      gather_levels left (level + 1) (push_from floor target files out)

  unfoldable pub gather_candidates : Result (List PlanCandidate) E
  unfolding gather_levels push_from
  gather_candidates = do
    l0 ← list_level 0
    gather_levels max_level_probe 1 (push_from floor target l0 [])

  unfoldable pub plan_over_layout : Option (Result RestorePlan (OverError E))
  unfolding plan_gathered gather_candidates plan_restore
  plan_over_layout = plan_gathered floor target gather_candidates

module _ (floor target : ℕ) where
  push_from-eq-filter :
      (files : List LayoutFile) (out : List PlanCandidate)
      → push_from floor target files out
        ≡ out ++ filter (relevant floor target) (map to_candidate files)
  unfolding push_from
  push_from-eq-filter [] out = rw append-nil
  push_from-eq-filter (f ∷ files) out = elim (Bool-cases (relevant floor target (to_candidate f))) [
    | inl e ↦ rw e (push_from-eq-filter files _ ∙ append_assoc out (to_candidate f ∷ []) _)
    | inr e ↦ rw e (push_from-eq-filter files _)
  ]

  module _ (candidates : List PlanCandidate) (ordered : AllOrdered candidates) where
    best_within-relevant :
        (cursor : ℕ)
        → floor ≤ cursor
        → cursor < target
        → best_within (filter (relevant floor target) candidates) (cursor + 1) target
          ≡ best_within candidates (cursor + 1) target
    unfolding best_within
    best_within-relevant cursor a b = ap (max_by_key (λ c. c.range.max)) (
        filter-filter _ _ candidates
          λ c m h. let o = All-In (λ d. IsOrdered d.range) candidates ordered m in ground arith)

    overshoot-relevant :
        (cursor : ℕ)
        → floor ≤ cursor
        → cursor < target
        → overshoot (filter (relevant floor target) candidates) (cursor + 1) target
          ≡ overshoot candidates (cursor + 1) target
    unfolding overshoot
    overshoot-relevant cursor a b = ap (min_by_key (λ c. c.range.max)) (
        filter-filter _ _ candidates
          λ c m h. let o = All-In (λ d. IsOrdered d.range) candidates ordered m in ground arith)

    plan_loop-relevant :
        (fuel cursor : ℕ) (files : List PlanCandidate)
        → floor ≤ cursor
        → plan_loop fuel (filter (relevant floor target) candidates) floor target cursor files
          ≡ plan_loop fuel candidates floor target cursor files
    unfolding plan_loop
    plan_loop-relevant zero cursor files le = refl
    plan_loop-relevant (suc fuel) cursor files le = elim (Bool-cases (ltb cursor target)) [
      | inl lt ↦
          let same = best_within-relevant cursor le (ground arith) in
          elim (Option-cases (best_within candidates (cursor + 1) target)) [
            | inl e ↦ rw (lt, plan_loop, same, e, overshoot-relevant cursor le (ground arith))
            | inr (pick, e) ↦
                let p = pick-lt candidates floor target ordered cursor e in
                rw (lt, plan_loop, same, e) (plan_loop-relevant fuel pick.range.max _ (omega arith))
          ]
      | inr ge ↦ rw (ge, plan_loop)
    ]

    -- What gathering drops changes no plan and no error, if no range is inverted.
    pub plan_restore-relevant :
        plan_restore (filter (relevant floor target) candidates) floor target
        ≡ plan_restore candidates floor target
    unfolding plan_restore
    plan_restore-relevant = plan_loop-relevant (suc (target - floor)) floor [] (omega arith)

-- The objects of the levels from `level` on, `left` levels of them.
level_candidates : (Level → List LayoutFile) → ℕ → Level → List PlanCandidate
level_candidates files zero level = []
level_candidates files (suc left) level =
    map to_candidate (files level) ++ level_candidates files left (level + 1)

-- The objects of the levels 0 to 16.
unfoldable pub all_candidates : (Level → List LayoutFile) → List PlanCandidate
unfolding level_candidates
all_candidates files = level_candidates files (suc max_level_probe) 0

module _ {E : Type 0} (list_level : Level → Result (List LayoutFile) E)
    (files : Level → List LayoutFile) (lists : (l : Level) → list_level l ≡ ok (files l))
    (floor target : ℕ) where
  gather_levels-eq :
      (left : ℕ) (level : Level) (out : List PlanCandidate)
      → gather_levels list_level floor target left level out
        ≡ ok (out ++ filter (relevant floor target) (level_candidates files left level))
  unfolding gather_levels level_candidates
  gather_levels-eq zero level out = rw append-nil
  gather_levels-eq (suc left) level out =
      rw (lists level, gather_levels-eq left (level + 1), push_from-eq-filter floor target)
        (ap ok (
          append_assoc out (filter (relevant floor target) (map to_candidate (files level))) _
          ∙ ap (λ r. out ++ r)
              (sym (
                filter-append (relevant floor target) (map to_candidate (files level))
                  (level_candidates files left (level + 1))))))

  gather_candidates-eq :
      gather_candidates list_level floor target
      ≡ ok (filter (relevant floor target) (all_candidates files))
  unfolding gather_candidates all_candidates level_candidates
  gather_candidates-eq = rw (lists 0) (
      gather_levels-eq max_level_probe 1 (push_from floor target (files 0) [])
      ∙ ap ok (
          rw (push_from-eq-filter floor target (files 0) []) (
            sym (
              filter-append (relevant floor target) (map to_candidate (files 0))
                (level_candidates files max_level_probe 1)))))

  -- The plan over a bucket, or the planner's error, is the one over all objects of the levels 0 to
  -- 16, empty levels between them or not, if every listing succeeds and no range is inverted.
  pub plan_over_layout-eq-plan :
      AllOrdered (all_candidates files)
      → plan_over_layout list_level floor target
        ≡ plan_gathered floor target (ok (all_candidates files))
  unfolding plan_over_layout plan_gathered
  plan_over_layout-eq-plan ordered =
      rw (gather_candidates-eq)
        (ground (arith, plan_restore-relevant floor target (all_candidates files) ordered))

module _ {E : Type 0} (list_level : Level → Result (List LayoutFile) E) (floor target : ℕ) where
  gather_levels-err :
      (left level l : ℕ) (out : List PlanCandidate) {e : E}
      → list_level l ≡ err e
      → level ≤ l
      → l < level + left
      → (e' : E) × (gather_levels list_level floor target left level out ≡ err e')
  unfolding gather_levels
  gather_levels-err zero level l out h a b = absurd (omega arith)
  gather_levels-err (suc left) level l out {e} h a b = elim (Result-cases (list_level level)) [
    | inl (files, p) ↦
        let later : level ≢ l = λ same. ground (arith, ap list_level same) in
        rw p (gather_levels-err left (level + 1) l _ h (omega arith) (omega arith))
    | inr (e', p) ↦ (e', rw p)
  ]

  -- If the listing of a level up to 16 fails, there is neither a plan nor an error of the planner:
  -- the answer is a listing error.
  pub plan_over_layout-listing :
      (l : ℕ) {e : E}
      → l ≤ 16
      → list_level l ≡ err e
      → (e' : E) × (plan_over_layout list_level floor target ≡ some (err (listing e')))
  unfolding plan_over_layout gather_candidates plan_gathered
  plan_over_layout-listing l {e} le h = elim (Result-cases (list_level 0)) [
    | inl (files, p) ↦
        let later : 0 ≢ l = λ same. ground (arith, ap list_level same) in
        let r =
          gather_levels-err max_level_probe 1 l (push_from floor target files []) h (omega arith)
            (omega arith) in
        (r.0, rw (p, r.1))
    | inr (e', p) ↦ (e', rw p)
  ]
