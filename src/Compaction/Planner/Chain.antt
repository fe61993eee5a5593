-- ===== src/Compaction/Planner/Chain.antt =====
-- What a restore plan must be: objects that follow one another without a gap or an overlap.
use walrust.Base.{ℕ, ◌+◌, ◌≤◌, ◌<◌, ◌≡◌, refl, List, [], ◌∷◌, ◌++◌, arith, All}
use walrust.Compaction.Layout.{IsOrdered}
use walrust.Compaction.Planner.{PlanCandidate}

-- The objects rebuild exactly the numbers above `lo` and up to `hi`, each once and in order.
abbrev pub Chains : ℕ → List PlanCandidate → ℕ → Type 0
Chains lo [] hi = lo ≡ hi
Chains lo (c ∷ cs) hi = (c.range.min ≡ lo + 1) × (lo < c.range.max) × Chains c.range.max cs hi

abbrev pub AllOrdered : List PlanCandidate → Type 0
AllOrdered = All (λ c. IsOrdered c.range)

-- A chain goes up.
pub Chains-le : (lo : ℕ) (cs : List PlanCandidate) (hi : ℕ) → Chains lo cs hi → lo ≤ hi
Chains-le lo [] hi h = omega arith
Chains-le lo (c ∷ cs) hi h = omega (arith, Chains-le c.range.max cs hi h.2)

-- A chain and one more object are a chain.
pub Chains-append :
    (lo : ℕ) (cs : List PlanCandidate) {mid : ℕ} (c : PlanCandidate)
    → Chains lo cs mid
    → c.range.min ≡ mid + 1
    → mid < c.range.max
    → Chains lo (cs ++ (c ∷ [])) c.range.max
Chains-append lo [] {mid} c h e l = (omega arith, omega arith, refl)
Chains-append lo (d ∷ cs) c h e l = (h.0, h.1, Chains-append d.range.max cs c h.2 e l)
