-- ===== src/Compaction/Merge/Primed.antt =====
-- crates/walrust-core/src/compaction/merge.rs: the frontier that the merge starts with.
use walrust.Base.{
  ℕ, zero, suc, ◌+◌, ◌≤◌, ◌<◌, ◌≡◌, ◌≢◌, ◌∙◌, subst, inl, inr, ◌⊎◌, arith, ok, Result-cases,
  Bool-cases, IsSorted, ltb, ltb→lt, false,
}
use walrust.Compaction.Header.{PageIdSize}
use walrust.Compaction.Merge.{HeapPage, pops_first, MergeState, pull, prime}
use walrust.Compaction.Merge.Order.{
  Waits, LedAt, AllAscend, IsFrontier, pull-Pulled, Pulled-LedAt, Pulled-AllAscend, Pulled-IsSorted,
  Pulled-Waits, Waits-Pulled,
}
use walrust.Compaction.Merge.Marks.{
  pages_at, IsMarked, pull-MarkSteps, MarkStep-IsMarked, MarkStep-final,
}
use walrust.Compaction.Merge.Emits.{final_at, pull-keeps}

-- A state in which the first `k` sources, of `suc l`, have a page in the heap for those they have
-- yet to yield.
pub record IsPrimed (l k : ℕ) (start st : MergeState) : Type 0 where
  pub sorted : IsSorted pops_first st.heap
  pub ascending : AllAscend st
  pub led : (i : ℕ) → (i < k) ⊎ (suc l ≤ i) → LedAt st i
  pub kept : (x : HeapPage) → Waits start x → Waits st x
  pub no_other : (x : HeapPage) → Waits st x → Waits start x
  pub marked : IsMarked st.final_end_page_count (pages_at st l)
  pub final : final_at l st ≡ final_at l start
  pub pending : st.pending ≡ start.pending
  pub body : st.body ≡ start.body

pull-IsPrimed :
    (size : PageIdSize) (l k : ℕ) {start st next : MergeState}
    → pull size (suc l) k st ≡ ok next
    → IsPrimed l k start st
    → IsPrimed l (suc k) start next
pull-IsPrimed size l k {start} {st} {next} h p =
    let pulls = pull-Pulled size (suc l) k st h in
    let steps = pull-MarkSteps size l k st h in
    let keeps = pull-keeps size (suc l) k st h in
    record {
      sorted = Pulled-IsSorted pulls p.sorted;
      ascending = Pulled-AllAscend pulls p.ascending;
      led = λ i range. Pulled-LedAt pulls p.ascending i (λ ne.
          p.led i (elim range [ inl below ↦ inl (before i ne below) | inr past ↦ inr past ]));
      kept = λ x w. Waits-Pulled pulls x (p.kept x w);
      no_other = λ x w. p.no_other x (Pulled-Waits pulls x w);
      marked = MarkStep-IsMarked steps p.marked;
      final = MarkStep-final steps ∙ p.final;
      pending = keeps.0 ∙ p.pending;
      body = keeps.1 ∙ p.body;
    }
  where
    before : (i : ℕ) → i ≢ k → i < suc k → i < k
    before i ne below = omega (arith, ne, below)

pub prime-IsPrimed :
    (size : PageIdSize) (l left k : ℕ) {start st next : MergeState}
    → prime size (suc l) left k st ≡ ok next
    → IsPrimed l k start st
    → IsPrimed l (left + k) start next
unfolding prime
prime-IsPrimed size l zero k {start} {st} {next} h p =
    subst (λ m. IsPrimed l m start next) (omega arith) (subst (IsPrimed l k start) (cc h) p)
prime-IsPrimed size l (suc left) k {start} {st} {next} h p =
    elim (Result-cases (pull size (suc l) k st)) [
      | inr (failure, f) ↦ absurd (cc (rw (f, prime) at h))
      | inl (st', f) ↦
          let q =
            prime-IsPrimed size l left (suc k) (rw (f, prime) at h) (pull-IsPrimed size l k f p) in
          subst (λ m. IsPrimed l m start next) (omega arith) q
    ]

pub IsPrimed-IsFrontier :
    (l k : ℕ) {start st : MergeState} → suc l ≤ k → IsPrimed l k start st → IsFrontier st
IsPrimed-IsFrontier l k enough p = record {
  sorted = p.sorted;
  led = λ i. p.led i (side i);
  ascending = p.ascending;
}
  where
    le_of : (i : ℕ) → ltb i k ≡ false → suc l ≤ i
    le_of i e = ground arith

    side : (i : ℕ) → (i < k) ⊎ (suc l ≤ i)
    side i = elim (Bool-cases (ltb i k)) [ inl e ↦ inl (ltb→lt i k e) | inr e ↦ inr (le_of i e) ]
