-- ===== src/Compaction/Engine/Batch/Laws.antt =====
-- The batch is a run of at least two files that link, unless batches are of one file, and it is
-- the first there is.
use walrust.Base.{
  ℕ, zero, suc, ◌+◌, ◌≤◌, ◌≡◌, ◌⊎◌, inl, inr, Option, none, some, true, false, List, [], ◌∷◌, ◌&&◌,
  ◌||◌, arith, length, take, drop, subst, ltb, leb, ◌==◌, Bool-cases,
}
use walrust.Compaction.Layout.{SeqRange}
use walrust.Compaction.Engine.Batch.{links, extend_run, batch_loop, contiguous_batch}

-- Each file of the run goes on where the one before it ends.
abbrev pub IsRun : List SeqRange → Type 0
IsRun [] = Unit
IsRun (r ∷ []) = Unit
IsRun (r ∷ s ∷ rest) = (links r s ≡ true) × IsRun (s ∷ rest)

-- No two neighbours of the first `n + 1` files link.
abbrev pub NoLinkBefore : ℕ → List SeqRange → Type 0
NoLinkBefore zero ranges = Unit
NoLinkBefore (suc n) [] = Unit
NoLinkBefore (suc n) (r ∷ []) = Unit
NoLinkBefore (suc n) (r ∷ s ∷ rest) = (links r s ≡ false) × NoLinkBefore n (s ∷ rest)

extend_run-IsRun :
    (batch count : ℕ) (last : SeqRange) (rest : List SeqRange)
    → count ≤ batch
    → (count + extend_run batch count last rest ≤ batch)
      × (extend_run batch count last rest ≤ length rest)
      × IsRun (last ∷ take (extend_run batch count last rest) rest)
unfolding extend_run
extend_run-IsRun batch count last [] le = (omega arith, omega arith, tt)
extend_run-IsRun batch count last (r ∷ rest) le =
    elim (Bool-cases (links last r && ltb count batch)) [
      | inl e ↦
          let ih = extend_run-IsRun batch (suc count) r rest (ground arith) in
          rw e (omega arith, omega arith, (ground arith, ih.2))
      | inr e ↦ rw e (omega arith, omega arith, tt)
    ]

-- A run of one file has no link behind it.
no-link-cons :
    (batch k : ℕ) (r : SeqRange) (rest : List SeqRange)
    → 2 ≤ batch
    → extend_run batch 1 r rest ≡ 0
    → NoLinkBefore k rest
    → NoLinkBefore (suc k) (r ∷ rest)
unfolding extend_run
no-link-cons batch k r [] b h n = tt
no-link-cons batch k r (s ∷ rest) b h n = (ground arith, n)

batch_loop-found :
    (batch i : ℕ) (ranges : List SeqRange) (start len : ℕ)
    → 1 ≤ batch
    → batch_loop batch i ranges ≡ some (start, len)
    → (k : ℕ) × (start ≡ i + k)
      × (k + len ≤ length ranges)
      × (len ≤ batch)
      × (2 ≤ len ⊎ (batch ≡ 1) × (len ≡ 1))
      × IsRun (take len (drop k ranges))
      × (2 ≤ batch → NoLinkBefore k ranges)
unfolding batch_loop
batch_loop-found batch i [] start len b h = cc
batch_loop-found batch i (r ∷ rest) start len b h =
    let run = extend_run-IsRun batch 1 r rest b in
    elim (Bool-cases (leb 2 (suc (extend_run batch 1 r rest)) || (batch == 1))) [
      | inl e ↦
          let found : ◌≡◌ {A = Option (ℕ × ℕ)} (some (i, suc (extend_run batch 1 r rest)))
              (some (start, len)) =
            rw (e, batch_loop) at h in
          let at : start ≡ i = ground arith in
          let size : suc (extend_run batch 1 r rest) ≡ len = ground arith in
          (
            0,
            omega arith,
            omega arith,
            omega arith,
            ground arith,
            subst (λ n. IsRun (take n (r ∷ rest))) size run.2,
            λ two. tt,
          )
      | inr e ↦
          let ih = batch_loop-found batch (suc i) rest start len b (rw (e, batch_loop) at h) in
          let lone : extend_run batch 1 r rest ≡ 0 = ground arith in
          (
            suc ih.0,
            omega (arith, ih.1),
            omega (arith, ih.2),
            ih.3,
            ih.4,
            ih.5,
            λ two. no-link-cons batch ih.0 r rest two lone (ih.6 two),
          )
    ]

batch_loop-none :
    (batch i : ℕ) (ranges : List SeqRange)
    → 2 ≤ batch
    → batch_loop batch i ranges ≡ none
    → NoLinkBefore (length ranges) ranges
unfolding batch_loop
batch_loop-none batch i [] two h = tt
batch_loop-none batch i (r ∷ rest) two h =
    elim (Bool-cases (leb 2 (suc (extend_run batch 1 r rest)) || (batch == 1))) [
      | inl e ↦ absurd (ground arith)
      | inr e ↦
          let lone : extend_run batch 1 r rest ≡ 0 = ground arith in
          no-link-cons batch (length rest) r rest two lone
            (batch_loop-none batch (suc i) rest two (rw (e, batch_loop) at h))
    ]

module _ (ranges : List SeqRange) (batch start len : ℕ)
    (found : contiguous_batch ranges batch ≡ some (start, len)) where
  -- The facts about a batch, with the place in the list as the loop counts it.
  batch_facts :
      (start + len ≤ length ranges)
      × (len ≤ batch)
      × (2 ≤ len ⊎ (batch ≡ 1) × (len ≡ 1))
      × IsRun (take len (drop start ranges))
      × (2 ≤ batch → NoLinkBefore start ranges)
  unfolding contiguous_batch
  batch_facts = elim (Bool-cases (batch == 0)) [
    | inl e ↦ absurd (ground arith)
    | inr e ↦
        let f = batch_loop-found batch 0 ranges start len (ground arith) (rw e at found) in
        let at : f.0 ≡ start = omega (arith, f.1) in
        (
          omega (arith, f.2, at),
          f.3,
          f.4,
          subst (λ k. IsRun (take len (drop k ranges))) at f.5,
          λ two. subst (λ k. NoLinkBefore k ranges) at (f.6 two),
        )
  ]

  -- A batch lies within the listing, has at most `batch` files, each of which goes on where the
  -- one before it ends, and has at least two files unless batches are of one.
  pub contiguous_batch_sound :
      (start + len ≤ length ranges)
      × (len ≤ batch)
      × (2 ≤ len ⊎ (batch ≡ 1) × (len ≡ 1))
      × IsRun (take len (drop start ranges))
  contiguous_batch_sound = (batch_facts.0, batch_facts.1, batch_facts.2, batch_facts.3)

  -- For batches of two files or more the batch is the oldest run: no neighbours before it link.
  pub contiguous_batch-oldest : 2 ≤ batch → NoLinkBefore start ranges
  contiguous_batch-oldest = batch_facts.4

-- For batches of two files or more, no batch is found only if no two neighbours link: a chain
-- break cannot hold up the merging of what links behind it.
pub contiguous_batch-none :
    (ranges : List SeqRange) (batch : ℕ)
    → 2 ≤ batch
    → contiguous_batch ranges batch ≡ none
    → NoLinkBefore (length ranges) ranges
unfolding contiguous_batch
contiguous_batch-none ranges batch two h = batch_loop-none batch 0 ranges two (rw (wide) at h)
  where
    wide : (batch == 0) ≡ false
    wide = ground arith
