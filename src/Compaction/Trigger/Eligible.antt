-- ===== src/Compaction/Trigger/Eligible.antt =====
-- The eligible prefix of a level.
use walrust.Base.{
  ℕ, ◌+◌, ◌≤◌, ◌≡◌, List, [], ◌∷◌, some, arith, All, length, take, get_elem?, inl, inr, ◌↔◌, leb→le,
  Bool-cases, ℤ, pos, lez, ◌-ℤ◌, ◌≤ℤ◌, ◌<◌, ◌^◌, ◌∙◌, ap, sym, subst, as_i64, sub_i64, IsI64,
  as_i64_small, sub_i64_fits,
}
use walrust.Compaction.Trigger.{eligible_loop, eligible_prefix_len}

-- The prefix is within the list, all of it is at or before the cutoff, and what stands next is after it.
pub record IsPrefix (cutoff : ℤ) (times : List ℤ) (n : ℕ) : Type 0 where
  pub within : n ≤ length times
  pub old : All (λ ts. ts ≤ℤ cutoff) (take n times)
  pub young : (ts : ℤ) → get_elem? times n ≡ some ts → ts ≤ℤ cutoff → ⊥

eligible_loop-IsPrefix :
    (cutoff : ℤ) (times : List ℤ) → IsPrefix cutoff times (eligible_loop cutoff times)
unfolding eligible_loop
eligible_loop-IsPrefix cutoff [] = record {
  within = omega arith;
  old = tt;
  young = λ ts e. absurd (ground arith);
}
eligible_loop-IsPrefix cutoff (t ∷ times) =
    let rest = eligible_loop-IsPrefix cutoff times in
    elim (Bool-cases (lez t cutoff)) [
      | inl old ↦ rw old (record {
        within = let w = rest.within in omega arith;
        old = (leb→le _ _ old, rest.old);
        young = rest.young;
      })
      | inr young ↦
          rw young (record { within = omega arith; old = tt; young = λ ts e le. ground arith })
    ]

-- `eligible_prefix_len` counts exactly the leading files that are at least as old as the window (a
-- file whose age is the window counts): all of those are, and the file behind them is not. The window
-- and the cutoff fit an `i64`, so that neither the cast nor the subtraction wraps.
pub eligible_prefix_len-IsPrefix :
    (times : List ℤ) (now_ms : ℤ) (window : ℕ)
    → window < 2 ^ 63
    → IsI64 (now_ms -ℤ pos window)
    → IsPrefix (now_ms -ℤ pos window) times (eligible_prefix_len times now_ms window)
unfolding eligible_prefix_len
eligible_prefix_len-IsPrefix times now_ms window small fits =
    let cast : as_i64 window ≡ pos window = as_i64_small window small in
    let cutoff : sub_i64 now_ms (as_i64 window) ≡ now_ms -ℤ pos window =
      ap (sub_i64 now_ms) cast ∙ sub_i64_fits now_ms (pos window) fits in
    subst (λ c. IsPrefix (now_ms -ℤ pos window) times (eligible_loop c times)) (sym cutoff)
      (eligible_loop-IsPrefix (now_ms -ℤ pos window) times)

-- Being at or before the cutoff is having the age of the window.
pub cutoff_iff :
    (ts now_ms window : ℕ) → (pos ts ≤ℤ pos now_ms -ℤ pos window) ↔ (ts + window ≤ now_ms)
cutoff_iff ts now_ms window = ground arith
