-- ===== src/Compaction/Engine/Batch.antt =====
-- `contiguous_batch`: the run of files that a merge takes.
pub mod Laws
use walrust.Base.{
  ℕ, suc, ◌+◌, Bool, Option, none, some, List, [], ◌∷◌, ◌&&◌, ◌||◌, ltb, leb, ◌==◌, if◌then◌else◌,
  add_u64,
}
use walrust.Compaction.Layout.{SeqRange}

-- The second file goes on where the first ends.
abbrev pub links : SeqRange → SeqRange → Bool
links a b = add_u64 a.max 1 == b.min

-- The inner loop: how many files behind `last` extend a run that has `count` files.
unfoldable pub extend_run : ℕ → ℕ → SeqRange → List SeqRange → ℕ
extend_run batch count last [] = 0
extend_run batch count last (r ∷ rest) =
    let more = extend_run batch (suc count) r rest in
    if links last r && ltb count batch then suc more else 0

-- The outer loop, from file `i`. Where it goes on the run is one file, so that it goes on at the
-- next file.
unfoldable pub batch_loop : ℕ → ℕ → List SeqRange → Option (ℕ × ℕ)
unfolding extend_run
batch_loop batch i [] = none
batch_loop batch i (r ∷ rest) =
    let run_len = suc (extend_run batch 1 r rest) in
    let later = batch_loop batch (suc i) rest in
    if leb 2 run_len || (batch == 1) then some (i, run_len) else later

unfoldable pub contiguous_batch : List SeqRange → ℕ → Option (ℕ × ℕ)
unfolding batch_loop
contiguous_batch ranges batch = if batch == 0 then none else batch_loop batch 0 ranges
