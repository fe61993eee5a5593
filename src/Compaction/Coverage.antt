-- ===== src/Compaction/Coverage.antt =====
-- crates/walrust-core/src/compaction/coverage.rs: do ranges cover a span without a gap?
pub mod Laws
use Prim.Native.Nat.{max}
use walrust.Base.{
  ℕ, ◌+◌, Bool, true, false, Option, none, some, List, [], ◌∷◌, ◌&&◌, ◌||◌, ltb, leb, ◌==◌, filter,
  if◌then◌else◌, sort_by,
}
use walrust.Compaction.Layout.{SeqRange, key_le}

-- The frontier is the highest number covered without a gap from `lo`. In the test against
-- `f + 1` the frontier is below `hi`, so that the sum does not overflow.
unfoldable pub sweep : ℕ → ℕ → Option ℕ → List SeqRange → Bool
sweep lo hi none [] = false
sweep lo hi (some f) [] = leb hi f
sweep lo hi none (r ∷ rs) = elim (leb r.min lo) [
  | true ↦ elim (leb hi (max r.max lo)) [
    | true ↦ true
    | false ↦ sweep lo hi (some (max r.max lo)) rs
  ]
  | false ↦ sweep lo hi none rs
]
sweep lo hi (some f) (r ∷ rs) = elim (leb r.min (f + 1)) [
  | true ↦ elim (leb hi (max f r.max)) [ true ↦ true | false ↦ sweep lo hi (some (max f r.max)) rs ]
  | false ↦ leb hi f
]

unfoldable pub ranges_cover : ℕ → ℕ → List SeqRange → Bool
unfolding sweep
ranges_cover lo hi ranges =
    if ltb hi lo
    then true
    else sweep lo hi none (sort_by key_le (filter (λ r. leb lo r.max) ranges))
