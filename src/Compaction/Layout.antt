-- ===== src/Compaction/Layout.antt =====
-- crates/walrust-core/src/compaction/layout.rs: the data that the planner, the engine and prune
-- share.
use walrust.Base.{ℕ, ◌≤◌, ◌≡◌, String, Bool, true, false, ltb, leb, ◌==◌, ◌&&◌, ◌||◌, ℤ, arith}

abbrev pub Level : Type 0
Level = ℕ

-- An inclusive span of sequence numbers.
pub record SeqRange : Type 0 where
  pub min : ℕ
  pub max : ℕ

abbrev pub range_eq : SeqRange → SeqRange → Bool
range_eq a b = (a.min == b.min) && (a.max == b.max)

-- One file found at a level.
pub record LayoutFile : Type 0 where
  pub key : String
  pub level : Level
  pub range : SeqRange
  pub last_modified_ms : ℤ

-- A range that `parse_range_name` accepts.
abbrev pub IsOrdered : SeqRange → Type 0
IsOrdered r = r.min ≤ r.max

-- The key `(min, max)` by which listings are sorted.
abbrev pub key_le : SeqRange → SeqRange → Bool
key_le a b = ltb a.min b.min || ((a.min == b.min) && leb a.max b.max)

pub key_le_total : (a b : SeqRange) → key_le a b ≡ false → key_le b a ≡ true
key_le_total a b h = ground arith

pub key_le_trans : (a b c : SeqRange) → key_le a b ≡ true → key_le b c ≡ true → key_le a c ≡ true
key_le_trans a b c h k = ground arith

pub key_le-min : (a b : SeqRange) → key_le a b ≡ true → a.min ≤ b.min
key_le-min a b h = ground arith
