-- ===== src/Base/Encoding.antt =====
-- Bytes are numbers below 256; big-endian words of any width.
use walrust.Base.Lists.{length, take, drop}
use Prim.Native.Nat.{ℕ, zero, suc, ◌+◌, ◌-◌, ◌*◌, ◌/◌, ◌%◌, ◌^◌}
use mathlib.Core.List.{List, [], ◌∷◌}
use walrust.Base.Tests.{ltb, if◌then◌else◌}
use walrust.Base.Int.{ℤ, pos, negsuc}

abbrev pub Bytes : Type 0
Bytes = List ℕ

-- `to_be_bytes` of the word of `w` bytes.
abbrev pub be_bytes : ℕ → ℕ → Bytes
be_bytes zero n = []
be_bytes (suc w) n = n / 256 ^ w % 256 ∷ be_bytes w n

-- `from_be_bytes`
abbrev pub from_be : Bytes → ℕ
from_be [] = 0
from_be (b ∷ bs) = b * 256 ^ length bs + from_be bs

-- `from_le_bytes`
abbrev pub from_le : Bytes → ℕ
from_le [] = 0
from_le (b ∷ bs) = b + 256 * from_le bs

-- The big-endian word of `len` bytes at an offset.
abbrev pub be_at : ℕ → ℕ → Bytes → ℕ
be_at from len bytes = from_be (take len (drop from bytes))

-- `u64 as i64`
abbrev pub to_i64 : ℕ → ℤ
to_i64 n = if ltb n (2 ^ 63) then pos n else negsuc (2 ^ 64 - n - 1)
