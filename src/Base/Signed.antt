-- ===== src/Base/Signed.antt =====
-- The casts to an `i64`, and its arithmetic, which wraps.
use Prim.Native.Nat.{ℕ, ◌-◌, ◌%◌, ◌^◌, ◌<◌}
use mathlib.Core.Path.{◌≡◌}
use native.Mathlib.Omega.{arith}
use walrust.Base.Int.{ℤ, pos, negsuc, ◌-ℤ◌}
use walrust.Base.Encoding.{to_i64}

-- The bits of an integer, in 64.
abbrev pub bits_64 : ℤ → ℕ
bits_64 (pos n) = n % 2 ^ 64
bits_64 (negsuc n) = 2 ^ 64 - 1 - n % 2 ^ 64

-- The cast to an `i64`, and its difference, which wraps.
abbrev pub as_i64 : ℕ → ℤ
as_i64 n = to_i64 (n % 2 ^ 64)

abbrev pub sub_i64 : ℤ → ℤ → ℤ
sub_i64 a b = to_i64 (bits_64 (a -ℤ b))

-- The integers of an `i64`.
abbrev pub IsI64 : ℤ → Type 0
IsI64 (pos n) = n < 2 ^ 63
IsI64 (negsuc n) = n < 2 ^ 63

pub as_i64_small : (n : ℕ) → n < 2 ^ 63 → as_i64 n ≡ pos n
as_i64_small n h = ground arith

pub sub_i64_fits : (a b : ℤ) → IsI64 (a -ℤ b) → sub_i64 a b ≡ a -ℤ b
sub_i64_fits a b h = wrap_fits (a -ℤ b) h
  where
    wrap_fits : (z : ℤ) → IsI64 z → to_i64 (bits_64 z) ≡ z
    wrap_fits (pos n) h = ground arith
    wrap_fits (negsuc n) h = ground arith
