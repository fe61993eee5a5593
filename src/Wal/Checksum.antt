-- ===== src/Wal/Checksum.antt =====
-- crates/walrust-core/src/wal.rs: the running checksum of the log.
use walrust.Base.{
  ℕ, zero, suc, ◌+◌, ◌/◌, ◌%◌, ◌^◌, ◌<◌, Bool, length, take, drop, if◌then◌else◌, Bytes, from_be,
  from_le, ◌==◌, arith,
}

-- The words s0 and s1.
abbrev pub Chain : Type 0
Chain = ℕ × ℕ

unfoldable pub read_u32 : Bytes → Bool → ℕ
read_u32 b big_endian = if big_endian then from_be b else from_le b

-- `magic & 1 == 1`
unfoldable pub magic_is_big_endian : ℕ → Bool
magic_is_big_endian magic = magic % 2 == 1

-- The body of the loop, for the words x0 and x1.
unfoldable pub mix : Chain → ℕ → ℕ → Chain
mix (s0, s1) x0 x1 =
    let t0 : ℕ = ((s0 + x0) % 2 ^ 32 + s1) % 2 ^ 32 in (t0, ((s1 + x1) % 2 ^ 32 + t0) % 2 ^ 32)

-- The loop, of which `rounds` rounds are left, on what it has not read.
unfoldable pub checksum_loop : ℕ → Bytes → Bool → Chain → Chain
unfolding read_u32 mix
checksum_loop zero bytes big_endian s = s
checksum_loop (suc rounds) bytes big_endian s =
    checksum_loop rounds (drop 8 bytes) big_endian
      (mix s (read_u32 (take 4 bytes) big_endian) (read_u32 (take 4 (drop 4 bytes)) big_endian))

unfoldable pub wal_checksum : Chain → Bytes → Bool → Chain
unfolding checksum_loop
wal_checksum seed bytes big_endian = checksum_loop (length bytes / 8) bytes big_endian seed

-- Both words are of 32 bits.
abbrev pub IsWords : Chain → Type 0
IsWords s = (s.0 < 2 ^ 32) × (s.1 < 2 ^ 32)

mix-IsWords : (s : Chain) (x0 x1 : ℕ) → IsWords (mix s x0 x1)
unfolding mix
mix-IsWords (s0, s1) x0 x1 = (omega arith, omega arith)

checksum_loop-IsWords :
    (rounds : ℕ) (bytes : Bytes) (big_endian : Bool) (s : Chain)
    → IsWords s
    → IsWords (checksum_loop rounds bytes big_endian s)
unfolding checksum_loop
checksum_loop-IsWords zero bytes big_endian s h = h
checksum_loop-IsWords (suc rounds) bytes big_endian s h =
    checksum_loop-IsWords rounds (drop 8 bytes) big_endian _ (mix-IsWords s _ _)

pub wal_checksum-IsWords :
    (seed : Chain) (bytes : Bytes) (big_endian : Bool)
    → IsWords seed
    → IsWords (wal_checksum seed bytes big_endian)
unfolding wal_checksum
wal_checksum-IsWords seed bytes big_endian h =
    checksum_loop-IsWords (length bytes / 8) bytes big_endian seed h
