-- ===== src/Wal/Reading.antt =====
-- crates/walrust-core/src/wal.rs: what the two checked readers of the log share: what they see of a
-- file that may change under them, and where and how they begin.
pub mod Laws
use walrust.Base.{
  ℕ, ◌+◌, ◌-◌, ◌/◌, Bool, true, false, ◌||◌, Option, none, some, length, ◌==◌, if◌then◌else◌, Bytes,
}
use walrust.Wal.Checksum.{Chain}
use walrust.Wal.Header.{WalFile, holding, HeaderSeed, wal_header_size}
use walrust.Wal.Frame.{frame_size}

-- The file when it is opened, when its header is read, in the rounds of the first and the second
-- pass over its frames, and, by its path, when its size and its header are looked at again.
pub record Observed : Type 0 where
  pub opened : WalFile
  pub at_header : Bytes
  pub pass_one : ℕ → Bytes
  pub pass_two : ℕ → Bytes
  pub size_after : WalFile
  pub header_after : WalFile

-- Nothing writes to the file meanwhile.
abbrev pub still : Bytes → Observed
still bytes = record {
  opened = holding bytes;
  at_header = bytes;
  pass_one = λ round. bytes;
  pass_two = λ round. bytes;
  size_after = holding bytes;
  header_after = holding bytes;
}

unfoldable pub start_pos : ℕ → ℕ
start_pos start_offset = if start_offset == 0 then wal_header_size else start_offset

unfoldable pub full_frames : ℕ → ℕ → ℕ → ℕ
full_frames page_size file_size from = (file_size - from) / frame_size page_size

-- `running`, `big_endian`, `validate` and `header_salt`.
pub record Checks : Type 0 where
  pub running : Chain
  pub validate : Bool
  pub against : HeaderSeed

abbrev pub or_default : Option Chain → Chain
or_default none = (0, 0)
or_default (some c) = c

abbrev pub is_some {ℓ} : {A : Type ℓ} → Option A → Bool
is_some none = false
is_some (some c) = true

unfoldable pub checks : Option HeaderSeed → ℕ → Option Chain → Checks
checks none from chain_seed = record {
  running = (0, 0);
  validate = false;
  against = record { seed = (0, 0); big_endian = true; salt = (0, 0) };
}
checks (some h) from chain_seed = record {
  running = if from == wal_header_size then h.seed else or_default chain_seed;
  validate = (from == wal_header_size) || is_some chain_seed;
  against = h;
}

-- `seed_chain` of the one reader, and the first `out_chain` of the other.
unfoldable pub seed_chain : Option HeaderSeed → ℕ → Option Chain → Option Chain
seed_chain none from chain_seed = chain_seed
seed_chain (some h) from chain_seed = if from == wal_header_size then some h.seed else chain_seed

abbrev pub salt_of : Option HeaderSeed → Option (ℕ × ℕ)
salt_of none = none
salt_of (some h) = some h.salt
