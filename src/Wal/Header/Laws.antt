-- ===== src/Wal/Header/Laws.antt =====
-- crates/walrust-core/src/wal.rs: the two readers of a header agree on its salt, and the check for a
-- reset passes on a file that nothing writes to.
use walrust.Base.{ℕ, ◌≤◌, ◌≡◌, true, Option, none, some, length, take, ok, Bytes, be_at, arith}
use walrust.Wal.Header.{
  holding, HeaderSeed, header_seed, header_of, read_header, read_exact, same_salt, pair_eq,
  detect_reset_during_read,
}
use walrust.Wal.Reading.{salt_of}

pub pair_eq_refl : (a : ℕ × ℕ) → pair_eq a a ≡ true
pair_eq_refl a = ground arith

-- What a header that is taken over tells of the file.
pub header_seed-some :
    (bytes : Bytes) (h : HeaderSeed)
    → header_seed (length bytes) bytes ≡ ok (some h)
    → (read_header (holding bytes) ≡ ok (some (header_of (take 32 bytes))))
      × (h.salt ≡ (be_at 16 4 (take 32 bytes), be_at 20 4 (take 32 bytes)))
unfolding header_seed read_header read_exact
header_seed-some bytes h e = ground arith

pub same_salt-still :
    (bytes : Bytes) (h : HeaderSeed)
    → header_seed (length bytes) bytes ≡ ok (some h)
    → same_salt (holding bytes) h.salt ≡ ok tt
unfolding same_salt
same_salt-still bytes h e =
    let (found, same) = header_seed-some bytes h e in
    rw (found, same) (rw (pair_eq_refl (be_at 16 4 (take 32 bytes), be_at 20 4 (take 32 bytes))))

pub detect_reset-still :
    (bytes : Bytes) (h : Option HeaderSeed) (end : ℕ)
    → header_seed (length bytes) bytes ≡ ok h
    → end ≤ length bytes
    → detect_reset_during_read (holding bytes) (holding bytes) end (salt_of h) ≡ ok tt
unfolding detect_reset_during_read
detect_reset-still bytes none end e fits = ground arith
detect_reset-still bytes (some h) end e fits = ground (arith, same_salt-still bytes h e)
