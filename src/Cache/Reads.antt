-- ===== src/Cache/Reads.antt =====
-- The questions that the cache answers: its TXIDs, ranges of them, and its statistics.
use Prim.Native.Nat.{min, max}
use walrust.Base.{
  ℕ, zero, suc, inl, inr, ◌+◌, ◌-◌, ◌≤◌, ◌<◌, ◌≡◌, ◌∙◌, sym, ap, Bool, true, false, Option, none,
  some, List, [], ◌∷◌, leb, if◌then◌else◌, filter, map, length, sort_by, Bool-cases, Option-cases,
  arith,
}
use walrust.Cache.{CacheEntry, Entries, CacheManifest, entry_at}

unfoldable pub available_txids : CacheManifest → List ℕ
available_txids m = sort_by leb (map (λ p. p.0) m.entries)

unfoldable pub has_txid : ℕ → CacheManifest → Bool
has_txid txid m = elim (entry_at txid m.entries) [ some e ↦ true | none ↦ false ]

abbrev pub min_key : ℕ → Entries → ℕ
min_key k [] = k
min_key k (p ∷ rest) = min_key (min k p.0) rest

abbrev pub max_key : ℕ → Entries → ℕ
max_key k [] = k
max_key k (p ∷ rest) = max_key (max k p.0) rest

unfoldable pub txid_range : CacheManifest → Option (ℕ × ℕ)
txid_range m = elim m.entries [ [] ↦ none | p ∷ rest ↦ some (min_key p.0 rest, max_key p.0 rest) ]

-- The loop over `start..=end`, of which `left` numbers are left.
unfoldable pub continuous_loop : ℕ → ℕ → CacheManifest → Bool
unfolding has_txid
continuous_loop zero txid m = true
continuous_loop (suc left) txid m =
    let rest = continuous_loop left (suc txid) m in if has_txid txid m then rest else false

unfoldable pub has_continuous_range : ℕ → ℕ → CacheManifest → Bool
unfolding continuous_loop
has_continuous_range start end m = continuous_loop (end + 1 - start) start m

pub record CacheStats : Type 0 where
  pub total_entries : ℕ
  pub pending_count : ℕ
  pub uploaded_count : ℕ
  pub failed_count : ℕ
  pub total_bytes : ℕ
  pub last_uploaded_txid : ℕ
  pub last_contiguous_uploaded_txid : ℕ

unfoldable pub stats : CacheManifest → CacheStats
stats m = record {
  total_entries = length m.entries;
  pending_count = length m.pending_txids;
  uploaded_count = length (filter (λ p. p.1.uploaded) m.entries);
  failed_count = length m.failed_txids;
  total_bytes = m.cache_size_bytes;
  last_uploaded_txid = m.last_uploaded_txid;
  last_contiguous_uploaded_txid = m.last_contiguous_uploaded_txid;
}

-- The cache has an entry for the number.
abbrev pub IsCached : CacheManifest → ℕ → Type 0
IsCached m n = (e : CacheEntry) × (entry_at n m.entries ≡ some e)

has_txid-true : (n : ℕ) (m : CacheManifest) → has_txid n m ≡ true → IsCached m n
unfolding has_txid
has_txid-true n m h = elim (Option-cases (entry_at n m.entries)) [
  | inl e ↦ absurd (cc (rw (e, has_txid) at h))
  | inr (x, e) ↦ (x, e)
]

has_txid-false : (n : ℕ) (m : CacheManifest) → has_txid n m ≡ false → ¬ IsCached m n
unfolding has_txid
has_txid-false n m h (x, e) = cc (rw (e, has_txid) at h)

continuous_loop_sound :
    (left txid : ℕ) (m : CacheManifest) (n : ℕ)
    → continuous_loop left txid m ≡ true
    → txid ≤ n
    → n < txid + left
    → IsCached m n
unfolding continuous_loop
continuous_loop_sound zero txid m n h low high = absurd (omega (arith, low, high))
continuous_loop_sound (suc left) txid m n h low high = elim (Bool-cases (has_txid txid m)) [
  | inl e ↦ elim (Bool-cases (leb n txid)) [
    | inl same ↦
        let eq : txid ≡ n = ground arith in has_txid-true n m (ap (λ x. has_txid x m) (sym eq) ∙ e)
    | inr later ↦
        continuous_loop_sound left (suc txid) m n (rw (e, continuous_loop) at h) (ground arith)
          (omega (arith, high))
  ]
  | inr e ↦ absurd (cc (rw (e, continuous_loop) at h))
]

continuous_loop_fails :
    (left txid : ℕ) (m : CacheManifest)
    → continuous_loop left txid m ≡ false
    → (n : ℕ) × (txid ≤ n) × (n < txid + left) × (¬ IsCached m n)
unfolding continuous_loop
continuous_loop_fails zero txid m h = cc
continuous_loop_fails (suc left) txid m h = elim (Bool-cases (has_txid txid m)) [
  | inl e ↦
      let (n, low, high, missing) =
        continuous_loop_fails left (suc txid) m (rw (e, continuous_loop) at h) in
      (n, omega (arith, low), omega (arith, high), missing)
  | inr e ↦ (txid, omega arith, omega arith, has_txid-false txid m e)
]

-- A range of TXIDs that the cache reports as continuous has an entry for each number of it, the two
-- ends included.
pub has_continuous_range_sound :
    (start end : ℕ) (m : CacheManifest) (n : ℕ)
    → has_continuous_range start end m ≡ true
    → start ≤ n
    → n ≤ end
    → IsCached m n
unfolding has_continuous_range
has_continuous_range_sound start end m n h low high =
    continuous_loop_sound (end + 1 - start) start m n h low (omega (arith, low, high))

-- A range of TXIDs that the cache reports as not continuous has a number, the two ends included,
-- that the cache has no entry for.
pub has_continuous_range_complete :
    (start end : ℕ) (m : CacheManifest)
    → has_continuous_range start end m ≡ false
    → (n : ℕ) × (start ≤ n) × (n ≤ end) × (¬ IsCached m n)
unfolding has_continuous_range
has_continuous_range_complete start end m h =
    let (n, low, high, missing) = continuous_loop_fails (end + 1 - start) start m h in
    (n, low, omega (arith, low, high), missing)
