-- ===== src/Cache/Cleanup/Spared.antt =====
-- What `cleanup` never evicts.
use walrust.Base.{
  ℕ, ◌≤◌, ◌<◌, ◌≡◌, ◌≢◌, ◌⊎◌, inl, inr, refl, ◌∙◌, sym, ap, Bool, true, false, not, ◌&&◌, some,
  List, [], ◌∷◌, ◌==◌, leb, ℤ, Result, ok, err, In, here, there, In-filter, filter-In, test-filter,
  In-map, In-sort_by, arith, Bool-cases, Option-cases, ==→eq,
}
use walrust.Cache.{CacheEntry, Entries, CacheManifest, entry_at, remove_entry, entry_txid_range}
use walrust.Cache.Queue.{
  WriteFault, no_fault, before_rename, after_rename, CacheError, LocalCache, save_manifest,
  has_file,
}
use walrust.Cache.Cleanup.{
  floor_txid, evictable, is_old, to_delete_age, to_delete_size, Sweep, delete_one, behind,
  sweep_age, sweep_size, finish_cleanup, sweep_start, sweep, cleanup,
}

-- The keys of a map are distinct.
abbrev pub HasDistinctKeys : Entries → Type 0
HasDistinctKeys entries = (p q : ℕ × CacheEntry) → In p entries → In q entries → p.0 ≡ q.0 → p ≡ q

-- The planned TXIDs are those of evictable entries.
pub planned_age :
    (now retention : ℤ) (m : CacheManifest) (txid : ℕ)
    → In txid (to_delete_age now retention m)
    → (q : ℕ × CacheEntry) × In q m.entries × (evictable m q ≡ true) × (q.0 ≡ txid)
unfolding to_delete_age
planned_age now retention m txid i =
    let (q, n, e) = In-map (λ p. p.0) _ (In-sort_by _ _ i) in
    let t = test-filter (λ p. evictable m p && is_old now retention p.1) m.entries n in
    let fine : evictable m q ≡ true = ground arith in
    (q, In-filter (λ p. evictable m p && is_old now retention p.1) m.entries n, fine, e)

pub planned_size :
    (now retention : ℤ) (m : CacheManifest) (txid : ℕ)
    → In txid (to_delete_size now retention m)
    → (q : ℕ × CacheEntry) × In q m.entries × (evictable m q ≡ true) × (q.0 ≡ txid)
unfolding to_delete_size
planned_size now retention m txid i =
    let (q, n, e) = In-map (λ p. p.0) _ (In-sort_by _ _ i) in
    let t = test-filter (λ p. evictable m p && not (is_old now retention p.1)) m.entries n in
    let fine : evictable m q ≡ true = ground arith in
    (q, In-filter (λ p. evictable m p && not (is_old now retention p.1)) m.entries n, fine, e)

module _ (removable : ℕ → Bool) (p : ℕ × CacheEntry) where
  abbrev Has : Sweep → Type 0
  Has s = In p s.cache.manifest.entries

  remove_entry-keeps :
      (txid : ℕ) (entries : Entries) → txid ≢ p.0 → In p entries → In p (remove_entry txid entries)
  remove_entry-keeps txid entries other m =
      filter-In (λ q. not (q.0 == txid)) entries m
        (elim (Bool-cases (p.0 == txid)) [
          | inl e ↦ absurd (other (sym (==→eq _ _ e)))
          | inr e ↦ rw e refl
        ])

  delete_one-keeps :
      (txid : ℕ) (s : Sweep) → txid ≢ p.0 → Has s → Has (delete_one removable txid s).1
  unfolding delete_one
  delete_one-keeps txid s other m = elim (Option-cases (entry_at txid s.cache.manifest.entries)) [
    | inl e ↦ rw (e, delete_one) m
    | inr (x, e) ↦ elim (Bool-cases (has_file txid s.cache && not (removable txid))) [
      | inl f ↦ rw (e, f, delete_one) (remove_entry-keeps txid _ other m)
      | inr f ↦ rw (e, f, delete_one) (remove_entry-keeps txid _ other m)
    ]
  ]

  behind-keeps :
      (next : Sweep → Result (Unit {0}) CacheError × Sweep)
      (r : Result (Unit {0}) CacheError × Sweep)
      → Has r.1
      → ((s : Sweep) → Has s → Has (next s).1)
      → Has (behind next r).1
  behind-keeps next (ok t, s) h n = n s h
  behind-keeps next (err e, s) h n = h

  sweep_age-keeps :
      (txids : List ℕ) (s : Sweep)
      → ((t : ℕ) → In t txids → t ≢ p.0)
      → Has s
      → Has (sweep_age removable txids s).1
  unfolding sweep_age
  sweep_age-keeps [] s other m = m
  sweep_age-keeps (txid ∷ rest) s other m =
      behind-keeps (sweep_age removable rest) (delete_one removable txid s)
        (delete_one-keeps txid s (other txid here) m)
        (λ s' m'. sweep_age-keeps rest s' (λ t n. other t (there n)) m')

  sweep_size-keeps :
      (size : ℕ) (txids : List ℕ) (s : Sweep)
      → ((t : ℕ) → In t txids → t ≢ p.0)
      → Has s
      → Has (sweep_size removable size txids s).1
  unfolding sweep_size
  sweep_size-keeps size [] s other m = m
  sweep_size-keeps size (txid ∷ rest) s other m =
      elim (Bool-cases (leb s.cache.manifest.cache_size_bytes size)) [
        | inl e ↦ rw (e, sweep_size) m
        | inr e ↦
            rw (e, sweep_size)
              (behind-keeps (sweep_size removable size rest) (delete_one removable txid s)
                (delete_one-keeps txid s (other txid here) m)
                (λ s' m'. sweep_size-keeps size rest s' (λ t n. other t (there n)) m'))
      ]

  finish-keeps :
      (saved : WriteFault) (now : ℤ) (r : Result (Unit {0}) CacheError × Sweep)
      → Has r.1
      → In p (finish_cleanup saved now r).1.manifest.entries
  unfolding save_manifest
  finish-keeps saved now (err e, s) m = m
  finish-keeps no_fault now (ok t, s) m = m
  finish-keeps before_rename now (ok t, s) m = m
  finish-keeps after_rename now (ok t, s) m = m

-- The entry is not uploaded, or ends above the durable cursor, or is not below the last snapshot.
abbrev pub IsProtected : CacheManifest → ℕ × CacheEntry → Type 0
IsProtected m p =
    (p.1.uploaded ≡ false)
    ⊎ (m.last_contiguous_uploaded_txid < (entry_txid_range p.0 p.1).1)
    ⊎ (floor : ℕ) × (floor_txid m.entries ≡ some floor) × (floor ≤ p.0)

spared : (m : CacheManifest) (p : ℕ × CacheEntry) → IsProtected m p → evictable m p ≡ false
unfolding evictable
spared m p (inl h) = rw h refl
spared m p (inr (inl h)) = ground (arith, h)
spared m p (inr (inr (floor, e, h))) = rw e (ground (arith, h))

-- Whatever the disk does, a cleanup keeps every entry that is not uploaded, ends above the durable
-- cursor, or is not below the latest snapshot, if no two entries have one TXID.
pub cleanup_keeps :
    (removable : ℕ → Bool) (saved : WriteFault) (now retention : ℤ) (max_cache_size : ℕ)
    (c : LocalCache) (p : ℕ × CacheEntry)
    → HasDistinctKeys c.manifest.entries
    → In p c.manifest.entries
    → IsProtected c.manifest p
    → In p (cleanup removable saved now retention max_cache_size c).1.manifest.entries
unfolding cleanup sweep
cleanup_keeps removable saved now retention size c p distinct m protected =
    finish-keeps removable p saved now (sweep removable now retention size c) (
      behind-keeps removable p (sweep_size removable size (to_delete_size now retention c.manifest))
        (sweep_age removable (to_delete_age now retention c.manifest) (sweep_start c))
        (sweep_age-keeps removable p _ (sweep_start c)
          (λ t i. other t (planned_age now retention c.manifest t i)) m)
        (λ s.
          sweep_size-keeps removable p size _ s
            (λ t i. other t (planned_size now retention c.manifest t i))))
  where
    other :
        (t : ℕ)
        → (q : ℕ × CacheEntry) × In q c.manifest.entries
          × (evictable c.manifest q ≡ true)
          × (q.0 ≡ t)
        → t ≢ p.0
    other t (q, n, fine, e) same =
        let one = distinct q p n m (e ∙ same) in
        absurd
          (cc (sym (spared c.manifest p protected) ∙ (ap (evictable c.manifest) (sym one) ∙ fine)))
