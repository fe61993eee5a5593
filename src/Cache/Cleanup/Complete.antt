-- ===== src/Cache/Cleanup/Complete.antt =====
-- What a `cleanup` that succeeds has evicted.
use walrust.Base.{
  ℕ, ◌≤◌, ◌≡◌, ◌⊎◌, inl, inr, refl, sym, subst, Bool, true, false, not, ◌&&◌, ℤ, Result, ok, err,
  In, filter-In, map-In, sort_by-In, arith, Bool-cases,
}
use walrust.Cache.{CacheEntry, CacheManifest}
use walrust.Cache.Queue.{
  WriteFault, no_fault, before_rename, after_rename, CacheError, LocalCache, save_manifest,
}
use walrust.Cache.Cleanup.{
  CleanupStats, evictable, is_old, to_delete_age, to_delete_size, Sweep, sweep_age, sweep_size,
  finish_cleanup, sweep_start, sweep, cleanup,
}
use walrust.Cache.Cleanup.Bound.{
  behind_ok, sweep_age_sub, sweep_size_sub, sweep_age-IsGone, sweep_size-IsBounded,
}

-- The entries to evict are planned, by their age.
planned :
    (now retention : ℤ) (m : CacheManifest) (q : ℕ × CacheEntry)
    → In q m.entries
    → evictable m q ≡ true
    → (is_old now retention q.1 ≡ true) × In q.0 (to_delete_age now retention m)
      ⊎ (is_old now retention q.1 ≡ false) × In q.0 (to_delete_size now retention m)
unfolding to_delete_age to_delete_size
planned now retention m q i fine = elim (Bool-cases (is_old now retention q.1)) [
  | inl e ↦ inl (
    e,
    sort_by-In _ _ (
        map-In (λ p. p.0) _
          (filter-In (λ p. evictable m p && is_old now retention p.1) m.entries i
            (rw (fine, e) refl))),
  )
  | inr e ↦ inr (
    e,
    sort_by-In _ _ (
        map-In (λ p. p.0) _
          (filter-In (λ p. evictable m p && not (is_old now retention p.1)) m.entries i
            (rw (fine, e) refl))),
  )
]

-- What is left by both loops.
sweep-left :
    (removable : ℕ → Bool) (now retention : ℤ) (size : ℕ) (c : LocalCache) (q : ℕ × CacheEntry)
    → (sweep removable now retention size c).0 ≡ ok tt
    → In q (sweep removable now retention size c).1.cache.manifest.entries
    → evictable c.manifest q ≡ true
    → (is_old now retention q.1 ≡ false)
      × ((sweep removable now retention size c).1.cache.manifest.cache_size_bytes ≤ size)
unfolding sweep
sweep-left removable now retention size c q h m fine =
    let first = sweep_age removable (to_delete_age now retention c.manifest) (sweep_start c) in
    let next = sweep_size removable size (to_delete_size now retention c.manifest) in
    let (d, later, same) = behind_ok removable next first h in
    let m2 : In q (next first.1).1.cache.manifest.entries =
      subst (λ (r : Result (Unit {0}) CacheError × Sweep). In q r.1.cache.manifest.entries) same
        m in
    let m1 = sweep_size_sub removable size (to_delete_size now retention c.manifest) first.1 q m2 in
    let m0 =
      sweep_age_sub removable (to_delete_age now retention c.manifest) (sweep_start c) q m1 in
    elim (planned now retention c.manifest q m0 fine) [
      | inl (old, i) ↦ absurd (sweep_age-IsGone removable _ (sweep_start c) q.0 d i q m1 refl)
      | inr (young, i) ↦ elim (sweep_size-IsBounded removable size _ first.1 q.0 i later) [
        | inl small ↦ (
          young,
          subst
              (λ (r : Result (Unit {0}) CacheError × Sweep).
                r.1.cache.manifest.cache_size_bytes ≤ size)
              (sym same) small,
        )
        | inr gone ↦ absurd (gone q m2 refl)
      ]
    ]

-- After a cleanup that succeeds, an entry that is left was not evictable, or it is younger than the
-- retention and the cache is within its size.
pub cleanup_complete :
    (removable : ℕ → Bool) (saved : WriteFault) (now retention : ℤ) (size : ℕ) (c : LocalCache)
    (stats : CleanupStats) (q : ℕ × CacheEntry)
    → (cleanup removable saved now retention size c).0 ≡ ok stats
    → In q (cleanup removable saved now retention size c).1.manifest.entries
    → (evictable c.manifest q ≡ false)
      ⊎ (is_old now retention q.1 ≡ false) × (stats.remaining_bytes ≤ size)
unfolding cleanup save_manifest
cleanup_complete removable saved now retention size c stats q h m =
    elim (Bool-cases (evictable c.manifest q)) [
      | inr e ↦ inl e
      | inl fine ↦
          let (done, left, total) = finished saved (sweep removable now retention size c) h m in
          let (young, small) = sweep-left removable now retention size c q done left fine in
          inr (young, omega (arith, total, small))
    ]
  where
    finished :
        (saved : WriteFault) (r : Result (Unit {0}) CacheError × Sweep)
        → (finish_cleanup saved now r).0 ≡ ok stats
        → In q (finish_cleanup saved now r).1.manifest.entries
        → (r.0 ≡ ok tt)
          × In q r.1.cache.manifest.entries
          × (stats.remaining_bytes ≡ r.1.cache.manifest.cache_size_bytes)
    finished saved (err e, s) h m = cc
    finished no_fault (ok t, s) h m = (refl, m, cc)
    finished before_rename (ok t, s) h m = cc
    finished after_rename (ok t, s) h m = cc
