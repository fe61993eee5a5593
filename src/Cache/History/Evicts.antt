-- ===== src/Cache/History/Evicts.antt =====
-- The cleanup adds no entry and moves no cursor.
use walrust.Base.{
  ℕ, inl, inr, refl, Bool, not, ◌&&◌, List, [], ◌∷◌, ◌==◌, ℤ, Result, ok, err, In-filter, leb,
  Bool-cases, Option-cases,
}
use walrust.Cache.{entry_at}
use walrust.Cache.Queue.{WriteFault, CacheError, LocalCache, has_file}
use walrust.Cache.Cleanup.{
  Sweep, sweep_start, stamp, to_delete_age, to_delete_size, delete_one, behind, sweep_age,
  sweep_size, finish_cleanup, sweep, cleanup,
}
use walrust.Cache.History.{IsLogged-shrink}
use walrust.Cache.History.Keeps.{
  AreLogged, save_manifest-AreLogged, IsShrunk, shrunk-AreLogged, IsShrunk-trans,
}

delete_one-IsShrunk :
    (removable : ℕ → Bool) (txid : ℕ) (s : Sweep)
    → IsShrunk s.cache (delete_one removable txid s).1.cache
unfolding delete_one
delete_one-IsShrunk removable txid s =
    elim (Option-cases (entry_at txid s.cache.manifest.entries)) [
      | inl e ↦ rw (e, delete_one) (λ p m. m, refl, refl)
      | inr (x, e) ↦ elim (Bool-cases (has_file txid s.cache && not (removable txid))) [
        | inl f ↦ rw (e, f, delete_one) (λ p m. In-filter (λ q. not (q.0 == txid)) _ m, refl, refl)
        | inr f ↦ rw (e, f, delete_one) (λ p m. In-filter (λ q. not (q.0 == txid)) _ m, refl, refl)
      ]
    ]

behind-IsShrunk :
    (c : LocalCache) (next : Sweep → Result (Unit {0}) CacheError × Sweep)
    (r : Result (Unit {0}) CacheError × Sweep)
    → IsShrunk c r.1.cache
    → ((s : Sweep) → IsShrunk s.cache (next s).1.cache)
    → IsShrunk c (behind next r).1.cache
behind-IsShrunk c next (ok t, s) h n = IsShrunk-trans c s.cache (next s).1.cache h (n s)
behind-IsShrunk c next (err e, s) h n = h

sweep_age-IsShrunk :
    (removable : ℕ → Bool) (txids : List ℕ) (s : Sweep)
    → IsShrunk s.cache (sweep_age removable txids s).1.cache
unfolding sweep_age
sweep_age-IsShrunk removable [] s = (λ p m. m, refl, refl)
sweep_age-IsShrunk removable (txid ∷ rest) s =
    behind-IsShrunk s.cache (sweep_age removable rest) (delete_one removable txid s)
      (delete_one-IsShrunk removable txid s) (sweep_age-IsShrunk removable rest)

sweep_size-IsShrunk :
    (removable : ℕ → Bool) (max_cache_size : ℕ) (txids : List ℕ) (s : Sweep)
    → IsShrunk s.cache (sweep_size removable max_cache_size txids s).1.cache
unfolding sweep_size
sweep_size-IsShrunk removable size [] s = (λ p m. m, refl, refl)
sweep_size-IsShrunk removable size (txid ∷ rest) s =
    elim (Bool-cases (leb s.cache.manifest.cache_size_bytes size)) [
      | inl e ↦ rw (e, sweep_size) (λ p m. m, refl, refl)
      | inr e ↦
          rw (e, sweep_size)
            (behind-IsShrunk s.cache (sweep_size removable size rest) (delete_one removable txid s)
              (delete_one-IsShrunk removable txid s) (sweep_size-IsShrunk removable size rest))
    ]

sweep-IsShrunk :
    (removable : ℕ → Bool) (now retention : ℤ) (max_cache_size : ℕ) (c : LocalCache)
    → IsShrunk c (sweep removable now retention max_cache_size c).1.cache
unfolding sweep
sweep-IsShrunk removable now retention size c =
    let first = sweep_age removable (to_delete_age now retention c.manifest) (sweep_start c) in
    let later = sweep_size removable size (to_delete_size now retention c.manifest) in
    behind-IsShrunk c later first (sweep_age-IsShrunk removable _ (sweep_start c))
      (sweep_size-IsShrunk removable size (to_delete_size now retention c.manifest))

pub cleanup-AreLogged :
    (removable : ℕ → Bool) (saved : WriteFault) (now retention : ℤ) (max_cache_size : ℕ)
    (past : List (ℕ × ℕ)) (c : LocalCache)
    → AreLogged past c
    → AreLogged past (cleanup removable saved now retention max_cache_size c).1
unfolding cleanup
cleanup-AreLogged removable saved now retention size past c i =
    finish (sweep removable now retention size c) (
      shrunk-AreLogged past c (sweep removable now retention size c).1.cache
        (sweep-IsShrunk removable now retention size c) i)
  where
    finish :
        (r : Result (Unit {0}) CacheError × Sweep)
        → AreLogged past r.1.cache
        → AreLogged past (finish_cleanup saved now r).1
    finish (err e, s) l = l
    finish (ok t, s) l =
        save_manifest-AreLogged saved past (stamp now s.cache)
          (IsLogged-shrink past s.cache.manifest _ (λ p m u. m) refl l.0, l.1)
