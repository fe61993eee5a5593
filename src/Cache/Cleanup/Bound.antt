-- ===== src/Cache/Cleanup/Bound.antt =====
-- What the two loops of `cleanup` leave.
use walrust.Base.{
  ℕ, ◌≤◌, ◌≡◌, ◌≢◌, ◌⊎◌, inl, inr, refl, sym, subst, Bool, false, not, ◌&&◌, none, List, [], ◌∷◌,
  ◌==◌, leb, Result, ok, err, In, here, there, In-filter, test-filter, arith, Bool-cases,
  Option-cases,
}
use walrust.Cache.{CacheEntry, Entries, entry_at, remove_entry}
use walrust.Cache.Queue.{CacheError, has_file}
use walrust.Cache.Cleanup.{Sweep, delete_one, behind, sweep_age, sweep_size}

-- Of a TXID no entry is left.
abbrev pub IsGone : ℕ → Sweep → Type 0
IsGone txid s = (q : ℕ × CacheEntry) → In q s.cache.manifest.entries → q.0 ≢ txid

entry_at-none :
    (txid : ℕ) (entries : Entries)
    → entry_at txid entries ≡ none
    → (q : ℕ × CacheEntry) → In q entries
    → q.0 ≢ txid
entry_at-none txid [] h q m e = elim m [ ]
entry_at-none txid (r ∷ entries) h q m e = elim (Bool-cases (r.0 == txid)) [
  | inl t ↦ absurd (cc (rw t at h))
  | inr t ↦ later r entries q m t (entry_at-none txid entries (rw t at h) q) e
]
  where
    later :
        (r : ℕ × CacheEntry) (entries : Entries) (q : ℕ × CacheEntry)
        → In q (r ∷ entries)
        → (r.0 == txid) ≡ false
        → (In q entries → q.0 ≢ txid)
        → q.0 ≢ txid
    later r entries q here t ih e = ground (arith, t, e)
    later r entries q (there m) t ih e = ih m e

removed-IsGone :
    (txid : ℕ) (entries : Entries) (q : ℕ × CacheEntry)
    → In q (remove_entry txid entries)
    → q.0 ≢ txid
removed-IsGone txid entries q m e =
    ground (arith, test-filter (λ p. not (p.0 == txid)) entries m, e)

module _ (removable : ℕ → Bool) where
  delete_one-IsGone :
      (txid : ℕ) (s : Sweep)
      → (delete_one removable txid s).0 ≡ ok tt
      → IsGone txid (delete_one removable txid s).1
  unfolding delete_one
  delete_one-IsGone txid s = elim (Option-cases (entry_at txid s.cache.manifest.entries)) [
    | inl e ↦ rw (e, delete_one) (λ h. entry_at-none txid _ e)
    | inr (x, e) ↦ elim (Bool-cases (has_file txid s.cache && not (removable txid))) [
      | inl f ↦ rw (e, f, delete_one) (λ h. absurd (cc h))
      | inr f ↦ rw (e, f, delete_one) (λ h. removed-IsGone txid s.cache.manifest.entries)
    ]
  ]

  -- No entry comes back.
  delete_one_sub :
      (txid : ℕ) (s : Sweep) (q : ℕ × CacheEntry)
      → In q (delete_one removable txid s).1.cache.manifest.entries
      → In q s.cache.manifest.entries
  unfolding delete_one
  delete_one_sub txid s q = elim (Option-cases (entry_at txid s.cache.manifest.entries)) [
    | inl e ↦ rw (e, delete_one) (λ m. m)
    | inr (x, e) ↦ elim (Bool-cases (has_file txid s.cache && not (removable txid))) [
      | inl f ↦ rw (e, f, delete_one) (λ m. In-filter (λ p. not (p.0 == txid)) _ m)
      | inr f ↦ rw (e, f, delete_one) (λ m. In-filter (λ p. not (p.0 == txid)) _ m)
    ]
  ]

  pub behind_ok :
      (next : Sweep → Result (Unit {0}) CacheError × Sweep)
      (r : Result (Unit {0}) CacheError × Sweep)
      → (behind next r).0 ≡ ok tt
      → (r.0 ≡ ok tt) × ((next r.1).0 ≡ ok tt) × (behind next r ≡ next r.1)
  behind_ok next (ok t, s) h = (refl, h, refl)
  behind_ok next (err e, s) h = cc

  behind_sub :
      (next : Sweep → Result (Unit {0}) CacheError × Sweep)
      (r : Result (Unit {0}) CacheError × Sweep) (q : ℕ × CacheEntry) (entries : Entries)
      → (In q r.1.cache.manifest.entries → In q entries)
      → ((s : Sweep) → In q (next s).1.cache.manifest.entries → In q s.cache.manifest.entries)
      → In q (behind next r).1.cache.manifest.entries
      → In q entries
  behind_sub next (ok t, s) q entries h n m = h (n s m)
  behind_sub next (err e, s) q entries h n m = h m

  pub sweep_age_sub :
      (txids : List ℕ) (s : Sweep) (q : ℕ × CacheEntry)
      → In q (sweep_age removable txids s).1.cache.manifest.entries
      → In q s.cache.manifest.entries
  unfolding sweep_age
  sweep_age_sub [] s q m = m
  sweep_age_sub (txid ∷ rest) s q m =
      behind_sub (sweep_age removable rest) (delete_one removable txid s) q s.cache.manifest.entries
        (delete_one_sub txid s q) (λ s'. sweep_age_sub rest s' q) m

  pub sweep_size_sub :
      (size : ℕ) (txids : List ℕ) (s : Sweep) (q : ℕ × CacheEntry)
      → In q (sweep_size removable size txids s).1.cache.manifest.entries
      → In q s.cache.manifest.entries
  unfolding sweep_size
  sweep_size_sub size [] s q = λ m. m
  sweep_size_sub size (txid ∷ rest) s q =
      elim (Bool-cases (leb s.cache.manifest.cache_size_bytes size)) [
        | inl e ↦ rw (e, sweep_size) (λ m. m)
        | inr e ↦
            rw (e, sweep_size)
              (behind_sub (sweep_size removable size rest) (delete_one removable txid s) q
                s.cache.manifest.entries (delete_one_sub txid s q)
                (λ s'. sweep_size_sub size rest s' q))
      ]

  pub sweep_age-IsGone :
      (txids : List ℕ) (s : Sweep) (t : ℕ)
      → (sweep_age removable txids s).0 ≡ ok tt
      → In t txids
      → IsGone t (sweep_age removable txids s).1
  unfolding sweep_age
  sweep_age-IsGone [] s t h i = elim i [ ]
  sweep_age-IsGone (txid ∷ rest) s t h here =
      let one = delete_one removable txid s in
      let (d, later, same) = behind_ok (sweep_age removable rest) one h in
      subst (λ (r : Result (Unit {0}) CacheError × Sweep). IsGone txid r.1) (sym same)
        (λ q m. delete_one-IsGone txid s d q (sweep_age_sub rest one.1 q m))
  sweep_age-IsGone (txid ∷ rest) s t h (there i) =
      let one = delete_one removable txid s in
      let (d, later, same) = behind_ok (sweep_age removable rest) one h in
      subst (λ (r : Result (Unit {0}) CacheError × Sweep). IsGone t r.1) (sym same)
        (sweep_age-IsGone rest one.1 t later i)

  -- The cache is small enough, or the entries of the TXID are gone.
  abbrev pub IsBounded : ℕ → ℕ → Sweep → Type 0
  IsBounded size t s = (s.cache.manifest.cache_size_bytes ≤ size) ⊎ IsGone t s

  pub sweep_size-IsBounded :
      (size : ℕ) (txids : List ℕ) (s : Sweep) (t : ℕ)
      → In t txids
      → (sweep_size removable size txids s).0 ≡ ok tt
      → IsBounded size t (sweep_size removable size txids s).1
  unfolding sweep_size
  sweep_size-IsBounded size [] s t i = elim i [ ]
  sweep_size-IsBounded size (txid ∷ rest) s t here =
      elim (Bool-cases (leb s.cache.manifest.cache_size_bytes size)) [
        | inl e ↦ rw (e, sweep_size) (λ h. inl (ground (arith, e)))
        | inr e ↦
            rw (e, sweep_size)
              (λ h.
                let one = delete_one removable txid s in
                let (d, later, same) = behind_ok (sweep_size removable size rest) one h in
                subst (λ (r : Result (Unit {0}) CacheError × Sweep). IsBounded size txid r.1)
                  (sym same)
                  (inr (λ q m. delete_one-IsGone txid s d q (sweep_size_sub size rest one.1 q m))))
      ]
  sweep_size-IsBounded size (txid ∷ rest) s t (there i) =
      elim (Bool-cases (leb s.cache.manifest.cache_size_bytes size)) [
        | inl e ↦ rw (e, sweep_size) (λ h. inl (ground (arith, e)))
        | inr e ↦
            rw (e, sweep_size)
              (λ h.
                let one = delete_one removable txid s in
                let (d, later, same) = behind_ok (sweep_size removable size rest) one h in
                subst (λ (r : Result (Unit {0}) CacheError × Sweep). IsBounded size t r.1)
                  (sym same) (sweep_size-IsBounded size rest one.1 t i later))
      ]
