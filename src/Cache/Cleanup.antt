-- ===== src/Cache/Cleanup.antt =====
-- `cleanup`: the eviction of uploaded files by age and size. `removable` tells of which files the
-- removal succeeds; the clock is read once.
pub mod Spared
pub mod Bound
pub mod Complete
use walrust.Base.{
  ℕ, ◌+◌, ◌-◌, Bool, true, false, not, ◌&&◌, Option, none, some, List, [], ◌∷◌, leb, ltb, ◌==◌,
  if◌then◌else◌, filter, map, ℤ, ◌-ℤ◌, lez, Result, ok, err, sort_by, max_by_key, add_u64,
}
use walrust.Cache.{CacheEntry, Entries, entry_at, remove_entry, CacheManifest, entry_txid_range}
use walrust.Cache.Queue.{WriteFault, CacheError, io, LocalCache, save_manifest, has_file}

pub record CleanupStats : Type 0 where
  pub deleted_count : ℕ
  pub deleted_bytes : ℕ
  pub remaining_bytes : ℕ

-- The latest snapshot's TXID: neither it nor what is behind it goes.
unfoldable pub floor_txid : Entries → Option ℕ
floor_txid entries = elim (max_by_key (λ p. p.1.txid) (filter (λ p. p.1.is_snapshot) entries)) [
  | some p ↦ some p.1.txid
  | none ↦ none
]

abbrev pub below_floor : Option ℕ → ℕ → Bool
below_floor none txid = true
below_floor (some floor) txid = not (leb floor txid)

-- May the entry go at all?
unfoldable pub evictable : CacheManifest → ℕ × CacheEntry → Bool
unfolding entry_txid_range floor_txid
evictable m p =
    p.1.uploaded
    && (leb (entry_txid_range p.0 p.1).1 m.last_contiguous_uploaded_txid
        && below_floor (floor_txid m.entries) p.0)

abbrev pub uploaded_time : CacheEntry → ℤ
uploaded_time e = elim e.uploaded_at [ some t ↦ t | none ↦ e.created_at ]

abbrev pub is_old : ℤ → ℤ → CacheEntry → Bool
is_old now retention e = lez retention (now -ℤ uploaded_time e)

abbrev pub age_key : ℤ → Entries → ℕ → ℤ
age_key now entries txid = elim (entry_at txid entries) [
  | none ↦ now
  | some e ↦ elim e.uploaded_at [ some t ↦ t | none ↦ now ]
]

abbrev pub by_age : ℤ → Entries → List ℕ → List ℕ
by_age now entries txids =
    sort_by (λ a b. lez (age_key now entries a) (age_key now entries b)) txids

abbrev pub txids_of : Entries → List ℕ
txids_of entries = map (λ p. p.0) entries

unfoldable pub to_delete_age : ℤ → ℤ → CacheManifest → List ℕ
unfolding evictable
to_delete_age now retention m =
    by_age now m.entries
      (txids_of (filter (λ p. evictable m p && is_old now retention p.1) m.entries))

unfoldable pub to_delete_size : ℤ → ℤ → CacheManifest → List ℕ
unfolding evictable
to_delete_size now retention m =
    by_age now m.entries
      (txids_of (filter (λ p. evictable m p && not (is_old now retention p.1)) m.entries))

pub record Sweep : Type 0 where
  pub cache : LocalCache
  pub deleted_count : ℕ
  pub deleted_bytes : ℕ

abbrev pub without_entry : ℕ → LocalCache → LocalCache
without_entry txid c = record c {
  manifest = record c.manifest { entries = remove_entry txid c.manifest.entries };
}

abbrev pub without_file : ℕ → ℕ → LocalCache → LocalCache
without_file txid size c = record c {
  manifest = record c.manifest { cache_size_bytes = c.manifest.cache_size_bytes - size };
  files = filter (λ f. not (f.0 == txid)) c.files;
}

-- The entry goes first; a file that cannot be removed stops the cleanup.
unfoldable pub delete_one : (ℕ → Bool) → ℕ → Sweep → Result (Unit {0}) CacheError × Sweep
delete_one removable txid s = elim (entry_at txid s.cache.manifest.entries) [
  | none ↦ (ok tt, s)
  | some e ↦
      if has_file txid s.cache && not (removable txid)
      then (err io, record s { cache = without_entry txid s.cache })
      else (
        ok tt,
        record {
          cache = without_file txid e.size (without_entry txid s.cache);
          deleted_count = s.deleted_count + 1;
          deleted_bytes = add_u64 s.deleted_bytes e.size;
        },
      )
]

-- `?` behind one deletion.
abbrev pub behind :
    (Sweep → Result (Unit {0}) CacheError × Sweep)
    → Result (Unit {0}) CacheError × Sweep
    → Result (Unit {0}) CacheError × Sweep
behind next (ok t, s) = next s
behind next (err e, s) = (err e, s)

unfoldable pub sweep_age : (ℕ → Bool) → List ℕ → Sweep → Result (Unit {0}) CacheError × Sweep
unfolding delete_one
sweep_age removable [] s = (ok tt, s)
sweep_age removable (txid ∷ rest) s =
    behind (sweep_age removable rest) (delete_one removable txid s)

unfoldable pub sweep_size : (ℕ → Bool) → ℕ → List ℕ → Sweep → Result (Unit {0}) CacheError × Sweep
unfolding delete_one
sweep_size removable max_cache_size [] s = (ok tt, s)
sweep_size removable max_cache_size (txid ∷ rest) s =
    let go = behind (sweep_size removable max_cache_size rest) (delete_one removable txid s) in
    if leb s.cache.manifest.cache_size_bytes max_cache_size then (ok tt, s) else go

abbrev pub report : Sweep → Result (Unit {0}) CacheError → Result CleanupStats CacheError
report s (err e) = err e
report s (ok t) = ok (record {
  deleted_count = s.deleted_count;
  deleted_bytes = s.deleted_bytes;
  remaining_bytes = s.cache.manifest.cache_size_bytes;
})

abbrev pub stamp : ℤ → LocalCache → LocalCache
stamp now c = record c { manifest = record c.manifest { last_cleanup = now } }

abbrev pub finish_cleanup :
    WriteFault
    → ℤ
    → Result (Unit {0}) CacheError × Sweep
    → Result CleanupStats CacheError × LocalCache
finish_cleanup saved now (err e, s) = (err e, s.cache)
finish_cleanup saved now (ok t, s) =
    let r = save_manifest saved (stamp now s.cache) in (report s r.0, r.1)

abbrev pub sweep_start : LocalCache → Sweep
sweep_start c = record { cache = c; deleted_count = 0; deleted_bytes = 0 }

unfoldable pub sweep : (ℕ → Bool) → ℤ → ℤ → ℕ → LocalCache → Result (Unit {0}) CacheError × Sweep
unfolding sweep_age sweep_size to_delete_age to_delete_size
sweep removable now retention max_cache_size c =
    behind (sweep_size removable max_cache_size (to_delete_size now retention c.manifest))
      (sweep_age removable (to_delete_age now retention c.manifest) (sweep_start c))

unfoldable pub cleanup :
    (ℕ → Bool) → WriteFault → ℤ → ℤ → ℕ → LocalCache → Result CleanupStats CacheError × LocalCache
unfolding sweep save_manifest
cleanup removable saved now retention max_cache_size c =
    finish_cleanup saved now (sweep removable now retention max_cache_size c)
