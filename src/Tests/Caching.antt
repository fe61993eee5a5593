-- ===== src/Tests/Caching.antt =====
-- crates/walrust-core/src/legacy_cache.rs at concrete data.
use walrust.Base.{
  ℕ, ◌≤◌, ◌≡◌, ◌⊎◌, inl, refl, Bool, true, false, Option, none, some, List, [], ◌∷◌, ℤ, pos, In,
  here, there, ok, arith, Bytes,
}
use walrust.Cache.{CacheEntry, CacheManifest, manifest_default, recompute_contiguous}
use walrust.Cache.Queue.{
  LocalCache, no_fault, after_rename, record_write, mark_uploaded, mark_failed, write_ltx_inner,
  reopen,
}
use walrust.Cache.Queue.Startup.{reopen-IsPending}
use walrust.Cache.Cleanup.{CleanupStats, evictable, is_old, cleanup}
use walrust.Cache.Cleanup.Spared.{HasDistinctKeys, cleanup_keeps}
use walrust.Cache.Cleanup.Complete.{cleanup_complete}
use walrust.Cache.Cursor.{IsHeld, IsStop, recompute_contiguous-IsHeld, recompute_contiguous-IsStop}
use walrust.Cache.History.{
  Event, wrote, confirmed, gave_up, restarted, perform_all, log, fresh_cache, IsConfirmed,
}
use walrust.Cache.Reads.{
  IsCached, available_txids, txid_range, stats, has_continuous_range, has_continuous_range_sound,
  has_continuous_range_complete,
}
use walrust.Cache.History.Durable.{durable_cursor-IsConfirmed}

abbrev entry : ℕ → ℕ → ℕ → Bool → ℕ × CacheEntry
entry txid a b done = (
  txid,
  record {
    txid = txid;
    size = 100;
    created_at = pos 0;
    uploaded = done;
    uploaded_at = if_done done;
    is_snapshot = false;
    min_txid = a;
    max_txid = b;
  },
)
  where
    if_done : Bool → Option ℤ
    if_done true = some (pos 1)
    if_done false = none

-- Files 1 and 2 to 3 are uploaded, 4 is not, 5 is.
abbrev gap : CacheManifest
gap = record (manifest_default (pos 0)) {
  last_contiguous_uploaded_txid = 1;
  pending_txids = 4 ∷ [];
  cache_size_bytes = 400;
  entries = entry 5 5 5 true ∷ entry 4 4 4 false ∷ entry 3 2 3 true ∷ entry 1 1 1 true ∷ [];
}

stops_at_gap : (recompute_contiguous gap).last_contiguous_uploaded_txid ≡ 3
unfolding recompute_contiguous
stops_at_gap = refl

-- A failed upload of 3 does not stop the cursor where a file from 1 to 5 is uploaded.
passes_failed :
    (recompute_contiguous (record (manifest_default (pos 0)) {
      failed_txids = 3 ∷ [];
      entries = entry 3 3 3 false ∷ entry 5 1 5 true ∷ [];
    })).last_contiguous_uploaded_txid
    ≡ 5
unfolding recompute_contiguous
passes_failed = refl

-- Two writes of one TXID count twice, though one file and one entry are left.
counts_twice :
    (record_write none
      (pos 2)
      7
      30
      false
      (record_write none (pos 1) 7 30 false (manifest_default (pos 0)))).cache_size_bytes
    ≡ 60
unfolding record_write
counts_twice = refl

recompute_contiguous-IsHeld_example : IsHeld gap.entries 3
recompute_contiguous-IsHeld_example =
    recompute_contiguous-IsHeld gap 3 (omega arith) (omega (arith, stops_at_gap))

recompute_contiguous-IsStop_example :
    (gap.last_contiguous_uploaded_txid ≤ (recompute_contiguous gap).last_contiguous_uploaded_txid)
    × IsStop gap (recompute_contiguous gap).last_contiguous_uploaded_txid
recompute_contiguous-IsStop_example = recompute_contiguous-IsStop gap

-- 1 and 2 are written and confirmed out of order, a save fails, and the program starts again.
abbrev decode_none : Bytes → Option (ℕ × ℕ)
decode_none b = none

abbrev session : List Event
session =
    wrote decode_none no_fault no_fault (pos 1) 1 (7 ∷ []) true
    ∷ wrote decode_none no_fault no_fault (pos 2) 2 (8 ∷ []) false
    ∷ confirmed no_fault (pos 3) 2
    ∷ confirmed no_fault (pos 4) 1
    ∷ gave_up after_rename 2
    ∷ restarted no_fault
    ∷ []

session_cursor :
    (perform_all session (fresh_cache (pos 0))).manifest.last_contiguous_uploaded_txid ≡ 2
unfolding write_ltx_inner mark_uploaded mark_failed reopen
session_cursor = refl

durable_cursor-IsConfirmed_example : IsConfirmed (log session (fresh_cache (pos 0)) []) 2
durable_cursor-IsConfirmed_example =
    durable_cursor-IsConfirmed session (pos 0) 2 (omega arith) (inl (omega (arith, session_cursor)))

-- File 1 may go, file 4 is not uploaded.
abbrev two : CacheManifest
two = record (manifest_default (pos 0)) {
  last_contiguous_uploaded_txid = 1;
  pending_txids = 4 ∷ [];
  cache_size_bytes = 200;
  entries = entry 4 4 4 false ∷ entry 1 1 1 true ∷ [];
}

abbrev store : LocalCache
store = record { manifest = two; disk = two; files = [] }

two_distinct : HasDistinctKeys two.entries
two_distinct p q here here e = refl
two_distinct p q here (there here) e = ground (arith, e)
two_distinct p q here (there (there n)) e = elim n [ ]
two_distinct p q (there here) here e = ground (arith, e)
two_distinct p q (there here) (there here) e = refl
two_distinct p q (there here) (there (there n)) e = elim n [ ]
two_distinct p q (there (there m)) n e = elim m [ ]

cleanup_keeps_example :
    In (entry 4 4 4 false) (cleanup (λ t. true) no_fault (pos 9) (pos 1) 0 store).1.manifest.entries
cleanup_keeps_example =
    cleanup_keeps (λ t. true) no_fault (pos 9) (pos 1) 0 store (entry 4 4 4 false) two_distinct here
      (inl refl)

abbrev evicted : CleanupStats
evicted = record { deleted_count = 1; deleted_bytes = 100; remaining_bytes = 100 }

store_evicts : (cleanup (λ t. true) no_fault (pos 9) (pos 1) 0 store).0 ≡ ok evicted
unfolding cleanup
store_evicts = refl

store_keeps :
    In (entry 4 4 4 false) (cleanup (λ t. true) no_fault (pos 9) (pos 1) 0 store).1.manifest.entries
unfolding cleanup
store_keeps = here

cleanup_complete_example :
    (evictable two (entry 4 4 4 false) ≡ false)
    ⊎ (is_old (pos 9) (pos 1) (entry 4 4 4 false).1 ≡ false) × (evicted.remaining_bytes ≤ 0)
cleanup_complete_example =
    cleanup_complete (λ t. true) no_fault (pos 9) (pos 1) 0 store evicted (entry 4 4 4 false)
      store_evicts store_keeps

-- Upload 2 failed for good; its file is there.
abbrev failed_two : CacheManifest
failed_two = record (manifest_default (pos 0)) {
  failed_txids = 2 ∷ [];
  entries = entry 2 2 2 false ∷ [];
}

abbrev stopped : LocalCache
stopped = record { manifest = failed_two; disk = failed_two; files = (2, 7 ∷ []) ∷ [] }

stopped_starts : (reopen no_fault stopped).0 ≡ ok tt
unfolding reopen
stopped_starts = refl

reopen-IsPending_example :
    ((reopen no_fault stopped).1.manifest.failed_txids ≡ [])
    × In 2 (reopen no_fault stopped).1.manifest.pending_txids
reopen-IsPending_example = reopen-IsPending no_fault stopped 2 stopped_starts here

-- The cache holds 3, 4 and 5, and not 2.
gap_continuous : has_continuous_range 3 5 gap ≡ true
unfolding has_continuous_range
gap_continuous = refl

gap_broken : has_continuous_range 1 5 gap ≡ false
unfolding has_continuous_range
gap_broken = refl

has_continuous_range_sound_example : IsCached gap 4
has_continuous_range_sound_example =
    has_continuous_range_sound 3 5 gap 4 gap_continuous (omega arith) (omega arith)

has_continuous_range_complete_example : (n : ℕ) × (1 ≤ n) × (n ≤ 5) × (¬ IsCached gap n)
has_continuous_range_complete_example = has_continuous_range_complete 1 5 gap gap_broken

gap_txids : available_txids gap ≡ 1 ∷ 3 ∷ 4 ∷ 5 ∷ []
unfolding available_txids
gap_txids = refl

gap_range : txid_range gap ≡ some (1, 5)
unfolding txid_range
gap_range = refl

gap_uploaded : (stats gap).uploaded_count ≡ 3
unfolding stats
gap_uploaded = refl
