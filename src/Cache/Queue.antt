-- ===== src/Cache/Queue.antt =====
-- The operations of the queue: writes, confirmed and failed uploads, and the start. The disk may
-- fail: `saved` tells whether the manifest's durable write succeeds.
pub mod Startup
use walrust.Base.{
  ℕ, Bool, true, false, Option, none, some, List, [], ◌∷◌, ◌==◌, leb, if◌then◌else◌, any, ℤ, Result,
  ok, err, Bytes, length, add_u64, sort_by,
}
use Prim.Native.Nat.{max}
use walrust.Cache.{
  CacheEntry, entry_at, insert_entry, update_entry, set_remove, set_insert, CacheManifest,
  entry_txid_range, recompute_contiguous,
}

pub data CacheError : Type 0 where
  io : CacheError
  -- a failed upload: its entry is missing, is marked uploaded, or its file is missing
  no_entry uploaded file_missing : ℕ → CacheError

-- The manifest in memory, its copy on disk, and the LTX files, by TXID.
pub record LocalCache : Type 0 where
  pub manifest : CacheManifest
  pub disk : CacheManifest
  pub files : List (ℕ × Bytes)

-- Where the write of a file fails: before its rename, or behind it, when its directory is synced.
pub data WriteFault : Type 0 where
  no_fault before_rename after_rename : WriteFault

unfoldable pub save_manifest : WriteFault → LocalCache → Result (Unit {0}) CacheError × LocalCache
save_manifest no_fault c = (ok tt, record c { disk = c.manifest })
save_manifest before_rename c = (err io, c)
save_manifest after_rename c = (err io, record c { disk = c.manifest })

unfoldable pub range_or_txid : Option (ℕ × ℕ) → ℕ → ℕ × ℕ
range_or_txid none txid = (txid, txid)
range_or_txid (some r) txid = r

-- The change to the manifest by a written file.
unfoldable pub record_write : Option (ℕ × ℕ) → ℤ → ℕ → ℕ → Bool → CacheManifest → CacheManifest
unfolding range_or_txid
record_write range now txid size is_snapshot m = record m {
  pending_txids = set_insert txid m.pending_txids;
  cache_size_bytes = add_u64 m.cache_size_bytes size;
  entries =
      insert_entry txid
        (record {
          txid = txid;
          size = size;
          created_at = now;
          uploaded = false;
          uploaded_at = none;
          is_snapshot = is_snapshot;
          min_txid = (range_or_txid range txid).0;
          max_txid = (range_or_txid range txid).1;
        })
        m.entries;
}

abbrev pub put_file : ℕ → Bytes → LocalCache → LocalCache
put_file txid bytes c = record c { files = (txid, bytes) ∷ c.files }

-- `write_ltx_inner`; `decode` is the range in the header that the LTX decoder reads.
unfoldable pub write_ltx_inner :
    (Bytes → Option (ℕ × ℕ))
    → WriteFault
    → WriteFault
    → ℤ
    → ℕ
    → Bytes
    → Bool
    → LocalCache
    → Result (Unit {0}) CacheError × LocalCache
unfolding save_manifest record_write
write_ltx_inner decode before_rename saved now txid bytes is_snapshot c = (err io, c)
write_ltx_inner decode after_rename saved now txid bytes is_snapshot c =
    (err io, put_file txid bytes c)
write_ltx_inner decode no_fault saved now txid bytes is_snapshot c =
    save_manifest saved (record (put_file txid bytes c) {
      manifest = record_write (decode bytes) now txid (length bytes) is_snapshot c.manifest;
    })

abbrev pub confirm : ℤ → CacheEntry → CacheEntry
confirm now e = record e { uploaded = true; uploaded_at = some now }

-- The change to the manifest by a confirmed upload.
unfoldable pub record_uploaded : ℤ → ℕ → CacheManifest → CacheManifest
unfolding recompute_contiguous
record_uploaded now txid m = recompute_contiguous (record m {
  pending_txids = set_remove txid m.pending_txids;
  failed_txids = set_remove txid m.failed_txids;
  last_uploaded_txid = max m.last_uploaded_txid txid;
  entries = update_entry txid (confirm now) m.entries;
})

unfoldable pub mark_uploaded :
    WriteFault → ℤ → ℕ → LocalCache → Result (Unit {0}) CacheError × LocalCache
unfolding save_manifest record_uploaded
mark_uploaded saved now txid c =
    save_manifest saved (record c { manifest = record_uploaded now txid c.manifest })

unfoldable pub record_failed : ℕ → CacheManifest → CacheManifest
unfolding recompute_contiguous
record_failed txid m = recompute_contiguous (record m {
  pending_txids = set_remove txid m.pending_txids;
  failed_txids = set_insert txid m.failed_txids;
})

unfoldable pub mark_failed : WriteFault → ℕ → LocalCache → Result (Unit {0}) CacheError × LocalCache
unfolding save_manifest record_failed
mark_failed saved txid c =
    save_manifest saved (record c { manifest = record_failed txid c.manifest })

abbrev pub has_file : ℕ → LocalCache → Bool
has_file txid c = any (λ f. f.0 == txid) c.files

-- The loop of the start: each failed upload is pending again, or stops it.
unfoldable pub reenqueue : List ℕ → LocalCache → Result (Unit {0}) CacheError × LocalCache
reenqueue [] c = (ok tt, c)
reenqueue (txid ∷ rest) c =
    let next = reenqueue rest (record c {
      manifest = record c.manifest { pending_txids = set_insert txid c.manifest.pending_txids };
    }) in
    elim (entry_at txid c.manifest.entries) [
      | none ↦ (err (no_entry txid), c)
      | some e ↦
          if e.uploaded
          then (err (uploaded txid), c)
          else if has_file txid c
          then next
          else (err (file_missing txid), c)
    ]

unfoldable pub clear_failed : CacheManifest → CacheManifest
unfolding recompute_contiguous
clear_failed m = recompute_contiguous (record m { failed_txids = [] })

abbrev pub behind_reenqueue :
    WriteFault
    → Result (Unit {0}) CacheError × LocalCache
    → Result (Unit {0}) CacheError × LocalCache
behind_reenqueue saved (err e, c) = (err e, c)
behind_reenqueue saved (ok t, c) =
    save_manifest saved (record c { manifest = clear_failed c.manifest })

unfoldable pub reenqueue_failed_uploads_on_startup :
    WriteFault → LocalCache → Result (Unit {0}) CacheError × LocalCache
unfolding reenqueue clear_failed save_manifest
reenqueue_failed_uploads_on_startup saved c = elim c.manifest.failed_txids [
  | [] ↦ (ok tt, c)
  | t ∷ rest ↦ behind_reenqueue saved (reenqueue (t ∷ rest) c)
]

-- `new_at` on a directory that holds a manifest.
unfoldable pub reopen : WriteFault → LocalCache → Result (Unit {0}) CacheError × LocalCache
unfolding reenqueue_failed_uploads_on_startup
reopen saved c = reenqueue_failed_uploads_on_startup saved (record c { manifest = c.disk })

unfoldable pub pending_uploads : CacheManifest → List ℕ
pending_uploads m = sort_by leb m.pending_txids

unfoldable pub failed_uploads : CacheManifest → List ℕ
failed_uploads m = sort_by leb m.failed_txids

-- Generation 1 is that of snapshots.
unfoldable pub remote_key_parts : ℕ → CacheManifest → ℕ × ℕ × ℕ
unfolding entry_txid_range
remote_key_parts txid m = elim (entry_at txid m.entries) [
  | none ↦ (0, txid, txid)
  | some e ↦ let r = entry_txid_range txid e in (if e.is_snapshot then 1 else 0, r.0, r.1)
]
