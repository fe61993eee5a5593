-- ===== src/Cache.antt =====
-- crates/walrust-core/src/legacy_cache.rs: the manifest of the local cache of LTX files, which is
-- the queue of uploads, and its durable cursor.
pub mod Queue
pub mod Cleanup
pub mod Cursor
pub mod History
pub mod Reads
use walrust.Base.{
  ℕ, zero, suc, ◌+◌, ◌-◌, Bool, true, false, not, ◌&&◌, Option, none, some, List, [], ◌∷◌, ltb, leb,
  ◌==◌, if◌then◌else◌, any, filter, map, ℤ, u64_max,
}
use Prim.Native.Nat.{max}

-- Times are milliseconds.
pub record CacheEntry : Type 0 where
  pub txid : ℕ
  pub size : ℕ
  pub created_at : ℤ
  pub uploaded : Bool
  pub uploaded_at : Option ℤ
  pub is_snapshot : Bool
  pub min_txid : ℕ
  pub max_txid : ℕ

-- A hash map, as its pairs in the order in which it yields them; `insert` replaces.
abbrev pub Entries : Type 0
Entries = List (ℕ × CacheEntry)

abbrev pub entry_at : ℕ → Entries → Option CacheEntry
entry_at txid [] = none
entry_at txid ((k, e) ∷ rest) = if k == txid then some e else entry_at txid rest

abbrev pub remove_entry : ℕ → Entries → Entries
remove_entry txid entries = filter (λ p. not (p.0 == txid)) entries

abbrev pub insert_entry : ℕ → CacheEntry → Entries → Entries
insert_entry txid e entries = (txid, e) ∷ remove_entry txid entries

-- `get_mut`, and what is done to the entry.
abbrev pub update_entry : ℕ → (CacheEntry → CacheEntry) → Entries → Entries
update_entry txid change entries = map (λ p. if p.0 == txid then (p.0, change p.1) else p) entries

-- A hash set.
abbrev pub set_remove : ℕ → List ℕ → List ℕ
set_remove txid set = filter (λ t. not (t == txid)) set

abbrev pub set_insert : ℕ → List ℕ → List ℕ
set_insert txid set = if any (λ t. t == txid) set then set else txid ∷ set

pub record CacheManifest : Type 0 where
  pub last_uploaded_txid : ℕ
  pub last_contiguous_uploaded_txid : ℕ
  pub pending_txids : List ℕ
  pub failed_txids : List ℕ
  pub cache_size_bytes : ℕ
  pub last_cleanup : ℤ
  pub entries : Entries

abbrev pub manifest_default : ℤ → CacheManifest
manifest_default now = record {
  last_uploaded_txid = 0;
  last_contiguous_uploaded_txid = 0;
  pending_txids = [];
  failed_txids = [];
  cache_size_bytes = 0;
  last_cleanup = now;
  entries = [];
}

-- A bound of 0 stands for the TXID itself, and so does an inverted range.
unfoldable pub entry_txid_range : ℕ → CacheEntry → ℕ × ℕ
entry_txid_range txid e =
    let min_txid = if ltb 0 e.min_txid then e.min_txid else txid in
    let max_txid = if ltb 0 e.max_txid then e.max_txid else txid in
    if leb min_txid max_txid then (min_txid, max_txid) else (txid, txid)

abbrev pub in_range : ℕ → ℕ × ℕ → Bool
in_range n r = leb r.0 n && leb n r.1

unfoldable pub failed_upload_covers : CacheManifest → ℕ → Bool
unfolding entry_txid_range
failed_upload_covers m txid =
    any
      (λ failed. elim (entry_at failed m.entries) [
        | some e ↦ in_range txid (entry_txid_range failed e)
        | none ↦ failed == txid
      ])
      m.failed_txids

-- The loop over the entries: how far those that hold `next` reach.
unfoldable pub reach : ℕ → ℕ → Entries → ℕ
unfolding entry_txid_range
reach next next_cursor [] = next_cursor
reach next next_cursor ((txid, e) ∷ rest) =
    reach next
      (if e.uploaded && in_range next (entry_txid_range txid e)
        then max next_cursor (entry_txid_range txid e).1
        else next_cursor)
      rest

-- The `loop`. `checked_add` fails at the last number; `none` means that the fuel ran out.
unfoldable pub advance : ℕ → CacheManifest → ℕ → Option ℕ
unfolding failed_upload_covers reach
advance zero m cursor = none
advance (suc fuel) m cursor =
    let next_cursor = reach (cursor + 1) cursor m.entries in
    let further = advance fuel m next_cursor in
    if leb u64_max cursor
    then some cursor
    else if failed_upload_covers m (cursor + 1)
    then some cursor
    else if next_cursor == cursor
    then some cursor
    else further

-- The last number that an entry reaches.
unfoldable pub top_txid : Entries → ℕ
unfolding entry_txid_range
top_txid [] = 0
top_txid ((txid, e) ∷ rest) = max (entry_txid_range txid e).1 (top_txid rest)

-- Each round raises the cursor, which stays within the entries' reach.
unfoldable pub contiguous_cursor : CacheManifest → Option ℕ
unfolding advance top_txid
contiguous_cursor m =
    advance (suc (top_txid m.entries - m.last_contiguous_uploaded_txid)) m
      m.last_contiguous_uploaded_txid

unfoldable pub recompute_contiguous : CacheManifest → CacheManifest
unfolding contiguous_cursor
recompute_contiguous m = elim (contiguous_cursor m) [
  | some cursor ↦ record m { last_contiguous_uploaded_txid = cursor }
  | none ↦ m
]
