-- ===== src/Cache/History.antt =====
-- What the durable cursor promises over any run of the cache's operations.
pub mod Keeps
pub mod Evicts
pub mod Durable
use walrust.Base.{
  ℕ, ◌≤◌, ◌<◌, ◌≡◌, ◌⊎◌, inl, inr, refl, ◌∙◌, sym, ap, subst, Bool, true, false, Option, none, some,
  List, [], ◌∷◌, ◌++◌, ◌==◌, map, filter, ℤ, Bytes, In, here, there, In-append_left,
  In-append_right, In-filter, test-filter, arith, ltb, leb, if◌then◌else◌, Bool-cases,
}
use walrust.Cache.{
  CacheEntry, Entries, CacheManifest, manifest_default, entry_txid_range, in_range, update_entry,
  recompute_contiguous,
}
use walrust.Cache.Queue.{
  LocalCache, WriteFault, write_ltx_inner, mark_uploaded, mark_failed, reopen, confirm,
}
use walrust.Cache.Cleanup.{cleanup}
use walrust.Cache.Cursor.{IsHeld, recompute_contiguous-Advances}

-- An operation, with what the disk and the clock do to it. A restart loads the manifest that was
-- saved last.
pub data Event : Type 0 where
  wrote : (Bytes → Option (ℕ × ℕ)) → WriteFault → WriteFault → ℤ → ℕ → Bytes → Bool → Event
  confirmed : WriteFault → ℤ → ℕ → Event
  gave_up : WriteFault → ℕ → Event
  restarted : WriteFault → Event
  cleaned : (ℕ → Bool) → WriteFault → ℤ → ℤ → ℕ → Event

abbrev pub perform : Event → LocalCache → LocalCache
perform (wrote decode fault saved now txid bytes is_snapshot) c =
    (write_ltx_inner decode fault saved now txid bytes is_snapshot c).1
perform (confirmed saved now txid) c = (mark_uploaded saved now txid c).1
perform (gave_up saved txid) c = (mark_failed saved txid c).1
perform (restarted saved) c = (reopen saved c).1
perform (cleaned removable saved now retention max_cache_size) c =
    (cleanup removable saved now retention max_cache_size c).1

-- The ranges of the files of a TXID, as its upload is confirmed.
abbrev pub ranges_of : ℕ → Entries → List (ℕ × ℕ)
ranges_of txid entries = map (λ p. entry_txid_range p.0 p.1) (filter (λ p. p.0 == txid) entries)

-- The ranges that an operation confirms.
abbrev pub confirms : Event → LocalCache → List (ℕ × ℕ)
confirms (confirmed saved now txid) c = ranges_of txid c.manifest.entries
confirms _ c = []

-- All ranges whose uploads a run confirms, in front of those confirmed before.
abbrev pub log : List Event → LocalCache → List (ℕ × ℕ) → List (ℕ × ℕ)
log [] c before = before
log (e ∷ events) c before = log events (perform e c) (confirms e c ++ before)

abbrev pub perform_all : List Event → LocalCache → LocalCache
perform_all [] c = c
perform_all (e ∷ events) c = perform_all events (perform e c)

abbrev pub fresh_cache : ℤ → LocalCache
fresh_cache now = record {
  manifest = manifest_default now;
  disk = manifest_default now;
  files = [];
}

abbrev pub IsConfirmed : List (ℕ × ℕ) → ℕ → Type 0
IsConfirmed log n = (r : ℕ × ℕ) × In r log × (in_range n r ≡ true)

-- The uploaded entries and all numbers up to the cursor are in the log.
pub record IsLogged (log : List (ℕ × ℕ)) (m : CacheManifest) : Type 0 where
  pub entries_logged :
      (p : ℕ × CacheEntry)
      → In p m.entries
      → p.1.uploaded ≡ true
      → In (entry_txid_range p.0 p.1) log
  pub cursor_logged : (n : ℕ) → 1 ≤ n → n ≤ m.last_contiguous_uploaded_txid → IsConfirmed log n

-- A manifest with no more uploaded entries and the same cursor.
pub IsLogged-shrink :
    (log : List (ℕ × ℕ)) (m m' : CacheManifest)
    → ((p : ℕ × CacheEntry) → In p m'.entries → p.1.uploaded ≡ true → In p m.entries)
    → m'.last_contiguous_uploaded_txid ≡ m.last_contiguous_uploaded_txid
    → IsLogged log m
    → IsLogged log m'
IsLogged-shrink log m m' sub same i = record {
  entries_logged = λ p q u. i.entries_logged p (sub p q u) u;
  cursor_logged = λ n l h. i.cursor_logged n l (omega (arith, h, same));
}

pub IsLogged-more :
    (new log : List (ℕ × ℕ)) (m : CacheManifest) → IsLogged log m → IsLogged (new ++ log) m
IsLogged-more new log m i = record {
  entries_logged = λ p q u. In-append_right new (i.entries_logged p q u);
  cursor_logged = λ n l h. let (r, q, t) = i.cursor_logged n l h in (r, In-append_right new q, t);
}

pub recompute_contiguous-IsLogged :
    (log : List (ℕ × ℕ)) (m : CacheManifest)
    → IsLogged log m
    → IsLogged log (recompute_contiguous m)
recompute_contiguous-IsLogged log m i =
    let (a, same) = recompute_contiguous-Advances m in
    let cursor = (recompute_contiguous m).last_contiguous_uploaded_txid in
    subst (IsLogged log) (sym same) (record {
      entries_logged = i.entries_logged;
      cursor_logged = λ n l h. elim (Bool-cases (leb n m.last_contiguous_uploaded_txid)) [
        | inl low ↦ i.cursor_logged n l (ground arith)
        | inr high ↦
            let (p, q, u, t) = a.1 n (ground arith) h in
            (entry_txid_range p.0 p.1, i.entries_logged p q u, t)
      ];
    })
