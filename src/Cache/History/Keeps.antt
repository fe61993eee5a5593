-- ===== src/Cache/History/Keeps.antt =====
-- Each operation of the cache keeps its uploaded entries and its cursor within what was confirmed.
use walrust.Base.{
  ℕ, ◌≡◌, ◌⊎◌, inl, inr, refl, ◌∙◌, sym, subst, Bool, true, not, Option, List, [], ◌∷◌, ◌++◌, ◌==◌,
  ℤ, Bytes, Result, ok, err, In, here, there, In-append_left, In-append_right, In-filter, filter-In,
  In-map, map-In, if◌then◌else◌, Bool-cases, Option-cases, length,
}
use walrust.Cache.{CacheEntry, Entries, CacheManifest, entry_at, entry_txid_range, update_entry}
use walrust.Cache.Queue.{
  CacheError, LocalCache, WriteFault, no_fault, before_rename, after_rename, save_manifest,
  record_write, write_ltx_inner, confirm, record_uploaded, mark_uploaded, record_failed,
  mark_failed, has_file, reenqueue, clear_failed, behind_reenqueue,
  reenqueue_failed_uploads_on_startup, reopen,
}
use walrust.Cache.History.{
  ranges_of, IsLogged, IsLogged-shrink, IsLogged-more, recompute_contiguous-IsLogged,
}

-- Of the manifest in memory, and of the one on disk.
abbrev pub AreLogged : List (ℕ × ℕ) → LocalCache → Type 0
AreLogged past c = IsLogged past c.manifest × IsLogged past c.disk

pub save_manifest-AreLogged :
    (saved : WriteFault) (past : List (ℕ × ℕ)) (c : LocalCache)
    → AreLogged past c
    → AreLogged past (save_manifest saved c).1
unfolding save_manifest
save_manifest-AreLogged no_fault past c i = (i.0, i.0)
save_manifest-AreLogged before_rename past c i = i
save_manifest-AreLogged after_rename past c i = (i.0, i.0)

pub write-AreLogged :
    (decode : Bytes → Option (ℕ × ℕ)) (fault : WriteFault) (saved : WriteFault) (now : ℤ) (txid : ℕ)
    (bytes : Bytes) (is_snapshot : Bool) (past : List (ℕ × ℕ)) (c : LocalCache)
    → AreLogged past c
    → AreLogged past (write_ltx_inner decode fault saved now txid bytes is_snapshot c).1
unfolding write_ltx_inner record_write
write-AreLogged decode before_rename saved now txid bytes is_snapshot past c i = i
write-AreLogged decode after_rename saved now txid bytes is_snapshot past c i = i
write-AreLogged decode no_fault saved now txid bytes is_snapshot past c i =
    save_manifest-AreLogged saved past _ (IsLogged-shrink past c.manifest _ sub refl i.0, i.1)
  where
    sub :
        (p : ℕ × CacheEntry)
        → In p (record_write (decode bytes) now txid (length bytes) is_snapshot c.manifest).entries
        → p.1.uploaded ≡ true
        → In p c.manifest.entries
    sub p here u = cc
    sub p (there m) u = In-filter (λ q. not (q.0 == txid)) c.manifest.entries m

-- The entries of a TXID once its upload is confirmed: old ones, or of a range that is confirmed.
updated :
    (txid : ℕ) (now : ℤ) (entries : Entries) (p : ℕ × CacheEntry)
    → In p (update_entry txid (confirm now) entries)
    → In p entries ⊎ In (entry_txid_range p.0 p.1) (ranges_of txid entries)
unfolding entry_txid_range
updated txid now entries p m =
    let (q, n, e) = In-map (λ r. if r.0 == txid then (r.0, confirm now r.1) else r) entries m in
    elim (Bool-cases (q.0 == txid)) [
      | inl t ↦
          let now_p : (q.0, confirm now q.1) ≡ p = rw t at e in
          let ours =
            map-In (λ r. entry_txid_range r.0 r.1) _ (filter-In (λ r. r.0 == txid) entries n t) in
          inr (
            subst (λ (r : ℕ × CacheEntry). In (entry_txid_range r.0 r.1) (ranges_of txid entries))
              now_p ours)
      | inr t ↦ let same : q ≡ p = rw t at e in inl (subst (λ r. In r entries) same n)
    ]

pub uploaded-AreLogged :
    (saved : WriteFault) (now : ℤ) (txid : ℕ) (past : List (ℕ × ℕ)) (c : LocalCache)
    → AreLogged past c
    → AreLogged (ranges_of txid c.manifest.entries ++ past) (mark_uploaded saved now txid c).1
unfolding mark_uploaded record_uploaded
uploaded-AreLogged saved now txid past c i =
    let new = ranges_of txid c.manifest.entries in
    save_manifest-AreLogged saved (new ++ past) _ (
      recompute_contiguous-IsLogged (new ++ past) _ (record {
        entries_logged = λ p m u. elim (updated txid now c.manifest.entries p m) [
          | inl old ↦ In-append_right new (i.0.entries_logged p old u)
          | inr ours ↦ In-append_left past ours
        ];
        cursor_logged = (IsLogged-more new past c.manifest i.0).cursor_logged;
      }),
      IsLogged-more new past c.disk i.1,
    )

pub failed-AreLogged :
    (saved : WriteFault) (txid : ℕ) (past : List (ℕ × ℕ)) (c : LocalCache)
    → AreLogged past c
    → AreLogged past (mark_failed saved txid c).1
unfolding mark_failed record_failed
failed-AreLogged saved txid past c i = save_manifest-AreLogged saved past _ (
  recompute_contiguous-IsLogged past _ (IsLogged-shrink past c.manifest _ (λ p m u. m) refl i.0),
  i.1,
)

-- No entry is new, and the cursor and the manifest on disk are as they were.
abbrev pub IsShrunk : LocalCache → LocalCache → Type 0
IsShrunk c c' =
    ((p : ℕ × CacheEntry) → In p c'.manifest.entries → In p c.manifest.entries)
    × (c'.manifest.last_contiguous_uploaded_txid ≡ c.manifest.last_contiguous_uploaded_txid)
    × (c'.disk ≡ c.disk)

pub shrunk-AreLogged :
    (past : List (ℕ × ℕ)) (c c' : LocalCache) → IsShrunk c c' → AreLogged past c → AreLogged past c'
shrunk-AreLogged past c c' (sub, cursor, disk) i = (
  IsLogged-shrink past c.manifest c'.manifest (λ p m u. sub p m) cursor i.0,
  subst (IsLogged past) (sym disk) i.1,
)

pub IsShrunk-trans : (a b c : LocalCache) → IsShrunk a b → IsShrunk b c → IsShrunk a c
IsShrunk-trans a b c h k = (λ p m. h.0 p (k.0 p m), k.1 ∙ h.1, k.2 ∙ h.2)

reenqueue-IsShrunk : (txids : List ℕ) (c : LocalCache) → IsShrunk c (reenqueue txids c).1
unfolding reenqueue
reenqueue-IsShrunk [] c = (λ p m. m, refl, refl)
reenqueue-IsShrunk (txid ∷ rest) c = elim (Option-cases (entry_at txid c.manifest.entries)) [
  | inl e ↦ rw (e, reenqueue) (λ p m. m, refl, refl)
  | inr (x, e) ↦ elim (Bool-cases x.uploaded) [
    | inl u ↦ rw (e, u, reenqueue) (λ p m. m, refl, refl)
    | inr u ↦ elim (Bool-cases (has_file txid c)) [
      | inl f ↦ rw (e, u, f, reenqueue) (reenqueue-IsShrunk rest _)
      | inr f ↦ rw (e, u, f, reenqueue) (λ p m. m, refl, refl)
    ]
  ]
]

clear_failed-IsLogged :
    (past : List (ℕ × ℕ)) (m : CacheManifest) → IsLogged past m → IsLogged past (clear_failed m)
unfolding clear_failed
clear_failed-IsLogged past m i =
    recompute_contiguous-IsLogged past (record m { failed_txids = [] })
      (IsLogged-shrink past m _ (λ p n u. n) refl i)

pub restart-AreLogged :
    (saved : WriteFault) (past : List (ℕ × ℕ)) (c : LocalCache)
    → AreLogged past c
    → AreLogged past (reopen saved c).1
unfolding reopen reenqueue_failed_uploads_on_startup
restart-AreLogged saved past c i = go c.disk.failed_txids
  where
    loaded : LocalCache
    loaded = record c { manifest = c.disk }

    behind_loop :
        (r : Result (Unit {0}) CacheError × LocalCache)
        → AreLogged past r.1
        → AreLogged past (behind_reenqueue saved r).1
    behind_loop (err e, d) l = l
    behind_loop (ok t, d) l =
        save_manifest-AreLogged saved past (record d { manifest = clear_failed d.manifest })
          (clear_failed-IsLogged past d.manifest l.0, l.1)

    go :
        (failed : List ℕ)
        → AreLogged past
            (elim failed as (λ x. Result (Unit {0}) CacheError × LocalCache) [
              | [] ↦ (ok tt, loaded)
              | t ∷ rest ↦ behind_reenqueue saved (reenqueue (t ∷ rest) loaded)
            ]).1
    go [] = (i.1, i.1)
    go (t ∷ rest) = behind_loop (reenqueue (t ∷ rest) loaded) (
        shrunk-AreLogged past loaded (reenqueue (t ∷ rest) loaded).1
          (reenqueue-IsShrunk (t ∷ rest) loaded) (i.1, i.1))
