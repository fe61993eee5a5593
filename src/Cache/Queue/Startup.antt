-- ===== src/Cache/Queue/Startup.antt =====
-- A start puts failed uploads back into the queue.
use walrust.Base.{
  ℕ, ◌≡◌, inl, inr, refl, sym, ap, subst, List, [], ◌∷◌, ◌==◌, Result, ok, err, In, here, there,
  any, any_sound, Bool-cases, Option-cases, ==→eq,
}
use walrust.Cache.{CacheManifest, entry_at, set_insert}
use walrust.Cache.Cursor.{recompute_contiguous-Advances}
use walrust.Cache.Queue.{
  WriteFault, no_fault, before_rename, after_rename, CacheError, LocalCache, save_manifest,
  has_file, reenqueue, clear_failed, behind_reenqueue, reenqueue_failed_uploads_on_startup, reopen,
}

set_insert-keeps : (t x : ℕ) (set : List ℕ) → In x set → In x (set_insert t set)
set_insert-keeps t x set m = elim (Bool-cases (any (λ y. y == t) set)) [
  | inl e ↦ rw e m
  | inr e ↦ rw e (there m)
]

In-set_insert : (t : ℕ) (set : List ℕ) → In t (set_insert t set)
In-set_insert t set = elim (Bool-cases (any (λ y. y == t) set)) [
  | inl e ↦
      let (x, m, same) = any_sound (λ y. y == t) set e in
      rw e (subst (λ y. In y set) (==→eq x t same) m)
  | inr e ↦ rw e here
]

abbrev IsPending : ℕ → LocalCache → Type 0
IsPending t c = In t c.manifest.pending_txids

reenqueue-keeps :
    (txids : List ℕ) (c : LocalCache) (t : ℕ) → IsPending t c → IsPending t (reenqueue txids c).1
unfolding reenqueue
reenqueue-keeps [] c t m = m
reenqueue-keeps (txid ∷ rest) c t m = elim (Option-cases (entry_at txid c.manifest.entries)) [
  | inl e ↦ rw (e, reenqueue) m
  | inr (x, e) ↦ elim (Bool-cases x.uploaded) [
    | inl u ↦ rw (e, u, reenqueue) m
    | inr u ↦ elim (Bool-cases (has_file txid c)) [
      | inl f ↦
          rw (e, u, f, reenqueue)
            (reenqueue-keeps rest _ t (set_insert-keeps txid t c.manifest.pending_txids m))
      | inr f ↦ rw (e, u, f, reenqueue) m
    ]
  ]
]

reenqueue-IsPending :
    (txids : List ℕ) (c : LocalCache) (t : ℕ)
    → In t txids
    → (reenqueue txids c).0 ≡ ok tt
    → IsPending t (reenqueue txids c).1
unfolding reenqueue
reenqueue-IsPending [] c t i = elim i [ ]
reenqueue-IsPending (txid ∷ rest) c t i = elim (Option-cases (entry_at txid c.manifest.entries)) [
  | inl e ↦ rw (e, reenqueue) (λ h. absurd (cc h))
  | inr (x, e) ↦ elim (Bool-cases x.uploaded) [
    | inl u ↦ rw (e, u, reenqueue) (λ h. absurd (cc h))
    | inr u ↦ elim (Bool-cases (has_file txid c)) [
      | inl f ↦ rw (e, u, f, reenqueue) (member (λ n h. reenqueue-IsPending rest _ t n h) i)
      | inr f ↦ rw (e, u, f, reenqueue) (λ h. absurd (cc h))
    ]
  ]
]
  where
    next : LocalCache
    next = record c {
      manifest = record c.manifest { pending_txids = set_insert txid c.manifest.pending_txids };
    }

    member :
        {y : ℕ}
        → (In y rest → (reenqueue rest next).0 ≡ ok tt → IsPending y (reenqueue rest next).1)
        → In y (txid ∷ rest)
        → (reenqueue rest next).0 ≡ ok tt
        → IsPending y (reenqueue rest next).1
    member later here h =
        reenqueue-keeps rest next txid (In-set_insert txid c.manifest.pending_txids)
    member later (there n) h = later n h

clear_failed_lem :
    (m : CacheManifest)
    → ((clear_failed m).failed_txids ≡ []) × ((clear_failed m).pending_txids ≡ m.pending_txids)
unfolding clear_failed
clear_failed_lem m =
    let same = (recompute_contiguous-Advances (record m { failed_txids = [] })).1 in
    (
      ap (λ (x : CacheManifest). x.failed_txids) same,
      ap (λ (x : CacheManifest). x.pending_txids) same,
    )

-- Behind the loop: the failed uploads are cleared, and the manifest is saved.
behind_reenqueue_lem :
    (saved : WriteFault) (t : ℕ) (r : Result (Unit {0}) CacheError × LocalCache)
    → (r.0 ≡ ok tt → IsPending t r.1)
    → (behind_reenqueue saved r).0 ≡ ok tt
    → ((behind_reenqueue saved r).1.manifest.failed_txids ≡ [])
      × IsPending t (behind_reenqueue saved r).1
unfolding save_manifest
behind_reenqueue_lem saved t (err e, c) p h = cc
behind_reenqueue_lem no_fault t (ok u, c) p h =
    let (none_failed, same) = clear_failed_lem c.manifest in
    (none_failed, subst (In t) (sym same) (p refl))
behind_reenqueue_lem before_rename t (ok u, c) p h = cc
behind_reenqueue_lem after_rename t (ok u, c) p h = cc

-- The start with the failed uploads apart.
abbrev begin : WriteFault → LocalCache → List ℕ → Result (Unit {0}) CacheError × LocalCache
begin saved c failed = elim failed [
  | [] ↦ (ok tt, c)
  | t ∷ rest ↦ behind_reenqueue saved (reenqueue (t ∷ rest) c)
]

begin_lem :
    (saved : WriteFault) (c : LocalCache) (failed : List ℕ) (t : ℕ)
    → In t failed
    → (begin saved c failed).0 ≡ ok tt
    → ((begin saved c failed).1.manifest.failed_txids ≡ []) × IsPending t (begin saved c failed).1
begin_lem saved c [] t i = elim i [ ]
begin_lem saved c (x ∷ rest) t i =
    behind_reenqueue_lem saved t (reenqueue (x ∷ rest) c) (reenqueue-IsPending (x ∷ rest) c t i)

-- After a start that succeeds no upload is failed, and each that was failed is pending.
pub reopen-IsPending :
    (saved : WriteFault) (c : LocalCache) (t : ℕ)
    → (reopen saved c).0 ≡ ok tt
    → In t c.disk.failed_txids
    → ((reopen saved c).1.manifest.failed_txids ≡ [])
      × In t (reopen saved c).1.manifest.pending_txids
unfolding reopen reenqueue_failed_uploads_on_startup
reopen-IsPending saved c t h i =
    begin_lem saved (record c { manifest = c.disk }) c.disk.failed_txids t i h
