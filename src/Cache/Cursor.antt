-- ===== src/Cache/Cursor.antt =====
-- `recompute_contiguous`: how far the durable cursor advances.
use walrust.Base.{
  ℕ, zero, suc, ◌+◌, ◌-◌, ◌≤◌, ◌<◌, ◌≡◌, ◌≢◌, ◌⊎◌, inl, inr, refl, ◌∙◌, sym, subst, Bool, true,
  false, ◌&&◌, none, some, [], ◌∷◌, leb, ◌==◌, In, here, there, Bool-cases, Option-cases, arith,
  u64_max,
}
use Prim.Native.Nat.{max}
use walrust.Cache.{
  CacheEntry, Entries, CacheManifest, entry_txid_range, in_range, failed_upload_covers, reach,
  advance, top_txid, contiguous_cursor, recompute_contiguous,
}

-- An uploaded entry holds the number.
abbrev pub IsHeld : Entries → ℕ → Type 0
IsHeld entries n =
    (p : ℕ × CacheEntry) × In p entries
    × (p.1.uploaded ≡ true)
    × (in_range n (entry_txid_range p.0 p.1) ≡ true)

-- Why the cursor stops: it is the last number, a failed upload covers the next, or nothing holds it.
abbrev pub IsStop : CacheManifest → ℕ → Type 0
IsStop m t = (u64_max ≤ t) ⊎ (failed_upload_covers m (t + 1) ≡ true) ⊎ (¬ IsHeld m.entries (t + 1))

reach-bounds :
    (next cursor : ℕ) (entries : Entries)
    → (cursor ≤ reach next cursor entries)
      × (reach next cursor entries ≤ max cursor (top_txid entries))
unfolding reach top_txid
reach-bounds next cursor [] = (omega arith, omega arith)
reach-bounds next cursor ((txid, e) ∷ rest) =
    elim (Bool-cases (e.uploaded && in_range next (entry_txid_range txid e))) [
      | inl t ↦
          let r = reach-bounds next (max cursor (entry_txid_range txid e).1) rest in
          rw t (omega (arith, r.0), omega (arith, r.1))
      | inr t ↦ let r = reach-bounds next cursor rest in rw t (r.0, omega (arith, r.1))
    ]

both-true : (a b : Bool) → (a && b) ≡ true → (a ≡ true) × (b ≡ true)
both-true true true h = (refl, refl)
both-true true false h = cc
both-true false b h = cc

-- What is reached is held, by an entry that ends there.
reach-IsHeld :
    (next cursor : ℕ) (entries : Entries)
    → (reach next cursor entries ≡ cursor)
      ⊎ (p : ℕ × CacheEntry) × In p entries
        × (p.1.uploaded ≡ true)
        × (in_range next (entry_txid_range p.0 p.1) ≡ true)
        × ((entry_txid_range p.0 p.1).1 ≡ reach next cursor entries)
unfolding reach
reach-IsHeld next cursor [] = inl refl
reach-IsHeld next cursor ((txid, e) ∷ rest) =
    elim (Bool-cases (e.uploaded && in_range next (entry_txid_range txid e))) [
      | inl t ↦
          let (u, i) = both-true e.uploaded (in_range next (entry_txid_range txid e)) t in
          let last = (entry_txid_range txid e).1 in
          rw t (elim (reach-IsHeld next (max cursor last) rest) [
            | inr (p, m, v, j, q) ↦ inr (p, there m, v, j, q)
            | inl same ↦ elim (Bool-cases (leb last cursor)) [
              | inl below ↦
                  let stays : max cursor last ≡ cursor = ground arith in inl (same ∙ stays)
              | inr above ↦
                  let goes : last ≡ max cursor last = ground arith in
                  inr ((txid, e), here, u, i, goes ∙ sym same)
            ]
          ])
      | inr t ↦ rw t (elim (reach-IsHeld next cursor rest) [
        | inl same ↦ inl same
        | inr (p, m, u, i, q) ↦ inr (p, there m, u, i, q)
      ])
    ]

-- Every entry that holds the next number is reached.
reach-holds :
    (next : ℕ) (entries : Entries) (cursor : ℕ) (p : ℕ × CacheEntry)
    → In p entries
    → p.1.uploaded ≡ true
    → in_range next (entry_txid_range p.0 p.1) ≡ true
    → next ≤ reach next cursor entries
unfolding reach
reach-holds next [] cursor p m u i = elim m [ ]
reach-holds next ((txid, e) ∷ rest) cursor p here u i =
    let both : (e.uploaded && in_range next (entry_txid_range txid e)) ≡ true = rw (u, i) refl in
    let r = reach-bounds next (max cursor (entry_txid_range txid e).1) rest in
    rw both (ground (arith, r, i))
reach-holds next ((txid, e) ∷ rest) cursor p (there m) u i = reach-holds next rest _ p m u i

-- An entry that holds the number behind the cursor holds all up to its end.
within_entry :
    (r : ℕ × ℕ) (cursor n : ℕ)
    → in_range (cursor + 1) r ≡ true
    → cursor < n
    → n ≤ r.1
    → in_range n r ≡ true
within_entry r cursor n i l u = ground (arith, i, l, u)

-- How the loop ends: every number that it passes is held, and it stops only where it must.
abbrev pub Advances : CacheManifest → ℕ → ℕ → Type 0
Advances m cursor t =
    (cursor ≤ t) × ((n : ℕ) → cursor < n → n ≤ t → IsHeld m.entries n) × IsStop m t

advance-Advances :
    (fuel : ℕ) (m : CacheManifest) (cursor : ℕ) {t : ℕ}
    → advance fuel m cursor ≡ some t
    → Advances m cursor t
unfolding advance
advance-Advances zero m cursor h = cc
advance-Advances (suc fuel) m cursor {t = t} h = elim (Bool-cases (leb u64_max cursor)) [
  | inl a ↦
      let same : cursor ≡ t = cc (rw (a, advance) at h) in
      (omega (arith, same), λ n l u. absurd (omega (arith, same, l, u)), inl (ground (arith, same)))
  | inr a ↦ elim (Bool-cases (failed_upload_covers m (cursor + 1))) [
    | inl b ↦
        let same : cursor ≡ t = cc (rw (a, b, advance) at h) in
        (
          omega (arith, same),
          λ n l u. absurd (omega (arith, same, l, u)),
          inr (inl (subst (λ x. failed_upload_covers m (x + 1) ≡ true) same b)),
        )
    | inr b ↦ elim (Bool-cases (reach (cursor + 1) cursor m.entries == cursor)) [
      | inl c ↦
          let same : cursor ≡ t = cc (rw (a, b, c, advance) at h) in
          (
            omega (arith, same),
            λ n l u. absurd (omega (arith, same, l, u)),
            inr (
                inr (λ held.
                  let (p, q, u, i) = subst (λ x. IsHeld m.entries (x + 1)) (sym same) held in
                  let far = reach-holds (cursor + 1) m.entries cursor p q u i in
                  ground (arith, far, c))),
          )
      | inr c ↦
          let ih =
            advance-Advances fuel m (reach (cursor + 1) cursor m.entries)
              (rw (a, b, c, advance) at h) in
          let r = reach-bounds (cursor + 1) cursor m.entries in
          (
            omega (arith, r.0, ih.0),
            λ n l u. elim (Bool-cases (leb n (reach (cursor + 1) cursor m.entries))) [
              | inr beyond ↦ ih.1 n (ground arith) u
              | inl near ↦ elim (reach-IsHeld (cursor + 1) cursor m.entries) [
                | inl same ↦ absurd (ground (arith, same, c))
                | inr (p, q, v, i, last) ↦ (
                  p,
                  q,
                  v,
                  within_entry (entry_txid_range p.0 p.1) cursor n i l (ground (arith, last, near)),
                )
              ]
            ],
            ih.2,
          )
    ]
  ]
]

advance_ends :
    (fuel : ℕ) (m : CacheManifest) (cursor : ℕ)
    → suc (top_txid m.entries - cursor) ≤ fuel
    → advance fuel m cursor ≢ none
unfolding advance
advance_ends zero m cursor h e = omega (arith, h)
advance_ends (suc fuel) m cursor h e = elim (Bool-cases (leb u64_max cursor)) [
  | inl a ↦ absurd (cc (rw (a, advance) at e))
  | inr a ↦ elim (Bool-cases (failed_upload_covers m (cursor + 1))) [
    | inl b ↦ absurd (cc (rw (a, b, advance) at e))
    | inr b ↦ elim (Bool-cases (reach (cursor + 1) cursor m.entries == cursor)) [
      | inl c ↦ absurd (cc (rw (a, b, c, advance) at e))
      | inr c ↦
          let r = reach-bounds (cursor + 1) cursor m.entries in
          advance_ends fuel m (reach (cursor + 1) cursor m.entries) (ground (arith, h, r.0, r.1, c))
            (rw (a, b, c, advance) at e)
    ]
  ]
]

recomputed :
    (m : CacheManifest) (t : ℕ)
    → contiguous_cursor m ≡ some t
    → recompute_contiguous m ≡ record m { last_contiguous_uploaded_txid = t }
unfolding recompute_contiguous
recomputed m t e = rw (e, recompute_contiguous) refl

-- Recomputing ends, and changes only the cursor.
pub recompute_contiguous-Advances :
    (m : CacheManifest)
    → Advances m m.last_contiguous_uploaded_txid
        (recompute_contiguous m).last_contiguous_uploaded_txid
      × (recompute_contiguous m ≡ record m {
        last_contiguous_uploaded_txid = (recompute_contiguous m).last_contiguous_uploaded_txid;
      })
unfolding recompute_contiguous contiguous_cursor
recompute_contiguous-Advances m = elim (Option-cases (contiguous_cursor m)) [
  | inl e ↦ absurd (advance_ends fuel m m.last_contiguous_uploaded_txid (omega arith) e)
  | inr (t, e) ↦
      subst
        (λ (x : CacheManifest).
          Advances m m.last_contiguous_uploaded_txid x.last_contiguous_uploaded_txid
          × (x ≡ record m { last_contiguous_uploaded_txid = x.last_contiguous_uploaded_txid }))
        (sym (recomputed m t e)) (advance-Advances fuel m m.last_contiguous_uploaded_txid e, refl)
]
  where
    fuel : ℕ
    fuel = suc (top_txid m.entries - m.last_contiguous_uploaded_txid)

-- The cursor passes only numbers that an uploaded entry holds.
pub recompute_contiguous-IsHeld :
    (m : CacheManifest) (n : ℕ)
    → m.last_contiguous_uploaded_txid < n
    → n ≤ (recompute_contiguous m).last_contiguous_uploaded_txid
    → IsHeld m.entries n
recompute_contiguous-IsHeld m n = (recompute_contiguous-Advances m).0.1 n

-- Recomputing ends; the cursor does not fall, and it stops at the last number, before a number that
-- a failed upload covers, or before one that no uploaded entry holds.
pub recompute_contiguous-IsStop :
    (m : CacheManifest)
    → (m.last_contiguous_uploaded_txid ≤ (recompute_contiguous m).last_contiguous_uploaded_txid)
      × IsStop m (recompute_contiguous m).last_contiguous_uploaded_txid
recompute_contiguous-IsStop m = let a = (recompute_contiguous-Advances m).0 in (a.0, a.2)
