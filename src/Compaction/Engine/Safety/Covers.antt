-- ===== src/Compaction/Engine/Safety/Covers.antt =====
-- What a check that passes tells of the object that it read, and the deletion behind such checks.
use text.Mathlib.Text.{◌==◌ as str_eq}
use text.Mathlib.TextEquality.{eq_iff}
use walrust.Base.{
  ◌≡◌, ◌≢◌, refl, ◌∙◌, sym, ap, inl, inr, Bool, true, false, some, List, String, Bytes, Result, ok,
  err, In, Bool-cases, Result-cases, any, any-In, any_sound, Option-cases,
}
use walrust.Compaction.Layout.{Level, LayoutFile}
use walrust.Compaction.Errors.{CompactionError, verification_failed}
use walrust.Compaction.Engine.Select.{range_subset}
use walrust.Compaction.Engine.Store.{Physical, M, ensure, ◌>>=◌, CompactionLayout, IsStore}
use walrust.Compaction.Engine.Verify.{decode_at, read_decoded, verify_covers, verify_existing}
use walrust.Compaction.Engine.Safety.{View, IsNamed, HoldsCover, IsSafe}

-- A chain of steps that succeeds has a first step that does.
pub bind_ok :
    {S A B : Type 0} (m : M S A) (f : A → M S B) (s : S) {b : B}
    → ((m >>= f) s).0 ≡ ok b
    → (a : A) × ((m s).0 ≡ ok a) × ((f a (m s).1).0 ≡ ok b)
unfolding ◌>>=◌
bind_ok m f s h = elim (Result-cases (m s).0) [
  | inl (a, e) ↦ (a, e, rw e at h)
  | inr (x, e) ↦ absurd (cc (rw e at h))
]

-- A property of the result of a chain of steps and of what it leaves.
pub bind_both {κ} :
    {S A B : Type 0} (Q : Result B CompactionError → S → Type κ) (m : M S A) (f : A → M S B) (s : S)
    → ((e : CompactionError) → Q (err e) (m s).1)
    → ((a : A) → (m s).0 ≡ ok a → Q (f a (m s).1).0 (f a (m s).1).1)
    → Q ((m >>= f) s).0 ((m >>= f) s).1
unfolding ◌>>=◌
bind_both Q m f s failed next = elim (Result-cases (m s).0) [
  | inl (a, e) ↦ rw e (next a e)
  | inr (x, e) ↦ rw e (failed x)
]

ensure_ok :
    {S : Type 0} (b : Bool) (e : CompactionError) (s : S) {t : Unit {0}}
    → (ensure b e s).0 ≡ ok t
    → b ≡ true
ensure_ok true e s h = refl
ensure_ok false e s h = cc

module _ (P : Physical) {L : CompactionLayout} (I : IsStore L) where
  -- The object is stored, and decodes to a compacted changeset.
  abbrev pub IsCompactedAt : View → LayoutFile → Type 0
  IsCompactedAt o f =
      (b : Bytes) × (o f.key ≡ some b)
      × (cs : P.Changeset) × (P.decode b ≡ some cs)
      × (P.is_compacted cs ≡ true)

  pub IsCompactedAt-HoldsCover :
      {target : Level} (o : View) (f : LayoutFile)
      → IsNamed I target f
      → IsCompactedAt o f
      → HoldsCover P I target o f
  IsCompactedAt-HoldsCover o f level (b, stored, cs, d, c) = (level, b, stored, cs, d, c)

  read_decoded_ok :
      (f : LayoutFile) (s : L.State) {cs : P.Changeset}
      → (read_decoded P L f s).0 ≡ ok cs
      → (b : Bytes) × (I.objects s f.key ≡ some b) × (P.decode b ≡ some cs)
  unfolding read_decoded decode_at
  read_decoded_ok f s h =
      let (b, e, d) = bind_ok (L.read_bytes f) _ s h in
      elim (Option-cases (P.decode b)) [
        | inl n ↦ absurd (cc (rw (n, decode_at) at d))
        | inr (c, n) ↦ (b, I.read_stored f s b e, cc (rw (n, decode_at) at d))
      ]

  pub verify_covers_ok :
      (f : LayoutFile) (s : L.State) {cs : P.Changeset}
      → (verify_covers P L f s).0 ≡ ok cs
      → IsCompactedAt (I.objects s) f
  unfolding verify_covers
  verify_covers_ok f s h =
      let (cs, e, r) = bind_ok (read_decoded P L f) _ s h in
      let (b, o, d) = read_decoded_ok f s e in
      let (t, c, q) = bind_ok (ensure (P.is_compacted cs) verification_failed) _ _ r in
      (b, o, cs, d, ensure_ok _ _ _ c)

  pub verify_existing_ok :
      (existing first last : LayoutFile) (s : L.State) {t : Unit {0}}
      → (verify_existing P L existing first last s).0 ≡ ok t
      → IsCompactedAt (I.objects s) existing
  unfolding verify_existing
  verify_existing_ok existing first last s h =
      let (cs, e, r) = bind_ok (read_decoded P L existing) _ s h in
      let (b, o, d) = read_decoded_ok existing s e in
      let (t, c, q) = bind_ok (ensure (P.is_compacted cs) verification_failed) _ _ r in
      (b, o, cs, d, ensure_ok _ _ _ c)

  module _ (source target : Level) (differ : source ≢ target) where
    -- The source files are listed, and each lies within a stored cover.
    abbrev pub AreCovered : List LayoutFile → View → List LayoutFile → Type 0
    AreCovered files o sources =
        (g : LayoutFile)
        → In g sources
        → In g files
          × (I.key_level g.key ≡ source)
          × (f : LayoutFile) × HoldsCover P I target o f
          × (range_subset g.range f.range ≡ true)

    -- Deleting covered files, or any part of them, is safe.
    pub delete-IsSafe :
        (files sources : List LayoutFile) (s : L.State) (k : String)
        → AreCovered files (I.objects s) sources
        → IsSafe P I target files k (I.objects s) (I.objects (L.delete sources s).1)
    delete-IsSafe files sources s k covered =
        elim (Bool-cases (any (λ g. str_eq g.key k) sources)) [
          | inl e ↦
              let (g, m, same) = any_sound (λ g. str_eq g.key k) sources e in
              let (listed, l, f, (named, b, o, cs, dc, packed), sub) = covered g m in
              let keeps =
                I.delete_keeps sources s f.key
                  (λ d n e. differ (sym (covered d n).1 ∙ ap I.key_level e ∙ named.0)) in
              inr
                (g, listed, (eq_iff g.key k).0 same, f, (named, b, keeps ∙ o, cs, dc, packed), sub)
          | inr e ↦ inl (
              I.delete_keeps sources s k (λ d n same.
                let found = any-In (λ g. str_eq g.key k) sources n ((eq_iff d.key k).1 same) in
                absurd (cc (sym found ∙ e))))
        ]
