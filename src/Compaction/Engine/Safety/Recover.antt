-- ===== src/Compaction/Engine/Safety/Recover.antt =====
-- `merge_batch`: an object that covers exactly the range stands for its sources if it is sound, and
-- is merged again if it is not.
use walrust.Base.{
  ℕ, ◌≡◌, ◌≢◌, ◌⊎◌, inl, inr, refl, ◌∙◌, sym, ap, subst, true, Option, none, some, List, [], ◌∷◌,
  String, Bytes, Result, ok, err, In, here, there, In-single, Bool-cases, arith,
}
use walrust.Compaction.Layout.{Level, SeqRange, LayoutFile, range_eq}
use walrust.Compaction.Errors.{CompactionError}
use walrust.Compaction.Engine.Select.{ranges_overlap, range_subset, find_loop, find_existing_merged}
use walrust.Compaction.Engine.Store.{Physical, CompactionLayout, IsStore}
use walrust.Compaction.Engine.Verify.{verify_existing}
use walrust.Compaction.Engine.Run.{last_of, recover, merge_batch}
use walrust.Compaction.Engine.Safety.{View, IsNamed, AreNamed, IsSafe, bind_post}
use walrust.Compaction.Engine.Safety.Reads.{IsSafe-after, read-IsSafe, verify_existing-IsRead}
use walrust.Compaction.Engine.Safety.Covers.{IsCompactedAt, verify_existing_ok, delete-IsSafe}
use walrust.Compaction.Engine.Safety.Fresh.{AreWithin, merge_fresh-IsSafe}

find_loop_found :
    (range : SeqRange) (exact : Option LayoutFile) (files : List LayoutFile) {e : LayoutFile}
    → find_loop range exact files ≡ ok (some e)
    → (exact ≡ some e) ⊎ In e files × (range_eq e.range range ≡ true)
unfolding find_loop
find_loop_found range exact [] h = inl cc
find_loop_found range exact (f ∷ files) {e = e} h = elim (Bool-cases (range_eq f.range range)) [
  | inl q ↦ elim (find_loop_found range (some f) files (rw q at h)) [
    | inl same ↦
        let eq : f ≡ e = cc in
        inr (
          subst (λ (x : LayoutFile). In x (f ∷ files)) eq here,
          subst (λ (x : LayoutFile). range_eq x.range range ≡ true) eq q,
        )
    | inr (m, r) ↦ inr (there m, r)
  ]
  | inr q ↦ elim (Bool-cases (ranges_overlap f.range range)) [
    | inl o ↦ absurd (cc (rw (q, o) at h))
    | inr o ↦ elim (find_loop_found range exact files (rw (q, o) at h)) [
      | inl same ↦ inl same
      | inr (m, r) ↦ inr (there m, r)
    ]
  ]
]

-- What is found is listed, and has exactly the range.
pub find_existing_merged_found :
    (files : List LayoutFile) (range : SeqRange) {e : LayoutFile}
    → find_existing_merged files range ≡ ok (some e)
    → In e files × (range_eq e.range range ≡ true)
unfolding find_existing_merged
find_existing_merged_found files range h = elim (find_loop_found range none files h) [
  | inl same ↦ absurd (cc same)
  | inr found ↦ found
]

pub range_subset_eq :
    (a b c : SeqRange) → range_subset a b ≡ true → range_eq c b ≡ true → range_subset a c ≡ true
unfolding range_subset
range_subset_eq a b c h e = ground arith

module _ (P : Physical) (sha256 : Bytes → Bytes) {L : CompactionLayout} (created_ms : ℕ)
    (I : IsStore L) (source target : Level) (differ : source ≢ target)
    (files : List LayoutFile) where
  abbrev pub Within : SeqRange → List LayoutFile → Type 0
  Within range sources = AreWithin P sha256 created_ms I source target differ files range sources

  recover-IsSafe :
      (range : SeqRange) (existing first : LayoutFile) (rest : List LayoutFile)
      (sound : Result (Unit {0}) CompactionError) (s : L.State) (k : String)
      → I.key_level k ≡ source
      → IsNamed I target existing
      → range_eq existing.range range ≡ true
      → Within range (first ∷ rest)
      → ((u : Unit {0}) → sound ≡ ok u → IsCompactedAt P I (I.objects s) existing)
      → IsSafe P I target files k
          (I.objects s)
          (I.objects (recover P sha256 L created_ms target range existing first rest sound s).1)
  unfolding recover
  recover-IsSafe range existing first rest (ok t) s k level at same within compacted =
      let (b, o, cs, d, c) = compacted t refl in
      let safe = delete-IsSafe P I source target differ files (first ∷ rest) s k (λ g m.
        let (listed, l, sub) = within g m in
        (
          listed,
          l,
          existing,
          (at, b, o, cs, d, c),
          range_subset_eq g.range range existing.range sub same,
        )) in
      bind_post (λ t. IsSafe P I target files k (I.objects s) (I.objects t))
        (L.delete (first ∷ rest)) _ s safe (λ u q. safe)
  recover-IsSafe range existing first rest (err torn) s k level at same within compacted =
      let gone = (L.delete (existing ∷ []) s).1 in
      let kept : I.objects gone k ≡ I.objects s k = I.delete_keeps (existing ∷ []) s k (λ f m e.
        differ (
          sym level
          ∙ ap I.key_level (sym e)
          ∙ ap (λ (x : LayoutFile). I.key_level x.key) (In-single m)
          ∙ at.0)) in
      bind_post (λ t. IsSafe P I target files k (I.objects s) (I.objects t))
        (L.delete (existing ∷ [])) _ s (inl kept)
        (λ u q. IsSafe-after P I target files k (I.objects s) (I.objects gone) _ kept (
          merge_fresh-IsSafe P sha256 created_ms I source target differ files range (first ∷ rest)
            gone k level within))

  pub merge_batch-IsSafe :
      (target_files : List LayoutFile) (first : LayoutFile) (rest : List LayoutFile) (s : L.State)
      (k : String)
      → I.key_level k ≡ source
      → AreNamed I target target_files
      → Within
          (record { min = first.range.min; max = (last_of first rest).range.max })
          (first ∷ rest)
      → IsSafe P I target files k
          (I.objects s)
          (I.objects (merge_batch P sha256 L created_ms target target_files first rest s).1)
  unfolding merge_batch
  merge_batch-IsSafe target_files first rest s k level levels within =
      go (find_existing_merged target_files range) refl
    where
      range : SeqRange
      range = record { min = first.range.min; max = (last_of first rest).range.max }

      go :
          (r : Result (Option LayoutFile) CompactionError)
          → find_existing_merged target_files range ≡ r
          → IsSafe P I target files k
              (I.objects s)
              (I.objects (merge_batch P sha256 L created_ms target target_files first rest s).1)
      go (err e) q = rw (q, merge_batch) (inl refl)
      go (ok none) q =
          rw (q, merge_batch)
            (merge_fresh-IsSafe P sha256 created_ms I source target differ files range
              (first ∷ rest) s k level within)
      go (ok (some existing)) q =
          let (m, same) = find_existing_merged_found target_files range q in
          let check = verify_existing P L existing first (last_of first rest) in
          let read = verify_existing-IsRead I P existing first (last_of first rest) in
          let view = read.keeps s in
          rw (q, merge_batch)
            (read-IsSafe P I target files k (I.objects s) _ (record { keeps = read.keeps }) s refl
              (λ sound e kept.
                IsSafe-after P I target files k (I.objects s) (I.objects (check s).1) _ kept (
                  recover-IsSafe range existing first rest sound (check s).1 k level
                    (levels existing m) same within
                    (λ u ok_u.
                      let passed : (check s).0 ≡ ok u = cc in
                      subst (λ (o : View). IsCompactedAt P I o existing) (sym view)
                        (verify_existing_ok P I existing first (last_of first rest) s passed)))))
