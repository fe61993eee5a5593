-- ===== src/Compaction/Engine/Safety/Converge.antt =====
-- `converge_interrupted_delete` is safe.
use walrust.Base.{
  ◌≡◌, ◌≢◌, inl, inr, refl, ◌∙◌, sym, ap, Option, none, some, List, [], ◌∷◌, String, ok, here,
  there, Bool-cases, In-filter, test-filter, subst,
}
use walrust.Compaction.Layout.{Level, LayoutFile}
use walrust.Compaction.Engine.Select.{range_subset, tiles_exactly}
use walrust.Compaction.Engine.Store.{Physical, attempt, CompactionLayout, IsStore}
use walrust.Compaction.Engine.Verify.{verify_covers}
use walrust.Compaction.Engine.Converge.{
  Leftovers, covered_by, take_cover, is_nil, consider, find_leftovers, delete_leftovers,
  converge_interrupted_delete,
}
use walrust.Compaction.Engine.Safety.{View, AtLevel, IsNamed, AreNamed, IsSafe, bind_post}
use walrust.Compaction.Engine.Safety.Covers.{
  bind_ok, bind_both, IsCompactedAt-HoldsCover, verify_covers_ok, delete-IsSafe,
}
use walrust.Compaction.Engine.Safety.Leftovers.{
  Covered, take_cover-Covered, consider-IsRead, find_leftovers-IsRead,
}

module _ (P : Physical) {L : CompactionLayout} (I : IsStore L) (source target : Level)
    (differ : source ≢ target) (files : List LayoutFile) (at_source : AtLevel I source files) where
  abbrev Fine : View → Leftovers → Type 0
  Fine o acc = Covered P I source target differ files o acc.deletable

  consider-Fine :
      (m : LayoutFile) (acc : Leftovers) (s : L.State) {acc' : Leftovers}
      → IsNamed I target m
      → Fine (I.objects s) acc
      → (consider P L m (covered_by m files) acc s).0 ≡ ok acc'
      → Fine (I.objects s) acc'
  unfolding consider covered_by
  consider-Fine m acc s {acc' = acc'} level c h = elim (Bool-cases (is_nil (covered_by m files))) [
    | inl e ↦ kept (cc (rw (e, consider) at h))
    | inr e ↦ elim (Bool-cases (tiles_exactly (covered_by m files) m.range)) [
      | inl t ↦ kept (cc (rw (e, t, consider) at h))
      | inr t ↦
          let (r, v, q) =
            bind_ok (attempt (verify_covers P L m))
              (λ r. take_cover P L m (covered_by m files) acc r) s (rw (e, t, consider) at h) in
          take_cover-Covered P I source target differ files (I.objects s) m acc _ r
            (covered_by m files) c
            (λ cs e g n.
              let found : (verify_covers P L m s).0 ≡ ok cs = cc in
              (
                In-filter (λ x. range_subset x.range m.range) files n,
                at_source g (In-filter (λ x. range_subset x.range m.range) files n),
                m,
                IsCompactedAt-HoldsCover P I (I.objects s) m level (verify_covers_ok P I m s found),
                test-filter (λ x. range_subset x.range m.range) files n,
              ))
            q
    ]
  ]
    where
      kept : acc ≡ acc' → Fine (I.objects s) acc'
      kept same = subst (λ (a : Leftovers). Fine (I.objects s) a) same c

  find_leftovers-Fine :
      (target_files : List LayoutFile) (acc : Leftovers) (s : L.State) {acc' : Leftovers}
      → AreNamed I target target_files
      → Fine (I.objects s) acc
      → (find_leftovers P L files target_files acc s).0 ≡ ok acc'
      → Fine (I.objects s) acc'
  unfolding find_leftovers
  find_leftovers-Fine [] acc s {acc' = acc'} levels c h =
      let same : acc ≡ acc' = cc in subst (λ (a : Leftovers). Fine (I.objects s) a) same c
  find_leftovers-Fine (m ∷ target_files) acc s {acc' = acc'} levels c h =
      let (mid, e, q) = bind_ok (consider P L m (covered_by m files) acc) _ s h in
      let view = (consider-IsRead P I m (covered_by m files) acc).keeps s in
      let fine = consider-Fine m acc s (levels m here) c e in
      subst (λ (o : View). Fine o acc') view
        (find_leftovers-Fine target_files mid _ (λ f n. levels f (there n))
          (subst (λ (o : View). Fine o mid) (sym view) fine) q)

  -- What the deletion does to the state that the search leaves.
  delete_leftovers-IsSafe :
      (deletable : List LayoutFile) (cover : Option LayoutFile) (s : L.State) (k : String)
      → Covered P I source target differ files (I.objects s) deletable
      → IsSafe P I target files k
          (I.objects s)
          (I.objects (delete_leftovers P L (record { deletable = deletable; cover = cover }) s).1)
  unfolding delete_leftovers
  delete_leftovers-IsSafe [] cover s k c = inl refl
  delete_leftovers-IsSafe (f ∷ rest) none s k c = inl refl
  delete_leftovers-IsSafe (f ∷ rest) (some cover) s k c =
      let safe = delete-IsSafe P I source target differ files (f ∷ rest) s k c in
      bind_post (λ t. IsSafe P I target files k (I.objects s) (I.objects t)) (L.delete (f ∷ rest)) _
        s safe (λ u e. safe)

  abbrev empty : Leftovers
  empty = record { deletable = []; cover = none }

  pub converge-IsSafe :
      (target_files : List LayoutFile) (s : L.State) (k : String)
      → AreNamed I target target_files
      → IsSafe P I target files k
          (I.objects s)
          (I.objects (converge_interrupted_delete P L target_files files s).1)
  unfolding converge_interrupted_delete
  converge-IsSafe target_files s k levels = elim (Bool-cases (is_nil files)) [
    | inl e ↦ rw e (inl refl)
    | inr e ↦ elim (Bool-cases (is_nil target_files)) [
      | inl t ↦ rw (e, t) (inl refl)
      | inr t ↦
          let found = find_leftovers P L files target_files empty in
          let view = (find_leftovers-IsRead P I files target_files empty).keeps s in
          rw (e, t)
            (bind_post (λ u. IsSafe P I target files k (I.objects s) (I.objects u)) found
              (delete_leftovers P L) s (inl (ap (λ (o : View). o k) view))
              (λ acc q.
                subst
                  (λ (o : View).
                    IsSafe P I target files k o
                      (I.objects (delete_leftovers P L acc (found s).1).1))
                  view
                  (delete_leftovers-IsSafe acc.deletable acc.cover (found s).1 k (
                    subst (λ (o : View). Fine o acc) (sym view)
                      (find_leftovers-Fine target_files empty s levels (λ g n. elim n [ ]) q)))))
    ]
  ]

  delete_leftovers-none :
      (deletable : List LayoutFile) (cover : Option LayoutFile) (s : L.State)
      → (delete_leftovers P L (record { deletable = deletable; cover = cover }) s).0 ≡ ok none
      → I.objects (delete_leftovers P L (record { deletable = deletable; cover = cover }) s).1
        ≡ I.objects s
  unfolding delete_leftovers
  delete_leftovers-none [] cover s h = refl
  delete_leftovers-none (f ∷ rest) none s h = refl
  delete_leftovers-none (f ∷ rest) (some cover) s h =
      let (u, e, q) = bind_ok (L.delete (f ∷ rest)) _ s h in absurd (cc q)

  -- Where it found nothing to do, it changed nothing.
  pub converge-none :
      (target_files : List LayoutFile) (s : L.State)
      → (converge_interrupted_delete P L target_files files s).0 ≡ ok none
      → I.objects (converge_interrupted_delete P L target_files files s).1 ≡ I.objects s
  unfolding converge_interrupted_delete
  converge-none target_files s = elim (Bool-cases (is_nil files)) [
    | inl e ↦ rw e (λ h. refl)
    | inr e ↦ elim (Bool-cases (is_nil target_files)) [
      | inl t ↦ rw (e, t) (λ h. refl)
      | inr t ↦
          let found = find_leftovers P L files target_files empty in
          let view = (find_leftovers-IsRead P I files target_files empty).keeps s in
          rw (e, t)
            (bind_both (λ r u. r ≡ ok none → I.objects u ≡ I.objects s) found (delete_leftovers P L)
              s (λ x h. absurd (cc h))
              (λ acc q h. delete_leftovers-none acc.deletable acc.cover (found s).1 h ∙ view))
    ]
  ]
