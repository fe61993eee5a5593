-- ===== src/Compaction/Engine/Safety/Run.antt =====
-- `run_level_compaction` loses no object of its source level.
use walrust.Base.{
  ℕ, ◌+◌, ◌≤◌, ◌≡◌, ◌≢◌, ◌⊎◌, inl, inr, refl, ◌∙◌, ap, subst, List, [], ◌∷◌, map, String, Bytes, ok,
  ℤ, In, In-take, In-drop, Bool-cases, Option-cases, arith, length-map, length-take, take, drop,
  ltb, ◌==◌, add_u32,
}
use walrust.Compaction.Layout.{Level, LayoutFile}
use walrust.Compaction.Engine.Batch.{contiguous_batch}
use walrust.Compaction.Engine.Batch.Laws.{IsRun, contiguous_batch_sound}
use walrust.Compaction.Engine.Store.{Physical, M, pure, ◌>>=◌, CompactionLayout, IsStore}
use walrust.Compaction.Engine.Converge.{CompactionOutcome, no_op, converge_interrupted_delete}
use walrust.Compaction.Engine.Run.{
  eligible_count, merge_selected, select_and_merge, or_merge, run_level_compaction,
}
use walrust.Compaction.Engine.Safety.{View, AtLevel, AreNamed, IsFolded, IsSafe, bind_post, if_post}
use walrust.Compaction.Engine.Safety.Reads.{IsSafe-after}
use walrust.Compaction.Engine.Safety.Spans.{HasRanges, run-range_subset, batch_ranges}
use walrust.Compaction.Engine.Safety.Converge.{converge-IsSafe, converge-none}
use walrust.Compaction.Engine.Safety.Recover.{merge_batch-IsSafe}

next_level_differs : (l : Level) → l ≢ add_u32 l 1
next_level_differs l e = omega (arith, e)

module _ (P : Physical) (sha256 : Bytes → Bytes) {L : CompactionLayout} (created_ms : ℕ)
    (I : IsStore L) (source : Level) (files target_files : List LayoutFile)
    (at_source : AtLevel I source files) (at_target : AreNamed I (add_u32 source 1) target_files)
    (ranges : HasRanges files) (k : String) (level : I.key_level k ≡ source) where
  abbrev Safe : L.State → L.State → Type 0
  Safe s t = IsSafe P I (add_u32 source 1) files k (I.objects s) (I.objects t)

  merge_selected-IsSafe :
      (selected : List LayoutFile) (s : L.State)
      → ((g : LayoutFile) → In g selected → In g files)
      → IsRun (map (λ f. f.range) selected)
      → Safe s (merge_selected P sha256 L created_ms (add_u32 source 1) target_files selected s).1
  unfolding merge_selected
  merge_selected-IsSafe [] s listed run = inl refl
  merge_selected-IsSafe (first ∷ rest) s listed run =
      merge_batch-IsSafe P sha256 created_ms I source (add_u32 source 1) (next_level_differs source)
        files target_files first rest s k level at_target
        (λ g m. (
          listed g m,
          at_source g (listed g m),
          run-range_subset first rest run (λ f n. ranges f (listed f n)) g m,
        ))

  select_and_merge-IsSafe :
      (batch window : ℕ) (now : ℤ) (s : L.State)
      → Safe s
          (select_and_merge P sha256 L created_ms source batch window now files target_files s).1
  unfolding select_and_merge
  select_and_merge-IsSafe batch window now s = elim (Bool-cases (ltb eligible batch)) [
    | inl e ↦ rw e (inl refl)
    | inr e ↦
        elim (Option-cases (contiguous_batch (map (λ f. f.range) (take eligible files)) batch)) [
          | inl n ↦ rw (e, n) (inl refl)
          | inr ((start, len), n) ↦
              let (fits, _, _, run) =
                contiguous_batch_sound (map (λ f. f.range) (take eligible files)) batch start len
                  n in
              let bound : start + len ≤ eligible = omega (
                arith,
                fits,
                length-map (λ (f : LayoutFile). f.range) (take eligible files),
                length-take eligible files,
              ) in
              rw (e, n)
                (merge_selected-IsSafe (take len (drop start files)) s
                  (λ g m. In-drop start files (In-take len (drop start files) m))
                  (subst IsRun (batch_ranges files eligible start len bound) run))
        ]
  ]
    where
      eligible : ℕ
      eligible = eligible_count P sha256 L created_ms source files window now

  -- The steps behind the listings.
  listed-IsSafe :
      (batch window : ℕ) (now : ℤ) (s : L.State)
      → Safe s
          ((converge_interrupted_delete P L target_files files
              >>= or_merge P sha256 L created_ms (
                  select_and_merge P sha256 L created_ms source batch window now files
                    target_files))
            s).1
  unfolding or_merge
  listed-IsSafe batch window now s =
      let converge = converge_interrupted_delete P L target_files files in
      let safe =
        converge-IsSafe P I source (add_u32 source 1) (next_level_differs source) files at_source
          target_files s k at_target in
      bind_post (λ t. Safe s t) converge _ s safe
        (λ outcome e. elim (Option-cases outcome) [
          | inl n ↦
              let idle =
                converge-none P I source (add_u32 source 1) (next_level_differs source) files
                  at_source target_files s (e ∙ ap ok n) in
              rw n (
                IsSafe-after P I (add_u32 source 1) files k (I.objects s) (I.objects (converge s).1)
                  _ (ap (λ (o : View). o k) idle)
                  (select_and_merge-IsSafe batch window now (converge s).1))
          | inr (o, n) ↦ rw n safe
        ])

module _ (P : Physical) (sha256 : Bytes → Bytes) {L : CompactionLayout} (created_ms : ℕ)
    (I : IsStore L) where
  -- Whatever a run does, and wherever it fails, each object of the source level is as it was, or it
  -- was listed there and its range lies within the range that the key of a stored object of the next
  -- level names, and that object decodes to a compacted changeset.
  pub run_level_compaction-IsSafe :
      (source : Level) (batch window : ℕ) (now : ℤ) (s : L.State) (k : String)
      → I.key_level k ≡ source
      → (I.objects (run_level_compaction P sha256 L created_ms source batch window now s).1 k
          ≡ I.objects s k)
        ⊎ (files : List LayoutFile) × ((L.list_level source s).0 ≡ ok files)
          × IsFolded P I
              (add_u32 source 1)
              files
              k
              (I.objects (run_level_compaction P sha256 L created_ms source batch window now s).1)
  unfolding run_level_compaction
  run_level_compaction-IsSafe source batch window now s k level =
      if_post Q (batch == 0) (pure no_op) (L.list_level source >>= behind_first) s (inl refl) (
        bind_post Q (L.list_level source) behind_first s (inl (ap (λ (o : View). o k) kept1))
          (λ files e1.
            bind_post Q (L.list_level (add_u32 source 1)) (behind_second files) s1
              (inl (ap (λ (o : View). o k) kept2))
              (λ target_files e2.
                elim (IsSafe-after P I (add_u32 source 1) files k (I.objects s) (I.objects s2)
                  (I.objects (behind_second files target_files s2).1) (ap (λ (o : View). o k) kept2)
                  (listed-IsSafe P sha256 created_ms I source files target_files
                    (λ f m. I.list_levels source s files f e1 m)
                    (λ f m. (
                      I.list_levels (add_u32 source 1) s1 target_files f e2 m,
                      I.list_names (add_u32 source 1) s1 target_files f e2 m,
                    ))
                    (λ f m. I.list_ranges source s files f e1 m) k level batch window now s2)) [
                      | inl same ↦ inl same
                      | inr folded ↦ inr (files, e1, folded)
                    ])))
    where
      Q : L.State → Type 0
      Q t =
          (I.objects t k ≡ I.objects s k)
          ⊎ (files : List LayoutFile) × ((L.list_level source s).0 ≡ ok files)
            × IsFolded P I (add_u32 source 1) files k (I.objects t)

      behind_second : List LayoutFile → List LayoutFile → M L.State CompactionOutcome
      behind_second files target_files =
          converge_interrupted_delete P L target_files files
          >>= or_merge P sha256 L created_ms
              (select_and_merge P sha256 L created_ms source batch window now files target_files)

      behind_first : List LayoutFile → M L.State CompactionOutcome
      behind_first files = L.list_level (add_u32 source 1) >>= behind_second files

      s1 : L.State
      s1 = (L.list_level source s).1

      kept1 : I.objects s1 ≡ I.objects s
      kept1 = I.list_keeps source s

      s2 : L.State
      s2 = (L.list_level (add_u32 source 1) s1).1

      kept2 : I.objects s2 ≡ I.objects s
      kept2 = I.list_keeps (add_u32 source 1) s1 ∙ kept1
