-- ===== src/Compaction/Prune/Retained.antt =====
-- Pruning below the watermark takes nothing that a retained restore needs.
use text.Mathlib.Text.{◌==◌ as str_eq}
use text.Mathlib.TextEquality.{eq_iff}
use walrust.Base.{
  ℕ, ◌≤◌, ◌≡◌, inl, inr, sym, ap, ◌∙◌, true, not, List, [], ◌∷◌, ◌++◌, map, arith, In, All, All-In,
  In-All, All-append, In-filter, filter-In, filter, any, any_sound, filter-filter, filter-map,
  filter-append, Bool-cases,
}
use walrust.Compaction.Layout.{SeqRange, LayoutFile, IsOrdered}
use walrust.Compaction.Planner.{PlanCandidate, plan_restore}
use walrust.Compaction.Planner.Chain.{AllOrdered}
use walrust.Compaction.Planner.Gather.{to_candidate, relevant, plan_restore-relevant}
use walrust.Compaction.Prune.{plan_level_prune, surviving}
use walrust.Compaction.Prune.Newest.{plan_level_prune_sound}

-- Files of one key have one range.
abbrev pub KeysFixRanges : List LayoutFile → Type 0
KeysFixRanges files =
    (f g : LayoutFile) → In f files → In g files → f.key ≡ g.key → f.range ≡ g.range

abbrev pub FilesOrdered : List LayoutFile → Type 0
FilesOrdered = All (λ f. IsOrdered f.range)

candidates-AllOrdered :
    (files : List LayoutFile) → FilesOrdered files → AllOrdered (map to_candidate files)
candidates-AllOrdered [] o = tt
candidates-AllOrdered (f ∷ files) o = (o.0, candidates-AllOrdered files o.1)

module _ (files : List LayoutFile) (watermark : ℕ) (fixed : KeysFixRanges files) where
  -- What goes ends below the watermark.
  kept_above :
      (f : LayoutFile)
      → In f files
      → watermark ≤ f.range.max
      → not (any (λ d. str_eq d.key f.key) (plan_level_prune files watermark)) ≡ true
  kept_above f i above =
      elim (Bool-cases (any (λ d. str_eq d.key f.key) (plan_level_prune files watermark))) [
        | inl e ↦
            let (d, m, same) = any_sound (λ d. str_eq d.key f.key) _ e in
            let p = plan_level_prune_sound files watermark d m in
            let r = fixed d f p.0 i ((eq_iff d.key f.key).0 same) in
            let below = p.1 in absurd (omega (arith, ap (λ (q : SeqRange). q.max) r))
        | inr e ↦ rw e
      ]

  -- Restores from a floor at or above the watermark are planned alike, or fail alike, before and
  -- after the prune, whatever other objects (`others`, such as the raw incrementals) there are, if
  -- no range is inverted and files of one key have one range.
  pub plan_restore-surviving :
      (others : List PlanCandidate) (floor target : ℕ)
      → FilesOrdered files
      → AllOrdered others
      → watermark ≤ floor
      → plan_restore
          (others ++ map to_candidate (surviving (plan_level_prune files watermark) files))
          floor
          target
        ≡ plan_restore (others ++ map to_candidate files) floor target
  unfolding surviving
  plan_restore-surviving others floor target of oo le =
      sym (plan_restore-relevant floor target _ ordered_survivors)
      ∙ ap (λ cs. plan_restore cs floor target) same
      ∙ plan_restore-relevant floor target _ ordered_files
    where
      survivors : List LayoutFile
      survivors = surviving (plan_level_prune files watermark) files

      ordered_files : AllOrdered (others ++ map to_candidate files)
      ordered_files =
          All-append (λ c. IsOrdered c.range) others _ oo (candidates-AllOrdered files of)

      ordered_survivors : AllOrdered (others ++ map to_candidate survivors)
      ordered_survivors =
          All-append (λ c. IsOrdered c.range) others _ oo
            (candidates-AllOrdered survivors (
              In-All (λ f. IsOrdered f.range) survivors
                (λ f m. All-In (λ f. IsOrdered f.range) files of (In-filter _ files m))))

      same :
          filter (relevant floor target) (others ++ map to_candidate survivors)
          ≡ filter (relevant floor target) (others ++ map to_candidate files)
      same =
          rw (filter-append, filter-append, filter-map, filter-map)
            (ap (λ fs. filter (relevant floor target) others ++ map to_candidate fs)
              (filter-filter _ _ files (λ f i r. kept_above f i (ground (arith, le)))))

  -- No level that holds objects is emptied: at each level the objects that end last stay.
  pub surviving-newest :
      (f : LayoutFile)
      → In f files
      → ((g : LayoutFile) → In g files → g.level ≡ f.level → g.range.max ≤ f.range.max)
      → ((g : LayoutFile) → In g files → g.key ≡ f.key → g.level ≡ f.level)
      → In f (surviving (plan_level_prune files watermark) files)
  unfolding surviving
  surviving-newest f i newest keyed =
      filter-In _ files i
        (elim (Bool-cases (any (λ d. str_eq d.key f.key) (plan_level_prune files watermark))) [
          | inl e ↦
              let (d, m, same) = any_sound (λ d. str_eq d.key f.key) _ e in
              let p = plan_level_prune_sound files watermark d m in
              let k = (eq_iff d.key f.key).0 same in
              let r = ap (λ (q : SeqRange). q.max) (fixed d f p.0 i k) in
              let (g, j, l, later) = p.2 in
              let top = newest g j (l ∙ keyed d p.0 k) in absurd (omega arith)
          | inr e ↦ rw e
        ])
