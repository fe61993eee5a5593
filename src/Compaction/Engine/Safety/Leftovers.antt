-- ===== src/Compaction/Engine/Safety/Leftovers.antt =====
-- `converge_interrupted_delete` deletes only files that lie within a stored cover.
use walrust.Base.{
  ◌≡◌, ◌≢◌, ◌⊎◌, inl, inr, refl, List, [], ◌∷◌, ◌++◌, Result, ok, err, In, here, there, In-append,
  Bool-cases, any, subst,
}
use text.Mathlib.Text.{◌==◌ as str_eq}
use walrust.Compaction.Layout.{Level, LayoutFile}
use walrust.Compaction.Errors.{CompactionError}
use walrust.Compaction.Engine.Select.{tiles_exactly}
use walrust.Compaction.Engine.Store.{Physical, CompactionLayout, IsStore}
use walrust.Compaction.Engine.Verify.{endpoint_chain_evidence}
use walrust.Compaction.Engine.Converge.{
  Leftovers, covered_by, add_leftovers, get_or_insert, is_storage, take_cover, is_nil, consider,
  find_leftovers,
}
use walrust.Compaction.Engine.Safety.{View}
use walrust.Compaction.Engine.Safety.Reads.{
  IsRead, pure-IsRead, bind-IsRead, if-IsRead, endpoint_chain_evidence-IsRead, verify_covers-IsRead,
}
use walrust.Compaction.Engine.Safety.Covers.{bind_ok, AreCovered}

In-add_leftovers :
    (deletable subs : List LayoutFile) {g : LayoutFile}
    → In g (add_leftovers deletable subs)
    → In g deletable ⊎ In g subs
unfolding add_leftovers
In-add_leftovers deletable [] m = inl m
In-add_leftovers deletable (s ∷ subs) m =
    elim (Bool-cases (any (λ d. str_eq d.key s.key) deletable)) [
      | inl e ↦ later (In-add_leftovers deletable subs (rw e at m))
      | inr e ↦ elim (In-add_leftovers (deletable ++ (s ∷ [])) subs (rw e at m)) [
        | inl n ↦ elim (In-append deletable (s ∷ []) n) [ inl o ↦ inl o | inr o ↦ inr (first o) ]
        | inr n ↦ inr (there n)
      ]
    ]
  where
    later : {g : LayoutFile} → In g deletable ⊎ In g subs → In g deletable ⊎ In g (s ∷ subs)
    later (inl n) = inl n
    later (inr n) = inr (there n)

    first : {g : LayoutFile} → In g (s ∷ []) → In g (s ∷ subs)
    first here = here
    first (there n) = elim n [ ]

module _ (P : Physical) {L : CompactionLayout} (I : IsStore L) where
  take_cover-IsRead :
      (m : LayoutFile) (subs : List LayoutFile) (acc : Leftovers)
      (r : Result P.Changeset CompactionError)
      → IsRead I (take_cover P L m subs acc r)
  unfolding take_cover
  take_cover-IsRead m subs acc (err e) = elim (Bool-cases (is_storage e)) [
    | inl q ↦ rw q (record { keeps = λ s. refl })
    | inr q ↦ rw q (pure-IsRead I _)
  ]
  take_cover-IsRead m subs acc (ok cs) =
      bind-IsRead I (endpoint_chain_evidence-IsRead I P m cs subs) (λ a. pure-IsRead I _)

  pub consider-IsRead :
      (m : LayoutFile) (subs : List LayoutFile) (acc : Leftovers)
      → IsRead I (consider P L m subs acc)
  unfolding consider
  consider-IsRead m subs acc = if-IsRead I (is_nil subs) (pure-IsRead I _) (
      if-IsRead I (tiles_exactly subs m.range) (pure-IsRead I _) (
        bind-IsRead I (record { keeps = (verify_covers-IsRead I P m).keeps })
          (λ r. take_cover-IsRead m subs acc r)))

  pub find_leftovers-IsRead :
      (sources target_files : List LayoutFile) (acc : Leftovers)
      → IsRead I (find_leftovers P L sources target_files acc)
  unfolding find_leftovers
  find_leftovers-IsRead sources [] acc = pure-IsRead I _
  find_leftovers-IsRead sources (m ∷ target_files) acc =
      bind-IsRead I (consider-IsRead m (covered_by m sources) acc)
        (λ acc'. find_leftovers-IsRead sources target_files acc')

  module _ (source target : Level) (differ : source ≢ target) (files : List LayoutFile)
      (o : View) where
    abbrev pub Covered : List LayoutFile → Type 0
    Covered sources = AreCovered P I source target differ files o sources

    pub take_cover-Covered :
        (m : LayoutFile) (acc : Leftovers) (s : L.State) (r : Result P.Changeset CompactionError)
        {acc' : Leftovers} (subs : List LayoutFile)
        → Covered acc.deletable
        → ((cs : P.Changeset) → r ≡ ok cs → Covered subs)
        → (take_cover P L m subs acc r s).0 ≡ ok acc'
        → Covered acc'.deletable
    unfolding take_cover
    take_cover-Covered m acc s (err e) {acc' = acc'} subs c v h = elim (Bool-cases (is_storage e)) [
      | inl q ↦ absurd (cc (rw (q, take_cover) at h))
      | inr q ↦
          let same : acc ≡ acc' = cc (rw (q, take_cover) at h) in
          subst (λ (a : Leftovers). Covered a.deletable) same c
    ]
    take_cover-Covered m acc s (ok cs) {acc' = acc'} subs c v h =
        let (agrees, e, q) = bind_ok (endpoint_chain_evidence P L m cs subs) _ s h in
        elim (Bool-cases agrees) [
          | inl t ↦
              let same : record {
                deletable = add_leftovers acc.deletable subs;
                cover = get_or_insert acc.cover m;
              }
                  ≡ acc' =
                cc (rw t at q) in
              subst (λ (a : Leftovers). Covered a.deletable) same
                (λ g n. elim (In-add_leftovers acc.deletable subs n) [
                  | inl i ↦ c g i
                  | inr i ↦ v cs refl g i
                ])
          | inr t ↦
              let same : acc ≡ acc' = cc (rw t at q) in
              subst (λ (a : Leftovers). Covered a.deletable) same c
        ]
