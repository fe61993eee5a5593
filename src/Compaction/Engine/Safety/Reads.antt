-- ===== src/Compaction/Engine/Safety/Reads.antt =====
-- The operations of engine.rs that change no object.
use walrust.Base.{
  String, ap, inl, inr, ◌≡◌, refl, ◌∙◌, Bool, true, false, not, Option, none, some, List, [], ◌∷◌,
  ok, ℕ, ◌==◌, if◌then◌else◌,
}
use walrust.Compaction.Layout.{Level, LayoutFile}
use walrust.Compaction.Errors.{CompactionError}
use walrust.Compaction.Engine.Store.{Physical, M, pure, ensure, ◌>>=◌, CompactionLayout, IsStore}
use walrust.Compaction.Engine.Verify.{
  read_decoded, source_chain_end, min_evidence, max_evidence, endpoint_chain_evidence,
  verify_covers, verify_existing,
}
use walrust.Compaction.Engine.Safety.{View, IsSafe, bind_post}

module _ {L : CompactionLayout} (I : IsStore L) where
  pub record IsRead {A : Type 0} (m : M L.State A) : Type 0 where
    pub keeps : (s : L.State) → I.objects (m s).1 ≡ I.objects s

  pub pure-IsRead : {A : Type 0} (a : A) → IsRead (pure a)
  pure-IsRead a = record { keeps = λ s. refl }

  pub bind-IsRead :
      {A B : Type 0} {m : M L.State A} {f : A → M L.State B}
      → IsRead m
      → ((a : A) → IsRead (f a))
      → IsRead (m >>= f)
  bind-IsRead {m = m} {f = f} r n = record {
    keeps = λ s.
        bind_post (λ t. I.objects t ≡ I.objects s) m f s (r.keeps s)
          (λ a e. (n a).keeps _ ∙ r.keeps s);
  }

  pub if-IsRead :
      {A : Type 0} {m n : M L.State A} (b : Bool)
      → IsRead m
      → IsRead n
      → IsRead (if b then m else n)
  if-IsRead true r q = r
  if-IsRead false r q = q

  pub ensure-IsRead : (b : Bool) (e : CompactionError) → IsRead (ensure b e)
  ensure-IsRead true e = record { keeps = λ s. refl }
  ensure-IsRead false e = record { keeps = λ s. refl }

  module _ (P : Physical) where
    pub read_decoded-IsRead : (f : LayoutFile) → IsRead (read_decoded P L f)
    unfolding read_decoded
    read_decoded-IsRead f =
        bind-IsRead (record { keeps = I.read_keeps f }) (λ b. record { keeps = λ s. refl })

    source_chain_end-IsRead : (f : LayoutFile) → IsRead (source_chain_end P L f)
    unfolding source_chain_end
    source_chain_end-IsRead f =
        bind-IsRead (record { keeps = I.header_keeps f }) (λ h. end h.declared_end_checksum)
      where
        end :
            (o : Option ℕ)
            → IsRead (elim o [
              | some e ↦ pure e
              | none ↦ (read_decoded P L f >>= λ cs. pure (P.chain_end cs))
            ])
        end none = bind-IsRead (read_decoded-IsRead f) (λ cs. pure-IsRead _)
        end (some e) = pure-IsRead _

    min_evidence-IsRead :
        (c : LayoutFile) (cs : P.Changeset) (f : LayoutFile) → IsRead (min_evidence P L c cs f)
    unfolding min_evidence
    min_evidence-IsRead c cs f =
        if-IsRead (f.range.min == c.range.min)
          (bind-IsRead (record { keeps = I.header_keeps f }) (λ h. pure-IsRead _)) (pure-IsRead _)

    max_evidence-IsRead :
        (c : LayoutFile) (cs : P.Changeset) (f : LayoutFile) → IsRead (max_evidence P L c cs f)
    unfolding max_evidence
    max_evidence-IsRead c cs f =
        if-IsRead (f.range.max == c.range.max)
          (bind-IsRead (source_chain_end-IsRead f) (λ e. pure-IsRead _)) (pure-IsRead _)

    pub endpoint_chain_evidence-IsRead :
        (c : LayoutFile) (cs : P.Changeset) (subs : List LayoutFile)
        → IsRead (endpoint_chain_evidence P L c cs subs)
    unfolding endpoint_chain_evidence
    endpoint_chain_evidence-IsRead c cs [] = pure-IsRead _
    endpoint_chain_evidence-IsRead c cs (f ∷ subs) = bind-IsRead (min_evidence-IsRead c cs f) (λ a.
        if-IsRead (not a) (pure-IsRead _) (
          bind-IsRead (max_evidence-IsRead c cs f)
            (λ b. if-IsRead (not b) (pure-IsRead _) (endpoint_chain_evidence-IsRead c cs subs))))

    pub verify_covers-IsRead : (c : LayoutFile) → IsRead (verify_covers P L c)
    unfolding verify_covers
    verify_covers-IsRead c = bind-IsRead (read_decoded-IsRead c) (λ cs.
        bind-IsRead (ensure-IsRead _ _) (λ t. bind-IsRead (ensure-IsRead _ _) (λ u. pure-IsRead _)))

    pub verify_existing-IsRead : (e f g : LayoutFile) → IsRead (verify_existing P L e f g)
    unfolding verify_existing
    verify_existing-IsRead e f g = bind-IsRead (read_decoded-IsRead e) (λ cs.
        bind-IsRead (ensure-IsRead _ _) (λ t.
          bind-IsRead (record { keeps = I.header_keeps f })
            (λ h. bind-IsRead (ensure-IsRead _ _) (λ u. bind-IsRead (ensure-IsRead _ _) (λ v.
              bind-IsRead (read_decoded-IsRead g) (λ ls.
                bind-IsRead (ensure-IsRead _ _)
                  (λ w. bind-IsRead (ensure-IsRead _ _) (λ x. pure-IsRead _))))))))

module _ (P : Physical) {L : CompactionLayout} (I : IsStore L) (target : Level)
    (files : List LayoutFile) where
  -- What is safe from a state in which the object is as it was is safe.
  pub IsSafe-after :
      (k : String) (o o1 o2 : View)
      → o1 k ≡ o k
      → IsSafe P I target files k o1 o2
      → IsSafe P I target files k o o2
  IsSafe-after k o o1 o2 kept (inl same) = inl (same ∙ kept)
  IsSafe-after k o o1 o2 kept (inr folded) = inr folded

  pub read-IsSafe :
      (k : String) (o : View) {A B : Type 0} {m : M L.State A} (f : A → M L.State B)
      → IsRead I m
      → (s : L.State) → I.objects s k ≡ o k
      → ((a : A)
          → (m s).0 ≡ ok a
          → I.objects (m s).1 k ≡ o k
          → IsSafe P I target files k o (I.objects (f a (m s).1).1))
      → IsSafe P I target files k o (I.objects ((m >>= f) s).1)
  read-IsSafe k o {m = m} f r s kept next =
      let now = ap (λ (v : View). v k) (r.keeps s) ∙ kept in
      bind_post (λ t. IsSafe P I target files k o (I.objects t)) m f s (inl now)
        (λ a e. next a e now)
