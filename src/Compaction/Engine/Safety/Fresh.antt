-- ===== src/Compaction/Engine/Safety/Fresh.antt =====
-- `merge_fresh`: writing a merged object, and deleting its sources once it reads back sound.
use walrust.Base.{
  ℕ, ◌≡◌, ◌≢◌, inl, inr, refl, ◌∙◌, sym, ap, subst, Bool, true, false, not, ◌==◌, ◌||◌, ◌%◌, ◌^◌,
  some, List, [], ◌∷◌, String, Bytes, Result, ok, err, In, In-single, if◌then◌else◌, Option-cases,
  Result-cases, arith,
}
use walrust.Compaction.Layout.{Level, SeqRange, LayoutFile}
use walrust.Compaction.Errors.{CompactionError, verification_failed}
use walrust.Compaction.Merge.{MergeInput}
use walrust.Compaction.Merge.Output.{MergeResult, merge_changesets}
use walrust.Compaction.Engine.Select.{range_subset}
use walrust.Compaction.Engine.Store.{Physical, attempt, ◌>>=◌, CompactionLayout, IsStore}
use walrust.Compaction.Engine.Verify.{verify_merged_bytes}
use walrust.Compaction.Engine.Run.{
  open_inputs, run_merge_changesets, self_check, after_readback, merge_fresh,
}
use walrust.Compaction.Engine.Safety.{View, IsSafe, bind_post}
use walrust.Compaction.Engine.Safety.Reads.{
  IsRead, IsSafe-after, read-IsSafe, pure-IsRead, bind-IsRead,
}
use walrust.Compaction.Engine.Safety.Covers.{IsCompactedAt, delete-IsSafe}

-- A result that is no error passed the tests for it.
past_tests :
    {A : Type 0} (a b c d : Bool) (e : CompactionError) (x : A) {y : A}
    → (if a then err e else if b then err e else if c then err e else if d then err e else ok x)
      ≡ ok y
    → (a ≡ false) × (x ≡ y)
past_tests true b c d e x h = cc
past_tests false true c d e x h = cc
past_tests false false true d e x h = cc
past_tests false false false true e x h = cc
past_tests false false false false e x h = (refl, cc)

pub verify_merged_bytes_ok :
    (P : Physical) (b : Bytes) (prev last count : ℕ) {cs : P.Changeset}
    → verify_merged_bytes P b prev last count ≡ ok cs
    → (P.decode b ≡ some cs) × (P.is_compacted cs ≡ true)
unfolding verify_merged_bytes
verify_merged_bytes_ok P b prev last count {cs = cs} h = elim (Option-cases (P.decode b)) [
  | inl e ↦ absurd (cc (rw (e, verify_merged_bytes) at h))
  | inr (c, e) ↦
      let (packed, same) =
        past_tests (not (P.is_compacted c)) (not (P.prev_checksum c == prev))
          (not (P.chain_end c == last))
          (not (P.page_count c == count) || not ((P.pages_len c % 2 ^ 32) == count))
          verification_failed c (rw (e, verify_merged_bytes) at h) in
      let compacted : P.is_compacted c ≡ true = ground arith in
      (e ∙ ap some same, ap P.is_compacted (sym same) ∙ compacted)
]

module _ (P : Physical) (sha256 : Bytes → Bytes) {L : CompactionLayout} (created_ms : ℕ)
    (I : IsStore L) where
  open_inputs-IsRead :
      (files : List LayoutFile) → IsRead I (open_inputs P sha256 L created_ms files)
  unfolding open_inputs
  open_inputs-IsRead [] = pure-IsRead I _
  open_inputs-IsRead (f ∷ files) =
      bind-IsRead I (record { keeps = I.header_keeps f })
        (λ h.
          bind-IsRead I (record { keeps = I.open_keeps f })
            (λ t. bind-IsRead I (open_inputs-IsRead files) (λ rest. pure-IsRead I _)))

  merge-IsRead :
      (inputs : List MergeInput) → IsRead I (run_merge_changesets P sha256 L created_ms inputs)
  unfolding run_merge_changesets
  merge-IsRead inputs = record {
    keeps = λ s. elim (Option-cases (merge_changesets sha256 inputs created_ms)) [
      | inl e ↦ rw (e, run_merge_changesets) refl
      | inr (r, e) ↦ rw (e, run_merge_changesets) refl
    ];
  }

  self_check-IsRead :
      (r : MergeResult) (b : Bytes) → IsRead I (self_check P sha256 L created_ms r b)
  unfolding self_check
  self_check-IsRead r b = record {
    keeps = λ s.
        elim (Result-cases
          (verify_merged_bytes P b r.prev_checksum r.declared_end_checksum r.page_count)) [
            | inl (cs, e) ↦ rw (e, self_check) refl
            | inr (x, e) ↦ rw (e, self_check) refl
          ];
  }

  self_check_ok :
      (r : MergeResult) (b : Bytes) (s : L.State) {u : Unit {0}}
      → (self_check P sha256 L created_ms r b s).0 ≡ ok u
      → (cs : P.Changeset) × (P.decode b ≡ some cs) × (P.is_compacted cs ≡ true)
  unfolding self_check
  self_check_ok r b s h =
      elim (Result-cases
        (verify_merged_bytes P b r.prev_checksum r.declared_end_checksum r.page_count)) [
          | inl (cs, e) ↦ let (d, c) = verify_merged_bytes_ok P b _ _ _ e in (cs, d, c)
          | inr (x, e) ↦ absurd (cc (rw (e, self_check) at h))
        ]

  module _ (source target : Level) (differ : source ≢ target) (files : List LayoutFile) where
    -- The files are listed at the source level, and within the range.
    abbrev pub AreWithin : SeqRange → List LayoutFile → Type 0
    AreWithin range sources =
        (g : LayoutFile)
        → In g sources
        → In g files × (I.key_level g.key ≡ source) × (range_subset g.range range ≡ true)

    after_readback-IsSafe :
        (sources : List LayoutFile) (range : SeqRange) (output : LayoutFile)
        (sound : Result (Unit {0}) CompactionError) (s : L.State) (k : String)
        → I.key_level k ≡ source
        → (I.key_level output.key ≡ target)
          × (output.range ≡ range)
          × (I.key_range output.key ≡ range)
        → AreWithin range sources
        → ((u : Unit {0}) → sound ≡ ok u → IsCompactedAt P I (I.objects s) output)
        → IsSafe P I target files k
            (I.objects s)
            (I.objects (after_readback P sha256 L created_ms sources output sound s).1)
    unfolding after_readback
    after_readback-IsSafe sources range output (err e) s k level (at, _, _) within sound =
        let kept = I.delete_keeps (output ∷ []) s k (λ f m e. differ (
          sym level
          ∙ ap I.key_level (sym e)
          ∙ ap (λ (x : LayoutFile). I.key_level x.key) (In-single m)
          ∙ at)) in
        bind_post (λ t. IsSafe P I target files k (I.objects s) (I.objects t))
          (attempt (L.delete (output ∷ []))) _ s (inl kept) (λ r q. inl kept)
    after_readback-IsSafe sources range output (ok t) s k level (at, same, named) within sound =
        let (b, o, cs, d, c) = sound t refl in
        let safe = delete-IsSafe P I source target differ files sources s k (λ g m.
          let (listed, l, sub) = within g m in
          (
            listed,
            l,
            output,
            ((at, named ∙ sym same), b, o, cs, d, c),
            subst (λ (r : SeqRange). range_subset g.range r ≡ true) (sym same) sub,
          )) in
        bind_post (λ t. IsSafe P I target files k (I.objects s) (I.objects t)) (L.delete sources) _
          s safe (λ u q. safe)

    -- Behind the read-back, in the state `s` of which the output was read.
    finish-IsSafe :
        (range : SeqRange) (sources : List LayoutFile) (result : MergeResult) (output : LayoutFile)
        (readback : Bytes) (s : L.State) (k : String)
        → I.key_level k ≡ source
        → (I.key_level output.key ≡ target)
          × (output.range ≡ range)
          × (I.key_range output.key ≡ range)
        → AreWithin range sources
        → I.objects s output.key ≡ some readback
        → IsSafe P I target files k (I.objects s) (
            I.objects
              ((attempt (self_check P sha256 L created_ms result readback)
                  >>= after_readback P sha256 L created_ms sources output)
                s).1)
    finish-IsSafe range sources result output readback s k level at within stored =
        let view = (self_check-IsRead result readback).keeps s in
        bind_post (λ t. IsSafe P I target files k (I.objects s) (I.objects t))
          (attempt (self_check P sha256 L created_ms result readback)) _ s
          (inl (ap (λ (o : View). o k) view))
          (λ sound e.
            IsSafe-after P I target files k (I.objects s)
              (I.objects (self_check P sha256 L created_ms result readback s).1) _
              (ap (λ (o : View). o k) view)
              (after_readback-IsSafe sources range output sound _ k level at within (λ u q.
                let passed : (self_check P sha256 L created_ms result readback s).0 ≡ ok u = cc in
                let (cs, d, c) = self_check_ok result readback s passed in
                (readback, ap (λ (o : View). o output.key) view ∙ stored, cs, d, c))))

    -- Behind the write.
    written-IsSafe :
        (range : SeqRange) (sources : List LayoutFile) (result : MergeResult) (output : LayoutFile)
        (s : L.State) (k : String)
        → I.key_level k ≡ source
        → (I.key_level output.key ≡ target)
          × (output.range ≡ range)
          × (I.key_range output.key ≡ range)
        → AreWithin range sources
        → IsSafe P I target files k (I.objects s) (
            I.objects
              ((L.read_bytes output >>= λ readback.
                  attempt (self_check P sha256 L created_ms result readback)
                  >>= after_readback P sha256 L created_ms sources output)
                s).1)
    written-IsSafe range sources result output s k level at within =
        let view = I.read_keeps output s in
        read-IsSafe P I target files k (I.objects s) _ (record { keeps = I.read_keeps output }) s
          refl
          (λ readback e kept.
            IsSafe-after P I target files k (I.objects s) (I.objects (L.read_bytes output s).1) _
              kept
              (finish-IsSafe range sources result output readback _ k level at within
                (ap (λ (o : View). o output.key) view ∙ I.read_stored output s readback e)))

    pub merge_fresh-IsSafe :
        (range : SeqRange) (sources : List LayoutFile) (s : L.State) (k : String)
        → I.key_level k ≡ source
        → AreWithin range sources
        → IsSafe P I target files k
            (I.objects s)
            (I.objects (merge_fresh P sha256 L created_ms target range sources s).1)
    unfolding merge_fresh
    merge_fresh-IsSafe range sources s k level within =
        let o = I.objects s in
        let s1 = (open_inputs P sha256 L created_ms sources s).1 in
        read-IsSafe P I target files k o _ (open_inputs-IsRead sources) s refl (λ inputs e1 kept1.
          let s2 = (run_merge_changesets P sha256 L created_ms inputs s1).1 in
          read-IsSafe P I target files k o _ (merge-IsRead inputs) s1 kept1 (λ result e2 kept2.
            let s3 = (self_check P sha256 L created_ms result result.bytes s2).1 in
            let s4 = (L.write_merged target range result.bytes s3).1 in
            read-IsSafe P I target files k o _ (self_check-IsRead result result.bytes) s2 kept2
              (λ u e3 kept3.
                let kept : I.objects s4 k ≡ o k =
                  I.write_keeps target range result.bytes s3 k (λ e. differ (sym level ∙ e))
                  ∙ kept3 in
                bind_post (λ t. IsSafe P I target files k o (I.objects t))
                  (L.write_merged target range result.bytes) _ s3 (inl kept)
                  (λ output e4. IsSafe-after P I target files k o (I.objects s4) _ kept (
                    written-IsSafe range sources result output s4 k level
                      (I.write_level target range result.bytes s3 output e4) within)))))
