-- ===== src/Compaction/Merge/Merged.antt =====
-- crates/walrust-core/src/compaction/merge.rs: the object that the merge makes, from its header to its
-- checksum.
use mathlib.Core.List.{append-nil}
use walrust.Base.{
  ℕ, suc, ◌≡◌, refl, ◌∙◌, sym, subst, inl, inr, List, [], ◌∷◌, ◌++◌, arith, ok, err, Result,
  Bool-cases, Result-cases, Option-cases, Option, none, some, length, map, Bytes, be_bytes,
}
use walrust.Compaction.Merge.LastWriter.{source_pages, IsMergeOf, declared_size, loop-IsMergeOf}
use walrust.Compaction.Errors.{CompactionError}
use walrust.Compaction.Header.{PageIdSize, SourceHeader}
use walrust.Compaction.Merge.{
  PageEntry, MergeInput, MergeState, page_bytes, emit_page, prime, flush, merge_loop,
}
use walrust.Compaction.Merge.Run.{Ascending}
use walrust.Compaction.Merge.Marks.{MarksOnce}
use walrust.Compaction.Merge.Emits.{written}
use walrust.Compaction.Merge.Output.{
  MergeResult, marker, emit_marker, out_flags, out_header, same_geometry, start, page_total, finish,
  after_loop, run_merge, merge_changesets, contiguous, chain_ends,
}

-- The marker of a declared size.
abbrev pub marker_bytes : PageIdSize → Option ℕ → Bytes
marker_bytes size none = []
marker_bytes size (some epc) = page_bytes size (marker size epc)

flush-epc :
    (size : PageIdSize) (st : MergeState)
    → (flush size st).final_end_page_count ≡ st.final_end_page_count
unfolding flush emit_page
flush-epc size st = ground arith

emit_marker-body :
    (size : PageIdSize) (st : MergeState)
    → (emit_marker size st).body ≡ st.body ++ marker_bytes size st.final_end_page_count
unfolding emit_marker emit_page
emit_marker-body size st = elim (Option-cases st.final_end_page_count) [
  | inl e ↦ rw (e, emit_marker) (sym (append-nil st.body))
  | inr (c, e) ↦ rw (e, emit_marker) refl
]

emit_marker-epc :
    (size : PageIdSize) (st : MergeState)
    → (emit_marker size st).final_end_page_count ≡ st.final_end_page_count
unfolding emit_marker emit_page
emit_marker-epc size st = ground arith

-- The object with the pages' bytes `body`, for which the size `epc` is declared.
abbrev pub IsObject : SourceHeader → ℕ → Option ℕ → Bytes → MergeResult → Type 0
IsObject first created_ms epc body out =
    (checksum : ℕ) × (out.bytes
      ≡ out_header first.page_id_size (out_flags epc) first.page_size out.out_seq
          first.prev_checksum out.page_count created_ms out.declared_end_checksum
        ++ (body ++ be_bytes 8 checksum))

ok_inj : {x y : MergeResult} → Path (Result MergeResult CompactionError) (ok x) (ok y) → x ≡ y
ok_inj e = cc

finish-IsObject :
    (sha256 : Bytes → Bytes) (first : SourceHeader) (sources : List MergeInput) (created_ms : ℕ)
    (st : MergeState) {out : MergeResult}
    → finish sha256 first sources created_ms st ≡ ok out
    → IsObject first created_ms
        (emit_marker first.page_id_size (flush first.page_id_size st)).final_end_page_count
        (emit_marker first.page_id_size (flush first.page_id_size st)).body
        out
unfolding finish
finish-IsObject sha256 first sources created_ms st {out} h =
    elim (Bool-cases (
      contiguous sha256 first.prev_checksum sources (
        chain_ends sha256 sources
          (emit_marker first.page_id_size (flush first.page_id_size st)).source_hashers))) [
            | inr e ↦ absurd (cc (rw (e, finish) at h))
            | inl e ↦
                let made = ok_inj (rw (e, finish) at h) in
                subst
                  (IsObject first created_ms
                    (emit_marker first.page_id_size
                      (flush first.page_id_size st)).final_end_page_count
                    (emit_marker first.page_id_size (flush first.page_id_size st)).body)
                  made (_, refl)
          ]

run_merge-ok :
    (sha256 : Bytes → Bytes) (first : SourceHeader) (sources : List MergeInput) (created_ms : ℕ)
    (out : MergeResult)
    → run_merge sha256 first sources created_ms ≡ some (ok out)
    → (st : MergeState) × (end : MergeState) × (prime first.page_id_size
          (length sources)
          (length sources)
          0
          (start first.prev_checksum sources)
        ≡ ok st)
      × (merge_loop first.page_id_size
            (length sources)
            (suc (page_total (map (λ s. s.stream) sources)))
            st
          ≡ some (ok end))
      × (finish sha256 first sources created_ms end ≡ ok out)
unfolding run_merge after_loop
run_merge-ok sha256 first sources created_ms out h =
    elim (Result-cases (
      prime first.page_id_size (length sources) (length sources) 0
        (start first.prev_checksum sources))) [
          | inr (x, p) ↦ absurd (cc (rw (p, run_merge) at h))
          | inl (st, p) ↦
              elim (Option-cases (
                merge_loop first.page_id_size (length sources)
                  (suc (page_total (map (λ s. s.stream) sources))) st)) [
                    | inl q ↦ absurd (cc (rw (p, q, run_merge) at h))
                    | inr (err x, q) ↦ absurd (cc (rw (p, q, run_merge) at h))
                    | inr (ok end, q) ↦ (st, end, p, q, cc (rw (p, q, run_merge) at h))
                  ]
        ]

-- If the page ids of each source ascend, and the last source has an empty page at its end only, then a
-- merge that succeeds makes the object whose pages are those of the sources, each page id once, in the
-- order of the ids and as the last source with that id has it, less the empty ones and those past the
-- size that the last source declares; behind them is the marker of that size, if one is declared.
pub merge_changesets-IsMergeOf :
    (sha256 : Bytes → Bytes) (s : MergeInput) (rest : List MergeInput) (created_ms : ℕ)
    (out : MergeResult)
    → ((i : ℕ) → Ascending (source_pages (s ∷ rest) i))
    → MarksOnce (source_pages (s ∷ rest) (length rest))
    → merge_changesets sha256 (s ∷ rest) created_ms ≡ some (ok out)
    → (pages : List PageEntry) × IsMergeOf (s ∷ rest) pages
      × IsObject s.header created_ms
          (declared_size (s ∷ rest) (length rest))
          (written s.header.page_id_size (declared_size (s ∷ rest) (length rest)) pages
            ++ marker_bytes s.header.page_id_size (declared_size (s ∷ rest) (length rest)))
          out
unfolding merge_changesets
merge_changesets-IsMergeOf sha256 s rest created_ms out ascending once h =
    elim (Bool-cases (same_geometry s.header (s ∷ rest))) [
      | inr g ↦ absurd (cc (rw (g, merge_changesets) at h))
      | inl g ↦
          let size : PageIdSize = s.header.page_id_size in
          let (st, end, p, q, done) =
            run_merge-ok sha256 s.header (s ∷ rest) created_ms out
              (rw (g, merge_changesets) at h) in
          let (pages, merged, body, epc) =
            loop-IsMergeOf size s.header.prev_checksum (s ∷ rest) (length rest)
              (suc (page_total (map (λ s. s.stream) (s ∷ rest)))) refl ascending once p q in
          let flushed : (flush size end).final_end_page_count
              ≡ declared_size (s ∷ rest) (length rest) =
            flush-epc size end ∙ epc in
          let known = emit_marker-epc size (flush size end) ∙ flushed in
          let all : (emit_marker size (flush size end)).body
              ≡ written size (declared_size (s ∷ rest) (length rest)) pages
                ++ marker_bytes size (declared_size (s ∷ rest) (length rest)) =
            emit_marker-body size (flush size end)
            ∙ (λ i. body i ++ marker_bytes size (flushed i)) in
          (
            pages,
            merged,
            subst
                (λ c.
                  IsObject s.header created_ms c
                    (written size (declared_size (s ∷ rest) (length rest)) pages
                      ++ marker_bytes size (declared_size (s ∷ rest) (length rest)))
                    out)
                known
                (subst
                  (λ b.
                    IsObject s.header created_ms
                      (emit_marker size (flush size end)).final_end_page_count b out)
                  all (finish-IsObject sha256 s.header (s ∷ rest) created_ms end done)),
          )
    ]
