-- ===== src/Compaction/Engine/Verify.antt =====
-- The engine's checks of merged objects, and the chain evidence at a cover's ends.
use walrust.Base.{
  ℕ, Bool, true, false, not, none, some, List, [], ◌∷◌, String, ◌||◌, ◌==◌, ◌%◌, ◌^◌, if◌then◌else◌,
  Result, ok, err, Bytes,
}
use walrust.Compaction.Layout.{LayoutFile}
use walrust.Compaction.Errors.{CompactionError, verification_failed, decode}
use walrust.Compaction.Engine.Store.{Physical, M, pure, ensure, ◌>>=◌, ◌>>◌, CompactionLayout}

module _ (P : Physical) where
  unfoldable pub decode_at : String → Bytes → Result P.Changeset CompactionError
  decode_at key bytes = elim (P.decode bytes) [ some cs ↦ ok cs | none ↦ err (decode key) ]

  -- `verify_merged_bytes` of merge.rs
  unfoldable pub verify_merged_bytes : Bytes → ℕ → ℕ → ℕ → Result P.Changeset CompactionError
  verify_merged_bytes bytes expected_prev expected_end expected_count = elim (P.decode bytes) [
    | none ↦ err (decode "<merged output>")
    | some cs ↦
        if not (P.is_compacted cs)
        then err verification_failed
        else if not (P.prev_checksum cs == expected_prev)
        then err verification_failed
        else if not (P.chain_end cs == expected_end)
        then err verification_failed
        else if not (P.page_count cs == expected_count)
            || not ((P.pages_len cs % 2 ^ 32) == expected_count)
        then err verification_failed
        else ok cs
  ]

module _ (P : Physical) (L : CompactionLayout) where
  unfoldable pub read_decoded : LayoutFile → M L.State P.Changeset
  unfolding decode_at
  read_decoded f = do bytes ← L.read_bytes f; (λ s. (decode_at P f.key bytes, s))

  unfoldable pub source_chain_end : LayoutFile → M L.State ℕ
  unfolding read_decoded
  source_chain_end f = do
    h ← L.read_header f
    elim h.declared_end_checksum [
      | some e ↦ pure e
      | none ↦ (do cs ← read_decoded f; pure (P.chain_end cs))
    ]

  -- A source at the cover's first number must have the cover's `prev_checksum`.
  unfoldable pub min_evidence : LayoutFile → P.Changeset → LayoutFile → M L.State Bool
  min_evidence cover cs f =
      if f.range.min == cover.range.min
      then (do h ← L.read_header f; pure (h.prev_checksum == P.prev_checksum cs))
      else pure true

  -- A source at the cover's last number must have the cover's chain end.
  unfoldable pub max_evidence : LayoutFile → P.Changeset → LayoutFile → M L.State Bool
  unfolding source_chain_end
  max_evidence cover cs f =
      if f.range.max == cover.range.max
      then (do e ← source_chain_end f; pure (e == P.chain_end cs))
      else pure true

  unfoldable pub endpoint_chain_evidence :
      LayoutFile → P.Changeset → List LayoutFile → M L.State Bool
  unfolding min_evidence max_evidence
  endpoint_chain_evidence cover cs [] = pure true
  endpoint_chain_evidence cover cs (f ∷ subs) = do
    a ← min_evidence cover cs f
    if not a then pure false else do
      b ← max_evidence cover cs f
      if not b then pure false else endpoint_chain_evidence cover cs subs

  unfoldable pub verify_covers : LayoutFile → M L.State P.Changeset
  unfolding read_decoded
  verify_covers covering = do
    cs ← read_decoded covering
    ensure (P.is_compacted cs) verification_failed
    ensure (not (P.pages_len cs == 0)) verification_failed
    pure cs

  -- The sources run from `first` to `last`.
  unfoldable pub verify_existing : LayoutFile → LayoutFile → LayoutFile → M L.State (Unit {0})
  unfolding read_decoded
  verify_existing existing first last = do
    cs ← read_decoded existing
    ensure (P.is_compacted cs) verification_failed
    first_header ← L.read_header first
    ensure (P.prev_checksum cs == first_header.prev_checksum) verification_failed
    ensure (P.seq cs == last.range.max) verification_failed
    last_cs ← read_decoded last
    ensure (P.chain_end cs == P.chain_end last_cs) verification_failed
    ensure (not (P.pages_len cs == 0)) verification_failed
    pure tt
