-- ===== src/Compaction/Engine/Safety.antt =====
-- What a compaction run may do to the objects of its source level: the words in which the safety
-- of `run_level_compaction` is stated, and the rules by which it is followed through the monad.
pub mod Reads
pub mod Spans
pub mod Covers
pub mod Leftovers
pub mod Converge
pub mod Fresh
pub mod Recover
pub mod Run
use walrust.Base.{
  ◌≡◌, ◌⊎◌, Bool, true, false, if◌then◌else◌, Option, some, List, String, Result, ok, err, Bytes,
  In, Result-cases, inl, inr,
}
use walrust.Compaction.Layout.{Level, LayoutFile}
use walrust.Compaction.Engine.Select.{range_subset}
use walrust.Compaction.Engine.Store.{Physical, M, ◌>>=◌, CompactionLayout, IsStore}

-- The objects of a bucket, by their keys.
abbrev pub View : Type 0
View = String → Option Bytes

-- The keys of the files are of the level.
abbrev pub AtLevel : {L : CompactionLayout} → IsStore L → Level → List LayoutFile → Type 0
AtLevel I l files = (f : LayoutFile) → In f files → I.key_level f.key ≡ l

-- The file's key is of the level, and names its range.
abbrev pub IsNamed : {L : CompactionLayout} → IsStore L → Level → LayoutFile → Type 0
IsNamed I l f = (I.key_level f.key ≡ l) × (I.key_range f.key ≡ f.range)

abbrev pub AreNamed : {L : CompactionLayout} → IsStore L → Level → List LayoutFile → Type 0
AreNamed I l files = (f : LayoutFile) → In f files → IsNamed I l f

module _ (P : Physical) {L : CompactionLayout} (I : IsStore L) (target : Level) where
  -- The file is an object of the target level, of the range that its key names, that decodes to a
  -- compacted changeset.
  abbrev pub HoldsCover : View → LayoutFile → Type 0
  HoldsCover o f =
      IsNamed I target f
      × (b : Bytes) × (o f.key ≡ some b)
      × (cs : P.Changeset) × (P.decode b ≡ some cs)
      × (P.is_compacted cs ≡ true)

  -- The key is that of a listed file whose range is within that of such an object.
  abbrev pub IsFolded : List LayoutFile → String → View → Type 0
  IsFolded files k o =
      (g : LayoutFile) × In g files
      × (g.key ≡ k)
      × (f : LayoutFile) × HoldsCover o f
      × (range_subset g.range f.range ≡ true)

  -- The object is as it was, or folded.
  abbrev pub IsSafe : List LayoutFile → String → View → View → Type 0
  IsSafe files k o o' = (o' k ≡ o k) ⊎ IsFolded files k o'

-- A property of the objects after a step, whether it fails or goes on.
pub bind_post {κ} :
    {S A B : Type 0} (Q : S → Type κ) (m : M S A) (f : A → M S B) (s : S)
    → Q (m s).1
    → ((a : A) → (m s).0 ≡ ok a → Q (f a (m s).1).1)
    → Q ((m >>= f) s).1
unfolding ◌>>=◌
bind_post Q m f s failed next = elim (Result-cases (m s).0) [
  | inl (a, e) ↦ rw e (next a e)
  | inr (x, e) ↦ rw e failed
]

pub if_post {κ} :
    {S A : Type 0} (Q : S → Type κ) (b : Bool) (m n : M S A) (s : S)
    → Q (m s).1
    → Q (n s).1
    → Q ((if b then m else n) s).1
if_post Q true m n s p q = p
if_post Q false m n s p q = q
