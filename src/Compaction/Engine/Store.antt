-- ===== src/Compaction/Engine/Store.antt =====
-- The trait `CompactionLayout` of layout.rs, as an interface: operations on a store that may fail
-- and change it, what is assumed of a store, and of the changeset decoder of hadb-changeset.
use walrust.Base.{
  ℕ, ◌≡◌, ◌≢◌, Option, some, Bool, true, false, List, String, Result, ok, err, Bytes, In, ◌≤◌, ◌<◌,
  u64_max,
}
use walrust.Compaction.Layout.{Level, SeqRange, LayoutFile}
use walrust.Compaction.Errors.{CompactionError}
use walrust.Compaction.Header.{SourceHeader}
use walrust.Compaction.Merge.{PageStream}

-- `hadb_changeset::physical`: decoding, and what the engine reads of a changeset.
pub record Physical : Type 1 where
  pub Changeset : Type 0
  pub decode : Bytes → Option Changeset
  pub is_compacted : Changeset → Bool
  pub prev_checksum : Changeset → ℕ
  pub seq : Changeset → ℕ
  pub page_count : Changeset → ℕ
  pub pages_len : Changeset → ℕ
  pub chain_end : Changeset → ℕ

-- A fallible operation on a store. What was done before an error stays done.
abbrev pub M : Type 0 → Type 0 → Type 0
M S A = S → Result A CompactionError × S

abbrev pub pure {ℓ} : {S : Type 0} {A : Type ℓ} → A → S → Result A CompactionError × S
pure a s = (ok a, s)

abbrev pub raise : {S A : Type 0} → CompactionError → M S A
raise e s = (err e, s)

module _ {S A B : Type 0} where
  abbrev pub continue : Result A CompactionError → (A → M S B) → M S B
  continue (ok a) f s = f a s
  continue (err e) f s = (err e, s)

  infixl 5 ◌>>=◌ ◌>>◌
  unfoldable pub ◌>>=◌ : M S A → (A → M S B) → M S B
  ◌>>=◌ m f s = continue (m s).0 f (m s).1

  abbrev pub ◌>>◌ : M S A → M S B → M S B
  m >> k = m >>= λ _. k

-- `if !test { return Err(e) }`
abbrev pub ensure : {S : Type 0} → Bool → CompactionError → M S (Unit {0})
ensure true e s = (ok tt, s)
ensure false e s = (err e, s)

-- The result, an error or not, as a value: `match op.await { Ok.. Err.. }`.
abbrev pub attempt : {S A : Type 0} → M S A → M S (Result A CompactionError)
attempt m s = (ok (m s).0, (m s).1)

pub record CompactionLayout : Type 1 where
  pub State : Type 0
  pub list_level : Level → M State (List LayoutFile)
  pub read_header : LayoutFile → M State SourceHeader
  pub open_source : LayoutFile → M State PageStream
  pub write_merged : Level → SeqRange → Bytes → M State LayoutFile
  pub read_bytes : LayoutFile → M State Bytes
  pub delete : List LayoutFile → M State (Unit {0})

-- What the engine relies on. Reads change no object and return what is stored; a listing lists keys
-- of its level, each with the range that the key's name gives, which is not inverted and ends below
-- the last number; a write touches only a key of its level, whose name gives the range that was
-- asked for; and a deletion only the keys it is given, of which it may delete any part.
pub record IsStore (L : CompactionLayout) : Type 0 where
  pub objects : L.State → String → Option Bytes
  pub key_level : String → Level
  pub key_range : String → SeqRange
  pub list_keeps : (l : Level) (s : L.State) → objects (L.list_level l s).1 ≡ objects s
  pub header_keeps : (f : LayoutFile) (s : L.State) → objects (L.read_header f s).1 ≡ objects s
  pub open_keeps : (f : LayoutFile) (s : L.State) → objects (L.open_source f s).1 ≡ objects s
  pub read_keeps : (f : LayoutFile) (s : L.State) → objects (L.read_bytes f s).1 ≡ objects s
  pub read_stored :
      (f : LayoutFile) (s : L.State) (b : Bytes)
      → (L.read_bytes f s).0 ≡ ok b
      → objects s f.key ≡ some b
  pub list_levels :
      (l : Level) (s : L.State) (files : List LayoutFile) (f : LayoutFile)
      → (L.list_level l s).0 ≡ ok files
      → In f files
      → key_level f.key ≡ l
  pub list_names :
      (l : Level) (s : L.State) (files : List LayoutFile) (f : LayoutFile)
      → (L.list_level l s).0 ≡ ok files
      → In f files
      → key_range f.key ≡ f.range
  pub list_ranges :
      (l : Level) (s : L.State) (files : List LayoutFile) (f : LayoutFile)
      → (L.list_level l s).0 ≡ ok files
      → In f files
      → (f.range.min ≤ f.range.max) × (f.range.max < u64_max)
  pub write_level :
      (l : Level) (r : SeqRange) (b : Bytes) (s : L.State) (f : LayoutFile)
      → (L.write_merged l r b s).0 ≡ ok f
      → (key_level f.key ≡ l) × (f.range ≡ r) × (key_range f.key ≡ r)
  pub write_keeps :
      (l : Level) (r : SeqRange) (b : Bytes) (s : L.State) (k : String)
      → key_level k ≢ l
      → objects (L.write_merged l r b s).1 k ≡ objects s k
  pub delete_keeps :
      (files : List LayoutFile) (s : L.State) (k : String)
      → ((f : LayoutFile) → In f files → f.key ≢ k)
      → objects (L.delete files s).1 k ≡ objects s k
