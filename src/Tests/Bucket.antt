-- ===== src/Tests/Bucket.antt =====
-- A bucket in memory with two objects at level 0 and room for one at level 1, as a store on which
-- a compaction runs.
use text.Mathlib.Text.{◌==◌ as str_eq}
use text.Mathlib.TextEquality.{eq_iff}
use walrust.Base.{
  ℕ, ◌≤◌, ◌<◌, ◌≡◌, ◌≢◌, inl, inr, refl, sym, ap, subst, ◌∙◌, Bool, true, false, ◌&&◌, Option, none,
  some, List, [], ◌∷◌, ◌++◌, String, pos, Result, ok, err, Bytes, In, All-In, In-filter,
  test-filter, filter, any, any_sound, Bool-cases, Option-cases, ◌==◌, ==→eq, if◌then◌else◌, arith,
  drop, u64_max,
}
use walrust.Compaction.Layout.{Level, SeqRange, LayoutFile, range_eq}
use walrust.Compaction.Errors.{CompactionError, storage}
use walrust.Compaction.Header.{SourceHeader, u32, parse_source_header}
use walrust.Compaction.Merge.{PageStream}
use walrust.Compaction.Merge.Output.{out_header}
use walrust.Compaction.Engine.Store.{Physical, CompactionLayout, IsStore}

-- A changeset is its header; a decoder that reads no further.
abbrev pub headers : Physical
headers = record {
  Changeset = SourceHeader;
  decode = λ b. elim (parse_source_header b) [ ok h ↦ some h | err e ↦ none ];
  is_compacted = λ h. elim h.declared_end_checksum [ some e ↦ true | none ↦ false ];
  prev_checksum = λ h. h.prev_checksum;
  seq = λ h. h.seq;
  page_count = λ h. h.page_count;
  pages_len = λ h. h.page_count;
  chain_end = λ h. elim h.declared_end_checksum [ some e ↦ e | none ↦ 0 ];
}

abbrev pub State : Type 0
State = String → Option Bytes

abbrev point : String → Level → ℕ → ℕ → LayoutFile
point k l a b = record {
  key = k;
  level = l;
  range = record { min = a; max = b };
  last_modified_ms = pos 0;
}

abbrev pub catalog : List LayoutFile
catalog = point "a" 0 1 1 ∷ point "b" 0 2 2 ∷ point "m" 1 1 2 ∷ []

abbrev pub key_level : String → Level
key_level k = if str_eq k "m" then 1 else 0

-- What the names stand for; the range that "m" is written for is 1 to 2.
abbrev key_range : String → SeqRange
key_range k =
    if str_eq k "m"
    then record { min = 1; max = 2 }
    else if str_eq k "b"
    then record { min = 2; max = 2 }
    else record { min = 1; max = 1 }

abbrev stored : State → String → Bool
stored s k = elim (s k) [ some b ↦ true | none ↦ false ]

abbrev read : State → LayoutFile → Result Bytes CompactionError
read s f = elim (s f.key) [ some b ↦ ok b | none ↦ err storage ]

abbrev header_of : Result Bytes CompactionError → Result SourceHeader CompactionError
header_of (ok b) = parse_source_header b
header_of (err e) = err e

abbrev pages_of : Result Bytes CompactionError → Result PageStream CompactionError
pages_of (ok b) =
    ok (record { pages = record { page_id = 1; bytes = drop 48 b } ∷ []; fault = none })
pages_of (err e) = err e

abbrev here_at : Level → State → LayoutFile → Bool
here_at l s f = (key_level f.key == l) && stored s f.key

abbrev write : Level → SeqRange → Bytes → State → Result LayoutFile CompactionError × State
write l r b s =
    if (l == 1) && range_eq r (key_range "m")
    then (
      ok (record { key = "m"; level = 1; range = r; last_modified_ms = pos 0 }),
      λ k. if str_eq k "m" then some b else s k,
    )
    else (err storage, s)

abbrev remove : List LayoutFile → State → State
remove files s k = if any (λ f. str_eq f.key k) files then none else s k

abbrev pub bucket : CompactionLayout
bucket = record {
  State = State;
  list_level = λ l s. (ok (filter (here_at l s) catalog), s);
  read_header = λ f s. (header_of (read s f), s);
  open_source = λ f s. (pages_of (read s f), s);
  write_merged = write;
  read_bytes = λ f s. (read s f, s);
  delete = λ files s. (ok tt, remove files s);
}

pub read_stored : (f : LayoutFile) (s : State) (b : Bytes) → read s f ≡ ok b → s f.key ≡ some b
read_stored f s b h = elim (Option-cases (s f.key)) [
  | inl e ↦ absurd (cc (rw (e, read) at h))
  | inr (c, e) ↦ let same : c ≡ b = cc (rw (e, read) at h) in e ∙ ap some same
]

pub catalog_ranges :
    (f : LayoutFile) → In f catalog → (f.range.min ≤ f.range.max) × (f.range.max < u64_max)
catalog_ranges f m =
    All-In (λ (g : LayoutFile). (g.range.min ≤ g.range.max) × (g.range.max < u64_max)) catalog
      ((omega arith, omega arith), ((omega arith, omega arith), ((omega arith, omega arith), tt))) m

pub remove_keeps :
    (files : List LayoutFile) (s : State) (k : String)
    → ((f : LayoutFile) → In f files → f.key ≢ k)
    → remove files s k ≡ s k
remove_keeps files s k other = elim (Bool-cases (any (λ f. str_eq f.key k) files)) [
  | inl e ↦
      let (f, m, same) = any_sound (λ f. str_eq f.key k) files e in
      absurd (other f m ((eq_iff f.key k).0 same))
  | inr e ↦ rw e refl
]

pub write_keeps :
    (l : Level) (r : SeqRange) (b : Bytes) (s : State) (k : String)
    → key_level k ≢ l
    → (write l r b s).1 k ≡ s k
write_keeps l r b s k other = elim (Bool-cases (l == 1)) [
  | inl e ↦ elim (Bool-cases (range_eq r (key_range "m"))) [
    | inl n ↦ elim (Bool-cases (str_eq k "m")) [
      | inl q ↦ absurd (other (let m : key_level k ≡ 1 = rw q refl in m ∙ sym (==→eq l 1 e)))
      | inr q ↦ rw (e, n, q) refl
    ]
    | inr n ↦ rw (e, n) refl
  ]
  | inr e ↦ rw e refl
]

range_eq-eq : (a b : SeqRange) → range_eq a b ≡ true → a ≡ b
range_eq-eq a b h =
    let low : a.min ≡ b.min = ground (arith, h) in
    let high : a.max ≡ b.max = ground (arith, h) in λ i. record { min = low i; max = high i }

pub write_level :
    (l : Level) (r : SeqRange) (b : Bytes) (s : State) (f : LayoutFile)
    → (write l r b s).0 ≡ ok f
    → (key_level f.key ≡ l) × (f.range ≡ r) × (key_range f.key ≡ r)
write_level l r b s f h = elim (Bool-cases (l == 1)) [
  | inl e ↦ elim (Bool-cases (range_eq r (key_range "m"))) [
    | inl n ↦
        let wrote : record { key = "m"; level = 1; range = r; last_modified_ms = pos 0 } ≡ f =
          cc (rw (e, n) at h) in
        (
          ap (λ (x : LayoutFile). key_level x.key) (sym wrote) ∙ sym (==→eq l 1 e),
          ap (λ (x : LayoutFile). x.range) (sym wrote),
          ap (λ (x : LayoutFile). key_range x.key) (sym wrote)
              ∙ sym (range_eq-eq r (key_range "m") n),
        )
    | inr n ↦ absurd (cc (rw (e, n) at h))
  ]
  | inr e ↦ absurd (cc (rw e at h))
]

pub catalog_names : (f : LayoutFile) → In f catalog → key_range f.key ≡ f.range
catalog_names f m =
    All-In (λ (g : LayoutFile). key_range g.key ≡ g.range) catalog (refl, (refl, (refl, tt))) m

abbrev pub store_laws : IsStore bucket
store_laws = record {
  objects = λ s. s;
  key_level = key_level;
  key_range = key_range;
  list_keeps = λ l s. refl;
  header_keeps = λ f s. refl;
  open_keeps = λ f s. refl;
  read_keeps = λ f s. refl;
  read_stored = read_stored;
  list_levels = λ l s files f h m.
      let listed : filter (here_at l s) catalog ≡ files = cc in
      let n = subst (In f) (sym listed) m in
      let t = test-filter (here_at l s) catalog n in ground (arith, t);
  list_names = λ l s files f h m.
      let listed : filter (here_at l s) catalog ≡ files = cc in
      catalog_names f (In-filter (here_at l s) catalog (subst (In f) (sym listed) m));
  list_ranges = λ l s files f h m.
      let listed : filter (here_at l s) catalog ≡ files = cc in
      catalog_ranges f (In-filter (here_at l s) catalog (subst (In f) (sym listed) m));
  write_level = write_level;
  write_keeps = write_keeps;
  delete_keeps = remove_keeps;
}

-- Two compacted sources of one chain, from 0 by 7 to 9.
abbrev source_bytes : ℕ → ℕ → ℕ → Bytes
source_bytes seq prev last = out_header u32 0x80 4096 seq prev 1 1000 last ++ (seq ∷ seq ∷ [])

abbrev pub initial : State
initial k =
    if str_eq k "a"
    then some (source_bytes 1 0 7)
    else if str_eq k "b"
    then some (source_bytes 2 7 9)
    else none
