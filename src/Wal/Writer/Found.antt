-- ===== src/Wal/Writer/Found.antt =====
-- crates/walrust-core/src/wal.rs: the search among the frames of a log that SQLite writes finds those
-- up to the last commit.
use walrust.Base.{
  ℕ, Bool, ◌<◌, ◌≡◌, refl, inl, inr, true, Option, none, some, List, [], ◌∷◌, map, length, All, ltb,
  if◌then◌else◌, Bool-cases, ap, sym, subst, arith,
}
use mathlib.Core.Path.{ap₂}
use walrust.Wal.Checksum.{Chain, IsWords}
use walrust.Wal.Header.{HeaderSeed}
use walrust.Wal.Frame.{db_size}
use walrust.Wal.Committed.{Prefix, committed}
use walrust.Wal.Pages.{ParsedFrame, parsed}
use walrust.Wal.Writer.{Logged, LogHeader, next_chain, header_chain}
use walrust.Wal.Writer.Frames.{
  from_be-be_bytes_4, IsLogged, written, written_frames, next_chain-IsWords, check_frame-written,
}

-- The writes up to the last that commits.
pub upto_commit : List Logged → List Logged
upto_commit [] = []
upto_commit (w ∷ ws) = elim (upto_commit ws) [
  | [] ↦ if ltb 0 w.db_size then w ∷ [] else []
  | v ∷ vs ↦ w ∷ v ∷ vs
]

-- What a reader is to return for them.
abbrev pub as_parsed : Logged → ParsedFrame
as_parsed w = record { page_number = w.page_number; db_size = w.db_size; page = w.page }

pub chain_upto : Bool → Chain → List Logged → Chain
chain_upto be s [] = s
chain_upto be s (w ∷ ws) = chain_upto be (next_chain be s w) ws

abbrev pub size_of_last : List Logged → ℕ
size_of_last [] = 0
size_of_last (w ∷ []) = w.db_size
size_of_last (w ∷ v ∷ vs) = size_of_last (v ∷ vs)

module _ (l : LogHeader) (salts : IsWords l.salt) where
  abbrev be : Bool
  be = l.big_endian

  abbrev pub h : HeaderSeed
  h = record { seed = header_chain l; big_endian = l.big_endian; salt = l.salt }

  -- What the search finds among the frames that were written.
  abbrev pub Finds : Chain → List Logged → Option Prefix → Type 0
  Finds s vs none = vs ≡ []
  Finds s vs (some p) =
      (0 < length vs)
      × (map parsed p.frames ≡ map as_parsed vs)
      × (p.chain ≡ chain_upto be s vs)
      × (p.size ≡ size_of_last vs)

  as_parsed-written :
      (next : Chain) (w : Logged)
      → IsLogged l.page_size w
      → parsed (written be l.salt next w) ≡ as_parsed w
  as_parsed-written next w (number, size, whole) = λ i. record {
    page_number = from_be-be_bytes_4 w.page_number number i;
    db_size = from_be-be_bytes_4 w.db_size size i;
    page = w.page;
  }

  Finds-cons :
      (s : Chain) (w : Logged)
      → IsLogged l.page_size w
      → (vs : List Logged) (o : Option Prefix) → Finds (next_chain be s w) vs o
      → Finds s
          (elim vs [ [] ↦ if ltb 0 w.db_size then w ∷ [] else [] | v ∷ us ↦ w ∷ v ∷ us ])
          (elim o [
            | some p ↦
                some (record p { frames = written be l.salt (next_chain be s w) w ∷ p.frames })
            | none ↦
                if ltb 0 (db_size (written be l.salt (next_chain be s w) w))
                then some (record {
                  frames = written be l.salt (next_chain be s w) w ∷ [];
                  chain = next_chain be s w;
                  size = db_size (written be l.salt (next_chain be s w) w);
                })
                else none
          ])
  unfolding chain_upto
  Finds-cons s w fit [] (some p) (positive, frames, chain, size) = absurd (omega (arith, positive))
  Finds-cons s w fit (v ∷ us) none e = absurd (cc e)
  Finds-cons s w fit (v ∷ us) (some p) (positive, frames, chain, size) =
      (omega arith, ap₂ ◌∷◌ (as_parsed-written (next_chain be s w) w fit) frames, chain, size)
  Finds-cons s w fit [] none e =
      subst
        (λ n. Finds s (if ltb 0 w.db_size then w ∷ [] else []) (
          if ltb 0 n
          then some (record {
            frames = written be l.salt (next_chain be s w) w ∷ [];
            chain = next_chain be s w;
            size = n;
          })
          else none))
        (sym (from_be-be_bytes_4 w.db_size fit.1))
        (elim (Bool-cases (ltb 0 w.db_size)) [
          | inl commits ↦ rw commits (
            omega arith,
            ap (λ f. f ∷ []) (as_parsed-written (next_chain be s w) w fit),
            refl,
            refl,
          )
          | inr plain ↦ rw plain refl
        ])

  pub committed-written :
      (s : Chain) (ws : List Logged)
      → IsWords s
      → All (IsLogged l.page_size) ws
      → Finds s (upto_commit ws) (committed true h s (written_frames be l.salt s ws))
  unfolding committed upto_commit written_frames chain_upto
  committed-written s [] hs fit = refl
  committed-written s (w ∷ ws) hs (fit, fits) =
      let n : Chain = next_chain be s w in
      rw (committed, check_frame-written be l.salt h s w refl refl salts hs)
        (Finds-cons s w fit (upto_commit ws) (committed true h n (written_frames be l.salt n ws))
          (committed-written n ws (next_chain-IsWords be l.salt s w hs) fits))
