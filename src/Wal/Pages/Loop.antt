-- ===== src/Wal/Pages/Loop.antt =====
-- crates/walrust-core/src/wal.rs: the loop of `read_frames_as_pages_checked`, on a file that nothing
-- writes to, finds the committed prefix.
use walrust.Base.{
  ℕ, zero, suc, ◌+◌, ◌*◌, ◌≤◌, ◌≡◌, refl, inl, inr, true, false, Option, none, some, List, [], ◌∷◌,
  ◌++◌, map, length, length-append, ltb, if◌then◌else◌, Bool-cases, ap, sym, subst, ◌∙◌, Result, ok,
  Bytes, arith,
}
use mathlib.Core.List.{append_assoc, append-nil}
use walrust.Wal.Checksum.{Chain}
use walrust.Wal.Header.{WalError}
use walrust.Wal.Frame.{Frame, db_size, frame_size, check_frame}
use walrust.Wal.Reading.{Checks}
use walrust.Wal.Committed.{Prefix, frame_at, frames_at, committed, read_frame_lem}
use walrust.Wal.Pages.{ParsedFrame, parsed, Progress, push_frame, pages_loop}

module _ (c : Checks) (unchecked : Option Chain) (page_size : ℕ) (bytes : Bytes) where
  abbrev loop : ℕ → ℕ → ℕ → Chain → Progress → Result Progress WalError
  loop = pages_loop c unchecked page_size (λ round. bytes)

  abbrev found : Chain → List Frame → Option Prefix
  found = committed c.validate c.against

  abbrev pub out_chain : Chain → Option Chain
  out_chain t = if c.validate then some t else unchecked

  -- From one state of the loop to another, where a prefix, or none, was found.
  abbrev pub Extends : Progress → Option Prefix → List ParsedFrame → Progress → Type 0
  Extends p none extra q =
      (q.frames ≡ p.frames ++ extra)
      × (q.committed_count ≡ p.committed_count)
      × (q.committed_chain ≡ p.committed_chain)
      × (q.final_db_size ≡ p.final_db_size)
  Extends p (some g) extra q =
      (q.frames ≡ p.frames ++ (map parsed g.frames ++ extra))
      × (q.committed_count ≡ length p.frames + length g.frames)
      × (q.committed_chain ≡ out_chain g.chain)
      × (q.final_db_size ≡ g.size)

  abbrev pub Ends : Progress → Option Prefix → Result Progress WalError → Type 0
  Ends p o r = (extra : List ParsedFrame) × (q : Progress) × (r ≡ ok q) × Extends p o extra q

  abbrev pushed : Chain → Frame → Progress → Progress
  pushed = push_frame c unchecked

  frames-push_frame :
      (s : Chain) (f : Frame) (p : Progress) → (pushed s f p).frames ≡ p.frames ++ (parsed f ∷ [])
  unfolding push_frame
  frames-push_frame s f p = ground arith

  -- The frame just pushed, and then what a prefix behind it adds.
  Extends-more :
      (s : Chain) (f : Frame) (p q : Progress) (g : Prefix) (extra : List ParsedFrame)
      → Extends (pushed s f p) (some g) extra q
      → Extends p (some (record g { frames = f ∷ g.frames })) extra q
  Extends-more s f p q g extra (frames, count, chain, size) = (
    frames
        ∙ ap (λ l. l ++ (map parsed g.frames ++ extra)) (frames-push_frame s f p)
        ∙ append_assoc p.frames (parsed f ∷ []) (map parsed g.frames ++ extra),
    omega
        (arith, count, ap length (frames-push_frame s f p), length-append p.frames (parsed f ∷ [])),
    chain,
    size,
  )

  push_frame-commit :
      (s : Chain) (f : Frame) (p : Progress)
      → ltb 0 (db_size f) ≡ true
      → pushed s f p ≡ record {
        frames = p.frames ++ (parsed f ∷ []);
        committed_count = length (p.frames ++ (parsed f ∷ []));
        committed_chain = out_chain s;
        final_db_size = db_size f;
      }
  unfolding push_frame
  push_frame-commit s f p commits = rw commits

  push_frame-plain :
      (s : Chain) (f : Frame) (p : Progress)
      → ltb 0 (db_size f) ≡ false
      → pushed s f p ≡ record p { frames = p.frames ++ (parsed f ∷ []) }
  unfolding push_frame
  push_frame-plain s f p plain = rw plain

  Extends-commit :
      (s : Chain) (f : Frame) (p q : Progress) (extra : List ParsedFrame)
      → ltb 0 (db_size f) ≡ true
      → Extends (pushed s f p) none extra q
      → Extends p (some (record { frames = f ∷ []; chain = s; size = db_size f })) extra q
  Extends-commit s f p q extra commits e =
      let (frames, count, chain, size) =
        subst (λ r. Extends r none extra q) (push_frame-commit s f p commits) e in
      (
        frames ∙ append_assoc p.frames (parsed f ∷ []) extra,
        omega (arith, count, length-append p.frames (parsed f ∷ [])),
        chain,
        size,
      )

  Extends-plain :
      (s : Chain) (f : Frame) (p q : Progress) (extra : List ParsedFrame)
      → ltb 0 (db_size f) ≡ false
      → Extends (pushed s f p) none extra q
      → Extends p none (parsed f ∷ extra) q
  Extends-plain s f p q extra plain e =
      let (frames, count, chain, size) =
        subst (λ r. Extends r none extra q) (push_frame-plain s f p plain) e in
      (frames ∙ append_assoc p.frames (parsed f ∷ []) extra, count, chain, size)

  -- What a round that passes does to the search.
  Ends-push :
      (s : Chain) (f : Frame) (p : Progress) (o : Option Prefix) (r : Result Progress WalError)
      → Ends (pushed s f p) o r
      → Ends p
          (elim o [
            | some g ↦ some (record g { frames = f ∷ g.frames })
            | none ↦
                if ltb 0 (db_size f)
                then some (record { frames = f ∷ []; chain = s; size = db_size f })
                else none
          ])
          r
  Ends-push s f p (some g) r (extra, q, e, x) = (extra, q, e, Extends-more s f p q g extra x)
  Ends-push s f p none r (extra, q, e, x) = elim (Bool-cases (ltb 0 (db_size f))) [
    | inl commits ↦ rw commits (extra, q, e, Extends-commit s f p q extra commits x)
    | inr plain ↦ rw plain (parsed f ∷ extra, q, e, Extends-plain s f p q extra plain x)
  ]

  stop : (p : Progress) → Ends p none (ok p)
  stop p = ([], p, refl, (sym (append-nil p.frames), refl, refl, refl))

  -- A round whose frame is there.
  loop-suc :
      (left round pos : ℕ) (s : Chain) (p : Progress)
      → pos + frame_size page_size ≤ length bytes
      → loop (suc left) round pos s p
        ≡ elim (check_frame c.validate c.against s (frame_at page_size bytes pos)) [
          | none ↦ ok p
          | some next ↦
              loop left
                (suc round)
                (pos + frame_size page_size)
                next
                (pushed next (frame_at page_size bytes pos) p)
        ]
  unfolding pages_loop
  loop-suc left round pos s p fits = rw (pages_loop, read_frame_lem page_size bytes pos fits)

  pub pages_loop_lem :
      (left round pos : ℕ) (s : Chain) (p : Progress)
      → pos + left * frame_size page_size ≤ length bytes
      → Ends p (found s (frames_at page_size bytes left pos)) (loop left round pos s p)
  unfolding committed pages_loop
  pages_loop_lem zero round pos s p fits = stop p
  pages_loop_lem (suc left) round pos s p fits =
      let f : Frame = frame_at page_size bytes pos in
      rw (loop-suc left round pos s p (omega (arith, fits)))
        (elim (check_frame c.validate c.against s f)
          as (λ o.
            Ends p
              (elim o [
                | none ↦ none
                | some next ↦
                    elim (found next
                      (frames_at page_size bytes left (pos + frame_size page_size))) [
                        | some g ↦ some (record g { frames = f ∷ g.frames })
                        | none ↦
                            if ltb 0 (db_size f)
                            then some (record { frames = f ∷ []; chain = next; size = db_size f })
                            else none
                      ]
              ])
              (elim o [
                | none ↦ ok p
                | some next ↦
                    loop left (suc round) (pos + frame_size page_size) next (pushed next f p)
              ])) [
                | none ↦ stop p
                | some next ↦
                    Ends-push next f p
                      (found next (frames_at page_size bytes left (pos + frame_size page_size)))
                      (loop left (suc round) (pos + frame_size page_size) next (pushed next f p))
                      (pages_loop_lem left (suc round) (pos + frame_size page_size) next
                        (pushed next f p) (omega (arith, fits)))
              ])
