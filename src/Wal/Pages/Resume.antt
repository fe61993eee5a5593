-- ===== src/Wal/Pages/Resume.antt =====
-- crates/walrust-core/src/wal.rs: reading the log in steps, each from the offset and the chain of the
-- one before, returns what one reading does.
use walrust.Base.{
  ℕ, ◌+◌, ◌*◌, ◌≤◌, ◌<◌, ◌≡◌, ◌≢◌, false, Option, some, [], ◌++◌, map, length, length-take,
  take-append-drop, take, drop, ap, sym, ◌∙◌, ok, if◌then◌else◌, ◌==◌, Bytes, arith,
}
use walrust.Wal.Checksum.{Chain}
use walrust.Wal.Header.{HeaderSeed, header_seed}
use walrust.Wal.Frame.{frame_size}
use walrust.Wal.Reading.{Checks, still, full_frames, checks, seed_chain, start_pos}
use walrust.Wal.Committed.{frames_at}
use walrust.Wal.Committed.Grow.{frames_at-append, header_seed-append}
use walrust.Wal.Committed.Fits.{committed_from, EndsWith-pos, frames_at-prefix}
use walrust.Wal.Pages.{parsed, PagesRead, read_frames_as_pages_checked}
use walrust.Wal.Pages.Still.{pages_of, read_pages-still}
use walrust.Wal.Pages.Sound.{read_pages-inv, read_pages-IsSound}
use walrust.Wal.Pages.Continue.{joined, beyond, start_pos_lem, resumed}

module _ (page_size : ℕ) (bytes more : Bytes) (start_offset : ℕ) (chain_seed : Option Chain)
    (r q : PagesRead) where
  abbrev kept_bytes : Bytes
  kept_bytes = take r.new_offset bytes

  abbrev reading : Option HeaderSeed → ℕ → Option Chain → PagesRead
  reading h next after =
      pages_of (checks h next after) page_size next after (seed_chain h next after)
        (committed_from (checks h next after) page_size (kept_bytes ++ more) next)

  -- A log is read, then keeps its bytes up to the offset that the reading gave, with any bytes behind
  -- them, and is read from that offset and chain on: one reading of it from the first offset returns
  -- the frames of both readings, with the offset and the chain of the second, and with its size unless
  -- it returned no frames. The first reading begins behind the header and returns frames.
  pub read_pages_resume :
      32 ≤ start_pos start_offset
      → r.frames ≢ []
      → read_frames_as_pages_checked (still bytes) page_size start_offset chain_seed ≡ ok r
      → read_frames_as_pages_checked (still (kept_bytes ++ more)) page_size r.new_offset r.out_chain
        ≡ ok q
      → read_frames_as_pages_checked (still (kept_bytes ++ more)) page_size start_offset chain_seed
        ≡ ok (joined r q)
  read_pages_resume behind some_frames reads goes_on =
      let (h, header, same) = read_pages-inv page_size bytes start_offset chain_seed r reads in
      let from : ℕ = start_pos start_offset in
      let c : Checks = checks h from chain_seed in
      let s =
        read_pages-IsSound page_size bytes start_offset chain_seed r h header reads some_frames in
      let positive = EndsWith-pos c.validate c.against s.ends in
      let size : length kept_bytes ≡ r.new_offset =
        omega (arith, length-take r.new_offset bytes, s.inside) in
      let whole : kept_bytes ++ drop r.new_offset bytes ≡ bytes =
        take-append-drop r.new_offset bytes in
      let longer : 32 < r.new_offset =
        beyond from (length s.kept) page_size r.new_offset behind positive s.offset in
      let header' : header_seed (length (kept_bytes ++ more)) (kept_bytes ++ more) ≡ ok h =
        header_seed-append kept_bytes more (omega (arith, size, longer))
        ∙ sym
            (header_seed-append kept_bytes (drop r.new_offset bytes) (omega (arith, size, longer)))
        ∙ ap (λ b. header_seed (length b) b) whole
        ∙ header in
      let there : frames_at page_size kept_bytes (length s.kept) from ≡ s.kept =
        sym (
          frames_at-append page_size kept_bytes (drop r.new_offset bytes) (length s.kept) from
            (omega (arith, size, s.offset)))
        ∙ ap (λ b. frames_at page_size b (length s.kept) from) whole
        ∙ frames_at-prefix page_size bytes (full_frames page_size (length bytes) from) from s.kept
            s.tail s.splits in
      let differs : (from + length s.kept * frame_size page_size == 32) ≡ false =
        ground (arith, longer, s.offset) in
      let second = reading h in
      let last : second r.new_offset r.out_chain ≡ q = cc (
        sym (ap (λ n. ok (second n r.out_chain)) (start_pos_lem r.new_offset longer))
        ∙ sym (read_pages-still page_size (kept_bytes ++ more) r.new_offset r.out_chain h header')
        ∙ goes_on) in
      let handed_over : joined
            (record r {
              frames = map parsed s.kept;
              new_offset = from + length s.kept * frame_size page_size;
              out_chain = if c.validate then some s.chain else seed_chain h from chain_seed;
            })
            (second (from + length s.kept * frame_size page_size)
              (if c.validate then some s.chain else seed_chain h from chain_seed))
          ≡ joined r (second r.new_offset r.out_chain) =
        λ i.
          joined
            (record r {
              frames = sym s.frames i;
              new_offset = sym s.offset i;
              out_chain = sym s.out i;
            })
            (second (sym s.offset i) (sym s.out i)) in
      let whole_result =
        resumed page_size kept_bytes more from chain_seed h s.kept s.chain r.final_db_size
          (omega (arith, size, s.offset)) differs there s.passes s.ends in
      read_pages-still page_size (kept_bytes ++ more) start_offset chain_seed h header'
      ∙ ap ok (whole_result ∙ handed_over ∙ ap (joined r) last)
