-- ===== src/Compaction/Merge/Roundtrip.antt =====
-- The header that the merge writes is the one that the engine reads.
use walrust.Base.{
  ℕ, ◌^◌, ◌<◌, ◌≡◌, refl, ◌∙◌, ap, false, Option, none, some, ◌++◌, ok, Bytes, be_bytes, from_be,
  to_i64, lt→ltb, length, arith, ℤ, pos, ltb,
}
use walrust.Compaction.Header.{PageIdSize, u32, u64, SourceHeader, parse_source_header}
use walrust.Compaction.Merge.Output.{out_header, out_flags}

from_be-be_bytes_4 : (n : ℕ) → n < 2 ^ 32 → from_be (be_bytes 4 n) ≡ n
from_be-be_bytes_4 n h = omega (arith, h)

from_be-be_bytes_8 : (n : ℕ) → n < 2 ^ 64 → from_be (be_bytes 8 n) ≡ n
from_be-be_bytes_8 n h = omega (arith, h)

-- What the parser reads of the words that were written.
abbrev header_of : PageIdSize → ℕ → ℕ → ℕ → ℕ → ℤ → ℕ → SourceHeader
header_of size page_size out_seq prev_checksum page_count created_ms declared_end = record {
  page_id_size = size;
  page_size = page_size;
  seq = out_seq;
  prev_checksum = prev_checksum;
  page_count = page_count;
  created_ms = created_ms;
  declared_end_checksum = some declared_end;
}

parse-words :
    (size : PageIdSize) (epc : Option ℕ)
    (page_size out_seq prev_checksum page_count created_ms declared_end : ℕ) (body : Bytes)
    → parse_source_header (
        out_header size
          (out_flags epc)
          page_size
          out_seq
          prev_checksum
          page_count
          created_ms
          declared_end
        ++ body)
      ≡ ok (
          header_of size
            (from_be (be_bytes 4 page_size))
            (from_be (be_bytes 8 out_seq))
            (from_be (be_bytes 8 prev_checksum))
            (from_be (be_bytes 4 page_count))
            (to_i64 (from_be (be_bytes 8 created_ms)))
            (from_be (be_bytes 8 declared_end)))
unfolding parse_source_header out_header out_flags
parse-words u32 none a b c d e f body =
    let long : ltb (length (out_header u32 0x80 a b c d e f ++ body)) 40 ≡ false = ground arith in
    let longer : ltb (length (out_header u32 0x80 a b c d e f ++ body)) 48 ≡ false = ground arith in
    rw (long, longer) refl
parse-words u32 (some x) a b c d e f body =
    let long : ltb (length (out_header u32 0x81 a b c d e f ++ body)) 40 ≡ false = ground arith in
    let longer : ltb (length (out_header u32 0x81 a b c d e f ++ body)) 48 ≡ false = ground arith in
    rw (long, longer) refl
parse-words u64 none a b c d e f body =
    let long : ltb (length (out_header u64 0x80 a b c d e f ++ body)) 40 ≡ false = ground arith in
    let longer : ltb (length (out_header u64 0x80 a b c d e f ++ body)) 48 ≡ false = ground arith in
    rw (long, longer) refl
parse-words u64 (some x) a b c d e f body =
    let long : ltb (length (out_header u64 0x81 a b c d e f ++ body)) 40 ≡ false = ground arith in
    let longer : ltb (length (out_header u64 0x81 a b c d e f ++ body)) 48 ≡ false = ground arith in
    rw (long, longer) refl

to_i64_pos : (n : ℕ) → n < 2 ^ 63 → to_i64 n ≡ pos n
to_i64_pos n h = rw (lt→ltb n (2 ^ 63) h) refl

-- The parser reads the header in front of any pages back: sizes, numbers, checksums and the
-- declared end, with the compacted flag, if the words fit and the time is not past the last `i64`.
pub parse_source_header-out_header :
    (size : PageIdSize) (epc : Option ℕ)
    (page_size out_seq prev_checksum page_count created_ms declared_end : ℕ) (body : Bytes)
    → page_size < 2 ^ 32
    → out_seq < 2 ^ 64
    → prev_checksum < 2 ^ 64
    → page_count < 2 ^ 32
    → created_ms < 2 ^ 63
    → declared_end < 2 ^ 64
    → parse_source_header (
        out_header size
          (out_flags epc)
          page_size
          out_seq
          prev_checksum
          page_count
          created_ms
          declared_end
        ++ body)
      ≡ ok (record {
        page_id_size = size;
        page_size = page_size;
        seq = out_seq;
        prev_checksum = prev_checksum;
        page_count = page_count;
        created_ms = pos created_ms;
        declared_end_checksum = some declared_end;
      })
parse_source_header-out_header size epc a b c d e f body ha hb hc hd he hf =
    let pa = from_be-be_bytes_4 a ha in
    let pb = from_be-be_bytes_8 b hb in
    let pc = from_be-be_bytes_8 c hc in
    let pd = from_be-be_bytes_4 d hd in
    let pe = ap to_i64 (from_be-be_bytes_8 e (omega (arith, he))) ∙ to_i64_pos e he in
    let pf = from_be-be_bytes_8 f hf in parse-words size epc a b c d e f body ∙ cc
