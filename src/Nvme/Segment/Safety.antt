-- ===== src/Nvme/Segment/Safety.antt =====
-- internal/store/nvme/segment.go: what the parsers do on the bytes of a torn or foreign file.
use kvstash.Prelude.{
  ℕ, zero, suc, ◌+◌, ◌*◌, ◌≤◌, ◌≡◌, ◌≢◌, refl, List, [], ◌∷◌, ◌-◌, take, drop, inl, inr, Bool-cases,
  length, leb, leb→le, arith,
}
use kvstash.Outcome.{ok, panic}
use kvstash.Bytes.{Bytes, word, u_at-ok, sub-ok}
use kvstash.Nvme.Segment.{
  SegmentError, FooterEntry, read_entry, read_entries, decode_entries, parse_record_header,
  decode_trailer,
}
use kvstash.Nvme.Segment.Records.{parse_record_header-ne-panic}
use kvstash.Nvme.Segment.Trailers.{decode_trailer-ne-panic}

read_entry-inside :
    (pos : ℕ) (b : Bytes) → pos + 52 ≤ length b → (e : FooterEntry) × (read_entry pos b ≡ ok e)
unfolding read_entry
read_entry-inside pos b h =
    let a1 = u_at-ok {E = SegmentError} 4 pos b (omega arith) in
    let a2 = sub-ok {E = SegmentError} (pos + 4) (pos + 36) b (omega arith) (omega arith) in
    let a3 = u_at-ok {E = SegmentError} 4 (pos + 36) b (omega arith) in
    let a4 = u_at-ok {E = SegmentError} 4 (pos + 40) b (omega arith) in
    let a5 = u_at-ok {E = SegmentError} 8 (pos + 44) b (omega arith) in
    (
      record {
        ns = word 4 pos b;
        key = take (pos + 36 - (pos + 4)) (drop (pos + 4) b);
        off = word 4 (pos + 36) b;
        len = word 4 (pos + 40) b;
        xxh3 = word 8 (pos + 44) b;
      },
      rw (a1, a2, a3, a4, a5) refl,
    )

read_entries-inside :
    (k i : ℕ) (b : Bytes)
    → (i + k) * 52 ≤ length b
    → (es : List FooterEntry) × (read_entries k i b ≡ ok es) × (length es ≡ k)
unfolding read_entries
read_entries-inside zero i b h = ([], refl, refl)
read_entries-inside (suc k) i b h =
    let one = read_entry-inside (i * 52) b (omega arith) in
    let rest = read_entries-inside k (i + 1) b (omega arith) in
    (one.0 ∷ rest.0, rw (one.1, rest.1) refl, omega (arith, rest.2))

decode_entries-ne-panic : (b : Bytes) (count : ℕ) → decode_entries b count ≢ panic
unfolding decode_entries
decode_entries-ne-panic b count = elim (Bool-cases (leb (count * 52) (length b))) [
  | inl g ↦
      let r = read_entries-inside count 0 b (omega (arith, leb→le (count * 52) (length b) g)) in
      rw (g, r.1) (λ e. cc e)
  | inr g ↦ rw g (λ e. cc e)
]

-- Whatever bytes a segment file holds, the parsers of a record header, of the entry table and of the
-- trailer return a value or an error: none of them panics.
pub parsers-ne-panic :
    (b : Bytes) (max_len count seg_id : ℕ)
    → (parse_record_header b max_len ≢ panic)
      × (decode_entries b count ≢ panic)
      × (decode_trailer b seg_id ≢ panic)
parsers-ne-panic b max_len count seg_id = (
  parse_record_header-ne-panic b max_len,
  decode_entries-ne-panic b count,
  decode_trailer-ne-panic b seg_id,
)
