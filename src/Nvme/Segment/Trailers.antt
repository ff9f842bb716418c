-- ===== src/Nvme/Segment/Trailers.antt =====
-- internal/store/nvme/segment.go: the trailer of a sealed segment.
use kvstash.Prelude.{ℕ, ◌%◌, ◌^◌, ◌<◌, ◌≡◌, ◌≢◌, refl, false, List, All, length, ◌==◌, arith}
use kvstash.Outcome.{ok, err, panic}
use kvstash.Bytes.{Bytes, of_le-le, u_at}
use kvstash.Nvme.Segment.{
  wrong_segment, FooterEntry, Trailer, encode_entries, decode_entries, encode_trailer,
  decode_trailer,
}
use kvstash.Nvme.Segment.Entries.{FitsEntry, decode_entries-encode_entries}

-- The fields are uint32.
pub record FitsTrailer (t : Trailer) : Type 0 where
  pub entry_count : t.entry_count < 256 ^ 4
  pub data_end : t.data_end < 256 ^ 4
  pub footer_off : t.footer_off < 256 ^ 4
  pub seg_id : t.seg_id < 256 ^ 4
  pub crc : t.crc < 256 ^ 4

-- A trailer that was written is read back.
pub decode_trailer-encode_trailer :
    (t : Trailer) → FitsTrailer t → decode_trailer (encode_trailer t) t.seg_id ≡ ok t
unfolding decode_trailer encode_trailer u_at
decode_trailer-encode_trailer t f = rw (of_le-le 4 t.entry_count f.entry_count) (
    rw (of_le-le 4 t.data_end f.data_end) (
      rw (of_le-le 4 t.footer_off f.footer_off)
        (rw (of_le-le 4 t.seg_id f.seg_id) (rw (of_le-le 4 t.crc f.crc) (ground arith)))))

decode_trailer-refused :
    (t : Trailer) (want : ℕ)
    → FitsTrailer t
    → t.seg_id == want ≡ false
    → decode_trailer (encode_trailer t) want ≡ err wrong_segment
unfolding decode_trailer encode_trailer u_at
decode_trailer-refused t want f other = rw (of_le-le 4 t.entry_count f.entry_count) (
    rw (of_le-le 4 t.data_end f.data_end) (
      rw (of_le-le 4 t.footer_off f.footer_off)
        (rw (of_le-le 4 t.seg_id f.seg_id) (rw (of_le-le 4 t.crc f.crc) (rw other refl)))))

-- The footer of a segment: a trailer that was written is read back for its segment and refused for another, and an
-- entry table is written without a panic, in whole blocks, and reading as many entries as were written gives them
-- back. The fields fit, and the number of entries is a uint32.
pub footer_round_trip :
    (t : Trailer) (want : ℕ) (es : List FooterEntry)
    → FitsTrailer t
    → t.seg_id == want ≡ false
    → All FitsEntry es
    → length es < 256 ^ 4
    → (decode_trailer (encode_trailer t) t.seg_id ≡ ok t)
      × (decode_trailer (encode_trailer t) want ≡ err wrong_segment)
      × ((out : Bytes) × (encode_entries es ≡ ok out)
          × (decode_entries out (length es) ≡ ok es)
          × (length out % 4096 ≡ 0))
footer_round_trip t want es f other fits count = (
  decode_trailer-encode_trailer t f,
  decode_trailer-refused t want f other,
  decode_entries-encode_entries es fits count,
)

pub decode_trailer-ne-panic : (b : Bytes) (want : ℕ) → decode_trailer b want ≢ panic
unfolding decode_trailer u_at
decode_trailer-ne-panic b want = ground arith
