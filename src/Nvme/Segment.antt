-- ===== src/Nvme/Segment.antt =====
-- internal/store/nvme/segment.go: the records of a segment file, its entry table and its trailer.
pub mod Records
pub mod Entries
pub mod Trailers
pub mod Safety
use kvstash.Prelude.{
  ℕ, zero, suc, ◌+◌, ◌-◌, ◌*◌, ◌%◌, ◌^◌, not, List, [], ◌∷◌, ◌++◌, length, replicate, ltb, leb,
  ◌==◌, if◌then◌else◌,
}
use kvstash.Outcome.{Outcome, ok, ◌>>=◌, ◌>>◌, guard}
use kvstash.Bytes.{Bytes, le, u_at, sub, put_at}
use kvstash.Protocol.Crc.{crc_update}

abbrev pub record_align : ℕ
record_align = 4096

abbrev pub record_hdr_size : ℕ
record_hdr_size = 56

abbrev pub footer_entry_size : ℕ
footer_entry_size = 52

abbrev pub trailer_size : ℕ
trailer_size = 64

abbrev pub record_magic : ℕ
record_magic = 0x5242564B

abbrev pub trailer_magic : ℕ
trailer_magic = 0x4642564B

abbrev pub segment_version : ℕ
segment_version = 1

-- The errors that the parsers return, one for each `fmt.Errorf`.
pub data SegmentError : Type 0 where
  record_short bad_record_magic record_too_long : SegmentError
  table_short : SegmentError
  trailer_short bad_trailer_magic bad_trailer_version wrong_segment : SegmentError

-- `roundUpAlign`, on uint64.
pub round_up_align : ℕ → ℕ
round_up_align n = let s = (n + 4095) % 2 ^ 64 in s - s % 4096

pub record_span : ℕ → ℕ
unfolding round_up_align
record_span payload_len = round_up_align (record_hdr_size + payload_len)

pub min_segment_bytes : ℕ → ℕ
unfolding record_span
min_segment_bytes max_blob_len = record_span max_blob_len + 2 * record_align + trailer_size

pub record RecordHeader : Type 0 where
  pub ns : ℕ
  pub key : Bytes
  pub len : ℕ
  pub xxh3 : ℕ

-- The 56 bytes that `appendRecord` fills in, the reserved word zero.
pub header_bytes : RecordHeader → Bytes
header_bytes h =
    le 4 record_magic ++ (le 4 h.ns ++ (h.key ++ (le 4 h.len ++ (le 4 0 ++ le 8 h.xxh3))))

pub append_record : Bytes → RecordHeader → Bytes → Bytes
unfolding header_bytes record_span
append_record dst h payload =
    let framed = (dst ++ header_bytes h) ++ payload in
    framed ++ replicate (length dst + record_span h.len - length framed) 0

pub parse_record_header : Bytes → ℕ → Outcome SegmentError RecordHeader
parse_record_header b max_len = do
  guard (leb record_hdr_size (length b)) record_short
  m ← u_at 4 0 b
  guard (m == record_magic) bad_record_magic
  ns ← u_at 4 4 b
  key ← sub 8 40 b
  len ← u_at 4 40 b
  xxh3 ← u_at 8 48 b
  guard (leb len max_len) record_too_long
  ok (record { ns = ns; key = key; len = len; xxh3 = xxh3 })

pub record FooterEntry : Type 0 where
  pub ns : ℕ
  pub key : Bytes
  pub off : ℕ
  pub len : ℕ
  pub xxh3 : ℕ

-- The writes of one entry at its place in the table.
pub write_entry : ℕ → FooterEntry → Bytes → Outcome SegmentError Bytes
write_entry pos e out = do
  out1 ← put_at pos (le 4 e.ns) out
  out2 ← put_at (pos + 4) e.key out1
  out3 ← put_at (pos + 36) (le 4 e.off) out2
  out4 ← put_at (pos + 40) (le 4 e.len) out3
  put_at (pos + 44) (le 8 e.xxh3) out4

pub write_entries : ℕ → List FooterEntry → Bytes → Outcome SegmentError Bytes
unfolding write_entry
write_entries i [] out = ok out
write_entries i (e ∷ es) out = do
  out' ← write_entry (i * footer_entry_size) e out
  write_entries (i + 1) es out'

pub encode_entries : List FooterEntry → Outcome SegmentError Bytes
unfolding write_entries round_up_align
encode_entries entries =
    write_entries 0 entries (replicate (round_up_align (length entries * footer_entry_size)) 0)

pub read_entry : ℕ → Bytes → Outcome SegmentError FooterEntry
read_entry pos b = do
  ns ← u_at 4 pos b
  key ← sub (pos + 4) (pos + 36) b
  off ← u_at 4 (pos + 36) b
  len ← u_at 4 (pos + 40) b
  xxh3 ← u_at 8 (pos + 44) b
  ok (record { ns = ns; key = key; off = off; len = len; xxh3 = xxh3 })

-- The entries i, i + 1, … , as many as the first argument says.
pub read_entries : ℕ → ℕ → Bytes → Outcome SegmentError (List FooterEntry)
unfolding read_entry
read_entries zero i b = ok []
read_entries (suc k) i b = do
  e ← read_entry (i * footer_entry_size) b
  es ← read_entries k (i + 1) b
  ok (e ∷ es)

pub decode_entries : Bytes → ℕ → Outcome SegmentError (List FooterEntry)
unfolding read_entries
decode_entries b count = do
  guard (leb (count * footer_entry_size) (length b)) table_short
  read_entries count 0 b

pub record Trailer : Type 0 where
  pub entry_count : ℕ
  pub data_end : ℕ
  pub footer_off : ℕ
  pub seg_id : ℕ
  pub crc : ℕ

pub encode_trailer : Trailer → Bytes
encode_trailer t =
    le 4 trailer_magic
    ++ (le 4 segment_version
        ++ (le 4 t.entry_count
            ++ (le 4 t.data_end
                ++ (le 4 t.footer_off ++ (le 4 t.seg_id ++ (replicate 36 0 ++ le 4 t.crc))))))

pub decode_trailer : Bytes → ℕ → Outcome SegmentError Trailer
decode_trailer b want_seg_id = do
  guard (leb trailer_size (length b)) trailer_short
  m ← u_at 4 0 b
  guard (m == trailer_magic) bad_trailer_magic
  v ← u_at 4 4 b
  guard (v == segment_version) bad_trailer_version
  entry_count ← u_at 4 8 b
  data_end ← u_at 4 12 b
  footer_off ← u_at 4 16 b
  seg_id ← u_at 4 20 b
  crc ← u_at 4 60 b
  guard (seg_id == want_seg_id) wrong_segment
  ok (record {
    entry_count = entry_count;
    data_end = data_end;
    footer_off = footer_off;
    seg_id = seg_id;
    crc = crc;
  })

pub seal_crc : Bytes → Bytes → ℕ
seal_crc entry_table trailer_prefix60 = crc_update (crc_update 0 entry_table) trailer_prefix60
