-- ===== src/Nvme/Witnesses.antt =====
-- A segment's codec at concrete inputs.
use kvstash.Prelude.{
  ℕ, false, List, ◌+◌, ◌%◌, ◌≡◌, ◌≢◌, refl, [], ◌∷◌, length, take, drop, replicate, arith,
}
use kvstash.Outcome.{ok, err, panic}
use kvstash.Bytes.{Bytes}
use kvstash.Shards.{empty-IsCounted}
use kvstash.Nvme.Index.{NvmeRef, NvmeIndex, nvme_get}
use kvstash.Nvme.Index.Refinement.{
  IsNvmeIndexed, Write, store, drop_if, writes, write_map, writes-write_map,
}
use kvstash.Nvme.Segment.{
  RecordHeader, FooterEntry, Trailer, append_record, parse_record_header, record_span,
  wrong_segment, encode_entries, decode_entries, encode_trailer, decode_trailer,
}
use kvstash.Nvme.Segment.Records.{FitsRecord, append_record-framed}
use kvstash.Nvme.Segment.Entries.{FitsEntry}
use kvstash.Nvme.Segment.Trailers.{footer_round_trip}
use kvstash.Nvme.Segment.Safety.{parsers-ne-panic}

abbrev payload : Bytes
payload = 1 ∷ 2 ∷ 3 ∷ []

abbrev header : RecordHeader
header = record { ns = 7; key = replicate 32 9; len = 3; xxh3 = 77 }

abbrev header-FitsRecord : FitsRecord header payload
header-FitsRecord = record {
  ns = omega arith;
  key = refl;
  len = refl;
  small = omega arith;
  xxh3 = omega arith;
}

append_record-framed_example :
    (parse_record_header (drop 3 (append_record payload header payload)) 100 ≡ ok header)
    × (take 3 (drop (3 + 56) (append_record payload header payload)) ≡ payload)
    × (length (append_record payload header payload) ≡ 3 + record_span 3)
    × (record_span 3 % 4096 ≡ 0)
append_record-framed_example =
    append_record-framed payload header payload 100 header-FitsRecord (omega arith)

abbrev entry : FooterEntry
entry = record { ns = 7; key = replicate 32 9; off = 4096; len = 3; xxh3 = 77 }

abbrev entry-FitsEntry : FitsEntry entry
entry-FitsEntry = record {
  ns = omega arith;
  key = refl;
  off = omega arith;
  len = omega arith;
  xxh3 = omega arith;
}

abbrev sealed : Trailer
sealed = record { entry_count = 2; data_end = 8192; footer_off = 8192; seg_id = 5; crc = 99 }

footer_round_trip_example :
    (decode_trailer (encode_trailer sealed) 5 ≡ ok sealed)
    × (decode_trailer (encode_trailer sealed) 6 ≡ err wrong_segment)
    × ((out : Bytes) × (encode_entries (entry ∷ entry ∷ []) ≡ ok out)
        × (decode_entries out 2 ≡ ok (entry ∷ entry ∷ []))
        × (length out % 4096 ≡ 0))
footer_round_trip_example =
    footer_round_trip sealed 6 (entry ∷ entry ∷ [])
      (record {
        entry_count = omega arith;
        data_end = omega arith;
        footer_off = omega arith;
        seg_id = omega arith;
        crc = omega arith;
      })
      refl (entry-FitsEntry, (entry-FitsEntry, tt)) (omega arith)

parsers-ne-panic_example :
    (parse_record_header payload 100 ≢ panic)
    × (decode_entries payload 4 ≢ panic)
    × (decode_trailer payload 5 ≢ panic)
parsers-ne-panic_example = parsers-ne-panic payload 100 4 5

abbrev demoted : NvmeRef
demoted = record {
  loc = (2, 4096, 700);
  len = 700;
  xxh3 = 5;
  s3 = false;
  s3_only = false;
  lease_until = 0;
  ttl_until = 0;
  last_access = 0;
  pin_flags = 0;
}

-- A block is demoted, demoted again to a later segment, and deleted.
abbrev history : List Write
history =
    store 9 demoted
    ∷ store 9 (record demoted { loc = (3, 4096, 800); len = 800 })
    ∷ store 300 demoted
    ∷ drop_if 300 (λ r. r.pin_flags)
    ∷ []

abbrev no_blocks : NvmeIndex
no_blocks = record { shards = λ i. []; blocks = 0; bytes = 0 }

writes-write_map_example :
    IsNvmeIndexed (writes (λ k. k % 256) (λ (n : ℕ). n + 1) 0 history no_blocks)
    × (nvme_get (λ k. k % 256) (writes (λ k. k % 256) (λ (n : ℕ). n + 1) 0 history no_blocks)
        ≡ write_map history (nvme_get (λ k. k % 256) no_blocks))
writes-write_map_example =
    writes-write_map (λ k. k % 256) (λ k. omega arith) (λ (n : ℕ). n + 1) 0 history no_blocks
      (empty-IsCounted (λ (r : NvmeRef). r.len) 256)
