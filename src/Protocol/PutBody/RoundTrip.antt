-- ===== src/Protocol/PutBody/RoundTrip.antt =====
-- The fixed bodies decode to what was encoded, and no body makes their decoders panic.
use kvstash.Prelude.{
  ℕ, ◌^◌, ◌<◌, ◌≡◌, ◌≢◌, refl, ◌++◌, append_assoc, arith, length, drop, drop-append,
}
use kvstash.Outcome.{ok, panic}
use kvstash.Bytes.{Bytes, le, of_le-le, u_at}
use kvstash.Protocol.PutBody.{
  PutBegin, append_put_begin, decode_put_begin, append_put_commit, decode_put_commit,
  append_stats_req, decode_stats_req,
}

-- The ranges of the Go types of the fields.
pub record FitsPutBegin (b : PutBegin) : Type 0 where
  pub total_len : b.total_len < 256 ^ 4
  pub ttl_ms : b.ttl_ms < 256 ^ 4
  pub xxh3_hint : b.xxh3_hint < 256 ^ 8
  pub flags : b.flags < 256 ^ 4

abbrev begin_body : PutBegin → Bytes
begin_body b = le 4 b.total_len ++ (le 4 b.ttl_ms ++ (le 8 b.xxh3_hint ++ (le 4 b.flags ++ le 4 0)))

append_put_begin-body : (dst : Bytes) (b : PutBegin) → append_put_begin dst b ≡ dst ++ begin_body b
unfolding append_put_begin
append_put_begin-body dst b = simp append_assoc

decode-begin_body : (b : PutBegin) → FitsPutBegin b → decode_put_begin (begin_body b) ≡ ok b
unfolding decode_put_begin u_at
decode-begin_body b f = rw (of_le-le 4 b.total_len f.total_len) (
    rw (of_le-le 4 b.ttl_ms f.ttl_ms)
      (rw (of_le-le 8 b.xxh3_hint f.xxh3_hint) (rw (of_le-le 4 b.flags f.flags))))

-- BEGIN, COMMIT and STATS bodies, behind any prefix, decode to what was encoded.
pub put_bodies_round_trip :
    (dst : Bytes) (b : PutBegin) (sum sections : ℕ)
    → FitsPutBegin b
    → sum < 256 ^ 8
    → sections < 256 ^ 4
    → (decode_put_begin (drop (length dst) (append_put_begin dst b)) ≡ ok b)
      × (decode_put_commit (drop (length dst) (append_put_commit dst sum)) ≡ ok sum)
      × (decode_stats_req (drop (length dst) (append_stats_req dst sections)) ≡ ok sections)
unfolding append_put_commit append_stats_req decode_put_commit decode_stats_req u_at
put_bodies_round_trip dst b sum sections f hs ht = (
  rw (append_put_begin-body dst b)
      (rw (drop-append (length dst) dst (begin_body b) refl) (decode-begin_body b f)),
  rw (drop-append (length dst) dst (le 8 sum) refl) (rw (of_le-le 8 sum hs)),
  rw (append_assoc dst (le 4 sections) (le 4 0)) (
      rw (drop-append (length dst) dst (le 4 sections ++ le 4 0) refl)
        (rw (of_le-le 4 sections ht))),
)

pub decode_put_begin-ne-panic : (body : Bytes) → decode_put_begin body ≢ panic
unfolding decode_put_begin u_at
decode_put_begin-ne-panic body = ground arith

pub decode_put_commit-ne-panic : (body : Bytes) → decode_put_commit body ≢ panic
unfolding decode_put_commit u_at
decode_put_commit-ne-panic body = ground arith

pub decode_stats_req-ne-panic : (body : Bytes) → decode_stats_req body ≢ panic
unfolding decode_stats_req u_at
decode_stats_req-ne-panic body = ground arith
