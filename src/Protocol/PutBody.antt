-- ===== src/Protocol/PutBody.antt =====
-- The bodies of PUT_STREAM and STATS requests (internal/protocol/batch.go).
pub mod RoundTrip
use kvstash.Prelude.{ℕ, ◌+◌, List, ◌++◌, length, ◌==◌}
use kvstash.Outcome.{Outcome, ok, ◌>>=◌, ◌>>◌, guard}
use kvstash.Bytes.{Bytes, le, u_at}
use kvstash.Protocol.Body.{BodyError, body_length}

pub record PutBegin : Type 0 where
  pub total_len : ℕ
  pub ttl_ms : ℕ
  pub xxh3_hint : ℕ
  pub flags : ℕ

-- `AppendPutBegin`.
unfoldable pub append_put_begin : Bytes → PutBegin → Bytes
append_put_begin dst b =
    (((dst ++ le 4 b.total_len) ++ le 4 b.ttl_ms) ++ le 8 b.xxh3_hint) ++ le 4 b.flags ++ le 4 0

-- `DecodePutBegin`.
unfoldable pub decode_put_begin : Bytes → Outcome BodyError PutBegin
decode_put_begin body = do
  guard (length body == 24) body_length
  total ← u_at 4 0 body
  ttl ← u_at 4 4 body
  hint ← u_at 8 8 body
  fl ← u_at 4 16 body
  ok (record { total_len = total; ttl_ms = ttl; xxh3_hint = hint; flags = fl })

-- `AppendPutCommit` and `DecodePutCommit`.
unfoldable pub append_put_commit : Bytes → ℕ → Bytes
append_put_commit dst xxh3 = dst ++ le 8 xxh3

unfoldable pub decode_put_commit : Bytes → Outcome BodyError ℕ
decode_put_commit body = do guard (length body == 8) body_length; u_at 8 0 body

-- `AppendStatsReq` and `DecodeStatsReq`.
unfoldable pub append_stats_req : Bytes → ℕ → Bytes
append_stats_req dst sections = (dst ++ le 4 sections) ++ le 4 0

unfoldable pub decode_stats_req : Bytes → Outcome BodyError ℕ
decode_stats_req body = do guard (length body == 8) body_length; u_at 4 0 body
