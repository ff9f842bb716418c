-- ===== src/Protocol/Body/KeyStatus.antt =====
-- The per-key status response of TOUCH_LEASE, PIN and DELETE.
pub mod RoundTrip
use kvstash.Prelude.{ℕ, ◌+◌, ◌%◌, ◌^◌, ◌&&◌, Option, none, some, ◌++◌, length, ◌==◌, if◌then◌else◌}
use kvstash.Outcome.{Outcome, ok, ◌>>=◌, ◌>>◌, guard}
use kvstash.Bytes.{Bytes, sub}
use kvstash.Protocol.Ops.{status_ok}
use kvstash.Protocol.Body.{
  BodyError, body_length, Preamble, append_preamble, decode_preamble, append_pad8, pad_to8_u64,
}
use kvstash.Protocol.Body.Exists.{has_body}

-- `AppendKeyStatusResp`: `uint32(len(perKey))` is cut to 32 bits where it is written.
unfoldable pub append_key_status_resp : Bytes → Bytes → Bytes
append_key_status_resp dst per_key =
    append_pad8 (append_preamble dst status_ok (length per_key) ++ per_key) (length per_key)

-- `DecodeKeyStatusResp` behind the preamble.
pub key_status_rest : Preamble → Bytes → Outcome BodyError (Preamble × Option Bytes)
key_status_rest p body =
    if has_body p.status
    then (do
      guard (length body == (8 + pad_to8_u64 p.count) % 2 ^ 64) body_length
      statuses ← sub 8 (8 + p.count) body
      ok (p, some statuses))
    else (do guard (length body == 8 && p.count == 0) body_length; ok (p, none))

-- `DecodeKeyStatusResp`.
unfoldable pub decode_key_status_resp : Bytes → Outcome BodyError (Preamble × Option Bytes)
unfolding key_status_rest
decode_key_status_resp body = do p ← decode_preamble body; key_status_rest p body
