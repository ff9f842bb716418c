-- ===== src/Protocol/Safety.antt =====
-- No body that a peer can send makes a body decoder index or slice out of range.
use kvstash.Prelude.{ℕ, ◌<◌, ◌≡◌, ◌≢◌, Bool, List, All}
use kvstash.Outcome.{ok, panic}
use kvstash.Bytes.{Bytes, IsByte}
use kvstash.Protocol.Body.KeyList.{decode_key_list}
use kvstash.Protocol.Body.KeyList.RoundTrip.{decode_key_list-ne-panic}
use kvstash.Protocol.Body.Exists.{decode_exists_resp}
use kvstash.Protocol.Body.Exists.RoundTrip.{decode_exists_resp-ne-panic}
use kvstash.Protocol.Body.KeyStatus.{decode_key_status_resp}
use kvstash.Protocol.Body.KeyStatus.RoundTrip.{decode_key_status_resp-ne-panic}
use kvstash.Protocol.Body.GetResp.{GetRespHeader, decode_get_resp_header, desc}
use kvstash.Protocol.Body.GetResp.RoundTrip.{decode_get_resp_header-ne-panic, desc-ne-panic}
use kvstash.Protocol.Hello.{decode_hello_req, decode_hello_resp}
use kvstash.Protocol.Hello.Request.{decode_hello_req-ne-panic}
use kvstash.Protocol.Hello.Response.{decode_hello_resp-ne-panic}
use kvstash.Protocol.PutBody.{decode_put_begin, decode_put_commit, decode_stats_req}
use kvstash.Protocol.PutBody.RoundTrip.{
  decode_put_begin-ne-panic, decode_put_commit-ne-panic, decode_stats_req-ne-panic,
}

-- Whatever the bytes of a body, the nine decoders of requests and responses return a value or an error: none of
-- them panics. Nor does reading the descriptors of a GET response header that was decoded: they are all there.
pub decoders-ne-panic :
    (body : Bytes) (max_keys : ℕ) (held : List Bytes) (bitmap : Bool) (got : Bytes)
    (g : GetRespHeader) (i : ℕ)
    → All IsByte body
    → All IsByte got
    → decode_get_resp_header got ≡ ok g
    → i < g.preamble.count
    → (decode_key_list body max_keys held ≢ panic)
      × (decode_exists_resp body bitmap ≢ panic)
      × (decode_key_status_resp body ≢ panic)
      × (decode_get_resp_header body ≢ panic)
      × (decode_hello_req body ≢ panic)
      × (decode_hello_resp body ≢ panic)
      × (decode_put_begin body ≢ panic)
      × (decode_put_commit body ≢ panic)
      × (decode_stats_req body ≢ panic)
      × (desc g i ≢ panic)
decoders-ne-panic body max_keys held bitmap got g i bytes got_bytes e lt = (
  decode_key_list-ne-panic body max_keys held,
  decode_exists_resp-ne-panic body bitmap bytes,
  decode_key_status_resp-ne-panic body bytes,
  decode_get_resp_header-ne-panic body bytes,
  decode_hello_req-ne-panic body,
  decode_hello_resp-ne-panic body,
  decode_put_begin-ne-panic body,
  decode_put_commit-ne-panic body,
  decode_stats_req-ne-panic body,
  desc-ne-panic got g i got_bytes e lt,
)
