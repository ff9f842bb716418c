-- ===== src/Protocol/Bodies.antt =====
-- internal/protocol/batch.go: round trips of bodies that belong together.
use kvstash.Prelude.{ℕ, ◌^◌, ◌<◌, ◌≤◌, ◌≡◌, ◌++◌, List, [], All, Option, some, drop, length}
use kvstash.Outcome.{ok}
use kvstash.Bytes.{Bytes, IsByte}
use kvstash.Protocol.Body.KeyList.{KeyList, append_key_list, decode_key_list}
use kvstash.Protocol.Body.KeyList.Chunks.{IsKey}
use kvstash.Protocol.Body.KeyList.RoundTrip.{
  decode_key_list-append_key_list, append_key_list-decode_key_list,
}
use kvstash.Protocol.PutBody.{
  PutBegin, append_put_begin, decode_put_begin, append_put_commit, decode_put_commit,
  append_stats_req, decode_stats_req,
}
use kvstash.Protocol.PutBody.RoundTrip.{FitsPutBegin, put_bodies_round_trip}
use kvstash.Protocol.Body.Exists.{append_exists_resp, decode_exists_resp}
use kvstash.Protocol.Body.Exists.RoundTrip.{expects, CountIs, decode_exists_resp-append_exists_resp}
use kvstash.Protocol.Body.KeyStatus.{append_key_status_resp, decode_key_status_resp}
use kvstash.Protocol.Body.KeyStatus.RoundTrip.{decode_key_status_resp-append_key_status_resp}
use kvstash.Protocol.Hello.{
  HelloReq, HelloResp, append_hello_req, decode_hello_req, append_hello_resp, decode_hello_resp,
}
use kvstash.Protocol.Hello.Request.{FitsHelloReq, decode_hello_req-append_hello_req}
use kvstash.Protocol.Hello.Response.{FitsHelloResp, decode_hello_resp-append_hello_resp}

-- The bodies without a key list, behind any prefix: HELLO request and response, whose fields and strings are of the
-- ranges of their Go types, the response with an OK preamble, and the bodies of BEGIN, COMMIT and STATS decode to
-- what was encoded; so do the responses with one status per key, an EXISTS response for a peer that agrees on
-- whether there is a bitmap.
pub control_bodies_round_trip :
    (dst : Bytes) (req : HelloReq) (resp : HelloResp) (b : PutBegin) (sum sections : ℕ) (n c : ℕ)
    (bitmap : Option Bytes) (statuses : Bytes)
    → FitsHelloReq req
    → FitsHelloResp resp
    → FitsPutBegin b
    → sum < 256 ^ 8
    → sections < 256 ^ 4
    → n < 256 ^ 4
    → c < 256 ^ 4
    → CountIs n bitmap
    → length statuses < 256 ^ 4
    → (decode_hello_req (drop (length dst) (append_hello_req dst req)) ≡ ok req)
      × (decode_hello_resp (drop (length dst) (append_hello_resp dst resp))
          ≡ ok (record { status = 0; count = 0 }, resp))
      × (decode_put_begin (drop (length dst) (append_put_begin dst b)) ≡ ok b)
      × (decode_put_commit (drop (length dst) (append_put_commit dst sum)) ≡ ok sum)
      × (decode_stats_req (drop (length dst) (append_stats_req dst sections)) ≡ ok sections)
      × (decode_exists_resp (drop (length dst) (append_exists_resp dst n c bitmap)) (expects bitmap)
          ≡ ok (record {
            preamble = record { status = 0; count = n };
            n_consecutive = c;
            per_key = bitmap;
          }))
      × (decode_key_status_resp (drop (length dst) (append_key_status_resp dst statuses))
          ≡ ok (record { status = 0; count = length statuses }, some statuses))
control_bodies_round_trip dst req resp b sum sections n c bitmap statuses f g fb fs ft hn hc hb hs =
    let puts = put_bodies_round_trip dst b sum sections fb fs ft in
    (
      decode_hello_req-append_hello_req dst req f,
      decode_hello_resp-append_hello_resp dst resp g,
      puts.0,
      puts.1,
      puts.2,
      decode_exists_resp-append_exists_resp dst n c bitmap hn hc hb,
      decode_key_status_resp-append_key_status_resp dst statuses hs,
    )

-- Key lists, both ways: what `AppendKeyList` puts behind any prefix decodes to the same reserved word and keys,
-- behind the keys that the decoder was given, if they are 32 bytes each and no more than the cap; and a body that
-- the decoder accepts is what the encoder writes for the result, whose keys are 32 bytes each and within the cap.
pub batch_bodies_round_trip :
    (dst : Bytes) (aux max : ℕ) (keys held : List Bytes) (body : Bytes) {r : KeyList}
    → aux < 256 ^ 4
    → max < 256 ^ 4
    → All IsKey keys
    → length keys ≤ max
    → All IsByte body
    → decode_key_list body max [] ≡ ok r
    → (decode_key_list (drop (length dst) (append_key_list dst aux keys)) max held
        ≡ ok (record { aux = aux; keys = held ++ keys }))
      × (append_key_list [] r.aux r.keys ≡ body)
      × (length r.keys ≤ max)
      × All IsKey r.keys
batch_bodies_round_trip dst aux max keys held body a m k fit bytes accepted =
    let back = append_key_list-decode_key_list body max bytes accepted in
    (decode_key_list-append_key_list dst aux max keys held a m k fit, back.0, back.1, back.2)
