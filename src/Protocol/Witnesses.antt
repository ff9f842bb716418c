-- ===== src/Protocol/Witnesses.antt =====
-- The protocol's theorems at concrete inputs.
use kvstash.Prelude.{
  ◌≤◌, ◌≡◌, ◌≢◌, refl, true, some, none, List, [], ◌∷◌, ◌++◌, arith, replicate, take, drop, All,
}
use kvstash.Outcome.{ok, panic, ◌>>=◌}
use kvstash.Bytes.{Bytes, u_at, sub}
use kvstash.Protocol.Crc.{checksum, header_crc}
use kvstash.Protocol.Header.{Header, marshal_to, parse_header, cap_check, read_fields}
use kvstash.Protocol.Header.Parsing.{Verdict, parse_header-Verdict}
use kvstash.Protocol.Header.RoundTrip.{as_sent, parse_header-marshal_to, marshal_to-parse_header}
use kvstash.Protocol.Body.{BodyError, Preamble}
use kvstash.Protocol.Body.KeyList.{decode_key_list, append_key_list}
use kvstash.Protocol.Body.KeyList.Chunks.{IsKey}
use kvstash.Protocol.Body.KeyList.RoundTrip.{decode_key_list-append_key_list}
use kvstash.Protocol.Body.Exists.{decode_exists_resp, append_exists_resp}
use kvstash.Protocol.Body.KeyStatus.{decode_key_status_resp, append_key_status_resp}
use kvstash.Protocol.Body.GetResp.{
  Desc, GetRespHeader, append_get_resp_header, decode_get_resp_header, desc, payload_offset,
}
use kvstash.Protocol.Body.GetResp.RoundTrip.{decode_get_resp_header-append_get_resp_header}
use kvstash.Protocol.Hello.{
  HelloReq, HelloResp, append_hello_req, decode_hello_req, append_hello_resp, decode_hello_resp,
}
use kvstash.Protocol.Bodies.{control_bodies_round_trip, batch_bodies_round_trip}
use kvstash.Protocol.PutBody.{
  PutBegin, append_put_begin, decode_put_begin, append_put_commit, decode_put_commit,
  append_stats_req, decode_stats_req,
}
use kvstash.Protocol.Limits.{Limits, negotiate_limits}
use kvstash.Protocol.Limits.Negotiation.{Negotiated, negotiate_limits-Negotiated}
use kvstash.Protocol.Safety.{decoders-ne-panic}

abbrev get_request : Header
get_request = record {
  magic = [];
  version = 0;
  opcode = 3;
  flags = 0;
  namespace_id = 7;
  credit = 0;
  request_id = 258;
  key = replicate 32 9;
  payload_len = 40;
  crc = 0;
}

-- The 64 bytes of that request.
abbrev wire : Bytes
wire =
    (75 ∷ 86 ∷ 66 ∷ 49 ∷ 1 ∷ 3 ∷ 0 ∷ 0 ∷ 7 ∷ 0 ∷ 0 ∷ 0 ∷ 0 ∷ 0 ∷ 0 ∷ 0 ∷ 2 ∷ 1 ∷ 0 ∷ 0 ∷ 0 ∷ 0 ∷ 0
      ∷ 0 ∷ [])
    ++ (replicate 32 9 ++ (40 ∷ 0 ∷ 0 ∷ 0 ∷ 174 ∷ 144 ∷ 240 ∷ 51 ∷ []))

parse_header-marshal_to_example :
    (marshal_to get_request (replicate 70 1) >>= λ b'. parse_header b' 100)
    ≡ ok (as_sent get_request, none)
parse_header-marshal_to_example =
    parse_header-marshal_to get_request (replicate 70 1) 100 (omega arith) (omega arith)

-- The wire holds bytes of a header that is accepted under a cap of 100 and flagged under one of 39.
arrived : Header
arrived = record get_request { magic = 75 ∷ 86 ∷ 66 ∷ 49 ∷ []; version = 1; crc = 871403694 }

wire_accepted : parse_header wire 100 ≡ ok (arrived, none)
unfolding arrived parse_header read_fields cap_check header_crc checksum u_at sub
wire_accepted = refl

marshal_to-parse_header_example : marshal_to arrived (replicate 64 0) ≡ ok (take 64 wire ++ [])
marshal_to-parse_header_example =
    marshal_to-parse_header wire (replicate 64 0) 100 (omega arith) (omega arith) wire_accepted

parse_header-Verdict_example : Verdict wire 39 (parse_header wire 39)
parse_header-Verdict_example = parse_header-Verdict wire 39

abbrev two_keys : List Bytes
two_keys = replicate 32 1 ∷ replicate 32 2 ∷ []

abbrev key_body : Bytes
key_body = 1 ∷ 0 ∷ 0 ∷ 0 ∷ 30 ∷ 0 ∷ 0 ∷ 0 ∷ replicate 32 1

key_body_accepted :
    decode_key_list key_body 4 [] ≡ ok (record { aux = 30; keys = replicate 32 1 ∷ [] })
unfolding append_key_list
key_body_accepted =
    decode_key_list-append_key_list [] 30 4 (replicate 32 1 ∷ []) [] (omega arith) (omega arith)
      (refl, tt) (omega arith)

batch_bodies_round_trip_example :
    (decode_key_list (drop 1 (append_key_list (5 ∷ []) 30 two_keys)) 4 (replicate 32 3 ∷ [])
      ≡ ok (record { aux = 30; keys = replicate 32 3 ∷ two_keys }))
    × (append_key_list [] 30 (replicate 32 1 ∷ []) ≡ key_body)
    × (1 ≤ 4)
    × All IsKey (replicate 32 1 ∷ [])
batch_bodies_round_trip_example =
    batch_bodies_round_trip (5 ∷ []) 30 4 two_keys (replicate 32 3 ∷ []) key_body (omega arith)
      (omega arith) (refl, (refl, tt)) (omega arith) (omega arith) key_body_accepted

abbrev hit : Desc
hit = record { status = 0; len = 3; xxh3 = 77 }

abbrev miss : Desc
miss = record { status = 16; len = 0; xxh3 = 0 }

decode_get_resp_header-append_get_resp_header_example :
    (r : Bytes) × (g : GetRespHeader) × (append_get_resp_header [] 0 4 6 (miss ∷ hit ∷ []) ≡ ok r)
    × (decode_get_resp_header (r ++ (8 ∷ 9 ∷ 8 ∷ [])) ≡ ok g)
    × (g.preamble ≡ record { status = 0; count = 2 })
    × (g.first_index ≡ 4)
    × (g.total_keys ≡ 6)
    × (desc g 1 ≡ ok hit)
    × (drop (payload_offset g) (r ++ (8 ∷ 9 ∷ 8 ∷ [])) ≡ 8 ∷ 9 ∷ 8 ∷ [])
decode_get_resp_header-append_get_resp_header_example =
    decode_get_resp_header-append_get_resp_header [] 0 4 6 (miss ∷ hit ∷ []) (8 ∷ 9 ∷ 8 ∷ []) 1 hit
      refl (omega arith) (omega arith) (omega arith) (omega arith) refl

abbrev get_body : Bytes
get_body = 0 ∷ 0 ∷ 0 ∷ 0 ∷ 1 ∷ 0 ∷ 0 ∷ 0 ∷ replicate 24 3

get_header : GetRespHeader
get_header = record {
  preamble = record { status = 0; count = 1 };
  first_index = 50529027;
  total_keys = 50529027;
  descs = replicate 16 3;
}

get_body_accepted : decode_get_resp_header get_body ≡ ok get_header
unfolding get_header decode_get_resp_header kvstash.Protocol.Body.decode_preamble u_at sub
get_body_accepted = refl

decoders-ne-panic_example :
    (decode_key_list wire 512 [] ≢ panic)
    × (decode_exists_resp wire true ≢ panic)
    × (decode_key_status_resp wire ≢ panic)
    × (decode_get_resp_header wire ≢ panic)
    × (decode_hello_req wire ≢ panic)
    × (decode_hello_resp wire ≢ panic)
    × (decode_put_begin wire ≢ panic)
    × (decode_put_commit wire ≢ panic)
    × (decode_stats_req wire ≢ panic)
    × (desc get_header 0 ≢ panic)
unfolding get_header
decoders-ne-panic_example =
    decoders-ne-panic wire 512 [] true get_body get_header 0 (omega arith) (omega arith)
      get_body_accepted (omega arith)

abbrev hello : HelloReq
hello = record {
  proto_min = 1;
  proto_max = 1;
  features = 3;
  max_batch_keys = 512;
  max_frame_len = 0;
  token = 115 ∷ 51 ∷ [];
  namespace = 97 ∷ [];
  client_name = [];
}

abbrev default_limits : Limits
default_limits = record {
  max_batch_keys = 512;
  max_frame_len = 268435456;
  max_blob_len = 33554432;
  initial_credit = 134217728;
}

abbrev welcome : HelloResp
welcome = record {
  proto = 1;
  features = 3;
  limits = default_limits;
  namespace_id = 7;
  lease_default_ms = 5000;
  lease_max_ms = 60000;
  stream_timeout_ms = 30000;
  server_name = 107 ∷ 118 ∷ [];
}

abbrev begin : PutBegin
begin = record { total_len = 4096; ttl_ms = 0; xxh3_hint = 12; flags = 0 }

control_bodies_round_trip_example :
    (decode_hello_req (append_hello_req [] hello) ≡ ok hello)
    × (decode_hello_resp (append_hello_resp [] welcome)
        ≡ ok (record { status = 0; count = 0 }, welcome))
    × (decode_put_begin (append_put_begin [] begin) ≡ ok begin)
    × (decode_put_commit (append_put_commit [] 99) ≡ ok 99)
    × (decode_stats_req (append_stats_req [] 0) ≡ ok 0)
    × (decode_exists_resp (append_exists_resp [] 3 2 (some (0 ∷ 0 ∷ 16 ∷ []))) true
        ≡ ok (record {
          preamble = record { status = 0; count = 3 };
          n_consecutive = 2;
          per_key = some (0 ∷ 0 ∷ 16 ∷ []);
        }))
    × (decode_key_status_resp (append_key_status_resp [] (0 ∷ 16 ∷ []))
        ≡ ok (record { status = 0; count = 2 }, some (0 ∷ 16 ∷ [])))
control_bodies_round_trip_example =
    control_bodies_round_trip [] hello welcome begin 99 0 3 2 (some (0 ∷ 0 ∷ 16 ∷ [])) (0 ∷ 16 ∷ [])
      (omega arith) (omega arith) (omega arith) (omega arith) (omega arith) (omega arith)
      (omega arith) refl (omega arith)

-- A client that proposes a frame of 32 bytes, which is less than the headroom.
negotiate_limits-Negotiated_example :
    Negotiated default_limits (negotiate_limits default_limits 4 32) 4 32
negotiate_limits-Negotiated_example = negotiate_limits-Negotiated default_limits 4 32 (omega arith)
