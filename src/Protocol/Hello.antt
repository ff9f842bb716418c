-- ===== src/Protocol/Hello.antt =====
-- The HELLO request and response (internal/protocol/batch.go). Strings are their bytes.
pub mod Request
pub mod Response
use kvstash.Prelude.{ℕ, ◌+◌, ◌-◌, ◌&&◌, not, List, [], ◌∷◌, ◌++◌, length, leb, ◌==◌, if◌then◌else◌}
use kvstash.Outcome.{Outcome, ok, ◌>>=◌, ◌>>◌, guard}
use kvstash.Bytes.{Bytes, le, u_at, sub}
use kvstash.Protocol.Ops.{status_ok}
use kvstash.Protocol.Body.{
  BodyError, body_length, Preamble, append_preamble, decode_preamble, append_pad8, pad_to8,
}
use kvstash.Protocol.Limits.{Limits}

abbrev pub hello_req_fixed : ℕ
hello_req_fixed = 36

pub record HelloReq : Type 0 where
  pub proto_min : ℕ
  pub proto_max : ℕ
  pub features : ℕ
  pub max_batch_keys : ℕ
  pub max_frame_len : ℕ
  pub token : Bytes
  pub namespace : Bytes
  pub client_name : Bytes

-- The fixed prefix: the lengths are cut to 16 bits where they are written.
abbrev pub hello_fixed : HelloReq → Bytes
hello_fixed r =
    r.proto_min
    ∷ r.proto_max
    ∷ 0
    ∷ 0
    ∷ (le 8 r.features
        ++ (le 4 r.max_batch_keys
            ++ (le 4 r.max_frame_len
                ++ (le 8 0
                    ++ (le 2 (length r.token)
                        ++ (le 2 (length r.namespace)
                            ++ (le 2 (length r.client_name) ++ le 2 0)))))))

-- `AppendHelloReq`.
unfoldable pub append_hello_req : Bytes → HelloReq → Bytes
append_hello_req dst r =
    let end = (((dst ++ hello_fixed r) ++ r.token) ++ r.namespace) ++ r.client_name in
    append_pad8 end (length end - length dst)

-- `DecodeHelloReq`.
unfoldable pub decode_hello_req : Bytes → Outcome BodyError HelloReq
decode_hello_req body = do
  guard (leb hello_req_fixed (length body)) body_length
  token_len ← u_at 2 28 body
  ns_len ← u_at 2 30 body
  name_len ← u_at 2 32 body
  guard (length body == pad_to8 (hello_req_fixed + token_len + ns_len + name_len)) body_length
  lo ← u_at 1 0 body
  hi ← u_at 1 1 body
  features ← u_at 8 4 body
  keys ← u_at 4 12 body
  frame ← u_at 4 16 body
  token ← sub hello_req_fixed (hello_req_fixed + token_len) body
  ns ← sub (hello_req_fixed + token_len) (hello_req_fixed + token_len + ns_len) body
  name ←
      sub (hello_req_fixed + token_len + ns_len) (hello_req_fixed + token_len + ns_len + name_len)
        body
  ok (record {
    proto_min = lo;
    proto_max = hi;
    features = features;
    max_batch_keys = keys;
    max_frame_len = frame;
    token = token;
    namespace = ns;
    client_name = name;
  })

abbrev pub hello_resp_fixed : ℕ
hello_resp_fixed = 56

pub record HelloResp : Type 0 where
  pub proto : ℕ
  pub features : ℕ
  pub limits : Limits
  pub namespace_id : ℕ
  pub lease_default_ms : ℕ
  pub lease_max_ms : ℕ
  pub stream_timeout_ms : ℕ
  pub server_name : Bytes

-- What stands between the preamble and the name.
abbrev pub resp_fixed : HelloResp → Bytes
resp_fixed r =
    r.proto
    ∷ 0
    ∷ 0
    ∷ 0
    ∷ (le 8 r.features
        ++ (le 4 r.limits.max_batch_keys
            ++ (le 4 r.limits.max_frame_len
                ++ (le 4 r.limits.max_blob_len
                    ++ (le 4 r.namespace_id
                        ++ (le 4 r.limits.initial_credit
                            ++ (le 4 r.lease_default_ms
                                ++ (le 4 r.lease_max_ms
                                    ++ (le 4 r.stream_timeout_ms
                                        ++ (le 2 (length r.server_name) ++ le 2 0))))))))))

-- `AppendHelloResp`.
unfoldable pub append_hello_resp : Bytes → HelloResp → Bytes
append_hello_resp dst r =
    let end = (append_preamble dst status_ok 0 ++ resp_fixed r) ++ r.server_name in
    append_pad8 end (length end - length dst)

abbrev pub no_limits : Limits
no_limits = record { max_batch_keys = 0; max_frame_len = 0; max_blob_len = 0; initial_credit = 0 }

-- The zero HelloResp, which stands beside a preamble that is not OK.
abbrev pub zero_resp : HelloResp
zero_resp = record {
  proto = 0;
  features = 0;
  limits = no_limits;
  namespace_id = 0;
  lease_default_ms = 0;
  lease_max_ms = 0;
  stream_timeout_ms = 0;
  server_name = [];
}

-- `DecodeHelloResp` behind the preamble.
pub hello_resp_rest : Preamble → Bytes → Outcome BodyError (Preamble × HelloResp)
hello_resp_rest p body =
    if not (p.status == status_ok)
    then (do guard (length body == 8 && p.count == 0) body_length; ok (p, zero_resp))
    else (do
      guard (leb hello_resp_fixed (length body)) body_length
      name_len ← u_at 2 52 body
      guard (length body == pad_to8 (hello_resp_fixed + name_len)) body_length
      proto ← u_at 1 8 body
      features ← u_at 8 12 body
      keys ← u_at 4 20 body
      frame ← u_at 4 24 body
      blob ← u_at 4 28 body
      credit ← u_at 4 36 body
      ns ← u_at 4 32 body
      lease ← u_at 4 40 body
      lease_max ← u_at 4 44 body
      timeout ← u_at 4 48 body
      name ← sub hello_resp_fixed (hello_resp_fixed + name_len) body
      ok (
        p,
        record {
          proto = proto;
          features = features;
          limits = record {
            max_batch_keys = keys;
            max_frame_len = frame;
            max_blob_len = blob;
            initial_credit = credit;
          };
          namespace_id = ns;
          lease_default_ms = lease;
          lease_max_ms = lease_max;
          stream_timeout_ms = timeout;
          server_name = name;
        },
      ))

-- `DecodeHelloResp`.
unfoldable pub decode_hello_resp : Bytes → Outcome BodyError (Preamble × HelloResp)
unfolding hello_resp_rest
decode_hello_resp body = do p ← decode_preamble body; hello_resp_rest p body
