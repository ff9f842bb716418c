-- ===== src/Server/Handlers.antt =====
-- internal/server/handlers.go and session.go: the handlers of the opcodes besides GET and PUT_STREAM, and
-- the dispatch of a frame to them.
pub mod Answers
pub mod Frames
use kvstash.Prelude.{
  ℕ, ◌+◌, ◌*◌, ◌/◌, ◌%◌, ◌^◌, Bool, true, false, ◌&&◌, ◌||◌, not, Option, none, some, List, [], ◌∷◌,
  ◌++◌, length, ltb, leb, ◌==◌, if◌then◌else◌,
}
use kvstash.Outcome.{Outcome, ok, err, panic}
use kvstash.Bytes.{Bytes}
use kvstash.Protocol.Header.{Header, version1}
use kvstash.Protocol.Limits.{Limits, negotiate_limits}
use kvstash.Protocol.Body.{append_preamble, error_status}
use kvstash.Protocol.Body.KeyList.{KeyList, decode_key_list}
use kvstash.Protocol.Body.Exists.{append_exists_resp}
use kvstash.Protocol.Body.KeyStatus.{append_key_status_resp}
use kvstash.Protocol.Hello.{HelloReq, HelloResp, decode_hello_req, append_hello_resp}
use kvstash.Protocol.PutBody.{decode_stats_req}
use kvstash.Protocol.Ops.{
  status_ok, status_not_found, status_err_malformed, status_err_auth_required,
  status_err_auth_failed, status_err_unsupported, op_nop, op_hello, op_batch_exists, op_batch_get,
  op_put_stream, op_touch_lease, op_pin, op_delete, op_stats, flag_resp, flag_fatal, flag_force,
  unpin_op, sub_op, intersect_features,
}
use kvstash.Server.Store.{StoreOps, Hasher}
use kvstash.Server.Session.{Session, Reply, Peer, consume, write_resp, respond}
use kvstash.Server.BatchGet.{batch_get}
use kvstash.Server.PutStream.{Conn, handle_put_stream}

-- What the handlers read of the server: its configuration, and the authentication of a namespace's name
-- and token.
pub record Config : Type 0 where
  pub wire_limits : Limits
  pub lease_default_ms : ℕ
  pub lease_max_ms : ℕ
  pub stream_timeout_ms : ℕ
  pub authenticate : Bytes → Bytes → Option ℕ

-- `ServerFeatures`: FeatOOO and FeatExistsBitmap.
abbrev pub server_features : ℕ
server_features = 0x03

abbrev pub server_name : Bytes
server_name = 0x6B ∷ 0x76 ∷ 0x62 ∷ 0x6C ∷ 0x6F ∷ 0x63 ∷ 0x6B ∷ 0x64 ∷ []

-- Bit `i` of a word.
abbrev pub bit : ℕ → ℕ → Bool
bit i w = w / 2 ^ i % 2 == 1

module _ (ops : StoreOps) (hasher : Hasher) where
  -- `fatalHello`.
  abbrev pub fatal_hello : Conn ops hasher → Header → ℕ → Conn ops hasher
  fatal_hello p h status = record p {
    replies =
        p.replies
        ++ record {
          opcode = op_hello;
          flags = flag_resp + flag_fatal;
          namespace_id = h.namespace_id;
          request_id = h.request_id;
          body = append_preamble [] status 0;
        }
          ∷ [];
    closed = true;
  }

  -- `handleHello` behind its checks.
  abbrev pub welcome : Config → Conn ops hasher → Header → HelloReq → ℕ → Conn ops hasher
  welcome cfg p h req id =
      let feats = intersect_features req.features server_features in
      let limits = negotiate_limits cfg.wire_limits req.max_batch_keys req.max_frame_len in
      write_resp
        (record p {
          session = record p.session { authed = true; ns = id; feats = feats; limits = limits };
        })
        h
        (append_hello_resp [] (record {
          proto = version1;
          features = feats;
          limits = limits;
          namespace_id = id;
          lease_default_ms = cfg.lease_default_ms;
          lease_max_ms = cfg.lease_max_ms;
          stream_timeout_ms = cfg.stream_timeout_ms;
          server_name = server_name;
        }))

  -- `handleHello` behind the decoder.
  pub hello_decoded : Config → Conn ops hasher → Header → HelloReq → Conn ops hasher
  hello_decoded cfg p h req =
      if ltb version1 req.proto_min || ltb req.proto_max version1
      then fatal_hello p h status_err_unsupported
      else elim (cfg.authenticate req.namespace req.token) [
        | none ↦ fatal_hello p h status_err_auth_failed
        | some id ↦ welcome cfg p h req id
      ]

  pub handle_hello : Config → Conn ops hasher → Header → Bytes → Conn ops hasher
  handle_hello cfg p h body =
      let q = consume p h in
      elim (decode_hello_req body) [
        | ok req ↦ hello_decoded cfg q h req
        | err e ↦ fatal_hello q h status_err_malformed
        | panic ↦ q
      ]

  -- `decodeKeys`, and the handler behind it.
  pub with_keys :
      Conn ops hasher
      → Header
      → Bytes
      → (Conn ops hasher → KeyList → Conn ops hasher)
      → Conn ops hasher
  with_keys p h body k =
      let q = consume p h in
      elim (decode_key_list body p.session.limits.max_batch_keys []) [
        | ok keys ↦ k q keys
        | err e ↦ respond q h (error_status e)
        | panic ↦ q
      ]

  pub batch_exists : Conn ops hasher → Header → KeyList → Conn ops hasher
  batch_exists p h l =
      let r = ops.exists_prefix p.store p.session.ns l.keys (bit 1 p.session.feats) in
      write_resp p h (append_exists_resp [] (length l.keys) r.0 r.1)

  -- One key's verb: the store after it, and its status.
  pub key_verb : ℕ → Header → ℕ → ops.State → Bytes → ops.State × ℕ
  key_verb ns h ttl s k =
      if not ops.has_lifecycle
      then (s, if ops.contains s ns k then status_ok else status_not_found)
      else if h.opcode == op_touch_lease
      then ops.touch_lease s ns k (sub_op h.flags) ttl
      else ops.pin_op s ns k (sub_op h.flags)

  -- A verb on each key in turn: the store after them, and their statuses.
  pub each_key : (ops.State → Bytes → ops.State × ℕ) → ops.State → List Bytes → ops.State × Bytes
  each_key verb s [] = (s, [])
  each_key verb s (k ∷ ks) =
      let one = verb s k in let rest = each_key verb one.0 ks in (rest.0, one.1 ∷ rest.1)

  abbrev pub key_statuses :
      Conn ops hasher → Header → (ops.State → Bytes → ops.State × ℕ) → List Bytes → Conn ops hasher
  key_statuses p h verb keys =
      let r = each_key verb p.store keys in
      write_resp (record p { store = r.0 }) h (append_key_status_resp [] r.1)

  -- `handleKeyStatusVerb`.
  pub handle_key_status_verb : Conn ops hasher → Header → Bytes → Conn ops hasher
  handle_key_status_verb p h body =
      if ltb unpin_op (sub_op h.flags)
      then respond (consume p h) h status_err_unsupported
      else with_keys p h body (λ q l. key_statuses q h (key_verb q.session.ns h l.aux) l.keys)

  pub handle_delete : Conn ops hasher → Header → Bytes → Conn ops hasher
  handle_delete p h body =
      with_keys p h body
        (λ q l. key_statuses q h (λ s k. ops.delete s q.session.ns k (bit 3 h.flags)) l.keys)

  pub handle_stats : Conn ops hasher → Header → Bytes → Conn ops hasher
  handle_stats p h body =
      let q = consume p h in
      elim (decode_stats_req body) [
        | ok sections ↦
            let doc = ops.stats p.store p.session.ns in
            write_resp q h (append_preamble [] status_ok (length doc % 2 ^ 32) ++ doc)
        | err e ↦ respond q h (error_status e)
        | panic ↦ q
      ]

  -- `HandleFrame` on an authenticated session, by opcode.
  pub dispatch : Conn ops hasher → Header → Bytes → ℕ → Conn ops hasher
  dispatch p h body now =
      if h.opcode == op_nop
      then consume p h
      else if h.opcode == op_hello
      then respond (consume p h) h status_err_malformed
      else if h.opcode == op_batch_exists
      then with_keys p h body (λ q l. batch_exists q h l)
      else if h.opcode == op_batch_get
      then with_keys p h body (λ q l. batch_get ops hasher q h l.keys)
      else if h.opcode == op_put_stream
      then handle_put_stream ops hasher p h body now
      else if h.opcode == op_touch_lease || h.opcode == op_pin
      then handle_key_status_verb p h body
      else if h.opcode == op_delete
      then handle_delete p h body
      else if h.opcode == op_stats
      then handle_stats p h body
      else respond (consume p h) h status_err_unsupported

  -- `HandleFrame`. A connection that is aborted may send one frame more, which reports the status under
  -- request id 0: `aborted` keeps that status, and `replies` has the responses to requests alone.
  pub handle_frame : Config → Conn ops hasher → Header → Bytes → ℕ → Conn ops hasher
  handle_frame cfg p h body now =
      if not p.session.authed
      then (if not (h.opcode == op_hello)
          then record (consume p h) { aborted = some status_err_auth_required }
          else handle_hello cfg p h body)
      else if bit 0 h.flags
      then respond (consume p h) h status_err_malformed
      else dispatch p h body now
