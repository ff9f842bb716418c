-- ===== src/Server/Session.antt =====
-- internal/server/session.go: the state of a connection's session, and how a handler consumes a frame
-- and answers it. The responses queued on the connection are kept in order.
pub mod Replies
use kvstash.Prelude.{ℕ, ◌+◌, Bool, Option, List, [], ◌∷◌, ◌++◌, if◌then◌else◌}
use kvstash.Bytes.{Bytes}
use kvstash.Protocol.Header.{Header}
use kvstash.Protocol.Body.{append_preamble}
use kvstash.Protocol.Ops.{flag_resp}
use kvstash.Protocol.Limits.{Limits}
use kvstash.Server.Store.{StoreOps, Hasher}

-- An upload on its way: `digest` is there from the second chunk on, `one_shot` is the sum of an upload
-- in one chunk.
pub record Stream (D : Type 0) : Type 0 where
  pub ns : ℕ
  pub key : Bytes
  pub total_len : ℕ
  pub ttl_ms : ℕ
  pub xxh3_hint : ℕ
  pub buf : Bytes
  pub digest : Option D
  pub one_shot : ℕ
  pub received : ℕ
  pub tombstoned : Bool
  pub last_active : ℕ
  pub tombstoned_at : ℕ

pub record Session (D : Type 0) : Type 0 where
  pub authed : Bool
  pub ns : ℕ
  pub limits : Limits
  pub feats : ℕ
  pub streams : List (ℕ × Stream D)
  pub live_streams : ℕ
  pub staged_bytes : ℕ

-- A response frame: what `writeRespFlags` puts into its header, and its body.
pub record Reply : Type 0 where
  pub opcode : ℕ
  pub flags : ℕ
  pub namespace_id : ℕ
  pub request_id : ℕ
  pub body : Bytes

-- The session with what it acts on: the store, the responses queued, the block references that go back
-- once these are written, the payload bytes granted back, the status that the connection was aborted with,
-- and whether a handler closed it.
pub record Peer (S R D : Type 0) : Type 0 where
  pub session : Session D
  pub store : S
  pub replies : List Reply
  pub held : List R
  pub granted : ℕ
  pub aborted : Option ℕ
  pub closed : Bool

module _ {D : Type 0} where
  -- `respNS`.
  abbrev pub resp_ns : Session D → Header → ℕ
  resp_ns s h = if s.authed then s.ns else h.namespace_id

  -- The response that `writeRespFlags` makes.
  abbrev pub reply_to : Session D → Header → ℕ → Bytes → Reply
  reply_to s h flags body = record {
    opcode = h.opcode;
    flags = flags;
    namespace_id = resp_ns s h;
    request_id = h.request_id;
    body = body;
  }

-- `statusPreambles` at a status.
abbrev pub status_preamble : ℕ → Bytes
status_preamble status = append_preamble [] status 0

module _ {S R D : Type 0} where
  -- `consume`: the lent body goes back, and its payload bytes to the window.
  abbrev pub consume : Peer S R D → Header → Peer S R D
  consume p h = record p { granted = p.granted + h.payload_len }

  -- `writeRespFlags`.
  abbrev pub write_resp_flags : Peer S R D → Header → ℕ → Bytes → Peer S R D
  write_resp_flags p h flags body = record p {
    replies = p.replies ++ reply_to p.session h flags body ∷ [];
  }

  -- `writeResp`.
  abbrev pub write_resp : Peer S R D → Header → Bytes → Peer S R D
  write_resp p h body = write_resp_flags p h flag_resp body

  -- `respondStatus`.
  abbrev pub respond : Peer S R D → Header → ℕ → Peer S R D
  respond p h status = write_resp p h (status_preamble status)
