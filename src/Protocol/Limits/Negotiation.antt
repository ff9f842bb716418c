-- ===== src/Protocol/Limits/Negotiation.antt =====
-- What the negotiation of limits promises, for every proposal of a client.
use kvstash.Prelude.{ℕ, ◌+◌, ◌≤◌, ◌<◌, ◌^◌, ◌≡◌, ◌⊎◌, arith}
use kvstash.Protocol.Ops.{floor_max_batch_keys, floor_max_frame_len}
use kvstash.Protocol.Limits.{Limits, headroom, negotiate_limits}

-- The server's own limits lie within uint32 and meet the floors of the protocol.
pub record MeetsFloors (l : Limits) : Type 0 where
  pub keys : floor_max_batch_keys ≤ l.max_batch_keys
  pub frame : floor_max_frame_len ≤ l.max_frame_len
  pub frame_word : l.max_frame_len < 2 ^ 32
  pub blob : 0 < l.max_blob_len

-- The value of one limit that two sides agree on: the server's, if the client has no opinion, and else the
-- smaller one of the server's and of the client's proposal, a proposal under the floor counting as the floor.
pub record Agreed (floor server client value : ℕ) : Type 0 where
  pub silent : client ≡ 0 → value ≡ server
  pub low : 0 < client → client ≤ floor → value ≡ floor
  pub taken : floor ≤ client → client ≤ server → value ≡ client
  pub capped : server ≤ client → value ≡ server

-- The outcome of a negotiation: within the server's limits and above the floors, a blob fits a
-- frame with its GET response header, and a client's proposal that is over the floor is an upper
-- bound.
pub record Negotiated (server l : Limits) (keys frame : ℕ) : Type 0 where
  pub keys_floor : floor_max_batch_keys ≤ l.max_batch_keys
  pub frame_floor : floor_max_frame_len ≤ l.max_frame_len
  pub keys_server : l.max_batch_keys ≤ server.max_batch_keys
  pub frame_server : l.max_frame_len ≤ server.max_frame_len
  pub blob_server : l.max_blob_len ≤ server.max_blob_len
  pub blob_frame : l.max_blob_len + headroom ≤ l.max_frame_len
  pub blob_pos : 0 < l.max_blob_len
  pub keys_client :
      (keys ≡ 0) ⊎ ((l.max_batch_keys ≤ keys) ⊎ (l.max_batch_keys ≡ floor_max_batch_keys))
  pub frame_client :
      (frame ≡ 0) ⊎ ((l.max_frame_len ≤ frame) ⊎ (l.max_frame_len ≡ floor_max_frame_len))
  pub keys_agreed : Agreed floor_max_batch_keys server.max_batch_keys keys l.max_batch_keys
  pub frame_agreed : Agreed floor_max_frame_len server.max_frame_len frame l.max_frame_len
  pub blob : (l.max_blob_len ≡ server.max_blob_len) ⊎ (l.max_blob_len + headroom ≡ l.max_frame_len)
  pub credit : l.initial_credit ≡ server.initial_credit

-- From server limits that meet the floors, whatever a client proposes: a batch has the server's number of keys
-- if the client proposes 0, the floor if it proposes less than the floor, its own number if that is between
-- the floor and the server's, and the server's if it proposes more; a frame's length likewise. So both stay between
-- the floors and the server's limits, and at or below a proposal that is over its floor. The longest blob is
-- not 0, it is the server's or the one that fills a frame behind the header of a GET response, and at most
-- both. The initial credit is the server's.
pub negotiate_limits-Negotiated :
    (server : Limits) (keys frame : ℕ)
    → MeetsFloors server
    → Negotiated server (negotiate_limits server keys frame) keys frame
unfolding negotiate_limits
negotiate_limits-Negotiated server keys frame m = ground arith
