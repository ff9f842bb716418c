-- ===== src/Protocol/Limits.antt =====
-- The negotiated limits of a connection (internal/protocol/batch.go).
pub mod Negotiation
use kvstash.Prelude.{ℕ, ◌+◌, ◌-◌, ◌%◌, ◌^◌, not, ◌&&◌, ltb, ◌==◌, if◌then◌else◌}
use kvstash.Protocol.Ops.{floor_max_batch_keys, floor_max_frame_len}
use kvstash.Protocol.Body.GetResp.{get_resp_header_size}

pub record Limits : Type 0 where
  pub max_batch_keys : ℕ
  pub max_frame_len : ℕ
  pub max_blob_len : ℕ
  pub initial_credit : ℕ

-- One proposal: 0 is no opinion; another is raised to the floor and taken if it is below the
-- server's value.
propose : ℕ → ℕ → ℕ → ℕ
propose floor server client =
    if not (client == 0)
    then (let raised = if ltb client floor then floor else client in
        if ltb raised server then raised else server)
    else server

-- `headroom`: the region of a GET response with one descriptor.
abbrev pub headroom : ℕ
headroom = get_resp_header_size 1

-- The frame length less the headroom, as a uint32.
abbrev pub blob_room : ℕ → ℕ
blob_room frame = (frame + 2 ^ 32 - headroom) % 2 ^ 32

-- `NegotiateLimits`.
pub negotiate_limits : Limits → ℕ → ℕ → Limits
unfolding propose
negotiate_limits server client_batch_keys client_frame_len =
    let keys = propose floor_max_batch_keys server.max_batch_keys client_batch_keys in
    let frame = propose floor_max_frame_len server.max_frame_len client_frame_len in
    record server {
      max_batch_keys = keys;
      max_frame_len = frame;
      max_blob_len =
          if ltb (blob_room frame) server.max_blob_len
          then blob_room frame
          else server.max_blob_len;
    }
