-- ===== src/Server/PutStream.antt =====
-- internal/server/putstream.go, and sweepStreams of session.go: the uploads of one connection. A handler
-- runs on the connection's read goroutine and holds the stream lock where it touches the streams, so it
-- and a sweep of the reaper are one step each. The clock's reading is an argument.
pub mod Begin
pub mod Bounds
pub mod Commit
pub mod Delivery
pub mod Handled
pub mod Steps
pub mod Sums
pub mod Sweep
pub mod Upload
use kvstash.Prelude.{
  ℕ, zero, suc, ◌+◌, ◌-◌, ◌*◌, ◌%◌, ◌^◌, Bool, true, false, ◌&&◌, ◌||◌, not, Option, none, some,
  List, [], ◌∷◌, ◌++◌, length, ltb, leb, ◌==◌, if◌then◌else◌,
}
use kvstash.Outcome.{Outcome, ok, err, panic}
use kvstash.Bytes.{Bytes}
use kvstash.Assoc.{find, erase, put}
use kvstash.Protocol.Header.{Header}
use kvstash.Protocol.Limits.{Limits}
use kvstash.Protocol.Body.{error_status}
use kvstash.Protocol.PutBody.{PutBegin, decode_put_begin, decode_put_commit}
use kvstash.Protocol.Ops.{
  status_ok, status_ok_exists, status_err_malformed, status_err_too_large, status_err_quota_bytes,
  status_err_busy, status_err_stale_stream, status_err_short_stream, status_err_checksum,
  status_err_unsupported, sub_op, put_begin_op, put_chunk_op, put_commit_op, put_abort_op,
}
use kvstash.Server.Store.{StoreOps, Hasher}
use kvstash.Server.Session.{Stream, Session, Peer, consume, respond}

abbrev pub max_live_streams : ℕ
max_live_streams = 256

abbrev pub max_stream_entries : ℕ
max_stream_entries = 4 * max_live_streams

abbrev pub max_staged_per_conn : ℕ
max_staged_per_conn = 256 * 2 ^ 20

module _ {D : Type 0} where
  -- A stream that is there and no tombstone.
  unfoldable pub live_at : Option (Stream D) → Bool
  live_at none = false
  live_at (some st) = not st.tombstoned

  -- What `tombstoneLive` leaves of a stream: neither staging nor digest.
  abbrev pub dead : Stream D → ℕ → Stream D
  dead st now = record st { buf = []; digest = none; tombstoned = true; tombstoned_at = now }

  -- `tombstoneLive`, on the stream of a request id.
  pub tombstone_live : Session D → ℕ → Stream D → ℕ → Session D
  tombstone_live s id st now = record s {
    staged_bytes = s.staged_bytes - length st.buf;
    streams = put id (dead st now) s.streams;
    live_streams = s.live_streams - 1;
  }

  -- The stream that an accepted BEGIN makes.
  abbrev pub begun : Session D → Header → PutBegin → ℕ → Stream D
  begun s h b now = record {
    ns = s.ns;
    key = h.key;
    total_len = b.total_len;
    ttl_ms = b.ttl_ms;
    xxh3_hint = b.xxh3_hint;
    buf = [];
    digest = none;
    one_shot = 0;
    received = 0;
    tombstoned = false;
    last_active = now;
    tombstoned_at = 0;
  }

  -- `sweepStreams`: what one pass of the reaper makes of each stream of the map, and of the counters.
  pub sweep : ℕ → ℕ → List (ℕ × Stream D) → Session D → Session D
  sweep now timeout [] s = record s { streams = [] }
  sweep now timeout (e ∷ m) s =
      let r = sweep now timeout m s in
      if e.1.tombstoned
      then (if ltb timeout (now - e.1.tombstoned_at)
          then r
          else record r { streams = e ∷ r.streams })
      else if ltb timeout (now - e.1.last_active)
      then record r {
        staged_bytes = r.staged_bytes - length e.1.buf;
        streams = (e.0, dead e.1 now) ∷ r.streams;
        live_streams = r.live_streams - 1;
      }
      else record r { streams = e ∷ r.streams }

  pub sweep_streams : Session D → ℕ → ℕ → Session D
  unfolding sweep
  sweep_streams s now timeout = sweep now timeout s.streams s

module _ (hasher : Hasher) where
  -- The digest or the one-shot sum after a chunk that was staged into `buf`.
  pub hashed : Stream hasher.Digest → Bytes → ℕ → Bytes → Option hasher.Digest × ℕ
  hashed st buf received body = elim st.digest [
    | some d ↦ (some (hasher.absorb d body), st.one_shot)
    | none ↦
        if received == st.total_len
        then (none, hasher.hash buf)
        else (some (hasher.absorb hasher.fresh buf), st.one_shot)
  ]

  -- The stream after a chunk that fits.
  abbrev pub staged_stream : Stream hasher.Digest → Header → Bytes → ℕ → Stream hasher.Digest
  staged_stream st h body now =
      let buf = st.buf ++ body in
      let received = (st.received + h.payload_len) % 2 ^ 32 in
      let d = hashed st buf received body in
      record st { buf = buf; received = received; digest = d.0; one_shot = d.1; last_active = now }

  -- The last case of `putChunk`.
  pub stage :
      Session hasher.Digest → Header → Stream hasher.Digest → Bytes → ℕ → Session hasher.Digest
  stage s h st body now = record s {
    streams = put h.request_id (staged_stream st h body now) s.streams;
    staged_bytes = s.staged_bytes + h.payload_len;
  }

  -- `putChunk` on the stream of its request id.
  pub chunk_on :
      Session hasher.Digest → Header → Stream hasher.Digest → Bytes → ℕ → Session hasher.Digest
  chunk_on s h st body now =
      if st.tombstoned
      then s
      else if h.payload_len == 0
      then s
      else if ltb st.total_len ((st.received + h.payload_len) % 2 ^ 32)
      then tombstone_live s h.request_id st now
      else if ltb max_staged_per_conn (s.staged_bytes + h.payload_len)
      then tombstone_live s h.request_id st now
      else stage s h st body now

  -- The sum of what was staged.
  pub staged_sum : Stream hasher.Digest → ℕ
  staged_sum st = elim st.digest [
    | some d ↦ hasher.sum64 d
    | none ↦ if ltb 0 st.received then st.one_shot else hasher.hash []
  ]

module _ (ops : StoreOps) (hasher : Hasher) where
  abbrev pub Conn : Type 0
  Conn = Peer ops.State ops.Rel hasher.Digest

  -- `putBegin` behind the decoder, `sealed` and `begin_ok` from the store.
  pub begin_checked : Conn → Header → PutBegin → Bool → ℕ → Conn
  begin_checked p h b sealed now =
      let s = p.session in
      if live_at (find h.request_id s.streams)
      then respond p h status_err_malformed
      else if sealed
      then respond p h status_ok_exists
      else if ltb s.limits.max_blob_len b.total_len
      then respond p h status_err_too_large
      else (let asked = ops.can_store p.store s.ns b.total_len in
          let q = record p { store = asked.0 } in
          if not asked.1
          then respond q h status_err_quota_bytes
          else if leb max_live_streams s.live_streams || leb max_stream_entries (length s.streams)
          then respond q h status_err_busy
          else respond
              (record q {
                session = record s {
                  live_streams = s.live_streams + 1;
                  streams = put h.request_id (begun s h b now) s.streams;
                };
              })
              h status_ok)

  pub put_begin : Conn → Header → Bytes → ℕ → Conn
  put_begin p h body now =
      let q = consume p h in
      elim (decode_put_begin body) [
        | ok b ↦ begin_checked q h b (ops.contains p.store p.session.ns h.key) now
        | err e ↦ respond q h (error_status e)
        | panic ↦ q
      ]

  pub put_chunk : Conn → Header → Bytes → ℕ → Conn
  put_chunk p h body now = elim (find h.request_id p.session.streams) [
    | none ↦ consume p h
    | some st ↦ consume (record p { session = chunk_on hasher p.session h st body now }) h
  ]

  -- `putCommit` once the bytes are found whole: the store takes them, and a TTL is set.
  pub commit_stored : Conn → Header → Stream hasher.Digest → ℕ → Conn
  commit_stored p h st sum =
      let done = ops.commit p.store st.ns st.key st.buf sum in
      if done.1 == status_err_quota_bytes
      then respond (record p { store = done.0 }) h status_err_busy
      else if done.1 == status_ok && ltb 0 st.ttl_ms
      then respond (record p { store = ops.touch_ttl done.0 st.ns st.key st.ttl_ms }) h done.1
      else respond (record p { store = done.0 }) h done.1

  -- `putCommit` once the stream is out of the table.
  pub commit_taken : Conn → Header → Stream hasher.Digest → ℕ → Conn
  commit_taken p h st sum =
      if not (st.received == st.total_len)
      then respond p h status_err_short_stream
      else if not (staged_sum hasher st == sum)
      then respond p h status_err_checksum
      else commit_stored p h st sum

  pub commit_decoded : Conn → Header → ℕ → Conn
  commit_decoded p h sum =
      let s = p.session in
      let gone = record s { streams = erase h.request_id s.streams } in
      elim (find h.request_id s.streams) [
        | none ↦ respond (record p { session = gone }) h status_err_stale_stream
        | some st ↦
            if st.tombstoned
            then respond (record p { session = gone }) h status_err_stale_stream
            else commit_taken
                (record p {
                  session = record gone {
                    live_streams = s.live_streams - 1;
                    staged_bytes = s.staged_bytes - length st.buf;
                  };
                })
                h st sum
      ]

  pub put_commit : Conn → Header → Bytes → Conn
  put_commit p h body =
      let q = consume p h in
      elim (decode_put_commit body) [
        | ok sum ↦ commit_decoded q h sum
        | err e ↦ respond q h (error_status e)
        | panic ↦ q
      ]

  pub put_abort : Conn → Header → Conn
  put_abort p h =
      let q = consume p h in
      let s = p.session in
      elim (find h.request_id s.streams) [
        | none ↦ respond q h status_err_stale_stream
        | some st ↦
            let gone = record s {
              staged_bytes = s.staged_bytes - length st.buf;
              streams = erase h.request_id s.streams;
            } in
            if st.tombstoned
            then respond (record q { session = gone }) h status_err_stale_stream
            else respond (record q { session = record gone { live_streams = s.live_streams - 1 } })
                h status_ok
      ]

  pub handle_put_stream : Conn → Header → Bytes → ℕ → Conn
  handle_put_stream p h body now =
      if sub_op h.flags == put_begin_op
      then put_begin p h body now
      else if sub_op h.flags == put_chunk_op
      then put_chunk p h body now
      else if sub_op h.flags == put_commit_op
      then put_commit p h body
      else if sub_op h.flags == put_abort_op
      then put_abort p h
      else respond (consume p h) h status_err_unsupported
