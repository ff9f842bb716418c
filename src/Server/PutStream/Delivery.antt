-- ===== src/Server/PutStream/Delivery.antt =====
-- internal/server/putstream.go: an upload from its BEGIN to its COMMIT delivers its bytes to the store.
use kvstash.Prelude.{
  ℕ, ◌+◌, ◌^◌, ◌≤◌, ◌<◌, ◌≡◌, ◌∙◌, refl, sym, ap, inl, inr, true, false, ◌||◌, Bool-cases, some,
  List, [], ◌∷◌, ◌++◌, flatten, length, ltb, leb, ◌==◌, ==_iff, if◌then◌else◌, arith,
}
use kvstash.Outcome.{ok}
use kvstash.Bytes.{Bytes}
use kvstash.Assoc.{find, put, sum, find-put-same}
use kvstash.Protocol.Header.{Header}
use kvstash.Protocol.PutBody.{
  append_put_begin, append_put_commit, PutBegin, decode_put_begin, decode_put_commit,
}
use kvstash.Protocol.PutBody.RoundTrip.{FitsPutBegin, put_bodies_round_trip}
use kvstash.Protocol.Ops.{flag_resp, status_ok}
use kvstash.Server.Store.{StoreOps, Hasher}
use kvstash.Server.Session.{Stream, reply_to, status_preamble, consume, respond}
use kvstash.Server.PutStream.{
  max_live_streams, max_stream_entries, max_staged_per_conn, live_at, begun, Conn, begin_checked,
  put_begin, commit_stored, commit_decoded, put_commit,
}
use kvstash.Server.PutStream.Bounds.{IsBounded}
use kvstash.Server.PutStream.Sums.{commit_whole, commit_decoded-commit_whole}
use kvstash.Server.PutStream.Begin.{begun-IsBounded}
use kvstash.Server.PutStream.Upload.{upload, upload-Staged}

module _ (ops : StoreOps) (hasher : Hasher) where
  -- What BEGIN asks for, and the staging budget for all its bytes.
  pub record Accepts (p : Conn ops hasher) (h : Header) (b : PutBegin) : Type 0 where
    pub request_free : live_at (find h.request_id p.session.streams) ≡ false
    pub unsealed : ops.contains p.store p.session.ns h.key ≡ false
    pub size : b.total_len ≤ p.session.limits.max_blob_len
    pub room : (ops.can_store p.store p.session.ns b.total_len).1 ≡ true
    pub live : p.session.live_streams < max_live_streams
    pub entries : length p.session.streams < max_stream_entries
    pub staged : p.session.staged_bytes + b.total_len ≤ max_staged_per_conn
    pub no_wrap : p.session.limits.max_blob_len + b.total_len < 2 ^ 32

  opened : Conn ops hasher → Header → PutBegin → ℕ → Conn ops hasher
  opened p h b now =
      respond
        (record p {
          session = record p.session {
            live_streams = p.session.live_streams + 1;
            streams = put h.request_id (begun p.session h b now) p.session.streams;
          };
          store = (ops.can_store p.store p.session.ns b.total_len).0;
          granted = p.granted + h.payload_len;
        })
        h status_ok

  put_begin-opened :
      (p : Conn ops hasher) (h : Header) (b : PutBegin) (body : Bytes) (now : ℕ)
      → decode_put_begin body ≡ ok b
      → Accepts p h b
      → put_begin ops hasher p h body now ≡ opened p h b now
  unfolding put_begin begin_checked opened
  put_begin-opened p h b body now e a =
      let big : ltb p.session.limits.max_blob_len b.total_len ≡ false = ground (arith, a.size) in
      let full : leb max_live_streams p.session.live_streams
            || leb max_stream_entries (length p.session.streams)
          ≡ false =
        ground (arith, a.live, a.entries) in
      simp (put_begin, begin_checked, e, a.request_free, a.unsealed, big, a.room, full) refl

  -- COMMIT of the right sum, on a stream that is there whole.
  commit_whole-some :
      (p : Conn ops hasher) (h : Header) (st : Stream hasher.Digest) (sum : ℕ) (after : ops.State)
      → find h.request_id p.session.streams ≡ some st
      → st.tombstoned ≡ false
      → length st.buf ≡ st.total_len
      → hasher.hash st.buf ≡ sum
      → ops.commit p.store st.ns st.key st.buf sum ≡ (after, status_ok)
      → let q = commit_whole ops hasher p h sum in
        (q.store ≡ (if ltb 0 st.ttl_ms then ops.touch_ttl after st.ns st.key st.ttl_ms else after))
        × (q.replies ≡ p.replies ++ reply_to p.session h flag_resp (status_preamble status_ok) ∷ [])
  unfolding commit_whole commit_stored
  commit_whole-some p h st sum after f l n v e =
      let len : length st.buf == st.total_len ≡ true = (==_iff (length st.buf) st.total_len).1 n in
      let same : hasher.hash st.buf == sum ≡ true = (==_iff (hasher.hash st.buf) sum).1 v in
      elim (Bool-cases (ltb 0 st.ttl_ms)) [
        | inl t ↦ simp (commit_whole, commit_stored, f, l, len, same, e, t) (refl, refl)
        | inr t ↦ simp (commit_whole, commit_stored, f, l, len, same, e, t) (refl, refl)
      ]

  put_commit-ok :
      (p : Conn ops hasher) (h : Header) (body : Bytes) (sum : ℕ)
      → decode_put_commit body ≡ ok sum
      → put_commit ops hasher p h body ≡ commit_decoded ops hasher (consume p h) h sum
  unfolding put_commit
  put_commit-ok p h body sum e = rw (put_commit, e) refl

  -- An upload delivers its bytes. On a bounded session that accepts the BEGIN, chunks of the announced total
  -- length, however they are cut, and a COMMIT of the hash of their concatenation reach the store's commit
  -- with exactly these bytes; where the store takes them, the TTL is set as announced, and BEGIN and COMMIT
  -- have one OK response each, the chunks none.
  pub upload-stored :
      (p : Conn ops hasher) (h : Header) (b : PutBegin) (cs : List Bytes) (now : ℕ)
      (after : ops.State)
      → IsBounded hasher p.session
      → FitsPutBegin b
      → Accepts p h b
      → length (flatten cs) ≡ b.total_len
      → let acked = reply_to p.session h flag_resp (status_preamble status_ok) in
        let sum = hasher.hash (flatten cs) in
        let asked = (ops.can_store p.store p.session.ns b.total_len).0 in
        let begin = put_begin ops hasher p h (append_put_begin [] b) now in
        let done =
          put_commit ops hasher (upload ops hasher begin h cs now) h (append_put_commit [] sum) in
        sum < 256 ^ 8
        → ops.commit asked p.session.ns h.key (flatten cs) sum ≡ (after, status_ok)
        → (done.store
            ≡ (if ltb 0 b.ttl_ms then ops.touch_ttl after p.session.ns h.key b.ttl_ms else after))
          × (done.replies ≡ (p.replies ++ acked ∷ []) ++ acked ∷ [])
  unfolding opened
  upload-stored p h b cs now after i f a n range stored =
      let sum = hasher.hash (flatten cs) in
      let codec = put_bodies_round_trip [] b sum 0 f range (omega arith) in
      let o = opened p h b now in
      let st = begun p.session h b now in
      let first = put_begin-opened p h b (append_put_begin [] b) now codec.0 a in
      let bounded =
        begun-IsBounded ops hasher p.session h b now i a.request_free a.size a.live a.entries in
      let u =
        upload-Staged ops hasher cs o h st now bounded
          (find-put-same h.request_id st p.session.streams) refl
          (record {
            total = omega (arith, n);
            cap = omega (arith, n, a.staged);
            no_wrap = omega (arith, n, a.no_wrap);
          }) in
      let q = upload ops hasher o h cs now in
      let last = put_commit-ok q h (append_put_commit [] sum) sum codec.1 in
      let whole = commit_decoded-commit_whole ops hasher (consume q h) h sum u.bounded in
      let stores : ops.commit (consume q h).store u.after.ns u.after.key u.after.buf sum
          ≡ (after, status_ok) =
        rw (u.store, u.ns, u.key, u.buf) stored in
      let r =
        commit_whole-some (consume q h) h u.after sum after u.there u.open_still
          (ap length u.buf ∙ n ∙ sym u.total_len) (ap hasher.hash u.buf) stores in
      let same : put_commit ops hasher
            (upload ops hasher (put_begin ops hasher p h (append_put_begin [] b) now) h cs now) h
            (append_put_commit [] sum)
          ≡ commit_whole ops hasher (consume q h) h sum =
        ap (λ x. put_commit ops hasher (upload ops hasher x h cs now) h (append_put_commit [] sum))
          first
        ∙ last
        ∙ whole in
      let ttl : (if ltb 0 u.after.ttl_ms
            then ops.touch_ttl after u.after.ns u.after.key u.after.ttl_ms
            else after)
          ≡ (if ltb 0 b.ttl_ms then ops.touch_ttl after p.session.ns h.key b.ttl_ms else after) =
        rw (u.ns, u.key, u.ttl_ms) refl in
      let again : (upload ops hasher o h cs now).replies
            ++ reply_to q.session h flag_resp (status_preamble status_ok) ∷ []
          ≡ (p.replies ++ reply_to p.session h flag_resp (status_preamble status_ok) ∷ [])
            ++ reply_to p.session h flag_resp (status_preamble status_ok) ∷ [] =
        rw (u.replies, u.ns_same, u.authed_same) refl in
      (ap (λ x. x.store) same ∙ r.0 ∙ ttl, ap (λ x. x.replies) same ∙ r.1 ∙ again)
