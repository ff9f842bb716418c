-- ===== src/Server/PutStream/Handled.antt =====
-- internal/server/putstream.go: putAbort and putChunk keep the session's bounds, grant a frame's payload
-- back once, and answer once or not at all.
use kvstash.Prelude.{
  ℕ, ◌+◌, ◌-◌, ◌%◌, ◌^◌, ◌≡◌, ◌∙◌, refl, ap, inl, inr, true, false, Bool-cases, Option-cases,
  if-both, some, length, ltb, ◌==◌, arith,
}
use kvstash.Bytes.{Bytes}
use kvstash.Assoc.{find, erase, weight, AllValues-find}
use kvstash.Protocol.Header.{Header}
use kvstash.Server.Store.{StoreOps, Hasher}
use kvstash.Server.Session.{Stream, Session}
use kvstash.Server.Session.Replies.{Adds, Adds-none, Adds-one}
use kvstash.Server.PutStream.{
  max_staged_per_conn, tombstone_live, Conn, stage, chunk_on, put_chunk, put_abort,
}
use kvstash.Server.PutStream.Bounds.{
  live_weight, staged_weight, IsStream, IsBounded, IsFrame, erase-IsBounded, found-weight, live_one,
  staged_own, chunk_on-IsBounded,
}

module _ (hasher : Hasher) where
  -- A live stream is taken out of the table.
  pub taken-IsBounded :
      (s : Session hasher.Digest) (id : ℕ) (st : Stream hasher.Digest)
      → IsBounded hasher s
      → find id s.streams ≡ some st
      → st.tombstoned ≡ false
      → IsBounded hasher (record s {
        streams = erase id s.streams;
        live_streams = s.live_streams - 1;
        staged_bytes = s.staged_bytes - length st.buf;
      })
  unfolding live_weight staged_weight
  taken-IsBounded s id st b f l =
      let x = live_one hasher s id st f l in
      let y = staged_own hasher s id st f in
      let u = found-weight hasher live_weight id s.streams st f in
      let v = found-weight hasher staged_weight id s.streams st f in
      let w : live_weight st ≡ 1 = rw l refl in
      erase-IsBounded hasher s id (s.live_streams - 1) (s.staged_bytes - length st.buf) b
        (omega (arith, x, u, w, b.live)) (omega (arith, y, v, b.staged))

  -- A tombstone is taken out of the table.
  pub gone-IsBounded :
      (s : Session hasher.Digest) (id : ℕ) (st : Stream hasher.Digest)
      → IsBounded hasher s
      → find id s.streams ≡ some st
      → st.tombstoned ≡ true
      → IsBounded hasher (record s { streams = erase id s.streams })
  unfolding live_weight
  gone-IsBounded s id st b f l =
      let i = AllValues-find (IsStream hasher s.limits.max_blob_len) id s.streams b.each f in
      let own = staged_own hasher s id st f in
      let none_live : weight live_weight (find id s.streams) ≡ 0 =
        ap (weight live_weight) f ∙ rw l refl in
      erase-IsBounded hasher s id s.live_streams s.staged_bytes b (omega (arith, none_live))
        (omega (arith, own, i.buried l))

  chunk_on-authed :
      (s : Session hasher.Digest) (h : Header) (st : Stream hasher.Digest) (body : Bytes) (now : ℕ)
      → (chunk_on hasher s h st body now).authed ≡ s.authed
  unfolding chunk_on stage tombstone_live
  chunk_on-authed s h st body now =
      let P : Session hasher.Digest → Type 0 = λ r. r.authed ≡ s.authed in
      if-both P st.tombstoned (λ e. refl)
        (λ e.
          if-both P (h.payload_len == 0) (λ e. refl)
            (λ e.
              if-both P (ltb st.total_len ((st.received + h.payload_len) % 2 ^ 32)) (λ e. refl)
                (λ e.
                  if-both P (ltb max_staged_per_conn (s.staged_bytes + h.payload_len)) (λ e. refl)
                    (λ e. refl))))

module _ (ops : StoreOps) (hasher : Hasher) where
  -- What a handler does to the peer: the session stays bounded, the payload is granted back, and
  -- `n` responses are queued.
  pub record Handled (p : Conn ops hasher) (h : Header) (n : ℕ) (q : Conn ops hasher) : Type 0 where
    pub bounded : IsBounded hasher q.session
    pub authed : q.session.authed ≡ p.session.authed
    pub granted : q.granted ≡ p.granted + h.payload_len
    pub replied : Adds h n p.replies q.replies

  pub put_abort-Handled :
      (p : Conn ops hasher) (h : Header)
      → IsBounded hasher p.session
      → Handled p h 1 (put_abort ops hasher p h)
  unfolding put_abort live_weight
  put_abort-Handled p h b = elim (Option-cases (find h.request_id p.session.streams)) [
    | inl f ↦
        rw (put_abort, f)
          (record { bounded = b; authed = refl; granted = refl; replied = Adds-one h _ _ refl })
    | inr (st, f) ↦
        let s = p.session in
        let i =
          AllValues-find (IsStream hasher s.limits.max_blob_len) h.request_id s.streams b.each f in
        let own : weight staged_weight (find h.request_id s.streams) ≡ length st.buf =
          staged_own hasher s h.request_id st f in
        elim (Bool-cases st.tombstoned) [
          | inl l ↦
              let none_live : weight live_weight (find h.request_id s.streams) ≡ 0 =
                ap (weight live_weight) f ∙ rw l refl in
              rw (put_abort, f, l)
                (record {
                  bounded =
                      erase-IsBounded hasher s h.request_id s.live_streams
                        (s.staged_bytes - length st.buf) b (omega (arith, none_live))
                        (omega (arith, own, i.buried l));
                  authed = refl;
                  granted = refl;
                  replied = Adds-one h _ _ refl;
                })
          | inr l ↦
              let c = taken-IsBounded hasher s h.request_id st b f l in
              rw (put_abort, f, l)
                (record {
                  bounded = c;
                  authed = refl;
                  granted = refl;
                  replied = Adds-one h _ _ refl;
                })
        ]
  ]

  pub put_chunk-Handled :
      (p : Conn ops hasher) (h : Header) (body : Bytes) (now : ℕ)
      → IsBounded hasher p.session
      → IsFrame hasher p.session.limits.max_blob_len h body
      → Handled p h 0 (put_chunk ops hasher p h body now)
  unfolding put_chunk
  put_chunk-Handled p h body now b fr = elim (Option-cases (find h.request_id p.session.streams)) [
    | inl f ↦
        rw (put_chunk, f)
          (record { bounded = b; authed = refl; granted = refl; replied = Adds-none h p.replies })
    | inr (st, f) ↦
        let c = chunk_on-IsBounded hasher p.session h st body now b f fr in
        rw (put_chunk, f)
          (record {
            bounded = c;
            authed = chunk_on-authed hasher p.session h st body now;
            granted = refl;
            replied = Adds-none h p.replies;
          })
  ]
