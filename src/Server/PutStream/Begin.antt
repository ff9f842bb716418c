-- ===== src/Server/PutStream/Begin.antt =====
-- internal/server/putstream.go: putBegin keeps the session's bounds, and answers once.
use kvstash.Prelude.{
  ℕ, ◌+◌, ◌≤◌, ◌<◌, ◌≡◌, ◌∙◌, refl, ap, inl, inr, Bool, true, false, ◌||◌, not, Bool-cases,
  Option-cases, [], ◌∷◌, ◌++◌, length, ltb, leb, arith,
}
use kvstash.Outcome.{Outcome, ok, err, panic}
use kvstash.Bytes.{Bytes}
use kvstash.Assoc.{find, put, weight, AllValues-find}
use kvstash.Protocol.Header.{Header}
use kvstash.Protocol.Body.{BodyError}
use kvstash.Protocol.PutBody.{PutBegin, decode_put_begin}
use kvstash.Protocol.PutBody.RoundTrip.{decode_put_begin-ne-panic}
use kvstash.Server.Store.{StoreOps, Hasher}
use kvstash.Server.Session.{Session, Reply, consume}
use kvstash.Server.Session.Replies.{Adds, Adds-one}
use kvstash.Server.PutStream.{
  max_live_streams, max_stream_entries, live_at, begun, Conn, begin_checked, put_begin,
}
use kvstash.Server.PutStream.Bounds.{
  live_weight, staged_weight, IsStream, IsBounded, put-IsBounded, staged_own,
}
use kvstash.Server.PutStream.Handled.{Handled}

module _ (ops : StoreOps) (hasher : Hasher) where
  begun-IsStream :
      (s : Session hasher.Digest) (h : Header) (b : PutBegin) (now : ℕ)
      → b.total_len ≤ s.limits.max_blob_len
      → IsStream hasher s.limits.max_blob_len (begun s h b now)
  begun-IsStream s h b now l = record {
    size = λ e. refl;
    within = omega arith;
    total = l;
    buried = λ e. refl;
    unhashed = λ e d. inl refl;
    running = λ d e. absurd (cc e);
  }

  -- An accepted BEGIN: the request id has no stream, or a tombstone.
  pub begun-IsBounded :
      (s : Session hasher.Digest) (h : Header) (b : PutBegin) (now : ℕ)
      → IsBounded hasher s
      → live_at (find h.request_id s.streams) ≡ false
      → b.total_len ≤ s.limits.max_blob_len
      → s.live_streams < max_live_streams
      → length s.streams < max_stream_entries
      → IsBounded hasher (record s {
        live_streams = s.live_streams + 1;
        streams = put h.request_id (begun s h b now) s.streams;
      })
  unfolding live_weight staged_weight live_at
  begun-IsBounded s h b now i l t c e =
      let new = begun-IsStream s h b now t in
      elim (Option-cases (find h.request_id s.streams)) [
        | inl f ↦
            put-IsBounded hasher s h.request_id (s.live_streams + 1) s.staged_bytes
              (begun s h b now) i new (rw f (omega arith)) (rw f (omega arith)) (omega arith)
              i.staged_cap (omega arith)
        | inr (st, f) ↦
            let over : not st.tombstoned ≡ false = rw f at l in
            let buried : st.tombstoned ≡ true = ground (arith, over) in
            let old =
              AllValues-find (IsStream hasher s.limits.max_blob_len) h.request_id s.streams i.each
                f in
            let lw : weight live_weight (find h.request_id s.streams) ≡ 0 =
              ap (weight live_weight) f ∙ rw buried refl in
            let sw = staged_own hasher s h.request_id st f in
            put-IsBounded hasher s h.request_id (s.live_streams + 1) s.staged_bytes
              (begun s h b now) i new (omega (arith, lw)) (omega (arith, sw, old.buried buried))
              (omega arith) i.staged_cap (omega arith)
      ]

  begin_checked-Handled :
      (p : Conn ops hasher) (h : Header) (b : PutBegin) (sealed : Bool) (now : ℕ)
      → IsBounded hasher p.session
      → let q = begin_checked ops hasher p h b sealed now in
        IsBounded hasher q.session
        × (q.granted ≡ p.granted)
        × Adds h 1 p.replies q.replies
        × (q.session.authed ≡ p.session.authed)
  unfolding begin_checked
  begin_checked-Handled p h b sealed now i =
      let s = p.session in
      let r : (x : Reply) → x.request_id ≡ h.request_id → Adds h 1 p.replies (p.replies ++ x ∷ []) =
        Adds-one h p.replies in
      elim (Bool-cases (live_at (find h.request_id s.streams))) [
        | inl l ↦ rw (begin_checked, l) (i, refl, r _ refl, refl)
        | inr l ↦ elim (Bool-cases sealed) [
          | inl e ↦ rw (begin_checked, l, e) (i, refl, r _ refl, refl)
          | inr e ↦ elim (Bool-cases (ltb s.limits.max_blob_len b.total_len)) [
            | inl t ↦ rw (begin_checked, l, e, t) (i, refl, r _ refl, refl)
            | inr t ↦ elim (Bool-cases ((ops.can_store p.store s.ns b.total_len).1)) [
              | inr o ↦ rw (begin_checked, l, e, t, o) (i, refl, r _ refl, refl)
              | inl o ↦
                  elim (Bool-cases (
                    leb max_live_streams s.live_streams
                    || leb max_stream_entries (length s.streams))) [
                      | inl c ↦ rw (begin_checked, l, e, t, o, c) (i, refl, r _ refl, refl)
                      | inr c ↦
                          rw (begin_checked, l, e, t, o, c)
                            (
                              begun-IsBounded s h b now i l (ground arith) (ground arith)
                                  (ground arith),
                              refl,
                              r _ refl,
                              refl,
                            )
                    ]
            ]
          ]
        ]
      ]

  pub put_begin-Handled :
      (p : Conn ops hasher) (h : Header) (body : Bytes) (now : ℕ)
      → IsBounded hasher p.session
      → Handled ops hasher p h 1 (put_begin ops hasher p h body now)
  unfolding put_begin
  put_begin-Handled p h body now i = put_begin_at (decode_put_begin body) refl
    where
      put_begin_at :
          (d : Outcome BodyError PutBegin)
          → decode_put_begin body ≡ d
          → Handled ops hasher p h 1 (put_begin ops hasher p h body now)
      put_begin_at (ok b) e =
          let r =
            begin_checked-Handled (consume p h) h b (ops.contains p.store p.session.ns h.key) now
              i in
          rw (put_begin, e) (record { bounded = r.0; authed = r.3; granted = r.1; replied = r.2 })
      put_begin_at (err x) e =
          rw (put_begin, e)
            (record { bounded = i; authed = refl; granted = refl; replied = Adds-one h _ _ refl })
      put_begin_at panic e = absurd (decode_put_begin-ne-panic body e)
