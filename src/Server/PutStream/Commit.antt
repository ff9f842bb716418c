-- ===== src/Server/PutStream/Commit.antt =====
-- internal/server/putstream.go: putCommit keeps the session's bounds, and answers once.
use kvstash.Prelude.{
  ℕ, ◌-◌, ◌≡◌, refl, sym, ap, subst, inl, inr, false, ◌&&◌, not, Bool-cases, Option-cases, if-both,
  length, ltb, ◌==◌, arith,
}
use kvstash.Outcome.{Outcome, ok, err, panic}
use kvstash.Bytes.{Bytes}
use kvstash.Assoc.{find, erase, sum, weight}
use kvstash.Protocol.Header.{Header}
use kvstash.Protocol.Body.{BodyError}
use kvstash.Protocol.PutBody.{decode_put_commit}
use kvstash.Protocol.PutBody.RoundTrip.{decode_put_commit-ne-panic}
use kvstash.Protocol.Ops.{status_ok, status_err_quota_bytes}
use kvstash.Server.Store.{StoreOps, Hasher}
use kvstash.Server.Session.{Stream, consume, respond}
use kvstash.Server.Session.Replies.{Adds, Adds-one}
use kvstash.Server.PutStream.{
  Conn, staged_sum, commit_stored, commit_taken, commit_decoded, put_commit,
}
use kvstash.Server.PutStream.Bounds.{live_weight, staged_weight, IsBounded, erase-IsBounded}
use kvstash.Server.PutStream.Handled.{taken-IsBounded, gone-IsBounded, Handled}

module _ (ops : StoreOps) (hasher : Hasher) where
  -- COMMIT's tail leaves the session alone.
  record OneReply (h : Header) (p q : Conn ops hasher) : Type 0 where
    same : q.session ≡ p.session
    no_grant : q.granted ≡ p.granted
    one : Adds h 1 p.replies q.replies

  respond-OneReply :
      (p : Conn ops hasher) (h : Header) (store : ops.State) (status : ℕ)
      → OneReply h p (respond (record p { store = store }) h status)
  respond-OneReply p h store status = record {
    same = refl;
    no_grant = refl;
    one = Adds-one h p.replies _ refl;
  }

  commit_stored-OneReply :
      (p : Conn ops hasher) (h : Header) (st : Stream hasher.Digest) (sum : ℕ)
      → OneReply h p (commit_stored ops hasher p h st sum)
  unfolding commit_stored
  commit_stored-OneReply p h st sum =
      let done = ops.commit p.store st.ns st.key st.buf sum in
      if-both (OneReply h p) (done.1 == status_err_quota_bytes) (λ e. respond-OneReply p h _ _)
        (λ e.
          if-both (OneReply h p) (done.1 == status_ok && ltb 0 st.ttl_ms)
            (λ e. respond-OneReply p h _ _) (λ e. respond-OneReply p h _ _))

  commit_taken-OneReply :
      (p : Conn ops hasher) (h : Header) (st : Stream hasher.Digest) (sum : ℕ)
      → OneReply h p (commit_taken ops hasher p h st sum)
  unfolding commit_taken
  commit_taken-OneReply p h st sum =
      if-both (OneReply h p) (not (st.received == st.total_len)) (λ e. respond-OneReply p h _ _)
        (λ e.
          if-both (OneReply h p) (not (staged_sum hasher st == sum)) (λ e. respond-OneReply p h _ _)
            (λ e. commit_stored-OneReply p h st sum))

  commit_decoded-Handled :
      (p : Conn ops hasher) (h : Header) (sum : ℕ)
      → IsBounded hasher p.session
      → let q = commit_decoded ops hasher p h sum in
        IsBounded hasher q.session
        × (q.granted ≡ p.granted)
        × Adds h 1 p.replies q.replies
        × (q.session.authed ≡ p.session.authed)
  unfolding commit_decoded live_weight
  commit_decoded-Handled p h sum i =
      let s = p.session in
      elim (Option-cases (find h.request_id s.streams)) [
        | inl f ↦
            let none_live : weight live_weight (find h.request_id s.streams) ≡ 0 =
              ap (weight live_weight) f in
            let none_staged : weight staged_weight (find h.request_id s.streams) ≡ 0 =
              ap (weight staged_weight) f in
            rw (commit_decoded, f)
              (
                erase-IsBounded hasher s h.request_id s.live_streams s.staged_bytes i
                    (omega (arith, none_live)) (omega (arith, none_staged)),
                refl,
                Adds-one h _ _ refl,
                refl,
              )
        | inr (st, f) ↦ elim (Bool-cases st.tombstoned) [
          | inl l ↦
              let b = gone-IsBounded hasher s h.request_id st i f l in
              rw (commit_decoded, f, l) (b, refl, Adds-one h _ _ refl, refl)
          | inr l ↦
              let b = taken-IsBounded hasher s h.request_id st i f l in
              let gone : Conn ops hasher = record p {
                session = record s {
                  streams = erase h.request_id s.streams;
                  live_streams = s.live_streams - 1;
                  staged_bytes = s.staged_bytes - length st.buf;
                };
              } in
              let t = commit_taken-OneReply gone h (record st { tombstoned = false }) sum in
              rw (commit_decoded, f, l)
                (
                  subst (IsBounded hasher) (sym t.same) b,
                  t.no_grant,
                  t.one,
                  ap (λ x. x.authed) t.same,
                )
        ]
      ]

  pub put_commit-Handled :
      (p : Conn ops hasher) (h : Header) (body : Bytes)
      → IsBounded hasher p.session
      → Handled ops hasher p h 1 (put_commit ops hasher p h body)
  unfolding put_commit
  put_commit-Handled p h body i = put_commit_at (decode_put_commit body) refl
    where
      put_commit_at :
          (d : Outcome BodyError ℕ)
          → decode_put_commit body ≡ d
          → Handled ops hasher p h 1 (put_commit ops hasher p h body)
      put_commit_at (ok sum) e =
          let r = commit_decoded-Handled (consume p h) h sum i in
          rw (put_commit, e) (record { bounded = r.0; authed = r.3; granted = r.1; replied = r.2 })
      put_commit_at (err x) e =
          rw (put_commit, e)
            (record { bounded = i; authed = refl; granted = refl; replied = Adds-one h _ _ refl })
      put_commit_at panic e = absurd (decode_put_commit-ne-panic body e)
