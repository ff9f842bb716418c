-- ===== src/Server/Handlers/Answers.antt =====
-- internal/server/session.go: HandleFrame grants every frame's payload back once, keeps the session's
-- bounds, and queues the responses that the frame is owed, each with its request id.
use kvstash.Prelude.{
  ◌≡◌, ◌<◌, refl, sym, ap, subst, inl, inr, arith, Bool-cases, if-both, ifs-both, ℕ, Bool, true,
  false, ◌||◌, not, [], ltb, ◌==◌, if◌then◌else◌,
}
use kvstash.Outcome.{Outcome, ok, err, panic}
use kvstash.Bytes.{Bytes}
use kvstash.Protocol.Header.{Header}
use kvstash.Protocol.Body.KeyList.{KeyList, decode_key_list}
use kvstash.Protocol.Body.KeyList.RoundTrip.{decode_key_list-ne-panic}
use kvstash.Protocol.PutBody.RoundTrip.{decode_stats_req-ne-panic}
use kvstash.Protocol.PutBody.{decode_stats_req}
use kvstash.Protocol.Ops.{
  op_nop, op_hello, op_batch_exists, op_batch_get, op_put_stream, op_touch_lease, op_pin, op_delete,
  op_stats, unpin_op, put_chunk_op, sub_op,
}
use kvstash.Server.Store.{StoreOps, Hasher}
use kvstash.Server.Session.{consume, write_resp}
use kvstash.Server.PutStream.{Conn, handle_put_stream}
use kvstash.Server.Session.Replies.{Adds-none, Adds-one}
use kvstash.Server.BatchGet.{batch_get}
use kvstash.Server.BatchGet.Queued.{batch_get-Adds}
use kvstash.Server.PutStream.Bounds.{IsBounded, IsFrame}
use kvstash.Server.PutStream.Handled.{Handled}
use kvstash.Server.PutStream.Steps.{handle_put_stream-Handled}
use kvstash.Protocol.Body.{BodyError}
use kvstash.Server.Handlers.{
  bit, with_keys, batch_exists, handle_key_status_verb, handle_delete, handle_stats, dispatch,
}

-- What a frame is owed in responses: none, one, or the frames of a GET. The response flag, which no
-- request may have, is looked at before the opcode, so that a NOP or a chunk that has it is owed one.
pub data Debt : Type 0 where
  nothing one frames : Debt

abbrev pub Pays : Debt → ℕ → Type 0
Pays nothing n = n ≡ 0
Pays one n = n ≡ 1
Pays frames n = 0 < n

unfoldable pub debt : Bool → Header → Debt
debt authed h =
    if not authed
    then (if not (h.opcode == op_hello) then nothing else one)
    else if bit 0 h.flags
    then one
    else if h.opcode == op_nop
    then nothing
    else if h.opcode == op_hello
    then one
    else if h.opcode == op_batch_exists
    then one
    else if h.opcode == op_batch_get
    then frames
    else if h.opcode == op_put_stream
    then (if sub_op h.flags == put_chunk_op then nothing else one)
    else one

module _ (ops : StoreOps) (hasher : Hasher) where
  -- A handler leaves the session bounded and authenticated as it was, grants the payload back and pays
  -- what is owed.
  unfoldable pub Served : Conn ops hasher → Header → Conn ops hasher → Debt → Type 0
  Served p h q d = (n : ℕ) × Pays d n × Handled ops hasher p h n q

  write_resp-Served :
      (p : Conn ops hasher) (h : Header) (store : ops.State) (body : Bytes)
      → IsBounded hasher p.session
      → Handled ops hasher p h 1 (write_resp (record (consume p h) { store = store }) h body)
  write_resp-Served p h store body i = record {
    bounded = i;
    authed = refl;
    granted = refl;
    replied = Adds-one h p.replies _ refl;
  }

  with_keys-Served :
      (p : Conn ops hasher) (h : Header) (body : Bytes)
      (k : Conn ops hasher → KeyList → Conn ops hasher) (d : Debt)
      → IsBounded hasher p.session
      → Pays d 1
      → ((l : KeyList) → Served p h (k (consume p h) l) d)
      → Served p h (with_keys ops hasher p h body k) d
  unfolding Served with_keys
  with_keys-Served p h body k d i pays f =
      keys_at (decode_key_list body p.session.limits.max_batch_keys []) refl
    where
      keys_at :
          (o : Outcome BodyError KeyList)
          → decode_key_list body p.session.limits.max_batch_keys [] ≡ o
          → Served p h (with_keys ops hasher p h body k) d
      keys_at (ok l) e = rw (with_keys, e) (f l)
      keys_at (err x) e = rw (with_keys, e) (1, pays, write_resp-Served p h p.store _ i)
      keys_at panic e = absurd (decode_key_list-ne-panic body p.session.limits.max_batch_keys [] e)

  batch_get-Served :
      (p : Conn ops hasher) (h : Header) (l : KeyList)
      → IsBounded hasher p.session
      → Served p h (batch_get ops hasher (consume p h) h l.keys) frames
  unfolding Served
  batch_get-Served p h l i =
      let a = batch_get-Adds ops hasher (consume p h) h l.keys in
      (
        a.0,
        a.1,
        record {
          bounded = subst (IsBounded hasher) (sym a.3) i;
          authed = ap (λ s. s.authed) a.3;
          granted = a.4;
          replied = a.2;
        },
      )

  handle_stats-Served :
      (p : Conn ops hasher) (h : Header) (body : Bytes)
      → IsBounded hasher p.session
      → Served p h (handle_stats ops hasher p h body) one
  unfolding Served handle_stats
  handle_stats-Served p h body i = stats_at (decode_stats_req body) refl
    where
      stats_at :
          (o : Outcome BodyError ℕ)
          → decode_stats_req body ≡ o
          → Served p h (handle_stats ops hasher p h body) one
      stats_at (ok l) e = rw (handle_stats, e) (1, refl, write_resp-Served p h p.store _ i)
      stats_at (err x) e = rw (handle_stats, e) (1, refl, write_resp-Served p h p.store _ i)
      stats_at panic e = absurd (decode_stats_req-ne-panic body e)

  put_stream-Served :
      (p : Conn ops hasher) (h : Header) (body : Bytes) (now : ℕ)
      → IsBounded hasher p.session
      → IsFrame hasher p.session.limits.max_blob_len h body
      → Served p h
          (handle_put_stream ops hasher p h body now)
          (if sub_op h.flags == put_chunk_op then nothing else one)
  unfolding Served
  put_stream-Served p h body now i fr =
      let d = handle_put_stream-Handled ops hasher p h body now i fr in
      elim (Bool-cases (sub_op h.flags == put_chunk_op)) [
        | inl e ↦ rw e (0, refl, rw e at d)
        | inr e ↦ rw e (1, refl, rw e at d)
      ]

  pub dispatch-Served :
      (p : Conn ops hasher) (h : Header) (body : Bytes) (now : ℕ)
      → IsBounded hasher p.session
      → IsFrame hasher p.session.limits.max_blob_len h body
      → bit 0 h.flags ≡ false
      → Served p h (dispatch ops hasher p h body now) (debt true h)
  unfolding Served dispatch debt batch_exists handle_key_status_verb handle_delete
  dispatch-Served p h body now i fr b =
      let S = Served p h in
      let answered : (store : ops.State) (out : Bytes)
          → S (write_resp (record (consume p h) { store = store }) h out) one =
        λ store out. (1, refl, write_resp-Served p h store out i) in
      let rest_served =
        if-both (λ q. S q one) (h.opcode == op_touch_lease || h.opcode == op_pin)
          (λ e.
            if-both (λ q. S q one) (ltb unpin_op (sub_op h.flags)) (λ e. answered _ _)
              (λ e. with_keys-Served p h body _ one i refl (λ l. answered _ _)))
          (λ e.
            if-both (λ q. S q one) (h.opcode == op_delete)
              (λ e. with_keys-Served p h body _ one i refl (λ l. answered _ _))
              (λ e.
                if-both (λ q. S q one) (h.opcode == op_stats) (λ e. handle_stats-Served p h body i)
                  (λ e. answered _ _))) in
      rw b (
        ifs-both S (h.opcode == op_nop)
          (λ e. (
            0,
            refl,
            record { bounded = i; authed = refl; granted = refl; replied = Adds-none h p.replies },
          ))
          (λ e.
            ifs-both S (h.opcode == op_hello) (λ e. answered _ _)
              (λ e.
                ifs-both S (h.opcode == op_batch_exists)
                  (λ e. with_keys-Served p h body _ one i refl (λ l. answered _ _))
                  (λ e.
                    ifs-both S (h.opcode == op_batch_get)
                      (λ e.
                        with_keys-Served p h body _ frames i (omega arith)
                          (λ l. batch_get-Served p h l i))
                      (λ e.
                        ifs-both S (h.opcode == op_put_stream)
                          (λ e. put_stream-Served p h body now i fr) (λ e. rest_served))))))
