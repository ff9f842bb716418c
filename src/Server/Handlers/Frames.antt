-- ===== src/Server/Handlers/Frames.antt =====
-- internal/server/session.go: HandleFrame over the life of a connection, from before its HELLO on, with
-- the reaper's sweeps and the other connections' effects on the store between the frames.
use kvstash.Prelude.{
  ◌≡◌, ◌∙◌, refl, sym, subst, inl, inr, arith, Bool-cases, if-both, ifs-both, ℕ, ◌+◌, true, false,
  ◌||◌, not, Option, none, some, List, [], ltb, ◌==◌,
}
use kvstash.Outcome.{Outcome, ok, err, panic}
use kvstash.Bytes.{Bytes}
use kvstash.Protocol.Header.{Header, version1}
use kvstash.Protocol.Limits.{Limits}
use kvstash.Protocol.Hello.Request.{decode_hello_req-ne-panic}
use kvstash.Protocol.Hello.{HelloReq, decode_hello_req}
use kvstash.Protocol.Ops.{status_err_malformed, status_err_auth_required, op_hello}
use kvstash.Server.Store.{StoreOps, Hasher}
use kvstash.Server.Session.{Session, consume, respond}
use kvstash.Server.PutStream.{Conn}
use kvstash.Server.Session.Replies.{Adds, Adds-none, Adds-one}
use kvstash.Server.PutStream.Bounds.{IsBounded, IsStream, IsFrame}
use kvstash.Assoc.{sum, AllValues, AllValues-empty}
use kvstash.Protocol.Body.{BodyError}
use kvstash.Server.Handlers.{
  Config, bit, fatal_hello, hello_decoded, handle_hello, dispatch, handle_frame,
}
use kvstash.Server.Handlers.Answers.{Debt, one, Pays, debt, Served, dispatch-Served}
use kvstash.Server.PutStream.{sweep_streams}
use kvstash.Server.PutStream.Sweep.{sweep_streams-IsBounded, sweep_streams-kept}

module _ (ops : StoreOps) (hasher : Hasher) where
  -- The bounds, and no uploads before the HELLO.
  pub record IsSession (s : Session hasher.Digest) : Type 0 where
    pub bounded : IsBounded hasher s
    pub unopened : s.authed ≡ false → s.streams ≡ []

  -- What a frame does: the session stays sound, the payload is granted back, and the debt is paid.
  pub record Answered (p : Conn ops hasher) (h : Header) (q : Conn ops hasher) (d : Debt)
      : Type 0 where
    pub sound : IsSession q.session
    pub granted : q.granted ≡ p.granted + h.payload_len
    pub n : ℕ
    pub pays : Pays d n
    pub replied : Adds h n p.replies q.replies
    pub refused :
        p.session.authed ≡ false
        → h.opcode == op_hello ≡ false
        → q.aborted ≡ some status_err_auth_required

  -- Limits may change while there are no uploads.
  welcomed-IsBounded :
      (s : Session hasher.Digest) (id feats : ℕ) (limits : Limits)
      → IsBounded hasher s
      → s.streams ≡ []
      → IsBounded hasher (record s { authed = true; ns = id; feats = feats; limits = limits })
  welcomed-IsBounded s id feats limits i e = record {
    live = i.live;
    staged = i.staged;
    live_cap = i.live_cap;
    entries_cap = i.entries_cap;
    staged_cap = i.staged_cap;
    each =
        subst (AllValues (IsStream hasher limits.max_blob_len)) (sym e)
          (AllValues-empty (IsStream hasher limits.max_blob_len));
  }

  -- An answer to a HELLO: a refusal, or the session that it opens.
  Greeted : Conn ops hasher → Header → Conn ops hasher → Type 0
  Greeted p h q =
      IsSession q.session × (q.granted ≡ p.granted + h.payload_len) × Adds h 1 p.replies q.replies

  handle_hello-Greeted :
      (cfg : Config) (p : Conn ops hasher) (h : Header) (body : Bytes)
      → IsSession p.session
      → p.session.authed ≡ false
      → Greeted p h (handle_hello ops hasher cfg p h body)
  unfolding Greeted handle_hello hello_decoded
  handle_hello-Greeted cfg p h body i l = hello_at (decode_hello_req body) refl
    where
      refused : (status : ℕ) → Greeted p h (fatal_hello ops hasher (consume p h) h status)
      refused status = (i, refl, Adds-one h p.replies _ refl)

      open_at :
          (req : HelloReq) (o : Option ℕ)
          → cfg.authenticate req.namespace req.token ≡ o
          → Greeted p h (hello_decoded ops hasher cfg (consume p h) h req)
      open_at req none e =
          if-both (Greeted p h) (ltb version1 req.proto_min || ltb req.proto_max version1)
            (λ v. refused _) (λ v. rw e (refused _))
      open_at req (some id) e =
          if-both (Greeted p h) (ltb version1 req.proto_min || ltb req.proto_max version1)
            (λ v. refused _)
            (λ v. rw e (
              record {
                bounded = welcomed-IsBounded p.session id _ _ i.bounded (i.unopened l);
                unopened = λ x. cc x;
              },
              refl,
              Adds-one h p.replies _ refl,
            ))

      hello_at :
          (o : Outcome BodyError HelloReq)
          → decode_hello_req body ≡ o
          → Greeted p h (handle_hello ops hasher cfg p h body)
      hello_at (ok req) e =
          rw (handle_hello, e) (open_at req (cfg.authenticate req.namespace req.token) refl)
      hello_at (err x) e = rw (handle_hello, e) (refused _)
      hello_at panic e = absurd (decode_hello_req-ne-panic body e)

  -- One response to a frame that changes nothing.
  respond-Answered :
      (p : Conn ops hasher) (h : Header) (status : ℕ)
      → p.session.authed ≡ true
      → IsSession p.session
      → Answered p h (respond (consume p h) h status) one
  respond-Answered p h status l i = record {
    sound = i;
    granted = refl;
    n = 1;
    pays = refl;
    replied = Adds-one h p.replies _ refl;
    refused = λ e o. absurd (cc (l, e));
  }

  -- What an authenticated session does is as sound as the session was.
  Served-Answered :
      (p : Conn ops hasher) (h : Header) (q : Conn ops hasher) (d : Debt)
      → p.session.authed ≡ true
      → Served ops hasher p h q d
      → Answered p h q d
  unfolding Served
  Served-Answered p h q d l s = record {
    sound = record { bounded = s.2.bounded; unopened = λ e. cc (l, s.2.authed, e) };
    granted = s.2.granted;
    n = s.0;
    pays = s.1;
    replied = s.2.replied;
    refused = λ e o. absurd (cc (l, e));
  }

  -- A frame on a sound session, whose body is its payload and cannot wrap a stream's count: HandleFrame leaves a
  -- sound session, grants exactly the payload's length back, and queues as many responses as the frame is owed,
  -- each one with its request id. On an authenticated session a frame with the response flag is owed one, whatever
  -- its opcode; without the flag a NOP and a chunk are owed none, a GET at least one, and any other frame one.
  -- On a session that is not authenticated a HELLO is owed one, and any other frame none, but it
  -- aborts the connection with the status for a missing HELLO; the frame that may report this is no response.
  pub handle_frame-Answered :
      (cfg : Config) (p : Conn ops hasher) (h : Header) (body : Bytes) (now : ℕ)
      → IsSession p.session
      → IsFrame hasher p.session.limits.max_blob_len h body
      → Answered p h (handle_frame ops hasher cfg p h body now) (debt p.session.authed h)
  unfolding handle_frame debt Greeted
  handle_frame-Answered cfg p h body now i fr =
      let A = Answered p h in
      ifs-both A (not p.session.authed)
        (λ t.
          ifs-both A (not (h.opcode == op_hello))
            (λ e. record {
              sound = i;
              granted = refl;
              n = 0;
              pays = refl;
              replied = Adds-none h p.replies;
              refused = λ f o. refl;
            })
            (λ e.
              let g = handle_hello-Greeted cfg p h body i (ground (arith, t)) in
              record {
                sound = g.0;
                granted = g.1;
                n = 1;
                pays = refl;
                replied = g.2;
                refused = λ f o. absurd (ground (arith, e, o));
              }))
        (λ t. elim (Bool-cases (bit 0 h.flags)) [
          | inl b ↦ rw b (respond-Answered p h status_err_malformed (ground (arith, t)) i)
          | inr b ↦
              let d = dispatch-Served ops hasher p h body now i.bounded fr b in
              let l : p.session.authed ≡ true = ground (arith, t) in
              rw b (Served-Answered p h (dispatch ops hasher p h body now) _ l (rw b at d))
        ])

  -- The states of a connection that began unauthenticated and was given frames that
  -- carried `g` bytes.
  pub data Lives (cfg : Config) : Conn ops hasher → ℕ → Type 0 where
    fresh :
        (store : ops.State)
        → Lives cfg
            (record {
              session = record {
                authed = false;
                ns = 0;
                limits = cfg.wire_limits;
                feats = 0;
                streams = [];
                live_streams = 0;
                staged_bytes = 0;
              };
              store = store;
              replies = [];
              held = [];
              granted = 0;
              aborted = none;
              closed = false;
            })
            0
    frame :
        {p : Conn ops hasher} {g : ℕ} (h : Header) (body : Bytes) (now : ℕ)
        → IsFrame hasher p.session.limits.max_blob_len h body
        → Lives cfg p g
        → Lives cfg (handle_frame ops hasher cfg p h body now) (g + h.payload_len)
    reap :
        {p : Conn ops hasher} {g : ℕ} (now timeout : ℕ)
        → Lives cfg p g
        → Lives cfg (record p { session = sweep_streams p.session now timeout }) g
    elsewhere :
        {p : Conn ops hasher} {g : ℕ} (store : ops.State) (held : List ops.Rel)
        → Lives cfg p g
        → Lives cfg (record p { store = store; held = held }) g

  -- Whatever frames a connection is given whose bodies are their payloads and cannot wrap a stream's
  -- count, with sweeps of the reaper and any changes of the store between them: its live streams and
  -- staged bytes are those of its table and within the caps, each stream is consistent, there are no
  -- uploads before the HELLO, and the bytes granted back are the payload bytes that came in.
  pub Lives-IsSession :
      (cfg : Config) {p : Conn ops hasher} {g : ℕ}
      → Lives cfg p g
      → IsSession p.session × (p.granted ≡ g)
  unfolding sum AllValues
  Lives-IsSession cfg (fresh store) = (
    record {
      bounded = record {
        live = refl;
        staged = refl;
        live_cap = omega arith;
        entries_cap = omega arith;
        staged_cap = omega arith;
        each = tt;
      };
      unopened = λ e. refl;
    },
    refl,
  )
  Lives-IsSession cfg (frame {p} h body now fr r) =
      let i = Lives-IsSession cfg r in
      let a = handle_frame-Answered cfg p h body now i.0 fr in
      (a.sound, omega (arith, a.granted, i.1))
  Lives-IsSession cfg (reap {p} now timeout r) =
      let i = Lives-IsSession cfg r in
      let k = sweep_streams-kept hasher p.session now timeout in
      (
        record {
          bounded = sweep_streams-IsBounded hasher p.session now timeout i.0.bounded;
          unopened = λ e. k.1 (i.0.unopened (sym k.0 ∙ e));
        },
        i.1,
      )
  Lives-IsSession cfg (elsewhere store held r) =
      let i = Lives-IsSession cfg r in
      (record { bounded = i.0.bounded; unopened = i.0.unopened }, i.1)
