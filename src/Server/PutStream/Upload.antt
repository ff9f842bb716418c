-- ===== src/Server/PutStream/Upload.antt =====
-- internal/server/putstream.go: a whole upload. The chunks of an open stream stage their bytes in order,
-- and the COMMIT of their hash hands exactly these bytes to the store.
use kvstash.Prelude.{
  ℕ, ◌+◌, ◌%◌, ◌^◌, ◌≤◌, ◌<◌, ◌≡◌, ◌∙◌, refl, sym, ap, subst, inl, inr, false, Bool-cases,
  length-zero, some, List, [], ◌∷◌, ◌++◌, append-nil, append_assoc, flatten, length, length-append,
  ltb, ◌==◌, ==_iff, arith,
}
use kvstash.Bytes.{Bytes}
use kvstash.Assoc.{find, AllValues-find, find-put-same}
use kvstash.Protocol.Header.{Header}
use kvstash.Server.Store.{StoreOps, Hasher}
use kvstash.Server.Session.{Stream, Session, consume}
use kvstash.Server.PutStream.{max_staged_per_conn, Conn, staged_stream, stage, chunk_on, put_chunk}
use kvstash.Server.PutStream.Bounds.{IsStream, IsBounded, IsFrame, chunk_on-IsBounded}

module _ (ops : StoreOps) (hasher : Hasher) where
  -- The chunk frames of one stream, one after the other.
  pub upload : Conn ops hasher → Header → List Bytes → ℕ → Conn ops hasher
  upload p h [] now = p
  upload p h (c ∷ cs) now =
      upload (put_chunk ops hasher p (record h { payload_len = length c }) c now) h cs now

  -- After chunks on the stream `st` of `p`, the stream of `q` has `bytes` staged behind those of `st`.
  pub record Staged (id : ℕ) (p : Conn ops hasher) (st : Stream hasher.Digest) (bytes : Bytes)
      (q : Conn ops hasher) : Type 0 where
    pub bounded : IsBounded hasher q.session
    pub after : Stream hasher.Digest
    pub there : find id q.session.streams ≡ some after
    pub open_still : after.tombstoned ≡ false
    pub buf : after.buf ≡ st.buf ++ bytes
    pub total_len : after.total_len ≡ st.total_len
    pub key : after.key ≡ st.key
    pub ns : after.ns ≡ st.ns
    pub ttl_ms : after.ttl_ms ≡ st.ttl_ms
    pub store : q.store ≡ p.store
    pub replies : q.replies ≡ p.replies
    pub ns_same : q.session.ns ≡ p.session.ns
    pub authed_same : q.session.authed ≡ p.session.authed
    pub limits : q.session.limits ≡ p.session.limits
    pub staged_bytes : q.session.staged_bytes ≡ p.session.staged_bytes + length bytes

  -- Bytes that a session has room for.
  pub record Fits (p : Conn ops hasher) (st : Stream hasher.Digest) (n : ℕ) : Type 0 where
    pub total : length st.buf + n ≤ st.total_len
    pub cap : p.session.staged_bytes + n ≤ max_staged_per_conn
    pub no_wrap : p.session.limits.max_blob_len + n < 2 ^ 32

  put_chunk-some :
      (p : Conn ops hasher) (h : Header) (st : Stream hasher.Digest) (c : Bytes) (now : ℕ)
      → find h.request_id p.session.streams ≡ some st
      → put_chunk ops hasher p h c now
        ≡ consume (record p { session = chunk_on hasher p.session h st c now }) h
  unfolding put_chunk
  put_chunk-some p h st c now f = rw (put_chunk, f) refl

  chunk_on-zero :
      (s : Session hasher.Digest) (h : Header) (st : Stream hasher.Digest) (c : Bytes) (now : ℕ)
      → st.tombstoned ≡ false
      → h.payload_len ≡ 0
      → chunk_on hasher s h st c now ≡ s
  unfolding chunk_on
  chunk_on-zero s h st c now l z = rw (l, z) refl

  chunk_on-stage :
      (s : Session hasher.Digest) (h : Header) (st : Stream hasher.Digest) (c : Bytes) (now : ℕ)
      → st.tombstoned ≡ false
      → (h.payload_len == 0) ≡ false
      → ltb st.total_len ((st.received + h.payload_len) % 2 ^ 32) ≡ false
      → ltb max_staged_per_conn (s.staged_bytes + h.payload_len) ≡ false
      → chunk_on hasher s h st c now ≡ stage hasher s h st c now
  unfolding chunk_on
  chunk_on-stage s h st c now l z o e = simp (l, z, o, e) refl

  put_chunk-Staged :
      (p : Conn ops hasher) (h : Header) (st : Stream hasher.Digest) (c : Bytes) (now : ℕ)
      → IsBounded hasher p.session
      → find h.request_id p.session.streams ≡ some st
      → st.tombstoned ≡ false
      → h.payload_len ≡ length c
      → Fits p st (length c)
      → Staged h.request_id p st c (put_chunk ops hasher p h c now)
  unfolding stage
  put_chunk-Staged p h st c now b f l n r =
      let s = p.session in
      let i =
        AllValues-find (IsStream hasher s.limits.max_blob_len) h.request_id s.streams b.each f in
      let fr : IsFrame hasher s.limits.max_blob_len h c = record {
        body_length = sym n;
        no_wrap = omega (arith, r.no_wrap);
      } in
      let kept = chunk_on-IsBounded hasher s h st c now b f fr in
      let step = put_chunk-some p h st c now f in
      elim (Bool-cases (h.payload_len == 0)) [
        | inl z ↦
            let none : h.payload_len ≡ 0 = (==_iff h.payload_len 0).0 z in
            let e = length-zero c (omega arith) in
            let same : consume (record p { session = s }) h ≡ put_chunk ops hasher p h c now = sym (
              step
              ∙ ap (λ x. consume (record p { session = x }) h)
                  (chunk_on-zero s h st c now l none)) in
            subst (Staged h.request_id p st c) same (record {
              bounded = b;
              after = st;
              there = f;
              open_still = l;
              buf = rw e (sym (append-nil st.buf));
              total_len = refl;
              key = refl;
              ns = refl;
              ttl_ms = refl;
              store = refl;
              replies = refl;
              ns_same = refl;
              authed_same = refl;
              limits = refl;
              staged_bytes = omega arith;
            })
        | inr z ↦
            let o : ltb st.total_len ((st.received + h.payload_len) % 2 ^ 32) ≡ false =
              ground (arith, i.size l, r.total, r.no_wrap, i.total) in
            let e : ltb max_staged_per_conn (s.staged_bytes + h.payload_len) ≡ false =
              ground (arith, r.cap) in
            let kind = chunk_on-stage s h st c now l z o e in
            let same : consume (record p { session = stage hasher s h st c now }) h
                ≡ put_chunk ops hasher p h c now =
              sym (step ∙ ap (λ x. consume (record p { session = x }) h) kind) in
            subst (Staged h.request_id p st c) same (record {
              bounded = subst (IsBounded hasher) kind kept;
              after = staged_stream hasher st h c now;
              there = find-put-same h.request_id (staged_stream hasher st h c now) s.streams;
              open_still = l;
              buf = refl;
              total_len = refl;
              key = refl;
              ns = refl;
              ttl_ms = refl;
              store = refl;
              replies = refl;
              ns_same = refl;
              authed_same = refl;
              limits = refl;
              staged_bytes = omega arith;
            })
      ]

  pub upload-Staged :
      (cs : List Bytes) (p : Conn ops hasher) (h : Header) (st : Stream hasher.Digest) (now : ℕ)
      → IsBounded hasher p.session
      → find h.request_id p.session.streams ≡ some st
      → st.tombstoned ≡ false
      → Fits p st (length (flatten cs))
      → Staged h.request_id p st (flatten cs) (upload p h cs now)
  unfolding upload
  upload-Staged [] p h st now b f l r = record {
    bounded = b;
    after = st;
    there = f;
    open_still = l;
    buf = sym (append-nil st.buf);
    total_len = refl;
    key = refl;
    ns = refl;
    ttl_ms = refl;
    store = refl;
    replies = refl;
    ns_same = refl;
    authed_same = refl;
    limits = refl;
    staged_bytes = omega arith;
  }
  upload-Staged (c ∷ cs) p h st now b f l r =
      let n = length-append c (flatten cs) in
      let one =
        put_chunk-Staged p (record h { payload_len = length c }) st c now b f l refl
          (record {
            total = omega (arith, r.total, n);
            cap = omega (arith, r.cap, n);
            no_wrap = omega (arith, r.no_wrap, n);
          }) in
      let q = put_chunk ops hasher p (record h { payload_len = length c }) c now in
      let grown : length one.after.buf ≡ length st.buf + length c =
        ap length one.buf ∙ length-append st.buf c in
      let same_max : q.session.limits.max_blob_len ≡ p.session.limits.max_blob_len =
        ap (λ x. x.max_blob_len) one.limits in
      let rest = upload-Staged cs q h one.after now one.bounded one.there one.open_still (record {
        total = omega (arith, r.total, n, grown, one.total_len);
        cap = omega (arith, r.cap, n, one.staged_bytes);
        no_wrap = omega (arith, r.no_wrap, n, same_max);
      }) in
      record {
        bounded = rest.bounded;
        after = rest.after;
        there = rest.there;
        open_still = rest.open_still;
        buf = rest.buf ∙ ap (λ x. x ++ flatten cs) one.buf ∙ append_assoc st.buf c (flatten cs);
        total_len = rest.total_len ∙ one.total_len;
        key = rest.key ∙ one.key;
        ns = rest.ns ∙ one.ns;
        ttl_ms = rest.ttl_ms ∙ one.ttl_ms;
        store = rest.store ∙ one.store;
        replies = rest.replies ∙ one.replies;
        ns_same = rest.ns_same ∙ one.ns_same;
        authed_same = rest.authed_same ∙ one.authed_same;
        limits = rest.limits ∙ one.limits;
        staged_bytes = omega (arith, rest.staged_bytes, one.staged_bytes, n);
      }
