-- ===== src/Server/PutStream/Bounds.antt =====
-- internal/server/putstream.go: the counters of a session are those of its streams, and stay within the
-- caps; a live stream's sum is the hash of what it staged.
use kvstash.Prelude.{
  ℕ, ◌+◌, ◌-◌, ◌%◌, ◌^◌, ◌≤◌, ◌<◌, ◌≡◌, ◌∙◌, ◌⊎◌, refl, sym, ap, inl, inr, true, false, Bool-cases,
  Option, none, some, List, [], ◌++◌, length, length-append, ltb, ◌==◌, ==_iff, if◌then◌else◌,
  arith,
}
use kvstash.Bytes.{Bytes}
use kvstash.Assoc.{
  find, erase, put, sum, weight, AllValues, sum-erase, sum-put, length-erase, length-put,
  AllValues-erase, AllValues-put, AllValues-find,
}
use kvstash.Protocol.Header.{Header}
use kvstash.Server.Store.{Hasher}
use kvstash.Server.Session.{Stream, Session}
use kvstash.Server.PutStream.{
  max_live_streams, max_stream_entries, max_staged_per_conn, dead, tombstone_live, hashed,
  staged_stream, stage, chunk_on,
}

module _ {D : Type 0} where
  unfoldable pub live_weight : Stream D → ℕ
  live_weight st = if st.tombstoned then 0 else 1

  unfoldable pub staged_weight : Stream D → ℕ
  staged_weight st = length st.buf

module _ (hasher : Hasher) where
  -- What holds of each stream of the table; `max` is the negotiated size of a block.
  pub record IsStream (max : ℕ) (st : Stream hasher.Digest) : Type 0 where
    pub size : st.tombstoned ≡ false → st.received ≡ length st.buf
    pub within : st.received ≤ st.total_len
    pub total : st.total_len ≤ max
    pub buried : st.tombstoned ≡ true → length st.buf ≡ 0
    pub unhashed :
        st.tombstoned ≡ false
        → st.digest ≡ none
        → (st.received ≡ 0) ⊎ ((st.received ≡ st.total_len) × (st.one_shot ≡ hasher.hash st.buf))
    pub running : (d : hasher.Digest) → st.digest ≡ some d → d ≡ hasher.fed st.buf

  pub record IsBounded (s : Session hasher.Digest) : Type 0 where
    pub live : s.live_streams ≡ sum live_weight s.streams
    pub staged : s.staged_bytes ≡ sum staged_weight s.streams
    pub live_cap : s.live_streams ≤ max_live_streams
    pub entries_cap : length s.streams ≤ max_stream_entries
    pub staged_cap : s.staged_bytes ≤ max_staged_per_conn
    pub each : AllValues (IsStream s.limits.max_blob_len) s.streams

  pub dead-IsStream :
      (max : ℕ) (st : Stream hasher.Digest) (now : ℕ) → IsStream max st → IsStream max (dead st now)
  dead-IsStream max st now h = record {
    size = λ e. cc e;
    within = h.within;
    total = h.total;
    buried = λ e. refl;
    unhashed = λ e. cc e;
    running = λ d e. cc e;
  }

  -- A stream is put, and the counters follow.
  pub put-IsBounded :
      (s : Session hasher.Digest) (id live' staged' : ℕ) (st : Stream hasher.Digest)
      → IsBounded s
      → IsStream s.limits.max_blob_len st
      → live' + weight live_weight (find id s.streams) ≡ s.live_streams + live_weight st
      → staged' + weight staged_weight (find id s.streams) ≡ s.staged_bytes + staged_weight st
      → live' ≤ max_live_streams
      → staged' ≤ max_staged_per_conn
      → length s.streams + 1 ≤ max_stream_entries + weight (λ x. 1) (find id s.streams)
      → IsBounded
          (record s { streams = put id st s.streams; live_streams = live'; staged_bytes = staged' })
  put-IsBounded s id live' staged' st h i e1 e2 c1 c2 c3 = record {
    live = omega (arith, sum-put live_weight id st s.streams, h.live);
    staged = omega (arith, sum-put staged_weight id st s.streams, h.staged);
    live_cap = c1;
    entries_cap = omega (arith, length-put id st s.streams);
    staged_cap = c2;
    each = AllValues-put (IsStream s.limits.max_blob_len) id st s.streams i h.each;
  }

  -- A stream goes, and the counters follow.
  pub erase-IsBounded :
      (s : Session hasher.Digest) (id live' staged' : ℕ)
      → IsBounded s
      → live' + weight live_weight (find id s.streams) ≡ s.live_streams
      → staged' + weight staged_weight (find id s.streams) ≡ s.staged_bytes
      → IsBounded
          (record s { streams = erase id s.streams; live_streams = live'; staged_bytes = staged' })
  erase-IsBounded s id live' staged' h e1 e2 = record {
    live = omega (arith, sum-erase live_weight id s.streams, h.live);
    staged = omega (arith, sum-erase staged_weight id s.streams, h.staged);
    live_cap = omega (arith, h.live_cap);
    entries_cap = omega (arith, length-erase id s.streams, h.entries_cap);
    staged_cap = omega (arith, h.staged_cap);
    each = AllValues-erase (IsStream s.limits.max_blob_len) id s.streams h.each;
  }

  -- A stream that is found counts in the sums.
  pub found-weight :
      (f : Stream hasher.Digest → ℕ) (id : ℕ) (m : List (ℕ × Stream hasher.Digest))
      (st : Stream hasher.Digest)
      → find id m ≡ some st
      → f st ≤ sum f m
  found-weight f id m st e =
      let w : weight f (find id m) ≡ f st = ap (weight f) e in omega (arith, sum-erase f id m, w)

  -- What a found live stream adds to the sums.
  module _ (s : Session hasher.Digest) (id : ℕ) (st : Stream hasher.Digest)
      (f : find id s.streams ≡ some st) where
    pub live_one : st.tombstoned ≡ false → weight live_weight (find id s.streams) ≡ 1
    unfolding live_weight
    live_one l = ap (weight live_weight) f ∙ rw l refl

    pub staged_own : weight staged_weight (find id s.streams) ≡ length st.buf
    unfolding staged_weight
    staged_own = ap (weight staged_weight) f

    pub entry_one : weight {A = Stream hasher.Digest} (λ x. 1) (find id s.streams) ≡ 1
    entry_one = ap (weight (λ x. 1)) f

  pub tombstone_live-IsBounded :
      (s : Session hasher.Digest) (id : ℕ) (st : Stream hasher.Digest) (now : ℕ)
      → IsBounded s
      → find id s.streams ≡ some st
      → st.tombstoned ≡ false
      → IsBounded (tombstone_live s id st now)
  unfolding tombstone_live live_weight staged_weight
  tombstone_live-IsBounded s id st now h f l =
      let i = AllValues-find (IsStream s.limits.max_blob_len) id s.streams h.each f in
      let w : live_weight st ≡ 1 = rw l refl in
      let lw = live_one s id st f l in
      let sw = staged_own s id st f in
      let one = entry_one s id st f in
      let a = found-weight live_weight id s.streams st f in
      let b = found-weight staged_weight id s.streams st f in
      put-IsBounded s id (s.live_streams - 1) (s.staged_bytes - length st.buf) (dead st now) h
        (dead-IsStream s.limits.max_blob_len st now i) (omega (arith, lw, a, w, h.live))
        (omega (arith, sw, b, h.staged)) (omega (arith, h.live_cap)) (omega (arith, h.staged_cap))
        (omega (arith, one, h.entries_cap))

  -- A frame whose body is its payload, of a size that does not wrap a stream's count.
  pub record IsFrame (max : ℕ) (h : Header) (body : Bytes) : Type 0 where
    pub body_length : length body ≡ h.payload_len
    pub no_wrap : max + h.payload_len < 2 ^ 32

  module _ (max : ℕ) (st : Stream hasher.Digest) (h : Header) (body : Bytes) (now : ℕ)
      (i : IsStream max st) (fr : IsFrame max h body) (l : st.tombstoned ≡ false)
      (pos : 0 < h.payload_len) (fits : (st.received + h.payload_len) % 2 ^ 32 ≤ st.total_len) where
    sum_small : (st.received + h.payload_len) % 2 ^ 32 ≡ st.received + h.payload_len
    sum_small = omega (arith, i.within, i.total, fr.no_wrap)

    staged_digest :
        (d : Option hasher.Digest)
        → st.digest ≡ d
        → let r = staged_stream hasher st h body now in
          (r.digest ≡ none → (r.received ≡ r.total_len) × (r.one_shot ≡ hasher.hash r.buf))
          × ((e : hasher.Digest) → r.digest ≡ some e → e ≡ hasher.fed r.buf)
    unfolding hashed
    staged_digest (some d) q =
        let prev = i.running d q in
        rw q (
          λ e. cc e,
          λ e p.
              let r : hasher.absorb d body ≡ e = cc p in
              sym r ∙ ap (λ x. hasher.absorb x body) prev ∙ hasher.absorb-fed st.buf body,
        )
    staged_digest none q =
        elim (Bool-cases ((st.received + h.payload_len) % 2 ^ 32 == st.total_len)) [
          | inl g ↦
              rw (q, g)
                (
                  λ e. ((==_iff ((st.received + h.payload_len) % 2 ^ 32) st.total_len).0 g, refl),
                  λ e p. absurd (cc p),
                )
          | inr g ↦
              rw (q, g)
                (
                  λ e. absurd (cc e),
                  λ e p.
                      let r : hasher.absorb hasher.fresh (st.buf ++ body) ≡ e = cc p in
                      sym r
                      ∙ ap (λ x. hasher.absorb x (st.buf ++ body)) (sym hasher.fed-nil)
                      ∙ hasher.absorb-fed [] (st.buf ++ body),
                )
        ]

    staged_stream-IsStream : IsStream max (staged_stream hasher st h body now)
    staged_stream-IsStream =
        let d = staged_digest st.digest refl in
        record {
          size =
              λ e. sum_small ∙ omega (arith, i.size l, length-append st.buf body, fr.body_length);
          within = fits;
          total = i.total;
          buried = λ e. absurd (cc (l, e));
          unhashed = λ e q. inr (d.0 q);
          running = d.1;
        }

  stage-IsBounded :
      (s : Session hasher.Digest) (h : Header) (st : Stream hasher.Digest) (body : Bytes) (now : ℕ)
      → IsBounded s
      → find h.request_id s.streams ≡ some st
      → IsFrame s.limits.max_blob_len h body
      → st.tombstoned ≡ false
      → 0 < h.payload_len
      → (st.received + h.payload_len) % 2 ^ 32 ≤ st.total_len
      → s.staged_bytes + h.payload_len ≤ max_staged_per_conn
      → IsBounded (stage hasher s h st body now)
  unfolding stage live_weight staged_weight
  stage-IsBounded s h st body now b f fr l pos fits cap =
      let i = AllValues-find (IsStream s.limits.max_blob_len) h.request_id s.streams b.each f in
      let st' = staged_stream-IsStream s.limits.max_blob_len st h body now i fr l pos fits in
      let w : live_weight (staged_stream hasher st h body now) ≡ 1 = rw l refl in
      put-IsBounded s h.request_id s.live_streams (s.staged_bytes + h.payload_len)
        (staged_stream hasher st h body now) b st'
        (omega (arith, live_one s h.request_id st f l, w))
        (omega (arith, staged_own s h.request_id st f, length-append st.buf body, fr.body_length))
        b.live_cap cap (omega (arith, entry_one s h.request_id st f, b.entries_cap))

  pub chunk_on-IsBounded :
      (s : Session hasher.Digest) (h : Header) (st : Stream hasher.Digest) (body : Bytes) (now : ℕ)
      → IsBounded s
      → find h.request_id s.streams ≡ some st
      → IsFrame s.limits.max_blob_len h body
      → IsBounded (chunk_on hasher s h st body now)
  unfolding chunk_on
  chunk_on-IsBounded s h st body now b f fr = elim (Bool-cases st.tombstoned) [
    | inl l ↦ rw l b
    | inr l ↦
        let gone = tombstone_live-IsBounded s h.request_id st now b f l in
        let kept = stage-IsBounded s h st body now b f fr l in
        elim (Bool-cases (h.payload_len == 0)) [
          | inl z ↦ rw (l, z) b
          | inr z ↦ elim (Bool-cases (ltb st.total_len ((st.received + h.payload_len) % 2 ^ 32))) [
            | inl o ↦ simp (l, z, o) gone
            | inr o ↦ elim (Bool-cases (ltb max_staged_per_conn (s.staged_bytes + h.payload_len))) [
              | inl c ↦ simp (l, z, o, c) gone
              | inr c ↦ simp (l, z, o, c) (kept (ground arith) (ground arith) (ground arith))
            ]
          ]
        ]
  ]
