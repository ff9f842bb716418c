-- ===== src/Server/PutStream/Sweep.antt =====
-- internal/server/session.go: a sweep of the reaper keeps a session's counters those of its streams.
use kvstash.Prelude.{
  ℕ, ◌+◌, ◌-◌, ◌≤◌, ◌≡◌, refl, inl, inr, Bool-cases, if-both, List, [], ◌∷◌, length, ltb, arith,
}
use kvstash.Assoc.{sum, AllValues}
use kvstash.Server.Store.{Hasher}
use kvstash.Server.Session.{Stream, Session}
use kvstash.Server.PutStream.{sweep, sweep_streams}
use kvstash.Server.PutStream.Bounds.{live_weight, staged_weight, IsStream, IsBounded, dead-IsStream}

module _ (hasher : Hasher) where
  -- The counters after a sweep, against the streams that it was given.
  record Swept (max : ℕ) (m : List (ℕ × Stream hasher.Digest)) (s r : Session hasher.Digest)
      : Type 0 where
    live : r.live_streams + sum live_weight m ≡ s.live_streams + sum live_weight r.streams
    staged : r.staged_bytes + sum staged_weight m ≡ s.staged_bytes + sum staged_weight r.streams
    entries : length r.streams ≤ length m
    limits : r.limits ≡ s.limits
    fewer_live : r.live_streams ≤ s.live_streams
    fewer_staged : r.staged_bytes ≤ s.staged_bytes
    each : AllValues (IsStream hasher max) r.streams

  sweep-Swept :
      (now timeout max : ℕ) (m : List (ℕ × Stream hasher.Digest)) (s : Session hasher.Digest)
      → sum live_weight m ≤ s.live_streams
      → sum staged_weight m ≤ s.staged_bytes
      → AllValues (IsStream hasher max) m
      → Swept max m s (sweep now timeout m s)
  unfolding sweep sum live_weight staged_weight AllValues
  sweep-Swept now timeout max [] s a b c = record {
    live = omega arith;
    staged = omega arith;
    entries = omega arith;
    limits = refl;
    fewer_live = omega arith;
    fewer_staged = omega arith;
    each = tt;
  }
  sweep-Swept now timeout max (e ∷ m) s a b c =
      let r = sweep-Swept now timeout max m s (omega arith) (omega arith) c.1 in
      let d = dead-IsStream hasher max e.1 now c.0 in
      elim (Bool-cases e.1.tombstoned) [
        | inl t ↦
            let z = c.0.buried t in
            elim (Bool-cases (ltb timeout (now - e.1.tombstoned_at))) [
              | inl x ↦ ground arith
              | inr x ↦ ground arith
            ]
        | inr t ↦ elim (Bool-cases (ltb timeout (now - e.1.last_active))) [
          | inl x ↦ ground arith
          | inr x ↦ ground arith
        ]
      ]

  pub sweep_streams-IsBounded :
      (s : Session hasher.Digest) (now timeout : ℕ)
      → IsBounded hasher s
      → IsBounded hasher (sweep_streams s now timeout)
  unfolding sweep_streams
  sweep_streams-IsBounded s now timeout b =
      let r =
        sweep-Swept now timeout s.limits.max_blob_len s.streams s (omega (arith, b.live))
          (omega (arith, b.staged)) b.each in
      record {
        live = omega (arith, r.live, b.live);
        staged = omega (arith, r.staged, b.staged);
        live_cap = omega (arith, r.fewer_live, b.live_cap);
        entries_cap = omega (arith, r.entries, b.entries_cap);
        staged_cap = omega (arith, r.fewer_staged, b.staged_cap);
        each = rw r.limits r.each;
      }

  sweep-kept :
      (now timeout : ℕ) (m : List (ℕ × Stream hasher.Digest)) (s : Session hasher.Digest)
      → let r = sweep now timeout m s in (r.authed ≡ s.authed) × (m ≡ [] → r.streams ≡ [])
  unfolding sweep
  sweep-kept now timeout [] s = (refl, λ e. refl)
  sweep-kept now timeout (e ∷ m) s =
      let P : Session hasher.Digest → Type 0 = λ r. r.authed ≡ s.authed in
      let k = (sweep-kept now timeout m s).0 in
      (
        if-both P e.1.tombstoned
            (λ t. if-both P (ltb timeout (now - e.1.tombstoned_at)) (λ x. k) (λ x. k))
            (λ t. if-both P (ltb timeout (now - e.1.last_active)) (λ x. k) (λ x. k)),
        λ q. cc q,
      )

  -- A sweep opens nothing.
  pub sweep_streams-kept :
      (s : Session hasher.Digest) (now timeout : ℕ)
      → let r = sweep_streams s now timeout in
        (r.authed ≡ s.authed) × (s.streams ≡ [] → r.streams ≡ [])
  unfolding sweep_streams
  sweep_streams-kept s now timeout = sweep-kept now timeout s.streams s
