-- ===== src/Server/PutStream/Sums.antt =====
-- internal/server/putstream.go: the sum that a COMMIT is compared with is the hash of the staged bytes,
-- however the chunks cut them.
use kvstash.Prelude.{
  ℕ, ◌-◌, ◌≡◌, ◌∙◌, refl, sym, ap, inl, inr, false, not, Bool-cases, Option-cases, length-zero,
  Option, none, some, length, ltb, ◌==◌, if◌then◌else◌, arith,
}
use kvstash.Assoc.{find, erase, sum, AllValues-find}
use kvstash.Protocol.Header.{Header}
use kvstash.Protocol.Ops.{status_err_stale_stream, status_err_short_stream, status_err_checksum}
use kvstash.Server.Store.{StoreOps, Hasher}
use kvstash.Server.Session.{Stream, respond}
use kvstash.Server.PutStream.{Conn, staged_sum, commit_stored, commit_taken, commit_decoded}
use kvstash.Server.PutStream.Bounds.{IsStream, IsBounded}

module _ (hasher : Hasher) where
  pub staged_sum-IsStream :
      (max : ℕ) (st : Stream hasher.Digest)
      → IsStream hasher max st
      → st.tombstoned ≡ false
      → staged_sum hasher st ≡ hasher.hash st.buf
  unfolding staged_sum
  staged_sum-IsStream max st i l = sum_at st.digest refl
    where
      sum_at :
          (d : Option hasher.Digest) → st.digest ≡ d → staged_sum hasher st ≡ hasher.hash st.buf
      sum_at (some d) e =
          rw (staged_sum, e) (ap hasher.sum64 (i.running d e) ∙ hasher.sum64-fed st.buf)
      sum_at none e = elim (Bool-cases (ltb 0 st.received)) [
        | inl g ↦ elim (i.unhashed l e) [
          | inl z ↦ absurd (ground (arith, z, g))
          | inr z ↦ rw (staged_sum, e, g) z.1
        ]
        | inr g ↦
            rw (staged_sum, e, g)
              (ap hasher.hash (sym (length-zero st.buf (ground (arith, g, i.size l)))))
      ]

module _ (ops : StoreOps) (hasher : Hasher) where
  -- COMMIT, on the bytes themselves: the length is that of the buffer, the sum its hash.
  unfoldable pub commit_whole : Conn ops hasher → Header → ℕ → Conn ops hasher
  commit_whole p h sum =
      let s = p.session in
      let gone = record s { streams = erase h.request_id s.streams } in
      elim (find h.request_id s.streams) [
        | none ↦ respond (record p { session = gone }) h status_err_stale_stream
        | some st ↦
            if st.tombstoned
            then respond (record p { session = gone }) h status_err_stale_stream
            else (let q = record p {
              session = record gone {
                live_streams = s.live_streams - 1;
                staged_bytes = s.staged_bytes - length st.buf;
              };
            } in
                if not (length st.buf == st.total_len)
                then respond q h status_err_short_stream
                else if not (hasher.hash st.buf == sum)
                then respond q h status_err_checksum
                else commit_stored ops hasher q h st sum)
      ]

  pub commit_taken-IsStream :
      (p : Conn ops hasher) (h : Header) (max : ℕ) (st : Stream hasher.Digest) (sum : ℕ)
      → IsStream hasher max st
      → st.tombstoned ≡ false
      → commit_taken ops hasher p h st sum ≡ (
          if not (length st.buf == st.total_len)
          then respond p h status_err_short_stream
          else if not (hasher.hash st.buf == sum)
          then respond p h status_err_checksum
          else commit_stored ops hasher p h st sum)
  unfolding commit_taken
  commit_taken-IsStream p h max st sum i l =
      rw (commit_taken, staged_sum-IsStream hasher max st i l, i.size l) refl

  -- On a session whose bounds hold, a COMMIT is decided as if the length and the hash of the staged buffer
  -- were taken at that moment, although the code reads a running count and a digest fed chunk by chunk.
  pub commit_decoded-commit_whole :
      (p : Conn ops hasher) (h : Header) (sum : ℕ)
      → IsBounded hasher p.session
      → commit_decoded ops hasher p h sum ≡ commit_whole p h sum
  unfolding commit_decoded commit_whole commit_taken
  commit_decoded-commit_whole p h sum i =
      elim (Option-cases (find h.request_id p.session.streams)) [
        | inl f ↦ rw (commit_decoded, commit_whole, f) refl
        | inr (st, f) ↦
            let s =
              AllValues-find (IsStream hasher p.session.limits.max_blob_len) h.request_id
                p.session.streams i.each f in
            elim (Bool-cases st.tombstoned) [
              | inl l ↦ rw (commit_decoded, commit_whole, f, l) refl
              | inr l ↦
                  let q : Conn ops hasher = record p {
                    session = record p.session {
                      streams = erase h.request_id p.session.streams;
                      live_streams = p.session.live_streams - 1;
                      staged_bytes = p.session.staged_bytes - length st.buf;
                    };
                  } in
                  simp (commit_decoded, commit_whole, f, l)
                    (commit_taken-IsStream q h p.session.limits.max_blob_len st sum s l)
            ]
      ]
