-- ===== src/Server/PutStream/Steps.antt =====
-- internal/server/putstream.go: what every frame of an upload does to the connection.
use kvstash.Prelude.{ℕ, ◌≡◌, refl, inl, inr, false, Bool-cases, ◌==◌, if◌then◌else◌, arith}
use kvstash.Bytes.{Bytes}
use kvstash.Protocol.Header.{Header}
use kvstash.Protocol.Ops.{sub_op, put_begin_op, put_chunk_op, put_commit_op, put_abort_op}
use kvstash.Server.Store.{StoreOps, Hasher}
use kvstash.Server.Session.Replies.{Adds-one}
use kvstash.Server.PutStream.{Conn, handle_put_stream}
use kvstash.Server.PutStream.Bounds.{IsBounded, IsFrame}
use kvstash.Server.PutStream.Handled.{Handled}
use kvstash.Server.PutStream.Handled.{put_abort-Handled, put_chunk-Handled}
use kvstash.Server.PutStream.Begin.{put_begin-Handled}
use kvstash.Server.PutStream.Commit.{put_commit-Handled}

module _ (ops : StoreOps) (hasher : Hasher) where
  pub handle_put_stream-Handled :
      (p : Conn ops hasher) (h : Header) (body : Bytes) (now : ℕ)
      → IsBounded hasher p.session
      → IsFrame hasher p.session.limits.max_blob_len h body
      → Handled ops hasher p h
          (if sub_op h.flags == put_chunk_op then 0 else 1)
          (handle_put_stream ops hasher p h body now)
  unfolding handle_put_stream
  handle_put_stream-Handled p h body now i fr = elim (Bool-cases (sub_op h.flags == put_begin_op)) [
    | inl a ↦
        let c : sub_op h.flags == put_chunk_op ≡ false = ground (arith, a) in
        rw (handle_put_stream, a, c) (put_begin-Handled ops hasher p h body now i)
    | inr a ↦ elim (Bool-cases (sub_op h.flags == put_chunk_op)) [
      | inl b ↦ rw (handle_put_stream, a, b) (put_chunk-Handled ops hasher p h body now i fr)
      | inr b ↦ elim (Bool-cases (sub_op h.flags == put_commit_op)) [
        | inl c ↦ rw (handle_put_stream, a, b, c) (put_commit-Handled ops hasher p h body i)
        | inr c ↦ elim (Bool-cases (sub_op h.flags == put_abort_op)) [
          | inl d ↦ rw (handle_put_stream, a, b, c, d) (put_abort-Handled ops hasher p h i)
          | inr d ↦
              rw (handle_put_stream, a, b, c, d)
                (record {
                  bounded = i;
                  authed = refl;
                  granted = refl;
                  replied = Adds-one h _ _ refl;
                })
        ]
      ]
    ]
  ]
