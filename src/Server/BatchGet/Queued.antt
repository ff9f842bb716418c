-- ===== src/Server/BatchGet/Queued.antt =====
-- internal/server/handlers.go: what handleBatchGet queues on the connection.
use kvstash.Prelude.{ℕ, ◌<◌, ◌≡◌, refl, List, [], ◌∷◌, map, length, length-map, All, arith}
use kvstash.Bytes.{Bytes}
use kvstash.Protocol.Header.{Header}
use kvstash.Server.Store.{StoreOps, Hasher}
use kvstash.Server.Session.{Session, Peer, reply_to}
use kvstash.Server.Session.Replies.{Adds}
use kvstash.Server.BatchGet.{GetFrame, batch_get, batch_frames, get_frames, get_flags, get_body}

module _ (ops : StoreOps) where
  batch_frames-some :
      (max ns : ℕ) (s : ops.State) (keys : List Bytes)
      → 0 < length (batch_frames ops max ns s keys).1
  unfolding batch_frames get_frames
  batch_frames-some max ns s [] = omega arith
  batch_frames-some max ns s (k ∷ ks) = omega arith

module _ (ops : StoreOps) (hasher : Hasher) where
  -- The frames of a GET all carry the request id.
  echoed_map :
      (s : Session hasher.Digest) (h : Header) (total : ℕ) (fs : List (GetFrame ops.Rel))
      → All
          (λ r. r.request_id ≡ h.request_id)
          (map (λ f. reply_to s h (get_flags total f) (get_body total f)) fs)
  echoed_map s h total [] = tt
  echoed_map s h total (f ∷ fs) = (refl, echoed_map s h total fs)

  pub batch_get-Adds :
      (p : Peer ops.State ops.Rel hasher.Digest) (h : Header) (keys : List Bytes)
      → let q = batch_get ops hasher p h keys in
        (n : ℕ) × (0 < n)
        × Adds h n p.replies q.replies
        × (q.session ≡ p.session)
        × (q.granted ≡ p.granted)
  unfolding batch_get
  batch_get-Adds p h keys =
      let total = length keys in
      let fs = (batch_frames ops p.session.limits.max_frame_len p.session.ns p.store keys).1 in
      (
        length fs,
        batch_frames-some ops p.session.limits.max_frame_len p.session.ns p.store keys,
        record {
          added = map (λ f. reply_to p.session h (get_flags total f) (get_body total f)) fs;
          appended = refl;
          count = length-map fs (λ f. reply_to p.session h (get_flags total f) (get_body total f));
          echoed = echoed_map p.session h total fs;
        },
        refl,
        refl,
      )
