-- ===== src/Server/BatchGet.antt =====
-- internal/server/handlers.go: handleBatchGet, which packs the blocks of a key list into response frames.
-- The state of the store runs through the reads, since a read takes a reference and may promote a block.
pub mod Packing
pub mod Queued
pub mod References
use kvstash.Prelude.{
  ℕ, zero, suc, ◌+◌, ◌%◌, ◌^◌, Bool, true, false, ◌&&◌, Option, none, some, List, [], ◌∷◌, ◌++◌,
  map, flatten, length, ltb, if◌then◌else◌,
}
use kvstash.Outcome.{Outcome, ok, err, panic}
use kvstash.Bytes.{Bytes}
use kvstash.Protocol.Ops.{status_ok, status_not_found, status_err_busy, flag_resp, flag_more}
use kvstash.Protocol.Header.{Header}
use kvstash.Protocol.Body.GetResp.{Desc, get_resp_header_size, append_get_resp_header}
use kvstash.Server.Store.{StoreOps, Hasher, Fetched}
use kvstash.Server.Session.{Session, Reply, Peer, reply_to, consume}

-- A response frame on its way: the index of its first key, its descriptors, its payload and the
-- references that the payload stands on.
pub record GetFrame (R : Type 0) : Type 0 where
  pub first : ℕ
  pub descs : List Desc
  pub bufs : List Bytes
  pub payload_bytes : ℕ
  pub releases : List R

module _ {R : Type 0} where
  -- The references of an optional callback.
  abbrev pub rels : Option R → List R
  rels none = []
  rels (some r) = r ∷ []

  abbrev pub block_len : Fetched R → ℕ
  block_len x = if x.hit then length x.bytes else 0

  abbrev pub desc_of : Fetched R → Desc
  desc_of x =
      if x.hit
      then record { status = status_ok; len = block_len x % 2 ^ 32; xxh3 = x.sum }
      else if x.busy
      then record { status = status_err_busy; len = 0; xxh3 = 0 }
      else record { status = status_not_found; len = 0; xxh3 = 0 }

  -- A frame that begins at a key.
  abbrev pub begin_frame : ℕ → GetFrame R
  begin_frame i = record { first = i; descs = []; bufs = []; payload_bytes = 0; releases = [] }

  -- The frame with one key more.
  pub pack_one : GetFrame R → Fetched R → GetFrame R
  pack_one f x = record f {
    descs = f.descs ++ desc_of x ∷ [];
    bufs = if x.hit && ltb 0 (block_len x) then f.bufs ++ x.bytes ∷ [] else f.bufs;
    payload_bytes = f.payload_bytes + block_len x;
    releases = if x.hit then f.releases ++ rels x.rel else f.releases;
  }

  -- The frame that would be sent with one key more.
  abbrev pub projected : GetFrame R → Fetched R → ℕ
  projected f x = get_resp_header_size (length f.descs + 1) + f.payload_bytes + block_len x

  -- Whether the frame is full before the key: one key is always taken.
  abbrev pub overflows : ℕ → GetFrame R → Fetched R → Bool
  overflows max f x = ltb 0 (length f.descs) && ltb max (projected f x)

  -- The body: the header region and the payload.
  pub get_body : ℕ → GetFrame R → Bytes
  get_body total f = elim (append_get_resp_header [] status_ok f.first total f.descs) [
    | ok region ↦ region ++ flatten f.bufs
    | err e ↦ []
    | panic ↦ []
  ]

  pub get_flags : ℕ → GetFrame R → ℕ
  get_flags total f =
      if ltb (f.first + length f.descs) total then flag_resp + flag_more else flag_resp

module _ (ops : StoreOps) where
  pub release_all : List ops.Rel → ops.State → ops.State
  release_all [] s = s
  release_all (r ∷ rs) s = release_all rs (ops.release r s)

  -- The store after a key is packed: a miss keeps no reference.
  pub settle : Fetched ops.Rel → ops.State → ops.State
  settle x s = if x.hit then s else if x.busy then s else release_all (rels x.rel) s

  -- The inner loop: the store, the frame and the keys that are left. A block that does not fit gives its
  -- reference back, and is read again for the next frame.
  pub fill :
      ℕ → ℕ → ops.State → List Bytes → GetFrame ops.Rel → ops.State × GetFrame ops.Rel × List Bytes
  fill max ns s [] f = (s, f, [])
  fill max ns s (k ∷ ks) f =
      let got = ops.fetch s ns k in
      let x = got.1 in
      let packed = fill max ns (settle x got.0) ks (pack_one f x) in
      if overflows max f x then (release_all (rels x.rel) got.0, f, k ∷ ks) else packed

  -- The outer loop, from key `i` on, with rounds of fuel: the store, the frames and the keys left over.
  pub get_frames :
      ℕ → ℕ → ℕ → ops.State → ℕ → List Bytes → ops.State × List (GetFrame ops.Rel) × List Bytes
  get_frames zero max ns s i keys = (s, [], keys)
  get_frames (suc n) max ns s i [] = (s, [], [])
  get_frames (suc n) max ns s i (k ∷ ks) =
      let r = fill max ns s (k ∷ ks) (begin_frame i) in
      let rest = get_frames n max ns r.0 (i + length r.1.descs) r.2 in
      (rest.0, r.1 ∷ rest.1, rest.2)

  -- The frames of a key list that is not empty, or one frame without descriptors.
  pub batch_frames : ℕ → ℕ → ops.State → List Bytes → ops.State × List (GetFrame ops.Rel)
  batch_frames max ns s [] = (s, begin_frame 0 ∷ [])
  batch_frames max ns s (k ∷ ks) =
      let r = get_frames (length (k ∷ ks)) max ns s 0 (k ∷ ks) in (r.0, r.1)

module _ (ops : StoreOps) (hasher : Hasher) where
  -- `handleBatchGet` behind `decodeKeys`.
  pub batch_get :
      Peer ops.State ops.Rel hasher.Digest
      → Header
      → List Bytes
      → Peer ops.State ops.Rel hasher.Digest
  batch_get p h keys =
      let total = length keys in
      let r = batch_frames ops p.session.limits.max_frame_len p.session.ns p.store keys in
      record p {
        store = r.0;
        replies =
            p.replies ++ map (λ f. reply_to p.session h (get_flags total f) (get_body total f)) r.1;
        held = p.held ++ flatten (map (λ f. f.releases) r.1);
      }
