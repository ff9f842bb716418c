-- ===== src/Server/BatchGet/Packing.antt =====
-- internal/server/handlers.go: the frames of a GET cover its keys in order, stay within the negotiated
-- length unless they are a single block, and hold exactly the references that the reads took.
use kvstash.Prelude.{
  ℕ, zero, suc, ◌+◌, ◌≤◌, ◌<◌, ◌≡◌, ◌⊎◌, refl, inl, inr, true, false, Bool-cases, List, [], ◌∷◌,
  ◌++◌, flatten, length, length-append, ltb, arith,
}
use kvstash.Protocol.Ops.{flag_resp, flag_more}
use kvstash.Bytes.{Bytes}
use kvstash.Protocol.Body.GetResp.{get_resp_header_size}
use kvstash.Server.Store.{StoreOps, Fetched}
use kvstash.Server.BatchGet.{
  GetFrame, begin_frame, pack_one, overflows, desc_of, get_flags, settle, fill, get_frames,
  batch_frames,
}

flatten-last :
    (xss : List Bytes) (xs : Bytes)
    → length (flatten (xss ++ xs ∷ [])) ≡ length (flatten xss) + length xs
flatten-last [] xs = omega (arith, length-append xs [])
flatten-last (ys ∷ xss) xs = omega (
  arith,
  length-append ys (flatten (xss ++ xs ∷ [])),
  length-append ys (flatten xss),
  flatten-last xss xs,
)

module _ {R : Type 0} where
  -- A frame within the negotiated length, or with one descriptor.
  pub FitsFrame : ℕ → GetFrame R → Type 0
  FitsFrame max f =
      (get_resp_header_size (length f.descs) + f.payload_bytes ≤ max) ⊎ (length f.descs ≡ 1)

  -- A frame's payload is its buffers, and it is within bounds.
  pub record IsPacked (max : ℕ) (f : GetFrame R) : Type 0 where
    pub payload : f.payload_bytes ≡ length (flatten f.bufs)
    pub fits : 0 < length f.descs → FitsFrame max f

  pack_one-IsPacked :
      (max : ℕ) (f : GetFrame R) (x : Fetched R)
      → IsPacked max f
      → overflows max f x ≡ false
      → IsPacked max (pack_one f x)
  unfolding pack_one FitsFrame
  pack_one-IsPacked max f x i o =
      let n = length-append f.descs (desc_of x ∷ []) in
      record {
        payload = elim (Bool-cases x.hit) [
          | inl h ↦ elim (Bool-cases (ltb 0 (length x.bytes))) [
            | inl b ↦ rw (h, b) (omega (arith, i.payload, flatten-last f.bufs x.bytes))
            | inr b ↦ rw (h, b) (ground (arith, i.payload, b))
          ]
          | inr h ↦ rw h (omega (arith, i.payload))
        ];
        fits = λ z. elim (Bool-cases (ltb 0 (length f.descs))) [
          | inl e ↦ inl (ground (arith, o, e, n))
          | inr e ↦ inr (ground (arith, e, n))
        ];
      }

module _ (ops : StoreOps) (max ns : ℕ) where
  -- What the inner loop makes of a frame and the keys behind it.
  record Filled (f : GetFrame ops.Rel) (keys : List Bytes)
      (r : ops.State × GetFrame ops.Rel × List Bytes) : Type 0 where
    first : r.1.first ≡ f.first
    taken : length r.1.descs + length r.2 ≡ length f.descs + length keys
    grown : length f.descs ≤ length r.1.descs
    packed : IsPacked max r.1

  fill-Filled :
      (s : ops.State) (keys : List Bytes) (f : GetFrame ops.Rel)
      → IsPacked max f
      → Filled f keys (fill ops max ns s keys f)
  unfolding fill pack_one
  fill-Filled s [] f i = record {
    first = refl;
    taken = omega arith;
    grown = omega arith;
    packed = i;
  }
  fill-Filled s (k ∷ ks) f i =
      let got = ops.fetch s ns k in
      elim (Bool-cases (overflows max f got.1)) [
        | inl o ↦
            rw o (record { first = refl; taken = omega arith; grown = omega arith; packed = i })
        | inr o ↦
            let r =
              fill-Filled (settle ops got.1 got.0) ks (pack_one f got.1)
                (pack_one-IsPacked max f got.1 i o) in
            let n = length-append f.descs (desc_of got.1 ∷ []) in
            rw o (record {
              first = r.first;
              taken = omega (arith, r.taken, n);
              grown = omega (arith, r.grown, n);
              packed = r.packed;
            })
      ]

  -- The first key of a frame is always taken.
  fill-progress :
      (s : ops.State) (k : Bytes) (ks : List Bytes) (i : ℕ)
      → let r = fill ops max ns s (k ∷ ks) (begin_frame i) in
        Filled (begin_frame i) (k ∷ ks) r × (0 < length r.1.descs)
  unfolding fill pack_one
  fill-progress s k ks i =
      let got = ops.fetch s ns k in
      let one = fill-Filled (settle ops got.1 got.0) ks (pack_one (begin_frame i) got.1) (
        pack_one-IsPacked max (begin_frame i) got.1
          (record { payload = refl; fits = λ z. absurd (omega (arith, z)) }) refl) in
      (
        fill-Filled s (k ∷ ks) (begin_frame i)
            (record { payload = refl; fits = λ z. absurd (omega (arith, z)) }),
        omega (arith, one.grown),
      )

  -- Frames that cover the keys from `i` up to `total`, each one bounded and not empty.
  unfoldable pub Covers : ℕ → ℕ → List (GetFrame ops.Rel) → Type 0
  Covers i total [] = i ≡ total
  Covers i total (f ∷ fs) =
      (f.first ≡ i)
      × (0 < length f.descs)
      × FitsFrame max f
      × (f.payload_bytes ≡ length (flatten f.bufs))
      × Covers (i + length f.descs) total fs

  get_frames-Covers :
      (n : ℕ) (s : ops.State) (i total : ℕ) (keys : List Bytes)
      → length keys ≤ n
      → i + length keys ≡ total
      → let r = get_frames ops n max ns s i keys in Covers i total r.1 × (r.2 ≡ [])
  unfolding get_frames Covers
  get_frames-Covers zero s i total [] e t = (omega (arith, t), refl)
  get_frames-Covers zero s i total (k ∷ ks) e t = absurd (omega (arith, e))
  get_frames-Covers (suc n) s i total [] e t = (omega (arith, t), refl)
  get_frames-Covers (suc n) s i total (k ∷ ks) e t =
      let r = fill ops max ns s (k ∷ ks) (begin_frame i) in
      let p = fill-progress s k ks i in
      let rest =
        get_frames-Covers n r.0 (i + length r.1.descs) total r.2 (omega (arith, e, p.0.taken, p.1))
          (omega (arith, t, p.0.taken)) in
      ((p.0.first, p.1, p.0.packed.fits p.1, p.0.packed.payload, rest.0), rest.1)

  -- Every frame but the last says that more follow.
  unfoldable pub Flagged : ℕ → List (GetFrame ops.Rel) → Type 0
  Flagged total [] = Unit
  Flagged total (f ∷ []) = get_flags total f ≡ flag_resp
  Flagged total (f ∷ g ∷ fs) = (get_flags total f ≡ flag_resp + flag_more) × Flagged total (g ∷ fs)

  Covers-le : (i total : ℕ) (fs : List (GetFrame ops.Rel)) → Covers i total fs → i ≤ total
  unfolding Covers
  Covers-le i total [] c = omega (arith, c)
  Covers-le i total (f ∷ fs) c = omega (arith, Covers-le (i + length f.descs) total fs c.4)

  Covers-Flagged :
      (i total : ℕ) (fs : List (GetFrame ops.Rel)) → Covers i total fs → Flagged total fs
  unfolding Covers Flagged get_flags
  Covers-Flagged i total [] c = tt
  Covers-Flagged i total (f ∷ []) c =
      let last : ltb (f.first + length f.descs) total ≡ false = ground (arith, c.0, c.4) in
      rw last refl
  Covers-Flagged i total (f ∷ g ∷ fs) c =
      let le = Covers-le (i + length f.descs + length g.descs) total fs c.4.4 in
      let more : ltb (f.first + length f.descs) total ≡ true = ground (arith, c.0, c.4.1, le) in
      (rw more refl, Covers-Flagged (i + length f.descs) total (g ∷ fs) c.4)

  -- For a key list that is not empty, whatever the store answers: the frames of a GET start at key 0, each one
  -- at the key behind the one before it, end with the last key, and hold at least one descriptor each; a frame
  -- with more than one descriptor is within the negotiated length; its byte count is that of its buffers; all
  -- frames but the last, and only they, carry F_MORE.
  pub batch_frames-Covers :
      (s : ops.State) (k : Bytes) (ks : List Bytes)
      → let fs = (batch_frames ops max ns s (k ∷ ks)).1 in
        Covers 0 (length (k ∷ ks)) fs × Flagged (length (k ∷ ks)) fs
  unfolding batch_frames
  batch_frames-Covers s k ks =
      let c =
        get_frames-Covers (length (k ∷ ks)) s 0 (length (k ∷ ks)) (k ∷ ks) (omega arith)
          (omega arith) in
      (
        c.0,
        Covers-Flagged 0 (length (k ∷ ks)) (get_frames ops (length (k ∷ ks)) max ns s 0 (k ∷ ks)).1
            c.0,
      )
