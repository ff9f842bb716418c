-- ===== src/Server/BatchGet/References.antt =====
-- internal/server/handlers.go: the references that a GET takes on blocks are those that its frames give
-- back once they are written.
use kvstash.Prelude.{
  ℕ, zero, suc, ◌+◌, ◌≡◌, ◌∙◌, refl, ap, Bool, true, false, if◌then◌else◌, inl, inr, Bool-cases,
  none, List, [], ◌∷◌, ◌++◌, map, flatten, length, arith,
}
use kvstash.Bytes.{Bytes}
use kvstash.Server.Store.{StoreOps}
use kvstash.Server.BatchGet.{
  GetFrame, rels, begin_frame, pack_one, overflows, release_all, settle, fill, get_frames,
  batch_frames,
}

-- How many references of a list are among the chosen ones.
abbrev pub count : {R : Type 0} → (R → Bool) → List R → ℕ
count chosen [] = 0
count chosen (r ∷ rs) = (if chosen r then 1 else 0) + count chosen rs

count-append :
    {R : Type 0} (chosen : R → Bool) (xs ys : List R)
    → count chosen (xs ++ ys) ≡ count chosen xs + count chosen ys
count-append chosen [] ys = omega arith
count-append chosen (x ∷ xs) ys = omega (arith, count-append chosen xs ys)

-- What the frames hold.
abbrev pub held_by : {R : Type 0} → List (GetFrame R) → List R
held_by fs = flatten (map (λ f. f.releases) fs)

-- A store beside two counts of chosen references: those that its reads handed out, and those whose callback
-- has run.
abbrev pub Tallied : StoreOps → Type 0
Tallied ops = ops.State × ℕ × ℕ

-- The operations of the store, which count.
abbrev pub tally : (ops : StoreOps) → (ops.Rel → Bool) → StoreOps
tally ops chosen = record {
  State = Tallied ops;
  Rel = ops.Rel;
  contains = λ t. ops.contains t.0;
  can_store = λ t ns n. let r = ops.can_store t.0 ns n in ((r.0, t.1, t.2), r.1);
  commit = λ t ns k b sum. let r = ops.commit t.0 ns k b sum in ((r.0, t.1, t.2), r.1);
  touch_ttl = λ t ns k ttl. (ops.touch_ttl t.0 ns k ttl, t.1, t.2);
  exists_prefix = λ t. ops.exists_prefix t.0;
  fetch =
      λ t ns k. let r = ops.fetch t.0 ns k in ((r.0, t.1 + count chosen (rels r.1.rel), t.2), r.1);
  release = λ r t. (ops.release r t.0, t.1, t.2 + (if chosen r then 1 else 0));
  has_lifecycle = ops.has_lifecycle;
  touch_lease =
      λ t ns k sub ttl. let r = ops.touch_lease t.0 ns k sub ttl in ((r.0, t.1, t.2), r.1);
  pin_op = λ t ns k sub. let r = ops.pin_op t.0 ns k sub in ((r.0, t.1, t.2), r.1);
  delete = λ t ns k force. let r = ops.delete t.0 ns k force in ((r.0, t.1, t.2), r.1);
  stats = λ t. ops.stats t.0;
}

module _ (ops : StoreOps) (chosen : ops.Rel → Bool) (max ns : ℕ) where
  release_all-tally :
      (rs : List ops.Rel) (t : Tallied ops)
      → release_all (tally ops chosen) rs t ≡ (release_all ops rs t.0, t.1, t.2 + count chosen rs)
  unfolding release_all
  release_all-tally [] t = ap (λ n. (t.0, t.1, n)) (omega arith)
  release_all-tally (r ∷ rs) t =
      release_all-tally rs (ops.release r t.0, t.1, t.2 + (if chosen r then 1 else 0))
      ∙ ap (λ n. (release_all ops rs (ops.release r t.0), t.1, n)) (omega arith)

  module _
      (busy_empty : (s : ops.State) (k : Bytes)
        → (ops.fetch s ns k).1.hit ≡ false
        → (ops.fetch s ns k).1.busy ≡ true
        → (ops.fetch s ns k).1.rel ≡ none) where
    -- What packing one key gives back at once.
    unpacked : ops.State → Bytes → ℕ
    unpacked s k =
        let x = (ops.fetch s ns k).1 in
        if x.hit then 0 else if x.busy then 0 else count chosen (rels x.rel)

    settle-tally :
        (s : ops.State) (k : Bytes) (a g : ℕ)
        → let got = ops.fetch s ns k in
          settle (tally ops chosen) got.1 (got.0, a, g)
          ≡ (settle ops got.1 got.0, a, g + unpacked s k)
    unfolding settle unpacked
    settle-tally s k a g =
        let got = ops.fetch s ns k in
        let none_back : g ≡ g + 0 = omega arith in
        let same = ap (λ n. (got.0, a, n)) none_back in
        elim (Bool-cases got.1.hit) [
          | inl h ↦ rw h same
          | inr h ↦ elim (Bool-cases got.1.busy) [
            | inl b ↦ rw (h, b) same
            | inr b ↦ rw (h, b) (release_all-tally (rels got.1.rel) (got.0, a, g))
          ]
        ]

    packed-count :
        (s : ops.State) (k : Bytes) (f : GetFrame ops.Rel)
        → let x = (ops.fetch s ns k).1 in
          count chosen (rels x.rel) + count chosen f.releases
          ≡ unpacked s k + count chosen (pack_one f x).releases
    unfolding unpacked pack_one
    packed-count s k f =
        let x = (ops.fetch s ns k).1 in
        elim (Bool-cases x.hit) [
          | inl h ↦ rw h (omega (arith, count-append chosen f.releases (rels x.rel)))
          | inr h ↦ elim (Bool-cases x.busy) [
            | inl b ↦ rw (h, b, busy_empty s k h b) (omega arith)
            | inr b ↦ rw (h, b) refl
          ]
        ]

    -- Filling a frame over the counting store, from `a` taken and `g` given back.
    fill-tally :
        (s : ops.State) (a g : ℕ) (keys : List Bytes) (f : GetFrame ops.Rel)
        → let u = fill (tally ops chosen) max ns (s, a, g) keys f in
          let v = fill ops max ns s keys f in
          (u.0.0 ≡ v.0)
          × (u.1 ≡ v.1)
          × (u.2 ≡ v.2)
          × (u.0.1 + g + count chosen f.releases ≡ a + u.0.2 + count chosen v.1.releases)
    unfolding fill
    fill-tally s a g [] f = (refl, refl, refl, omega arith)
    fill-tally s a g (k ∷ ks) f =
        let got = ops.fetch s ns k in
        let a' = a + count chosen (rels got.1.rel) in
        elim (Bool-cases (overflows max f got.1)) [
          | inl o ↦
              rw (o, release_all-tally (rels got.1.rel) (got.0, a', g))
                (refl, refl, refl, omega arith)
          | inr o ↦
              let r =
                fill-tally (settle ops got.1 got.0) a' (g + unpacked s k) ks (pack_one f got.1) in
              rw (o, settle-tally s k a' g) (r.0, r.1, r.2, omega (arith, r.3, packed-count s k f))
        ]

    get_frames-tally :
        (n : ℕ) (s : ops.State) (a g i : ℕ) (keys : List Bytes)
        → let u = get_frames (tally ops chosen) n max ns (s, a, g) i keys in
          let v = get_frames ops n max ns s i keys in
          (u.0.0 ≡ v.0) × (u.1 ≡ v.1) × (u.0.1 + g ≡ a + u.0.2 + count chosen (held_by v.1))
    unfolding get_frames
    get_frames-tally zero s a g i keys = (refl, refl, omega arith)
    get_frames-tally (suc n) s a g i [] = (refl, refl, omega arith)
    get_frames-tally (suc n) s a g i (k ∷ ks) =
        let u = fill (tally ops chosen) max ns (s, a, g) (k ∷ ks) (begin_frame i) in
        let v = fill ops max ns s (k ∷ ks) (begin_frame i) in
        let one = fill-tally s a g (k ∷ ks) (begin_frame i) in
        let rest = get_frames-tally n v.0 u.0.1 u.0.2 (i + length v.1.descs) v.2 in
        let many =
          count-append chosen v.1.releases
            (held_by (get_frames ops n max ns v.0 (i + length v.1.descs) v.2).1) in
        let here : u.0 ≡ (v.0, u.0.1, u.0.2) = ap (λ x. (x, u.0.1, u.0.2)) one.0 in
        rw (one.1, one.2, here)
          (rest.0, ap (λ fs. v.1 ∷ fs) rest.1, omega (arith, one.3, rest.2, many))

    -- Over any store in which a read of a key that is busy hands out no reference, as GetRefTier does not, and for any choice of
    -- references: packing a GET while the chosen references are counted gives the store and the frames that it
    -- gives without the counts, and the chosen references that the reads took are as many as those given
    -- back meanwhile and those that the frames hold. So once these too are given back, each reference has been given
    -- back as often as it was taken: neither a block that does not fit its frame, nor a miss, leaves one behind.
    pub batch_frames-refs :
        (s : ops.State) (keys : List Bytes)
        → let u = batch_frames (tally ops chosen) max ns (s, 0, 0) keys in
          let v = batch_frames ops max ns s keys in
          let done = release_all (tally ops chosen) (held_by u.1) u.0 in
          (u.0.0 ≡ v.0)
          × (u.1 ≡ v.1)
          × (u.0.1 ≡ u.0.2 + count chosen (held_by v.1))
          × (done.0 ≡ release_all ops (held_by v.1) v.0)
          × (done.1 ≡ done.2)
    unfolding batch_frames release_all
    batch_frames-refs s [] = (refl, refl, refl, refl, refl)
    batch_frames-refs s (k ∷ ks) =
        let n = length (k ∷ ks) in
        let u = get_frames (tally ops chosen) n max ns (s, 0, 0) 0 (k ∷ ks) in
        let v = get_frames ops n max ns s 0 (k ∷ ks) in
        let all = get_frames-tally n s 0 0 0 (k ∷ ks) in
        (
          all.0,
          all.1,
          omega (arith, all.2),
          rw (release_all-tally (held_by u.1) u.0, all.0, all.1) refl,
          rw (release_all-tally (held_by u.1) u.0, all.1) (omega (arith, all.2)),
        )
