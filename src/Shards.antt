-- ===== src/Shards.antt =====
-- Go maps that are sharded by a hash of the key, with counters beside them: what the counters sum up, and what
-- a lookup sees. The hash is a parameter.
use kvstash.Prelude.{
  ℕ, zero, suc, ◌+◌, ◌-◌, ◌<◌, ◌≤◌, ◌≡◌, ◌∙◌, refl, sym, ap, inl, inr, false, Bool-cases, if-both,
  Option, none, some, List, [], length, ◌==◌, ==_iff, if◌then◌else◌, arith,
}
use kvstash.Assoc.{
  find, erase, put, sum, weight, sum-put, sum-erase, length-put, length-erase-found,
}
use kvstash.Assoc.Unique.{Unique, Unique-put, Unique-erase}

module _ {A : Type 0} where
  -- One shard's map is replaced.
  unfoldable pub set_shard : (ℕ → List (ℕ × A)) → ℕ → List (ℕ × A) → ℕ → List (ℕ × A)
  set_shard shards i m j = if j == i then m else shards j

  -- A number summed over the first `n` shards.
  unfoldable pub total : ((List (ℕ × A)) → ℕ) → (ℕ → List (ℕ × A)) → ℕ → ℕ
  total f shards zero = 0
  total f shards (suc n) = total f shards n + f (shards n)

  total-above :
      (f : (List (ℕ × A)) → ℕ) (shards : ℕ → List (ℕ × A)) (i n : ℕ) (m : List (ℕ × A))
      → n ≤ i
      → total f (set_shard shards i m) n ≡ total f shards n
  unfolding total set_shard
  total-above f shards i zero m l = refl
  total-above f shards i (suc n) m l =
      let other : n == i ≡ false = ground (arith, l) in
      rw other (omega (arith, total-above f shards i n m (omega (arith, l))))

  pub total-set_shard :
      (f : (List (ℕ × A)) → ℕ) (shards : ℕ → List (ℕ × A)) (i n : ℕ) (m : List (ℕ × A))
      → i < n
      → total f (set_shard shards i m) n + f (shards i) ≡ total f shards n + f m
  unfolding total set_shard
  total-set_shard f shards i zero m l = absurd (omega (arith, l))
  total-set_shard f shards i (suc n) m l = elim (Bool-cases (n == i)) [
    | inl g ↦
        let same : n ≡ i = (==_iff n i).0 g in
        let at : f (shards n) ≡ f (shards i) = ap (λ j. f (shards j)) same in
        rw g (omega (arith, at, total-above f shards i n m (omega (arith, same))))
    | inr g ↦ rw g (omega (arith, total-set_shard f shards i n m (ground (arith, l, g))))
  ]

  total-empty : (f : (List (ℕ × A)) → ℕ) (n : ℕ) → f [] ≡ 0 → total f (λ i. []) n ≡ 0
  unfolding total
  total-empty f zero e = refl
  total-empty f (suc n) e = omega (arith, total-empty f n e, e)

  -- The sum of the lengths in a shard.
  unfoldable pub shard_bytes : (A → ℕ) → List (ℕ × A) → ℕ
  shard_bytes len m = sum len m

  -- The counters beside the first `n` shards are the number of their entries and the sum of the lengths.
  pub record IsCounted (len : A → ℕ) (n : ℕ) (shards : ℕ → List (ℕ × A)) (count size : ℕ)
      : Type 0 where
    pub unique : (i : ℕ) → Unique (shards i)
    pub blocks : count ≡ total length shards n
    pub bytes : size ≡ total (shard_bytes len) shards n

  pub empty-IsCounted : (len : A → ℕ) (n : ℕ) → IsCounted len n (λ i. []) 0 0
  unfolding Unique shard_bytes sum
  empty-IsCounted len n = record {
    unique = λ i. tt;
    blocks = sym (total-empty length n refl);
    bytes = sym (total-empty (shard_bytes len) n refl);
  }

module _ {A : Type 0} (len : A → ℕ) (n : ℕ) (shard_of : ℕ → ℕ)
    (in_range : (k : ℕ) → shard_of k < n) where
  -- One shard is replaced, and the counters follow.
  set_shard-IsCounted :
      (shards : ℕ → List (ℕ × A)) (count size k count' size' : ℕ) (m : List (ℕ × A))
      → IsCounted len n shards count size
      → Unique m
      → count' + length (shards (shard_of k)) ≡ count + length m
      → size' + shard_bytes len (shards (shard_of k)) ≡ size + shard_bytes len m
      → IsCounted len n (set_shard shards (shard_of k) m) count' size'
  unfolding set_shard
  set_shard-IsCounted shards count size k count' size' m h u a b = record {
    unique = λ i. if-both Unique (i == shard_of k) (λ e. u) (λ e. h.unique i);
    blocks =
        omega (arith, a, h.blocks, total-set_shard length shards (shard_of k) n m (in_range k));
    bytes =
        omega (
          arith,
          b,
          h.bytes,
          total-set_shard (shard_bytes len) shards (shard_of k) n m (in_range k),
        );
  }

  module _ (shards : ℕ → List (ℕ × A)) (count size k : ℕ)
      (h : IsCounted len n shards count size) where
    abbrev old : Option A
    old = find k (shards (shard_of k))

    -- A value is put under a new key.
    pub insert-IsCounted :
        (v : A)
        → old ≡ none
        → IsCounted len n
            (set_shard shards (shard_of k) (put k v (shards (shard_of k))))
            (count + 1)
            (size + len v)
    unfolding shard_bytes
    insert-IsCounted v f =
        let m = shards (shard_of k) in
        let w : weight {A = A} (λ x. 1) old ≡ 0 = ap (weight (λ x. 1)) f in
        let b : weight len old ≡ 0 = ap (weight len) f in
        set_shard-IsCounted shards count size k (count + 1) (size + len v) (put k v m) h
          (Unique-put k v m (h.unique (shard_of k))) (omega (arith, length-put k v m, w))
          (omega (arith, sum-put len k v m, b))

    -- A value is put over another.
    pub replace-IsCounted :
        (v cur : A) (size' : ℕ)
        → old ≡ some cur
        → size' + len cur ≡ size + len v
        → IsCounted len n
            (set_shard shards (shard_of k) (put k v (shards (shard_of k))))
            count
            size'
    unfolding shard_bytes
    replace-IsCounted v cur size' f e =
        let m = shards (shard_of k) in
        let w : weight {A = A} (λ x. 1) old ≡ 1 = ap (weight (λ x. 1)) f in
        let b : weight len old ≡ len cur = ap (weight len) f in
        set_shard-IsCounted shards count size k count size' (put k v m) h
          (Unique-put k v m (h.unique (shard_of k))) (omega (arith, length-put k v m, w))
          (omega (arith, sum-put len k v m, b, e))

    -- The counters hold what the shard of a key holds.
    pub shard-within : (cur : A) → old ≡ some cur → (1 ≤ count) × (len cur ≤ size)
    unfolding shard_bytes sum
    shard-within cur f =
        let m = shards (shard_of k) in
        let w : weight {A = A} (λ x. 1) old ≡ 1 = ap (weight (λ x. 1)) f in
        let b : weight len old ≡ len cur = ap (weight len) f in
        let all_blocks = total-set_shard length shards (shard_of k) n [] (in_range k) in
        let all_bytes = total-set_shard (shard_bytes len) shards (shard_of k) n [] (in_range k) in
        (
          omega (arith, length-erase-found k m, w, all_blocks, h.blocks),
          omega (arith, sum-erase len k m, b, all_bytes, h.bytes),
        )

    -- A key is taken out.
    pub erase-IsCounted :
        (cur : A)
        → old ≡ some cur
        → IsCounted len n
            (set_shard shards (shard_of k) (erase k (shards (shard_of k))))
            (count - 1)
            (size - len cur)
    unfolding shard_bytes
    erase-IsCounted cur f =
        let m = shards (shard_of k) in
        let w : weight {A = A} (λ x. 1) old ≡ 1 = ap (weight (λ x. 1)) f in
        let b : weight len old ≡ len cur = ap (weight len) f in
        let within = shard-within cur f in
        set_shard-IsCounted shards count size k (count - 1) (size - len cur) (erase k m) h
          (Unique-erase k m (h.unique (shard_of k)))
          (omega (arith, length-erase-found k m, w, within.0))
          (omega (arith, sum-erase len k m, b, within.1))

module _ {A : Type 0} (shard_of : ℕ → ℕ) where
  -- What a lookup finds after a change under one key.
  pub find-set_shard :
      (shards : ℕ → List (ℕ × A)) (j k : ℕ) (m : List (ℕ × A)) (x : Option A)
      → ((i : ℕ) → find i m ≡ (if i == k then x else find i (shards (shard_of k))))
      → find j (set_shard shards (shard_of k) m (shard_of j))
        ≡ (if j == k then x else find j (shards (shard_of j)))
  unfolding set_shard
  find-set_shard shards j k m x h = elim (Bool-cases (shard_of j == shard_of k)) [
    | inl g ↦
        let same : shard_of k ≡ shard_of j = sym ((==_iff (shard_of j) (shard_of k)).0 g) in
        rw g (h j ∙ ap (λ i. if j == k then x else find j (shards i)) same)
    | inr g ↦
        let other : j == k ≡ false = elim (Bool-cases (j == k)) [
          | inl e ↦
              absurd (cc (g, (==_iff (shard_of j) (shard_of k)).1 (ap shard_of ((==_iff j k).0 e))))
          | inr e ↦ e
        ] in
        rw (g, other) refl
  ]

  -- Nothing changes, and a map keeps what it has.
  pub find-same :
      (shards : ℕ → List (ℕ × A)) (j k : ℕ) (x : Option A)
      → find k (shards (shard_of k)) ≡ x
      → find j (shards (shard_of j)) ≡ (if j == k then x else find j (shards (shard_of j)))
  find-same shards j k x e = elim (Bool-cases (j == k)) [
    | inl g ↦ rw g (ap (λ i. find i (shards (shard_of i))) ((==_iff j k).0 g) ∙ e)
    | inr g ↦ rw g refl
  ]
