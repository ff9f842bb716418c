-- ===== src/Dram/Store/Lookups.antt =====
-- internal/store/dram/index.go: what a lookup finds after a publication or a removal, for blocks shared by address.
use kvstash.Prelude.{
  ℕ, ◌≡◌, refl, inl, inr, ◌⊎◌, true, false, Bool-cases, Option-cases, Option, none, some, ◌==◌,
  ==_iff, if◌then◌else◌, if-both,
}
use kvstash.Assoc.{find, put, erase, find-put}
use kvstash.Assoc.Unique.{Unique, Unique-put, Unique-erase, find-erase}
use kvstash.Shards.{set_shard, find-set_shard}
use kvstash.Protocol.Ops.{status_ok}
use kvstash.Dram.Index.{Index, index_get, index_put, delete_if}

module _ {A : Type 0} (len : A → ℕ) (shard_of : ℕ → ℕ) (idx : Index A)
    (unique : (i : ℕ) → Unique (idx.shards i)) (k : ℕ) where
  -- An index whose lookups differ under one key at most.
  pub record Shows (o : Option A) (idx' : Index A) : Type 0 where
    pub looks :
        (j : ℕ) → index_get shard_of idx' j ≡ (if j == k then o else index_get shard_of idx j)
    pub unique' : (i : ℕ) → Unique (idx'.shards i)

  -- A publication wins, or a block stands there already.
  pub index_put-cases :
      (p : A)
      → ((index_put len shard_of idx k p).2 ≡ true)
          × (index_get shard_of idx k ≡ none)
          × Shows (some p) (index_put len shard_of idx k p).0
        ⊎ ((index_put len shard_of idx k p).2 ≡ false)
          × ((cur : A) × (index_get shard_of idx k ≡ some cur))
  unfolding index_put index_get set_shard
  index_put-cases p = elim (Option-cases (find k (idx.shards (shard_of k)))) [
    | inl f ↦
        rw (index_put, f)
          (inl (
            refl,
            refl,
            record {
              looks = λ j.
                  find-set_shard shard_of idx.shards j k (put k p (idx.shards (shard_of k)))
                    (some p) (λ i. find-put i k p (idx.shards (shard_of k)));
              unique' = λ i.
                  if-both Unique (i == shard_of k)
                    (λ e. Unique-put k p (idx.shards (shard_of k)) (unique (shard_of k)))
                    (λ e. unique i);
            },
          ))
    | inr (cur, f) ↦ rw (index_put, f) (inr (refl, (cur, refl)))
  ]

  -- A gate refuses or finds nothing, or the block that the lookup finds is removed.
  pub delete_if-cases :
      (gate : A → ℕ)
      → ((delete_if len shard_of idx k gate).1 ≡ none)
        ⊎ ((p : A) × (index_get shard_of idx k ≡ some p)
            × ((delete_if len shard_of idx k gate).1 ≡ some p)
            × (gate p ≡ status_ok)
            × Shows none (delete_if len shard_of idx k gate).0)
  unfolding delete_if index_get set_shard
  delete_if-cases gate = elim (Option-cases (find k (idx.shards (shard_of k)))) [
    | inl f ↦ rw (delete_if, f) (inl refl)
    | inr (p, f) ↦ elim (Bool-cases (gate p == status_ok)) [
      | inl g ↦
          rw (delete_if, f, g)
            (inr (
              p,
              refl,
              refl,
              (==_iff (gate p) status_ok).0 g,
              record {
                looks = λ j.
                    find-set_shard shard_of idx.shards j k (erase k (idx.shards (shard_of k))) none
                      (λ i. find-erase i k (idx.shards (shard_of k)) (unique (shard_of k)));
                unique' = λ i.
                    if-both Unique (i == shard_of k)
                      (λ e. Unique-erase k (idx.shards (shard_of k)) (unique (shard_of k)))
                      (λ e. unique i);
              },
            ))
      | inr g ↦ rw (delete_if, f, g) (inl refl)
    ]
  ]

  pub delete_if-found :
      (gate : A → ℕ) (p : A)
      → index_get shard_of idx k ≡ some p
      → gate p ≡ status_ok
      → (delete_if len shard_of idx k gate).1 ≡ some p
  unfolding delete_if index_get
  delete_if-found gate p f g =
      let opens : gate p == status_ok ≡ true = (==_iff (gate p) status_ok).1 g in
      rw (delete_if, f, opens) refl
