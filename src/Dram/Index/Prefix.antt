-- ===== src/Dram/Index/Prefix.antt =====
-- internal/store/dram/index.go: what ExistsPrefix answers.
use kvstash.Prelude.{
  ℕ, ◌+◌, ◌≡◌, ◌∙◌, refl, ap, Bool, true, false, Bool-cases, inl, inr, none, some, List, [], ◌∷◌,
  map, if◌then◌else◌,
}
use kvstash.Dram.Index.{Index, present, index_get, probe, exists_prefix}

-- The number of hits in front of the first miss.
pub leading : List Bool → ℕ
leading [] = 0
leading (hit ∷ hits) = if hit then leading hits + 1 else 0

module _ {A : Type 0} (shard_of : ℕ → ℕ) (idx : Index A) where
  pub hits : List ℕ → List Bool
  hits keys = map (λ k. present (index_get shard_of idx k)) keys

  probe-leading :
      (keys : List ℕ) (done bitmap : Bool)
      → (probe shard_of idx keys done bitmap).0 ≡ (if done then 0 else leading (hits keys))
  unfolding probe leading hits
  probe-leading [] false bitmap = refl
  probe-leading [] true bitmap = refl
  probe-leading (k ∷ ks) true false = refl
  probe-leading (k ∷ ks) true true = elim (Bool-cases (present (index_get shard_of idx k))) [
    | inl p ↦ rw p (probe-leading ks true true)
    | inr p ↦ rw p (probe-leading ks true true)
  ]
  probe-leading (k ∷ ks) false bitmap = elim (Bool-cases (present (index_get shard_of idx k))) [
    | inl p ↦ rw p (ap (λ n. n + 1) (probe-leading ks false bitmap))
    | inr p ↦ rw p (probe-leading ks true bitmap)
  ]

  probe-hits : (keys : List ℕ) (done : Bool) → (probe shard_of idx keys done true).1 ≡ hits keys
  unfolding probe hits
  probe-hits [] done = refl
  probe-hits (k ∷ ks) false = ap (λ r. present (index_get shard_of idx k) ∷ r) (probe-hits ks _)
  probe-hits (k ∷ ks) true = ap (λ r. present (index_get shard_of idx k) ∷ r) (probe-hits ks _)

  -- On an index that no call changes meanwhile, ExistsPrefix counts the keys in front of the first that is missing, with the bitmap or without it, although
  -- without it the walk stops there; with it every key's presence is reported, and without it none.
  pub exists_prefix-leading :
      (keys : List ℕ) (bitmap : Bool)
      → exists_prefix shard_of idx keys bitmap
        ≡ (leading (hits keys), if bitmap then some (hits keys) else none)
  unfolding exists_prefix
  exists_prefix-leading keys true =
      ap (λ n. (n, some (probe shard_of idx keys false true).1)) (probe-leading keys false true)
      ∙ ap (λ b. (leading (hits keys), some b)) (probe-hits keys false)
  exists_prefix-leading keys false = ap (λ n. (n, none)) (probe-leading keys false false)
