-- ===== src/Dram/Index.antt =====
-- internal/store/dram/index.go: the sharded index of published blocks. A key (a namespace and a content
-- hash) is a number; the shard that hash/maphash picks for it under the process's seed is a parameter. An
-- operation holds its shard's lock, so it is one step. A block is a BlockRef, or its address where it is shared.
pub mod Prefix
pub mod Calls
pub mod Refinement
use kvstash.Prelude.{
  ℕ, zero, suc, ◌+◌, ◌-◌, Bool, true, false, ◌&&◌, ◌||◌, not, Option, none, some, List, [], ◌∷◌,
  length, ◌==◌, if◌then◌else◌,
}
use kvstash.Shards.{set_shard}
use kvstash.Assoc.{find, erase, put}
use kvstash.Protocol.Ops.{status_ok, status_not_found}

abbrev pub index_shards : ℕ
index_shards = 256

pub record Index (A : Type 0) : Type 0 where
  pub shards : ℕ → List (ℕ × A)
  pub blocks : ℕ
  pub bytes : ℕ

-- `NewIndex`.
abbrev pub new_index : {A : Type 0} → Index A
new_index = record { shards = λ i. []; blocks = 0; bytes = 0 }

-- The `ok` of a map lookup.
abbrev pub present {ℓ} : {A : Type ℓ} → Option A → Bool
present none = false
present (some a) = true

module _ {A : Type 0} (shard_of : ℕ → ℕ) where
  -- `Get`.
  unfoldable pub index_get : Index A → ℕ → Option A
  index_get idx k = find k (idx.shards (shard_of k))

  -- `WithShardLock`, for a function that writes to the block if there is one.
  unfoldable pub with_shard_lock : Index A → ℕ → (A → A) → Index A
  with_shard_lock idx k fn = elim (find k (idx.shards (shard_of k))) [
    | none ↦ idx
    | some ref ↦ record idx {
      shards = set_shard idx.shards (shard_of k) (put k (fn ref) (idx.shards (shard_of k)));
    }
  ]

  -- The loop of `ExistsPrefix`, with `consecutiveDone`: the count that is added, and the statuses.
  pub probe : Index A → List ℕ → Bool → Bool → ℕ × List Bool
  probe idx [] done bitmap = (0, [])
  probe idx (k ∷ ks) done bitmap =
      let hit = present (index_get idx k) in
      let rest = probe idx ks (not hit || done) bitmap in
      if done && not bitmap
      then (0, [])
      else (if hit && not done then rest.0 + 1 else rest.0, hit ∷ rest.1)

  -- `ExistsPrefix`, on an index that no other call changes between its keys.
  pub exists_prefix : Index A → List ℕ → Bool → ℕ × Option (List Bool)
  exists_prefix idx keys bitmap =
      let r = probe idx keys false bitmap in (r.0, if bitmap then some r.1 else none)

module _ {A : Type 0} (len : A → ℕ) (shard_of : ℕ → ℕ) where
  -- `Put`: the block that stands under the key afterwards, and whether it was inserted.
  unfoldable pub index_put : Index A → ℕ → A → Index A × A × Bool
  index_put idx k ref =
      let m = idx.shards (shard_of k) in
      elim (find k m) [
        | some cur ↦ (idx, cur, false)
        | none ↦ (
          record {
            shards = set_shard idx.shards (shard_of k) (put k ref m);
            blocks = idx.blocks + 1;
            bytes = idx.bytes + len ref;
          },
          ref,
          true,
        )
      ]

  -- What `Delete` and `DeleteIf` do to a published block.
  abbrev pub removed : Index A → ℕ → A → Index A
  removed idx k ref = record {
    shards = set_shard idx.shards (shard_of k) (erase k (idx.shards (shard_of k)));
    blocks = idx.blocks - 1;
    bytes = idx.bytes - len ref;
  }

  -- `Delete`.
  unfoldable pub index_delete : Index A → ℕ → Index A × Option A
  index_delete idx k = elim (find k (idx.shards (shard_of k))) [
    | some ref ↦ (removed idx k ref, some ref)
    | none ↦ (idx, none)
  ]

  -- `DeleteIf`.
  unfoldable pub delete_if : Index A → ℕ → (A → ℕ) → Index A × Option A × ℕ
  delete_if idx k gate = elim (find k (idx.shards (shard_of k))) [
    | none ↦ (idx, none, status_not_found)
    | some ref ↦
        if not (gate ref == status_ok)
        then (idx, none, gate ref)
        else (removed idx k ref, some ref, status_ok)
  ]
