-- ===== src/Nvme/Index.antt =====
-- internal/store/nvmeindex.go: the sharded index of the blocks below the memory tier. A key is a number and the
-- shard that hash/maphash picks for it is a parameter; an operation holds its shard's lock, so it is one step.
pub mod Refinement
use kvstash.Prelude.{
  ℕ, ◌+◌, ◌-◌, ◌/◌, ◌%◌, Bool, true, false, not, Option, none, some, List, [], ltb, ◌==◌,
  if◌then◌else◌,
}
use kvstash.Shards.{set_shard}
use kvstash.Assoc.{find, erase, put}
use kvstash.Protocol.Ops.{status_ok, status_not_found}

-- `loc` is the segment, the offset and the length of the record; the flags of the cold tier follow the checksum.
pub record NvmeRef : Type 0 where
  pub loc : ℕ × ℕ × ℕ
  pub len : ℕ
  pub xxh3 : ℕ
  pub s3 : Bool
  pub s3_only : Bool
  pub lease_until : ℕ
  pub ttl_until : ℕ
  pub last_access : ℕ
  pub pin_flags : ℕ

abbrev pub nvme_index_shards : ℕ
nvme_index_shards = 256

pub record NvmeIndex : Type 0 where
  pub shards : ℕ → List (ℕ × NvmeRef)
  pub blocks : ℕ
  pub bytes : ℕ

module _ (shard_for : ℕ → ℕ) where
  -- `get`.
  pub nvme_get : NvmeIndex → ℕ → Option NvmeRef
  nvme_get idx k = find k (idx.shards (shard_for k))

  -- `putThen`, with what `fn` does to the ledger of the tenants under the same lock.
  pub put_then : {L : Type 0} → NvmeIndex → ℕ → NvmeRef → (L → L) → L → NvmeIndex × L
  put_then idx k ref fn ledger =
      let m = set_shard idx.shards (shard_for k) (put k ref (idx.shards (shard_for k))) in
      elim (find k (idx.shards (shard_for k))) [
        | some old ↦ (record idx { shards = m; bytes = idx.bytes + ref.len - old.len }, fn ledger)
        | none ↦
            (record { shards = m; blocks = idx.blocks + 1; bytes = idx.bytes + ref.len }, fn ledger)
      ]

  -- `deleteIf` behind its gate.
  abbrev pub dropped : NvmeIndex → ℕ → NvmeRef → NvmeIndex
  dropped idx k ref = record {
    shards = set_shard idx.shards (shard_for k) (erase k (idx.shards (shard_for k)));
    blocks = idx.blocks - 1;
    bytes = idx.bytes - ref.len;
  }

  -- `deleteIf`.
  pub nvme_delete_if : NvmeIndex → ℕ → (NvmeRef → ℕ) → NvmeIndex × Option NvmeRef × ℕ
  nvme_delete_if idx k gate = elim (find k (idx.shards (shard_for k))) [
    | none ↦ (idx, none, status_not_found)
    | some ref ↦
        if not (gate ref == status_ok)
        then (idx, none, gate ref)
        else (dropped idx k ref, some ref, status_ok)
  ]
