-- ===== src/Dram/Index/Calls.antt =====
-- internal/store/dram/index.go: the calls that write to the index, and the map that they are to be.
use kvstash.Prelude.{ℕ, ◌≡◌, Option, none, some, List, [], ◌∷◌, ◌==◌, if◌then◌else◌}
use kvstash.Shards.{IsCounted}
use kvstash.Protocol.Ops.{status_ok}
use kvstash.Dram.BlockRef.{BlockRef}
use kvstash.Dram.Index.{Index, index_shards, index_put, index_delete, delete_if, with_shard_lock}

abbrev pub ref_len : BlockRef → ℕ
ref_len r = r.len

-- A call that writes to the index.
pub data Call : Type 0 where
  publish : ℕ → BlockRef → Call
  withdraw : ℕ → Call
  withdraw_if : ℕ → (BlockRef → ℕ) → Call
  rewrite_block : ℕ → (BlockRef → BlockRef) → Call

-- The call writes no other length to a block.
unfoldable pub KeepsLen : Call → Type 0
KeepsLen (publish k r) = Unit
KeepsLen (withdraw k) = Unit
KeepsLen (withdraw_if k gate) = Unit
KeepsLen (rewrite_block k fn) = (r : BlockRef) → (fn r).len ≡ r.len

-- What a call leaves under its key.
unfoldable pub after : Call → Option BlockRef → Option BlockRef
after (publish k r) none = some r
after (publish k r) (some cur) = some cur
after (withdraw k) o = none
after (withdraw_if k gate) none = none
after (withdraw_if k gate) (some r) = if gate r == status_ok then none else some r
after (rewrite_block k fn) none = none
after (rewrite_block k fn) (some r) = some (fn r)

unfoldable pub key : Call → ℕ
key (publish k r) = k
key (withdraw k) = k
key (withdraw_if k gate) = k
key (rewrite_block k fn) = k

-- A map that runs the calls.
unfoldable pub run_map : List Call → (ℕ → Option BlockRef) → ℕ → Option BlockRef
run_map [] f = f
run_map (c ∷ cs) f = run_map cs (λ j. if j == key c then after c (f (key c)) else f j)

module _ (shard_of : ℕ → ℕ) where
  unfoldable pub call : Index BlockRef → Call → Index BlockRef
  call idx (publish k r) = (index_put ref_len shard_of idx k r).0
  call idx (withdraw k) = (index_delete ref_len shard_of idx k).0
  call idx (withdraw_if k gate) = (delete_if ref_len shard_of idx k gate).0
  call idx (rewrite_block k fn) = with_shard_lock shard_of idx k fn

  unfoldable pub run : List Call → Index BlockRef → Index BlockRef
  run [] idx = idx
  run (c ∷ cs) idx = run cs (call idx c)

-- No key stands twice, and the counters are the number and the bytes of the published blocks.
abbrev pub IsIndexed : Index BlockRef → Type 0
IsIndexed idx = IsCounted ref_len index_shards idx.shards idx.blocks idx.bytes

-- The map that the lookups see, after a call.
abbrev pub stepped : Call → (ℕ → Option BlockRef) → ℕ → Option BlockRef
stepped c f j = if j == key c then after c (f (key c)) else f j
