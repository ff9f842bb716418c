-- ===== src/Dram/Store/Reads.antt =====
-- internal/store/dram/store.go and demotion.go: the calls that read a block.
use kvstash.Prelude.{ℕ, ◌+◌, ◌*◌, Bool, not, Option, none, some, [], ◌==◌, ltb, if◌then◌else◌}
use kvstash.Bytes.{Bytes}
use kvstash.Dram.BlockRef.{acquire}
use kvstash.Dram.Lifecycle.{grant_read_lease}
use kvstash.Dram.Index.{index_get, present}
use kvstash.Dram.Arena.{Arena, arena_bytes}
use kvstash.Dram.Allocator.{Allocator}
use kvstash.Dram.Store.{Policy, Block, Store, alloc_unit, update, len_of, set_ref, drop_ref}

-- What a read answers; with a hit, the address whose reference the caller is to release.
pub data Read : Type 0 where
  miss panics : Read
  hit : Bytes → ℕ → ℕ → Read

-- The bytes of a block in the arena, empty without an extent, and none where `Bytes` panics.
unfoldable pub block_bytes : Arena → Block → Option Bytes
block_bytes arena b =
    if ltb 0 b.ref.len then arena_bytes arena (b.extent.offset * alloc_unit) b.ref.len else some []

module _ {A : Allocator} {P : Policy} where
  -- The answer of a read that has its reference.
  unfoldable pub answer : Store A P → ℕ → Read
  unfolding block_bytes
  answer s p = elim (block_bytes s.arena (s.heap p)) [
    | none ↦ panics
    | some bs ↦ hit bs (s.heap p).xxh3 p
  ]

  -- `GetRef` from `Acquire` on: the lease, the count of reads, the policy and the view.
  unfoldable pub take_ref : Store A P → ℕ → ℕ → ℕ → Store A P × Read
  unfolding answer
  take_ref s k p now =
      let r = acquire (s.heap p).ref in
      if not r.1
      then (s, miss)
      else (let s' = record s {
        heap = update s.heap p (record (s.heap p) {
          ref = grant_read_lease s.life r.0 now;
          hits = (s.heap p).hits + 1;
        });
        policy = P.touch s.policy k now;
      } in
          (s', answer s' p))

  -- `RefForDemotion` from `Acquire` on: neither lease nor count nor policy.
  unfoldable pub take_for_demotion : Store A P → ℕ → Store A P × Read
  unfolding answer
  take_for_demotion s p =
      let r = acquire (s.heap p).ref in
      let s' = set_ref s p r.0 in
      if len_of s p == 0 then (s, miss) else if not r.1 then (s, miss) else (s', answer s' p)

  module _ (shard_of : ℕ → ℕ) where
    -- `GetRef`.
    unfoldable pub get_ref : Store A P → ℕ → ℕ → Store A P × Read
    unfolding take_ref
    get_ref s k now = elim (index_get shard_of s.index k) [
      | none ↦ (s, miss)
      | some p ↦ take_ref s k p now
    ]

    -- `Get`: the bytes are copied, and the reference is released.
    unfoldable pub get : Store A P → ℕ → ℕ → Store A P × Read
    unfolding get_ref drop_ref
    get s k now =
        let r = get_ref s k now in
        elim r.1 [
          | miss ↦ (r.0, miss)
          | panics ↦ (r.0, panics)
          | hit bs xxh3 p ↦ (drop_ref r.0 p, hit bs xxh3 p)
        ]

    -- `RefForDemotion`, whose count of reads is the block's.
    unfoldable pub ref_for_demotion : Store A P → ℕ → Store A P × Read
    unfolding take_for_demotion
    ref_for_demotion s k = elim (index_get shard_of s.index k) [
      | none ↦ (s, miss)
      | some p ↦ take_for_demotion s p
    ]

    -- `Contains`.
    unfoldable pub contains : Store A P → ℕ → Bool
    contains s k = present (index_get shard_of s.index k)
