-- ===== src/Dram/Witnesses.antt =====
-- Blocks of the memory tier in concrete runs.
use kvstash.Prelude.{ℕ, ◌%◌, List, none, ◌≡◌, ◌↔◌, ◌⊎◌, refl, true, false, [], ◌∷◌, inr, arith}
use kvstash.Dram.BlockRef.{BlockRef, leased, pinned, hard_pinned}
use kvstash.Dram.Index.{new_index, index_get, exists_prefix}
use kvstash.Shards.{empty-IsCounted}
use kvstash.Dram.Index.Calls.{
  IsIndexed, Call, KeepsLen, publish, withdraw, rewrite_block, run, run_map,
}
use kvstash.Dram.Index.Refinement.{run-run_map}
use kvstash.Dram.Index.Prefix.{leading, hits, exists_prefix-leading}
use kvstash.Dram.Lifecycle.{Lifecycle, pin, status_ok, err_pinned, lease, can_delete}
use kvstash.Dram.Lifecycle.Leases.{reads, pins, unpins, uses, lease-outlives, can_delete-gate}
use kvstash.Dram.Lifecycle.Pins as P

abbrev block : BlockRef
block = record {
  len = 4096;
  ns = 3;
  pin_flags = 0;
  lease_until = 0;
  ttl_until = 0;
  last_access = 0;
  refcount = 1;
}

abbrev soft_block : BlockRef
soft_block = record block { pin_flags = 1 }

abbrev books : Lifecycle
books = record {
  lease_default_ms = 5000;
  lease_max_ms = 60000;
  pinned_cap = 8192;
  pin_cap_for = λ ns. 0;
  debits = λ ns. 0;
  ttl_blocks = 0;
}

-- A lease of a minute outlives the five seconds of a later read.
lease-outlives_example :
    leased
      (uses books (lease books block 60000 1000) (reads 2000 ∷ pins true ∷ unpins ∷ [])).1
      60000000000
    ≡ true
lease-outlives_example =
    lease-outlives books block 60000 1000 (reads 2000 ∷ pins true ∷ unpins ∷ []) 60000000000
      (omega arith) (inr (omega arith))

can_delete-gate_example :
    ((can_delete soft_block false 10 ≡ status_ok) ↔ (
      (hard_pinned soft_block ≡ false)
      × ((false ≡ true) ⊎ ((leased soft_block 10 ≡ false) × (pinned soft_block ≡ false)))))
    × (hard_pinned soft_block ≡ true → can_delete soft_block false 10 ≡ err_pinned)
can_delete-gate_example = can_delete-gate soft_block false 10

abbrev start : P.Shard
start = P.started 5000 60000 8192 (λ ns. 0)

-- A block is put, and pinned hard.
abbrev one_pinned : P.Shard
one_pinned = record {
  books = (pin start.books block true).0;
  blocks = (pin start.books block true).1 ∷ [];
}

abbrev one_pinned-Reach : P.Reach start one_pinned
one_pinned-Reach =
    P.next (P.next P.here (P.inserts start.books [] block refl))
      (P.pins start.books [] [] block true)

-- A hash that spreads the keys over the shards.
abbrev shard_of : ℕ → ℕ
shard_of k = k % 256

-- A block is published, pinned under its shard's lock, and another block loses the race for its key.
abbrev calls : List Call
calls =
    publish 600 block
    ∷ rewrite_block 600 (λ r. record r { pin_flags = 1 })
    ∷ publish 600 soft_block
    ∷ withdraw 88
    ∷ []

run-run_map_example :
    IsIndexed (run shard_of calls new_index)
    × (index_get shard_of (run shard_of calls new_index)
        ≡ run_map calls (index_get shard_of new_index))
unfolding KeepsLen
run-run_map_example =
    run-run_map shard_of (λ k. omega arith) calls new_index (tt, (λ r. refl, (tt, (tt, tt))))
      (empty-IsCounted (λ (r : BlockRef). r.len) 256)

exists_prefix-leading_example :
    exists_prefix shard_of (run shard_of calls new_index) (600 ∷ 601 ∷ []) false
    ≡ (leading (hits shard_of (run shard_of calls new_index) (600 ∷ 601 ∷ [])), none)
exists_prefix-leading_example =
    exists_prefix-leading shard_of (run shard_of calls new_index) (600 ∷ 601 ∷ []) false
