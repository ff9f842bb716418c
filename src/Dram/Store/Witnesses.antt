-- ===== src/Dram/Store/Witnesses.antt =====
-- The memory tier in concrete runs, over an arena of four units.
mod Slots
use kvstash.Prelude.{
  ℕ, ◌+◌, ◌*◌, ◌%◌, ◌≤◌, ◌<◌, ◌≡◌, ◌↔◌, refl, inl, inr, Bool, true, Option, none, some, [], ◌∷◌,
  length, ◌==◌, if◌then◌else◌, arith,
}
use kvstash.Bytes.{Bytes}
use kvstash.Protocol.Ops.{status_ok, status_ok_exists, status_err_immutable_conflict}
use kvstash.Dram.BlockRef.{BlockRef, hard_pinned, acquire}
use kvstash.Dram.Lifecycle.{Lifecycle, can_delete, grant_read_lease}
use kvstash.Shards.{set_shard}
use kvstash.Assoc.{find}
use kvstash.Dram.Index.{index_get, index_put, delete_if}
use kvstash.Dram.Arena.{Arena, arena_copy, out_of_arena}
use kvstash.Dram.Allocator.{Allocation, Allocator}
use kvstash.Dram.Store.{Policy, Block, Store, update, bytes_to_units}
use kvstash.Dram.Store.Reads.{take_ref, miss, hit, get_ref, block_bytes}
use kvstash.Dram.Store.Puts.{
  put, put_stage, put_publish, admitted, new_block, Staged, no_room, panics, staged,
}
use kvstash.Dram.Store.Removals.{take_out, forget, retire_deleted, status_code}
use kvstash.Dram.Store.Ledger.{Ledger, live, made, shown, taken, dropped, unshelved}
use kvstash.Dram.Store.Space.{Apart}
use kvstash.Dram.Store.World.{
  World, Holds, Waits, Step, stages, publishes, reads, withdraws, retires_deleted,
}
use kvstash.Dram.Store.World.Runs.{Runs, here, next, new_store}
use kvstash.Dram.Store.Readers.{start_world, held-bytes-stay, references-counted}
use kvstash.Dram.Store.RoundTrip.{HasRoom, budget}
use kvstash.Dram.Store.Answers.{get_ref-answers, put-get}
use kvstash.Dram.Store.Passes.{evict_once}
use kvstash.Dram.Store.Passes.Once.{evict_once-undisturbed}
use kvstash.Dram.Store.Witnesses.Slots.{slots}

-- No policy.
abbrev no_policy : Policy
no_policy = record {
  State = Unit;
  admit = λ s k size now. s;
  touch = λ s k now. s;
  remove = λ s k. s;
  victims = λ s ns need now. (s, []);
  usage = λ s now. (s, []);
}

abbrev shard_of : ℕ → ℕ
shard_of k = k % 256

abbrev region : Arena
region = record { mem = λ a. 0; size = 16384 }

abbrev life : Lifecycle
life = record {
  lease_default_ms = 5;
  lease_max_ms = 60000;
  pinned_cap = 0;
  pin_cap_for = λ ns. 0;
  debits = λ ns. 0;
  ttl_blocks = 0;
}

-- An address without a block.
abbrev nothing : Block
nothing = record {
  ref = record {
    len = 0;
    ns = 0;
    pin_flags = 0;
    lease_until = 0;
    ttl_until = 0;
    last_access = 0;
    refcount = 0;
  };
  extent = record { offset = 0; alloc_meta = 0 };
  xxh3 = 0;
  hits = 0;
}

abbrev empty : World slots no_policy
empty = start_world slots no_policy shard_of region life (0, 0) tt none (λ p. nothing) (omega arith)

abbrev stored : {S : Type 0} → Staged S → S → S
stored no_room s = s
stored panics s = s
stored (staged t p) s = t

-- Three bytes are put under the key 600, and published.
abbrev w1 : World slots no_policy
w1 = record {
  store = stored (put_stage empty.store 1 (7 ∷ 8 ∷ 9 ∷ []) 55) empty.store;
  ledger = made empty.ledger 0 600 (7 ∷ 8 ∷ 9 ∷ []);
}

w1-Runs : Runs shard_of empty w1
unfolding put_stage new_store arena_copy out_of_arena
w1-Runs = next here (stages empty.store w1.store empty.ledger 1 600 (7 ∷ 8 ∷ 9 ∷ []) 55 0 refl)

abbrev w2 : World slots no_policy
w2 = record { store = (put_publish shard_of w1.store 600 0 10).0; ledger = shown w1.ledger 0 }

w2-Runs : Runs shard_of empty w2
unfolding put_stage new_store arena_copy out_of_arena put_publish index_put update find
w2-Runs = next w1-Runs (
    publishes w1.store w1.ledger 0 10
      (record { unseen = refl; one_held = refl; old = omega arith }))

-- A reader takes a reference.
abbrev w3 : World slots no_policy
w3 = record { store = (take_ref w2.store 600 0 20).0; ledger = taken w2.ledger 0 }

w3-Runs : Runs shard_of empty w3
unfolding take_ref acquire put_publish index_put update find new_store put_stage arena_copy
    out_of_arena
w3-Runs = next w2-Runs (reads w2.store w2.ledger 600 0 20 refl)

-- The block is deleted by force while it is read; the deleter has the index's reference, and gives it up.
abbrev w4 : World slots no_policy
w4 = record {
  store =
      (take_out shard_of w3.store 600 (λ b. status_code (can_delete b.ref true 30))
        (λ t p. forget t 600 p)).0;
  ledger = unshelved w3.ledger 0;
}

abbrev w5 : World slots no_policy
w5 = record { store = retire_deleted w4.store 0; ledger = dropped w4.ledger 0 }

deleted-Runs : Runs shard_of w3 w5
unfolding take_out delete_if can_delete hard_pinned take_ref acquire put_publish index_put update
    find new_store put_stage arena_copy out_of_arena admitted set_shard new_block grant_read_lease
    kvstash.Assoc.put
deleted-Runs =
    next (next here (withdraws w3.store w3.ledger 600 true 30))
      (retires_deleted w4.store w4.ledger 0 (record { seen = refl; some_held = omega arith }))

held-bytes-stay_example :
    (block_bytes w3.store.arena (w3.store.heap 0) ≡ some (7 ∷ 8 ∷ 9 ∷ []))
    × (block_bytes w5.store.arena (w5.store.heap 0) ≡ block_bytes w3.store.arena (w3.store.heap 0))
unfolding update
held-bytes-stay_example =
    held-bytes-stay slots no_policy shard_of region life (0, 0) tt none (λ p. nothing) (omega arith)
      w3 w3-Runs w5 0 (record { seen = refl; some_held = omega arith }) deleted-Runs
      (record { seen = refl; some_held = omega arith })

references-counted_example :
    ((w3.store.heap 0).ref.refcount ≡ w3.ledger.held 0 + w3.ledger.shelf 0)
    × (w3.ledger.shelf 0 ≤ 1)
    × ((w3.ledger.shelf 0 ≡ 1) ↔ (index_get shard_of w3.store.index 600 ≡ some 0))
unfolding update
references-counted_example =
    references-counted slots no_policy shard_of region life (0, 0) tt none (λ p. nothing)
      (omega arith) w3 w3-Runs 0 refl

get_ref-answers_example :
    (w2.ledger.owner 0 ≡ 600) × ((get_ref shard_of w2.store 600 40).1 ≡ hit (7 ∷ 8 ∷ 9 ∷ []) 55 0)
unfolding update put_publish admitted index_put find new_store put_stage arena_copy out_of_arena
    new_block index_get set_shard kvstash.Assoc.put
get_ref-answers_example =
    get_ref-answers slots no_policy shard_of region life (0, 0) tt none (λ p. nothing) (omega arith)
      w2 w2-Runs 600 0 40 refl

-- A second key, in the other slot.
put-get_example :
    (s' : Store slots no_policy) × (put shard_of none w3.store 2 601 (4 ∷ 4 ∷ []) 66 50
      ≡ some (s', status_ok))
    × ((later : ℕ) → (p : ℕ) × ((get_ref shard_of s' 601 later).1 ≡ hit (4 ∷ 4 ∷ []) 66 p))
    × ((pass : Option (Store slots no_policy → Store slots no_policy)) (ns' : ℕ) (cs : Bytes)
          (other now' : ℕ)
        → put shard_of pass s' ns' 601 cs other now'
          ≡ some (s', if 66 == other then status_ok_exists else status_err_immutable_conflict))
unfolding HasRoom budget index_get take_ref acquire put_publish index_put update find new_store
    put_stage arena_copy out_of_arena admitted set_shard new_block bytes_to_units
put-get_example =
    put-get slots no_policy shard_of region life (0, 0) tt none (λ p. nothing) (omega arith) w3
      w3-Runs 2 601 (4 ∷ 4 ∷ []) 66 50 refl refl (inr (_, refl))

-- Every namespace is asked for all that is needed.
evict_once-undisturbed_example :
    let after_pass =
      (evict_once shard_of
        (λ idx. (600, 0) ∷ [])
        (λ need bytes total. need)
        30
        (λ s k. 30 + k)
        w3.store
        (record { watermark_pct = 20; batch_pct = 10 })
        true).0 in
    (index_get shard_of after_pass.index 600 ≡ some 0)
    × ((after_pass.heap 0).ref.refcount ≡ 2)
    × (block_bytes after_pass.arena (after_pass.heap 0) ≡ some (7 ∷ 8 ∷ 9 ∷ []))
unfolding index_get take_ref acquire put_publish index_put update find new_store put_stage
    arena_copy out_of_arena admitted set_shard new_block kvstash.Assoc.put
evict_once-undisturbed_example =
    evict_once-undisturbed slots no_policy shard_of region life (0, 0) tt none (λ p. nothing)
      (omega arith) w3 w3-Runs (λ idx. (600, 0) ∷ []) (λ need bytes total. need) 30 (λ s k. 30 + k)
      (record { watermark_pct = 20; batch_pct = 10 }) true 600 0 refl (omega arith)
