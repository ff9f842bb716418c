-- ===== src/Dram/Store/World/Runs.antt =====
-- internal/store/dram/store.go: runs of the memory tier from its start.
use kvstash.Prelude.{ℕ, false, [], Option}
use kvstash.Tenant.Quota as Q
use kvstash.Dram.Lifecycle.{Lifecycle}
use kvstash.Dram.Index.{new_index}
use kvstash.Dram.Arena.{Arena}
use kvstash.Dram.Allocator.{Allocator}
use kvstash.Dram.Store.{Policy, Block, Store}
use kvstash.Dram.Store.World.{World, Step}

module _ {A : Allocator} {P : Policy} where
  pub data Runs (shard_of : ℕ → ℕ) (w : World A P) : World A P → Type 0 where
    here : Runs shard_of w w
    next : {v u : World A P} → Runs shard_of w v → Step shard_of v u → Runs shard_of w u

  -- `New`, with what the addresses hold before a block is made there.
  unfoldable pub new_store :
      Arena → Lifecycle → A.State → P.State → Option Q.Quotas → (ℕ → Block) → Store A P
  new_store arena life alloc policy quotas heap = record {
    arena = arena;
    index = new_index;
    heap = heap;
    next = 0;
    life = life;
    alloc = alloc;
    policy = policy;
    quotas = quotas;
    live_allocs = 0;
    evictions = 0;
    occ_gen = 1;
    last_futile_gen = 0;
  }

  -- No reference is held at the start.
  abbrev pub started_world : Store A P → World A P
  started_world s = record {
    store = s;
    ledger = record {
      held = λ p. 0;
      shelf = λ p. 0;
      seen = λ p. false;
      owner = λ p. 0;
      content = λ p. [];
    };
  }
