-- ===== src/Dram/Store/Readers.antt =====
-- internal/store/dram: what the holders of references can rely on, in every interleaving of the calls.
use kvstash.Prelude.{ℕ, ◌+◌, ◌*◌, ◌≤◌, ◌≡◌, ◌↔◌, ◌∙◌, refl, ap, sym, true, Option, some, arith}
use kvstash.Assoc.{find}
use kvstash.Assoc.Unique.{Unique}
use kvstash.Dram.Lifecycle.{Lifecycle}
use kvstash.Dram.Index.{index_get}
use kvstash.Dram.Arena.{Arena}
use kvstash.Dram.Allocator.{Allocator}
use kvstash.Dram.Store.{Policy, Block, alloc_unit}
use kvstash.Dram.Store.Reads.{block_bytes}
use kvstash.Dram.Store.World.{World, Holds}
use kvstash.Dram.Store.World.Runs.{Runs, here, next, new_store, started_world}
use kvstash.Dram.Store.Safe.Always.{IsSafe, Step-IsSafe, Runs-IsSafe, Step-Remembers, Remembers}
use kvstash.Tenant.Quota as Q

module _ (A : Allocator) (P : Policy) (shard_of : ℕ → ℕ) (arena : Arena) (life : Lifecycle)
    (alloc : A.State) (policy : P.State) (quotas : Option Q.Quotas) (heap : ℕ → Block)
    (fits : A.capacity * alloc_unit ≤ arena.size) where
  -- The tier when it starts.
  abbrev pub start_world : World A P
  start_world = started_world (new_store arena life alloc policy quotas heap)

  start-IsSafe : IsSafe shard_of start_world
  unfolding new_store index_get find Unique
  start-IsSafe = record {
    unique = λ i. tt;
    refs = record {
      fresh = λ p i. (refl, refl, refl);
      shelved = λ k p e. absurd (cc e);
      counted = λ p e. absurd (cc e);
      waiting = λ p i e. absurd (omega (arith, i));
      shelf_one = λ p. omega arith;
      found = λ p i. absurd (omega (arith, i));
    };
    space = record {
      room = fits;
      backed = λ p u i. absurd (omega (arith, i));
      apart = λ p q o i. absurd (omega (arith, i));
      kept = λ p i. absurd (omega (arith, i));
    };
  }

  module _ (w : World A P) (r : Runs shard_of start_world w) where
    pub safe : IsSafe shard_of w
    safe = Runs-IsSafe shard_of r start-IsSafe

    -- What was put, and under which key, is remembered from a publication on.
    Runs-Remembers :
        {v : World A P} (p : ℕ)
        → Runs shard_of w v
        → w.ledger.seen p ≡ true
        → IsSafe shard_of v × Remembers w.ledger v.ledger p
    Runs-Remembers p here t = (safe, record { still = t; owner = refl; content = refl })
    Runs-Remembers p (next steps s) t =
        let before = Runs-Remembers p steps t in
        let after = Step-Remembers shard_of p s before.0 before.1.still in
        (
          Step-IsSafe shard_of s before.0,
          record {
            still = after.still;
            owner = after.owner ∙ before.1.owner;
            content = after.content ∙ before.1.content;
          },
        )

    -- Whatever allocator keeps the laws, whatever policy, quotas and hash, and however the calls interleave: while
    -- a reference to a published block is held, the bytes of its extent are those that were put, within the
    -- arena; and they are the same at any later point of the run at which a reference to it is held, whatever was
    -- put, deleted, evicted, demoted, pinned or released in between.
    pub held-bytes-stay :
        (v : World A P) (p : ℕ)
        → Holds w.ledger p
        → Runs shard_of w v
        → Holds v.ledger p
        → (block_bytes w.store.arena (w.store.heap p) ≡ some (w.ledger.content p))
          × (block_bytes v.store.arena (v.store.heap p)
              ≡ block_bytes w.store.arena (w.store.heap p))
    held-bytes-stay v p t steps u =
        let later = Runs-Remembers p steps t.seen in
        let now = safe.space.kept p (omega (arith, t.some_held)) in
        (now, later.0.space.kept p (omega (arith, u.some_held)) ∙ ap some later.1.content ∙ sym now)

    -- In every interleaving of the calls, for a block that was published at some time: its count is the number of
    -- references that calls hold, and one more exactly while the index has it under the key that it was put with.
    pub references-counted :
        (p : ℕ)
        → w.ledger.seen p ≡ true
        → ((w.store.heap p).ref.refcount ≡ w.ledger.held p + w.ledger.shelf p)
          × (w.ledger.shelf p ≤ 1)
          × ((w.ledger.shelf p ≡ 1)
              ↔ (index_get shard_of w.store.index (w.ledger.owner p) ≡ some p))
    references-counted p t = (
      safe.refs.counted p t,
      safe.refs.shelf_one p,
      (
        λ e. safe.refs.found p (omega (arith, e)),
        λ e. (safe.refs.shelved (w.ledger.owner p) p e).0,
      ),
    )
