-- ===== src/Dram/Store/Answers.antt =====
-- internal/store/dram: what reads, puts and evictions answer after any interleaving of calls.
use kvstash.Prelude.{ℕ, ◌*◌, ◌≤◌, ◌≡◌, Option, none, some, length, ◌==◌, if◌then◌else◌}
use kvstash.Bytes.{Bytes}
use kvstash.Protocol.Ops.{status_ok, status_ok_exists, status_err_immutable_conflict}
use kvstash.Dram.Lifecycle.{Lifecycle}
use kvstash.Dram.Index.{index_get}
use kvstash.Dram.Arena.{Arena}
use kvstash.Dram.Allocator.{Allocator}
use kvstash.Dram.Store.{Policy, Block, Store, alloc_unit}
use kvstash.Dram.Store.Reads.{hit, get_ref}
use kvstash.Dram.Store.Puts.{put}
use kvstash.Dram.Store.World.{World}
use kvstash.Dram.Store.World.Runs.{Runs}
use kvstash.Dram.Store.Readers.{start_world, safe}
use kvstash.Dram.Store.Hits.{get_ref-hit}
use kvstash.Dram.Store.RoundTrip.{HasRoom, budget, Kept, put-Kept}
use kvstash.Tenant.Quota as Q

module _ (A : Allocator) (P : Policy) (shard_of : ℕ → ℕ) (arena : Arena) (life : Lifecycle)
    (alloc : A.State) (policy : P.State) (quotas : Option Q.Quotas) (heap : ℕ → Block)
    (fits : A.capacity * alloc_unit ≤ arena.size) (w : World A P)
    (r : Runs shard_of (start_world A P shard_of arena life alloc policy quotas heap fits) w) where
  -- In every state that the calls can reach: GetRef of a key that the index has, with no other call between the
  -- lookup and the reference, is a hit, and never panics; its bytes are those that were put under that key, and the
  -- hash is the block's.
  pub get_ref-answers :
      (k p now : ℕ)
      → index_get shard_of w.store.index k ≡ some p
      → (w.ledger.owner p ≡ k)
        × ((get_ref shard_of w.store k now).1 ≡ hit (w.ledger.content p) (w.store.heap p).xxh3 p)
  get_ref-answers k p now e =
      let h = safe A P shard_of arena life alloc policy quotas heap fits w r in
      ((h.refs.shelved k p e).1, get_ref-hit shard_of w.store w.ledger k now h p e)

  -- Where nothing is published under a key, an extent can be had and the quotas take the bytes, whatever the calls
  -- did before: Put answers OK; then a read of the key, whenever, hits with the bytes and the hash that were put;
  -- and another Put of the key changes nothing, and answers that the block exists if the hash is the same, and with
  -- a conflict if it is not.
  pub put-get :
      (ns k : ℕ) (bs : Bytes) (xxh3 now : ℕ)
      → index_get shard_of w.store.index k ≡ none
      → budget w.store ns (length bs) ≡ Q.charged
      → HasRoom w.store bs
      → (s' : Store A P) × (put shard_of none w.store ns k bs xxh3 now ≡ some (s', status_ok))
        × ((later : ℕ) → (p : ℕ) × ((get_ref shard_of s' k later).1 ≡ hit bs xxh3 p))
        × ((pass : Option (Store A P → Store A P)) (ns' : ℕ) (cs : Bytes) (other now' : ℕ)
            → put shard_of pass s' ns' k cs other now'
              ≡ some
                  (s', if xxh3 == other then status_ok_exists else status_err_immutable_conflict))
  unfolding Kept
  put-get ns k bs xxh3 now free paid room =
      let kept =
        put-Kept shard_of w.store w.ledger
          (safe A P shard_of arena life alloc policy quotas heap fits w r) ns k bs xxh3 now free
          paid room in
      (kept.0, kept.1, kept.2.0, kept.2.1)
