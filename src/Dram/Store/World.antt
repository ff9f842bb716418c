-- ===== src/Dram/Store/World.antt =====
-- internal/store/dram/store.go: the memory tier under any interleaving of its calls. A step is what a call does
-- between two points where another call may run; the ledger follows the references that the calls hold.
pub mod Runs
use kvstash.Prelude.{
  ℕ, ◌+◌, ◌<◌, ◌≡◌, ◌&&◌, Bool, true, false, not, Option, none, some, ◌==◌, if◌then◌else◌,
}
use kvstash.Bytes.{Bytes}
use kvstash.Protocol.Ops.{status_ok}
use kvstash.Dram.BlockRef.{acquire}
use kvstash.Dram.Lifecycle.{can_delete}
use kvstash.Dram.Allocator.{Allocator}
use kvstash.Dram.Store.{Policy, Block, Store, len_of, drop_ref}
use kvstash.Dram.Store.Reads.{take_ref, take_for_demotion}
use kvstash.Dram.Store.Puts.{Staged, staged, put_stage, put_charge, put_publish}
use kvstash.Dram.Store.Removals.{
  status_code, evict_gate, demote_gate, take_out, forget, retire, retire_evicted, retire_deleted,
}
use kvstash.Dram.Store.Verbs.{touch_block, pin_op}
use kvstash.Dram.Store.Ledger.{Ledger, made, shown, given_up, taken, dropped, unshelved}

pub record World (A : Allocator) (P : Policy) : Type 0 where
  pub store : Store A P
  pub ledger : Ledger

-- A call holds a reference to a published block; a block waits to be published.
pub record Holds (l : Ledger) (p : ℕ) : Type 0 where
  pub seen : l.seen p ≡ true
  pub some_held : 0 < l.held p

pub record Waits (l : Ledger) (next p : ℕ) : Type 0 where
  pub unseen : l.seen p ≡ false
  pub one_held : l.held p ≡ 1
  pub old : p < next

-- The ledger after a removal.
abbrev pub removed_from : Ledger → Option ℕ → Ledger
removed_from l none = l
removed_from l (some p) = unshelved l p

module _ {A : Allocator} {P : Policy} (shard_of : ℕ → ℕ) where
  -- The steps of the calls. A read may take its reference long after it looked the block up.
  pub data Step : World A P → World A P → Type 0 where
    stages :
        (s s' : Store A P) (l : Ledger) (ns k : ℕ) (bs : Bytes) (xxh3 p : ℕ)
        → put_stage s ns bs xxh3 ≡ staged s' p
        → Step (record { store = s; ledger = l }) (record { store = s'; ledger = made l p k bs })
    charges :
        (s : Store A P) (l : Ledger) (p : ℕ)
        → Waits l s.next p
        → Step
            (record { store = s; ledger = l })
            (record {
              store = (put_charge s p).0;
              ledger = if (put_charge s p).1 then given_up l p else l;
            })
    publishes :
        (s : Store A P) (l : Ledger) (p now : ℕ)
        → Waits l s.next p
        → Step
            (record { store = s; ledger = l })
            (record {
              store = (put_publish shard_of s (l.owner p) p now).0;
              ledger =
                  if (put_publish shard_of s (l.owner p) p now).1 == status_ok
                  then shown l p
                  else given_up l p;
            })
    reads :
        (s : Store A P) (l : Ledger) (k p now : ℕ)
        → l.seen p ≡ true
        → Step
            (record { store = s; ledger = l })
            (record {
              store = (take_ref s k p now).0;
              ledger = if (acquire (s.heap p).ref).1 then taken l p else l;
            })
    demotion_reads :
        (s : Store A P) (l : Ledger) (p : ℕ)
        → l.seen p ≡ true
        → Step
            (record { store = s; ledger = l })
            (record {
              store = (take_for_demotion s p).0;
              ledger = if not (len_of s p == 0) && (acquire (s.heap p).ref).1 then taken l p else l;
            })
    drops :
        (s : Store A P) (l : Ledger) (p : ℕ)
        → Holds l p
        → Step
            (record { store = s; ledger = l })
            (record { store = drop_ref s p; ledger = dropped l p })
    withdraws :
        (s : Store A P) (l : Ledger) (k : ℕ) (force : Bool) (now : ℕ)
        → Step
            (record { store = s; ledger = l })
            (let r =
                take_out shard_of s k
                  (λ b. status_code (can_delete b.ref force now))
                  (λ t p. forget t k p) in
              record { store = r.0; ledger = removed_from l r.1 })
    evicts :
        (s : Store A P) (l : Ledger) (k : ℕ) (emergency : Bool) (now : ℕ)
        → Step
            (record { store = s; ledger = l })
            (let r = take_out shard_of s k (evict_gate emergency now) (λ t p. forget t k p) in
              record { store = r.0; ledger = removed_from l r.1 })
    demotes :
        (s : Store A P) (l : Ledger) (k xxh3 now : ℕ)
        → Step
            (record { store = s; ledger = l })
            (let r = take_out shard_of s k (demote_gate xxh3 now) (λ t p. t) in
              record { store = r.0; ledger = removed_from l r.1 })
    retires_deleted :
        (s : Store A P) (l : Ledger) (p : ℕ)
        → Holds l p
        → Step
            (record { store = s; ledger = l })
            (record { store = retire_deleted s p; ledger = dropped l p })
    retires_evicted :
        (s : Store A P) (l : Ledger) (p : ℕ)
        → Holds l p
        → Step
            (record { store = s; ledger = l })
            (record { store = retire_evicted s p; ledger = dropped l p })
    retires_demoted :
        (s : Store A P) (l : Ledger) (p more : ℕ)
        → Holds l p
        → Step
            (record { store = s; ledger = l })
            (record {
              store = retire (record s { evictions = s.evictions + more }) p;
              ledger = dropped l p;
            })
    touches :
        (s : Store A P) (l : Ledger) (k p sub ttl_ms now : ℕ)
        → l.seen p ≡ true
        → Step
            (record { store = s; ledger = l })
            (record { store = (touch_block s k p sub ttl_ms now).0; ledger = l })
    pins :
        (s : Store A P) (l : Ledger) (k sub : ℕ)
        → Step
            (record { store = s; ledger = l })
            (record { store = (pin_op shard_of s k sub).0; ledger = l })
