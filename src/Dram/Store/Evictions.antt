-- ===== src/Dram/Store/Evictions.antt =====
-- internal/store/dram/evict.go: which blocks an eviction may take.
use kvstash.Prelude.{
  ℕ, ◌≡◌, ◌↔◌, ◌⊎◌, refl, inl, inr, Bool, true, false, some, if◌then◌else◌, arith,
}
use kvstash.Protocol.Ops as O
use kvstash.Dram.BlockRef.{BlockRef, leased, pinned, hard_pinned, can_evict}
use kvstash.Dram.Index.{index_get}
use kvstash.Dram.Allocator.{Allocator}
use kvstash.Dram.Store.{Policy, Block, Store, len_of}
use kvstash.Dram.Store.Removals.{
  evicted_ok, evict_refused, evict_gone, evict_gate, take_out, evict_one,
}
use kvstash.Dram.Store.Ledger.{Ledger}
use kvstash.Dram.Store.Lookups.{delete_if-cases, delete_if-found}
use kvstash.Dram.Store.Safe.{Safe}

-- The gate of an eviction, as its parts.
pub record IsOpen (emergency : Bool) (now : ℕ) (r : BlockRef) : Type 0 where
  pub one_ref : r.refcount ≡ 1
  pub unleased : leased r now ≡ false
  pub unpinned : (hard_pinned r ≡ false) × ((emergency ≡ true) ⊎ (pinned r ≡ false))

pub evict_gate-IsOpen :
    (emergency : Bool) (now : ℕ) (b : Block)
    → (evict_gate emergency now b ≡ O.status_ok) ↔ IsOpen emergency now b.ref
unfolding evict_gate can_evict leased pinned hard_pinned
evict_gate-IsOpen emergency now b = (
  λ e. record {
    one_ref = ground (arith, e);
    unleased = ground (arith, e);
    unpinned = ground (arith, e);
  },
  λ o. let a = o.one_ref in let c = o.unleased in let d = o.unpinned in ground (arith, a, c, d),
)

-- An outcome without a removal.
not_evicted : (b : Bool) → (if b then evict_gone else evict_refused) ≡ evicted_ok → ⊥
not_evicted true e = ground (arith, e)
not_evicted false e = ground (arith, e)

module _ {A : Allocator} {P : Policy} (shard_of : ℕ → ℕ) (s : Store A P) (l : Ledger)
    (h : Safe shard_of s l) (k : ℕ) (emergency : Bool) (now : ℕ) where
  -- The block that an eviction takes.
  Takes : Type 0
  Takes =
      (p : ℕ) × (index_get shard_of s.index k ≡ some p)
      × (l.held p ≡ 0)
      × IsOpen emergency now (s.heap p).ref

  taken-Takes : (evict_one shard_of s k emergency now).2 ≡ evicted_ok → Takes
  unfolding Takes evict_one take_out
  taken-Takes e =
      elim (delete_if-cases (len_of s) shard_of s.index h.unique k
        (λ p. evict_gate emergency now (s.heap p))) [
          | inl none_taken ↦ absurd (not_evicted _ (rw (evict_one, take_out, none_taken) at e))
          | inr (p, at_k, taken, opens, shows) ↦
              let there = h.refs.shelved k p at_k in
              let gate = (evict_gate-IsOpen emergency now (s.heap p)).0 opens in
              (p, at_k, omega (arith, gate.one_ref, h.refs.counted p there.2, there.0), gate)
        ]

  Takes-taken : Takes → (evict_one shard_of s k emergency now).2 ≡ evicted_ok
  unfolding Takes evict_one take_out
  Takes-taken (p, at_k, free, gate) =
      let taken =
        delete_if-found (len_of s) shard_of s.index h.unique k
          (λ q. evict_gate emergency now (s.heap q)) p at_k
          ((evict_gate-IsOpen emergency now (s.heap p)).1 gate) in
      rw (evict_one, take_out, taken) refl

  -- An eviction ends with the block removed exactly if its gate is open, and then no call holds a reference.
  pub evict_one-IsOpen : ((evict_one shard_of s k emergency now).2 ≡ evicted_ok) ↔ (
      (p : ℕ) × (index_get shard_of s.index k ≡ some p)
      × (l.held p ≡ 0)
      × IsOpen emergency now (s.heap p).ref)
  unfolding Takes
  evict_one-IsOpen = (taken-Takes, Takes-taken)
