-- ===== src/Dram/Store/Verbs.antt =====
-- internal/store/dram/store.go: the calls that change a block's protection, and the probes for room.
use kvstash.Prelude.{ℕ, ◌+◌, Bool, true, false, Option, none, some, ◌==◌, leb, if◌then◌else◌}
use kvstash.Protocol.Ops as O
use kvstash.Dram.Lifecycle.{touch, lease, release_lease, pin, unpin}
use kvstash.Dram.Index.{index_get}
use kvstash.Dram.Allocator.{Allocator}
use kvstash.Dram.Store.{Policy, Store, tier_dram, bytes_to_units, set_ref}
use kvstash.Dram.Store.Removals.{status_code}
use kvstash.Tenant.Quota as Q

module _ {A : Allocator} {P : Policy} where
  -- `TouchLease` on the block that the index has.
  unfoldable pub touch_block : Store A P → ℕ → ℕ → ℕ → ℕ → ℕ → Store A P × ℕ
  touch_block s k p sub ttl_ms now =
      let r = (s.heap p).ref in
      if sub == O.touch_recency
      then (let t = touch s.life r ttl_ms now in
          (set_ref (record s { life = t.0; policy = P.touch s.policy k now }) p t.1, O.status_ok))
      else if sub == O.lease_grant
      then (set_ref s p (lease s.life r ttl_ms now), O.status_ok)
      else if sub == O.lease_release
      then (set_ref (record s { occ_gen = s.occ_gen + 1 }) p (release_lease r), O.status_ok)
      else (s, O.status_err_unsupported)

  -- `PinOp` on the block that the index has.
  unfoldable pub pin_block : Store A P → ℕ → ℕ → Store A P × ℕ
  pin_block s p sub =
      let r = (s.heap p).ref in
      if sub == O.pin_soft
      then (let t = pin s.life r false in
          (set_ref (record s { life = t.0 }) p t.1, status_code t.2))
      else if sub == O.pin_hard
      then (let t = pin s.life r true in (set_ref (record s { life = t.0 }) p t.1, status_code t.2))
      else if sub == O.unpin_op
      then (let t = unpin s.life r in
          (set_ref (record s { life = t.0; occ_gen = s.occ_gen + 1 }) p t.1, O.status_ok))
      else (s, O.status_err_unsupported)

  -- `CanStore`; `evict_now` is the pass of a running evictor.
  pub can_store : Option (Store A P → Store A P) → Store A P → ℕ → Store A P × Bool
  unfolding bytes_to_units
  can_store evict_now s n =
      let fits = λ (t : Store A P). leb (bytes_to_units n) (A.largest_free t.alloc) in
      if n == 0
      then (s, true)
      else if fits s
      then (s, true)
      else elim evict_now [ none ↦ (s, false) | some pass ↦ (pass s, fits (pass s)) ]

  -- `CanStoreNS`.
  pub can_store_ns : Option (Store A P → Store A P) → Store A P → ℕ → ℕ → Store A P × Bool
  unfolding can_store
  can_store_ns evict_now s ns n =
      let answer = can_store evict_now s n in
      elim s.quotas [
        | none ↦ answer
        | some q ↦ if Q.would_exceed q ns tier_dram n then (s, false) else answer
      ]

  module _ (shard_of : ℕ → ℕ) where
    -- `TouchLease`.
    unfoldable pub touch_lease : Store A P → ℕ → ℕ → ℕ → ℕ → Store A P × ℕ
    unfolding touch_block
    touch_lease s k sub ttl_ms now = elim (index_get shard_of s.index k) [
      | none ↦ (s, O.status_not_found)
      | some p ↦ touch_block s k p sub ttl_ms now
    ]

    -- `PinOp`.
    unfoldable pub pin_op : Store A P → ℕ → ℕ → Store A P × ℕ
    unfolding pin_block
    pin_op s k sub = elim (index_get shard_of s.index k) [
      | none ↦ (s, O.status_not_found)
      | some p ↦ pin_block s p sub
    ]
