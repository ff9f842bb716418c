-- ===== src/Dram/Store/Puts.antt =====
-- internal/store/dram/store.go: `Put`, in the parts between which other calls may run. The address of the block is
-- taken with its extent; no other call knows it before the block is published.
use kvstash.Prelude.{
  ℕ, ◌+◌, ◌-◌, ◌*◌, Bool, true, false, Option, none, some, ◌==◌, ltb, length, if◌then◌else◌,
}
use kvstash.Bytes.{Bytes}
use kvstash.Protocol.Ops.{
  status_ok, status_ok_exists, status_err_quota_bytes, status_err_immutable_conflict,
}
use kvstash.Dram.Index.{index_get, index_put}
use kvstash.Dram.Arena.{arena_copy}
use kvstash.Dram.Allocator.{Allocation, Allocator}
use kvstash.Dram.Store.{
  Policy, Block, Store, alloc_unit, tier_dram, update, bytes_to_units, len_of, refund_quota,
}
use kvstash.Tenant.Quota as Q

-- The block that `Put` makes: one reference, the index's own.
unfoldable pub new_block : ℕ → Bytes → ℕ → Allocation → Block
new_block ns bs xxh3 al = record {
  ref = record {
    len = length bs;
    ns = ns;
    pin_flags = 0;
    lease_until = 0;
    ttl_until = 0;
    last_access = 0;
    refcount = 1;
  };
  extent = al;
  xxh3 = xxh3;
  hits = 0;
}

-- `putExistsStatus`.
unfoldable pub put_exists_status : Block → ℕ → ℕ
put_exists_status b xxh3 =
    if b.xxh3 == xxh3 then status_ok_exists else status_err_immutable_conflict

-- A store with a block that is not published yet, no room for it, or a copy that panics.
pub data Staged (S : Type 0) : Type 0 where
  no_room panics : Staged S
  staged : S → ℕ → Staged S

module _ {A : Allocator} {P : Policy} where
  abbrev add_block : Store A P → Block → Store A P
  add_block s b = record s { heap = update s.heap s.next b; next = s.next + 1 }

  -- One try for an extent, and the copy into it.
  unfoldable pub put_stage : Store A P → ℕ → Bytes → ℕ → Staged (Store A P)
  unfolding new_block bytes_to_units
  put_stage s ns bs xxh3 =
      if length bs == 0
      then staged (add_block s (new_block ns bs xxh3 (record { offset = 0; alloc_meta = 0 })))
          s.next
      else elim (A.alloc s.alloc (bytes_to_units (length bs))) [
        | none ↦ no_room
        | some (alloc', al) ↦ elim (arena_copy s.arena (al.offset * alloc_unit) bs) [
          | none ↦ panics
          | some arena' ↦
              staged
                (add_block
                  (record s { arena = arena'; alloc = alloc'; live_allocs = s.live_allocs + 1 })
                  (new_block ns bs xxh3 al))
                s.next
        ]
      ]

  -- The extent of a block that is not published goes back.
  unfoldable pub unstage : Store A P → ℕ → Store A P
  unstage s p =
      if ltb 0 (len_of s p)
      then record s { alloc = A.free s.alloc (s.heap p).extent; live_allocs = s.live_allocs - 1 }
      else s

  -- The charge that binds: whether it was refused, in which case the extent goes back.
  unfoldable pub put_charge : Store A P → ℕ → Store A P × Bool
  unfolding unstage
  put_charge s p = elim s.quotas [
    | none ↦ (s, false)
    | some q ↦
        if ltb 0 (len_of s p)
        then (let r = Q.charge q (s.heap p).ref.ns tier_dram (len_of s p) in
            let s' = record s { quotas = some r.0 } in
            elim r.1 [ Q.charged ↦ (s', false) | Q.err_quota ↦ (unstage s' p, true) ])
        else (s, false)
  ]

  -- What follows a publication that won.
  unfoldable pub admitted : Store A P → ℕ → ℕ → ℕ → Store A P
  admitted s k p now = record s {
    live_allocs = if len_of s p == 0 then s.live_allocs + 1 else s.live_allocs;
    occ_gen = s.occ_gen + 1;
    policy = if ltb 0 (len_of s p) then P.admit s.policy k (len_of s p) now else s.policy;
  }

  module _ (shard_of : ℕ → ℕ) where
    -- The publication, which a block that stands under the key already wins.
    unfoldable pub put_publish : Store A P → ℕ → ℕ → ℕ → Store A P × ℕ
    unfolding admitted unstage refund_quota put_exists_status
    put_publish s k p now =
        let r = index_put (len_of s) shard_of s.index k p in
        if r.2
        then (admitted (record s { index = r.0 }) k p now, status_ok)
        else (refund_quota (unstage s p) p, put_exists_status (s.heap r.1) (s.heap p).xxh3)

    -- The parts after the extent was found.
    unfoldable pub put_rest : Store A P → ℕ → ℕ → ℕ → Store A P × ℕ
    unfolding put_charge put_publish
    put_rest s k p now =
        let r = put_charge s p in
        if r.1 then (r.0, status_err_quota_bytes) else put_publish r.0 k p now

    -- `Put`, alone in the store: none if it panics. `evict_now` is the pass of a running evictor.
    unfoldable pub put :
        Option (Store A P → Store A P) → Store A P → ℕ → ℕ → Bytes → ℕ → ℕ → Option (Store A P × ℕ)
    unfolding put_stage put_rest put_exists_status
    put evict_now s ns k bs xxh3 now = elim (index_get shard_of s.index k) [
      | some p ↦ some (s, put_exists_status (s.heap p) xxh3)
      | none ↦ elim (put_stage s ns bs xxh3) [
        | panics ↦ none
        | staged s' p ↦ some (put_rest s' k p now)
        | no_room ↦ elim evict_now [
          | none ↦ some (s, status_err_quota_bytes)
          | some pass ↦ elim (put_stage (pass s) ns bs xxh3) [
            | panics ↦ none
            | staged s' p ↦ some (put_rest s' k p now)
            | no_room ↦ some (pass s, status_err_quota_bytes)
          ]
        ]
      ]
    ]
