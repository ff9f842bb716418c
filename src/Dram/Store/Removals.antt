-- ===== src/Dram/Store/Removals.antt =====
-- internal/store/dram: a block leaves the index, by a client's DELETE (store.go), an eviction (evict.go) or a
-- finished demotion (demotion.go). Each has a part under the shard's lock, and a part after it that gives the
-- index's reference up.
use kvstash.Prelude.{
  ℕ, ◌+◌, Bool, true, false, not, ◌&&◌, ◌||◌, Option, none, some, ◌==◌, if◌then◌else◌,
}
use kvstash.Protocol.Ops as O
use kvstash.Dram.BlockRef.{leased, hard_pinned, can_evict}
use kvstash.Dram.Lifecycle.{
  Status, status_ok, err_pinned, err_leased, err_pin_quota, note_ttl_gone, unpin, can_delete,
}
use kvstash.Dram.Index.{delete_if}
use kvstash.Dram.Allocator.{Allocator}
use kvstash.Dram.Store.{Policy, Block, Store, len_of, set_ref, drop_ref, refund_quota}

-- The statuses of the lifecycle on the wire.
abbrev pub status_code : Status → ℕ
status_code status_ok = O.status_ok
status_code err_pinned = O.status_err_pinned
status_code err_leased = O.status_err_leased
status_code err_pin_quota = O.status_err_pin_quota

-- What an eviction is gated by; under an emergency soft pins yield.
unfoldable pub evict_gate : Bool → ℕ → Block → ℕ
unfolding leased hard_pinned can_evict
evict_gate emergency now b =
    if can_evict b.ref now
      || emergency && b.ref.refcount == 1 && not (leased b.ref now) && not (hard_pinned b.ref)
    then O.status_ok
    else O.status_err_busy

-- What a demotion is gated by: it is the block that was written, and it was not read since.
unfoldable pub demote_gate : ℕ → ℕ → Block → ℕ
unfolding can_evict
demote_gate xxh3 now b =
    if not (b.xxh3 == xxh3) || not (can_evict b.ref now) then O.status_err_busy else O.status_ok

-- How an eviction of a block ended.
pub data Outcome : Type 0 where
  evicted_ok evict_refused evict_gone : Outcome

module _ {A : Allocator} {P : Policy} where
  -- The policy forgets the key and the pin is paid back, inside the gate.
  unfoldable pub forget : Store A P → ℕ → ℕ → Store A P
  forget s k p =
      let r = unpin s.life (s.heap p).ref in
      set_ref (record s { life = r.0; policy = P.remove s.policy k }) p r.1

  -- After the lock: the TTL's account, and the index's reference.
  unfoldable pub retire : Store A P → ℕ → Store A P
  unfolding drop_ref note_ttl_gone
  retire s p = drop_ref (record s { life = note_ttl_gone s.life (s.heap p).ref }) p

  -- After an eviction, which counts, and pays the tenant back.
  unfoldable pub retire_evicted : Store A P → ℕ → Store A P
  unfolding drop_ref note_ttl_gone refund_quota
  retire_evicted s p =
      let s' = record s {
        life = note_ttl_gone s.life (s.heap p).ref;
        evictions = s.evictions + 1;
      } in
      drop_ref (refund_quota s' p) p

  -- After a DELETE, which pays the tenant back.
  unfoldable pub retire_deleted : Store A P → ℕ → Store A P
  unfolding drop_ref note_ttl_gone refund_quota
  retire_deleted s p =
      drop_ref (refund_quota (record s { life = note_ttl_gone s.life (s.heap p).ref }) p) p

  module _ (shard_of : ℕ → ℕ) where
    -- `DeleteIf` with a gate that reads the block, and what follows in the gate where it opens.
    unfoldable pub take_out :
        Store A P → ℕ → (Block → ℕ) → (Store A P → ℕ → Store A P) → Store A P × Option ℕ × ℕ
    take_out s k gate inside =
        let r = delete_if (len_of s) shard_of s.index k (λ p. gate (s.heap p)) in
        elim r.1 [
          | none ↦ (s, none, r.2)
          | some p ↦ (inside (record s { index = r.0 }) p, some p, r.2)
        ]

    -- `Delete`.
    unfoldable pub delete : Store A P → ℕ → Bool → ℕ → Store A P × ℕ
    unfolding take_out retire_deleted forget
    delete s k force now =
        let r =
          take_out s k (λ b. status_code (can_delete b.ref force now)) (λ t p. forget t k p) in
        elim r.1 [ none ↦ (r.0, r.2) | some p ↦ (retire_deleted r.0 p, O.status_ok) ]

    -- `evictOne`: the bytes that it freed, and how it ended.
    unfoldable pub evict_one : Store A P → ℕ → Bool → ℕ → Store A P × ℕ × Outcome
    unfolding take_out evict_gate retire_evicted forget
    evict_one s k emergency now =
        let r = take_out s k (evict_gate emergency now) (λ t p. forget t k p) in
        elim r.1 [
          | none ↦ (r.0, 0, if r.2 == O.status_not_found then evict_gone else evict_refused)
          | some p ↦ (retire_evicted r.0 p, len_of r.0 p, evicted_ok)
        ]

    -- `CompleteDemotion`: with `publishing`, the callback has made the block public below in the gate;
    -- without it, the demotion is an eviction.
    unfoldable pub complete_demotion : Store A P → ℕ → ℕ → Bool → ℕ → Store A P × Bool
    unfolding take_out demote_gate retire
    complete_demotion s k xxh3 publishing now =
        let r = take_out s k (demote_gate xxh3 now) (λ t p. t) in
        elim r.1 [
          | none ↦ (r.0, false)
          | some p ↦ (
            retire (if publishing then r.0 else record r.0 { evictions = r.0.evictions + 1 }) p,
            true,
          )
        ]
