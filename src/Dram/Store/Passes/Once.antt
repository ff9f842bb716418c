-- ===== src/Dram/Store/Passes/Once.antt =====
-- internal/store/dram/evict.go: a whole pass of the evictor, against what callers hold.
use kvstash.Prelude.{
  ℕ, ◌+◌, ◌-◌, ◌*◌, ◌/◌, ◌≤◌, ◌<◌, ◌≡◌, ◌∙◌, ap, Bool, not, ◌&&◌, ◌||◌, if-both, Option, some, List,
  ltb, ◌==◌, if◌then◌else◌, arith,
}
use kvstash.Dram.Index.{Index, index_get}
use kvstash.Dram.Arena.{Arena}
use kvstash.Dram.Lifecycle.{Lifecycle}
use kvstash.Dram.Allocator.{Allocator}
use kvstash.Dram.Store.{Policy, Block, Store, alloc_unit}
use kvstash.Dram.Store.Reads.{block_bytes}
use kvstash.Dram.Store.Ledger.{Ledger}
use kvstash.Dram.Store.Safe.{Safe}
use kvstash.Dram.Store.World.{World}
use kvstash.Dram.Store.World.Runs.{Runs}
use kvstash.Dram.Store.Readers.{start_world, safe}
use kvstash.Dram.Store.Passes.{
  EvictorConfig, sweep_expired, policy_pass, total_units, used_units, byte_trigger, alloc_trigger,
  excess, emergency_pass, evict_armed, evict_once,
}
use kvstash.Dram.Store.Passes.Effects.{
  Spares, stays, after, policy_pass-Spares, sweep_expired-Spares, sweep_emergency-Spares,
}
use kvstash.Tenant.Quota as Q

module _ {A : Allocator} {P : Policy} (shard_of : ℕ → ℕ) (walk : Index ℕ → List (ℕ × ℕ))
    (share : ℕ → ℕ → ℕ → ℕ) (now : ℕ) (clock : Store A P → ℕ → ℕ) where
  emergency_pass-Spares :
      (s : Store A P) (l : Ledger) (cfg : EvictorConfig) (floor_units : ℕ)
      → Safe shard_of s l
      → Spares shard_of l (emergency_pass shard_of walk share now clock s cfg floor_units).0
  unfolding emergency_pass
  emergency_pass-Spares s l cfg floor_units h =
      let need = (used_units s - floor_units) * alloc_unit in
      let count = if alloc_trigger s then excess s else 0 in
      if-both (λ (t : Store A P × ℕ). Spares shard_of l t.0) (byte_trigger cfg s || alloc_trigger s)
        (λ e. sweep_emergency-Spares shard_of walk share now clock s l need count h)
        (λ e. stays shard_of l s h)

  evict_armed-Spares :
      (s : Store A P) (l : Ledger) (cfg : EvictorConfig)
      → Safe shard_of s l
      → Spares shard_of l (evict_armed shard_of walk share now clock s cfg).0
  unfolding evict_armed
  evict_armed-Spares s l cfg h =
      let R = λ (t : Store A P × ℕ). Spares shard_of l t.0 in
      let floor_units = total_units s * (cfg.watermark_pct - cfg.batch_pct) / 100 in
      let need = (used_units s - floor_units) * alloc_unit in
      let a =
        if ltb 0 s.life.ttl_blocks
        then sweep_expired shard_of walk share now clock s need
        else (s, 0) in
      let b =
        if ltb a.1 need
        then policy_pass shard_of walk share now clock a.0 (need - a.1)
        else (a.0, 0) in
      let c = emergency_pass shard_of walk share now clock b.0 cfg floor_units in
      let first : R a =
        if-both R (ltb 0 s.life.ttl_blocks)
          (λ e. sweep_expired-Spares shard_of walk share now clock s l need h)
          (λ e. stays shard_of l s h) in
      let second : R b = after shard_of l a.0 b.0 first (λ m g.
        if-both (λ (t : Store A P × ℕ). Spares shard_of m t.0) (ltb a.1 need)
          (λ e. policy_pass-Spares shard_of walk share now clock a.0 m (need - a.1) g)
          (λ e. stays shard_of m a.0 g)) in
      let third : R c =
        after shard_of l b.0 c.0 second (λ m g. emergency_pass-Spares b.0 m cfg floor_units g) in
      let count = if alloc_trigger s then excess s else 0 in
      if-both R (need == 0 && count == 0) (λ e. stays shard_of l s h) (λ e. third)

  evict_once-Spares :
      (s : Store A P) (l : Ledger) (cfg : EvictorConfig) (coalesce : Bool)
      → Safe shard_of s l
      → Spares shard_of l (evict_once shard_of walk share now clock s cfg coalesce).0
  unfolding evict_once
  evict_once-Spares s l cfg coalesce h =
      let R = λ (t : Store A P × ℕ). Spares shard_of l t.0 in
      if-both R (coalesce && s.occ_gen == s.last_futile_gen) (λ e. stays shard_of l s h)
        (λ e.
          if-both R (not (byte_trigger cfg s) && not (alloc_trigger s)) (λ f. stays shard_of l s h)
            (λ f. evict_armed-Spares s l cfg h))

module _ (A : Allocator) (P : Policy) (shard_of : ℕ → ℕ) (arena : Arena) (life : Lifecycle)
    (alloc : A.State) (policy : P.State) (quotas : Option Q.Quotas) (heap : ℕ → Block)
    (fits : A.capacity * alloc_unit ≤ arena.size) (w : World A P)
    (r : Runs shard_of (start_world A P shard_of arena life alloc policy quotas heap fits) w) where
  -- In every state that the calls can reach, whatever the policy nominates and the clock shows: a whole pass of the
  -- evictor, which no other call interrupts, with its sweep for expired blocks, its rounds over the namespaces and its
  -- emergency sweep, does not take a block that is in the index and to which a call holds a reference. After the pass the
  -- index still has it under its key, its count is that of the references that calls hold and one more, and its bytes
  -- are those that were put.
  pub evict_once-undisturbed :
      (walk : Index ℕ → List (ℕ × ℕ)) (share : ℕ → ℕ → ℕ → ℕ) (now : ℕ) (clock : Store A P → ℕ → ℕ)
      (cfg : EvictorConfig) (coalesce : Bool) (k p : ℕ)
      → index_get shard_of w.store.index k ≡ some p
      → 0 < w.ledger.held p
      → let after_pass = (evict_once shard_of walk share now clock w.store cfg coalesce).0 in
        (index_get shard_of after_pass.index k ≡ some p)
        × ((after_pass.heap p).ref.refcount ≡ w.ledger.held p + 1)
        × (block_bytes after_pass.arena (after_pass.heap p) ≡ some (w.ledger.content p))
  evict_once-undisturbed walk share now clock cfg coalesce k p at_k held =
      let h = safe A P shard_of arena life alloc policy quotas heap fits w r in
      let there = h.refs.shelved k p at_k in
      let (m, left, same) =
        evict_once-Spares shard_of walk share now clock w.store w.ledger cfg coalesce h in
      let on_shelf : m.shelf p ≡ 1 = same.shelf p held ∙ there.0 in
      let found = left.refs.found p (omega (arith, on_shelf)) in
      (
        rw ((same.owner p) ∙ there.1) at found,
        omega (arith, left.refs.counted p (same.seen p ∙ there.2), same.held p, on_shelf),
        left.space.kept p (omega (arith, same.held p, held)) ∙ ap some (same.content p),
      )
