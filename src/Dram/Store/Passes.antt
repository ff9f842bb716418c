-- ===== src/Dram/Store/Passes.antt =====
-- internal/store/dram/evict.go: the passes of the evictor. The order in which Range walks the index is a parameter,
-- and so is the share of a namespace, which the code computes in floating point. A pass runs under its own lock;
-- every block that it tries is one call of evictOne, which reads the clock: what `clock` gives for the store and the
-- key at that moment. A walk, and the policy, are given the time at which the pass began.
pub mod Effects
pub mod Once
use kvstash.Prelude.{
  ℕ, zero, suc, ◌+◌, ◌-◌, ◌*◌, ◌/◌, Bool, true, false, not, ◌&&◌, ◌||◌, Option, none, some, List,
  [], ◌∷◌, ltb, leb, min, ◌==◌, if◌then◌else◌,
}
use kvstash.Dram.BlockRef.{leased, expired, pinned, hard_pinned}
use kvstash.Dram.Index.{Index}
use kvstash.Dram.Allocator.{Allocator}
use kvstash.Dram.Store.{Policy, Store, alloc_unit, tier_dram, len_of}
use kvstash.Dram.Store.Removals.{Outcome, evicted_ok, evict_refused, evict_gone, evict_one}
use kvstash.Tenant.Quota as Q

pub record EvictorConfig : Type 0 where
  pub watermark_pct : ℕ
  pub batch_pct : ℕ

-- A number that counts only if the block was evicted.
abbrev pub if_evicted : Outcome → ℕ → ℕ
if_evicted evicted_ok n = n
if_evicted evict_refused n = 0
if_evicted evict_gone n = 0

-- The namespace with the worst ratio above its quota, in thousandths.
unfoldable pub worst : Q.Quotas → List (ℕ × ℕ) → ℕ × ℕ → ℕ × ℕ
worst q [] w = w
worst q (u ∷ us) w =
    let r = Q.over_ratio q u.0 tier_dram in worst q us (if ltb w.1 r then (u.0, r) else w)

abbrev pub total_bytes : List (ℕ × ℕ) → ℕ
total_bytes [] = 0
total_bytes (u ∷ us) = u.1 + total_bytes us

module _ {A : Allocator} {P : Policy} where
  -- A candidate that the gate refused goes back to the policy.
  unfoldable pub readmit : Store A P → Outcome → ℕ × ℕ → ℕ → Store A P
  readmit s evicted_ok c now = s
  readmit s evict_refused c now = record s { policy = P.admit s.policy c.0 c.1 now }
  readmit s evict_gone c now = s

  -- The walk of `sweepExpired`, up to claims of the bytes that are needed.
  unfoldable pub expired_victims : Store A P → ℕ → ℕ → ℕ → List (ℕ × ℕ) → List ℕ
  expired_victims s now need claimed [] = []
  expired_victims s now need claimed (e ∷ es) =
      let r = (s.heap e.1).ref in
      let takes = expired r now && r.refcount == 1 && not (leased r now) in
      let more = if takes then claimed + r.len else claimed in
      let rest = expired_victims s now need more es in
      let from_here = if ltb more need then rest else [] in
      if takes then e.0 ∷ from_here else from_here

  -- The walk of `sweepEmergency`: the keys without a pin, and those with a soft one.
  unfoldable pub emergency_victims : Store A P → ℕ → ℕ → ℕ → ℕ → ℕ → List (ℕ × ℕ) → List ℕ × List ℕ
  emergency_victims s now need_bytes need_count claimed count [] = ([], [])
  emergency_victims s now need_bytes need_count claimed count (e ∷ es) =
      let r = (s.heap e.1).ref in
      let takes = r.refcount == 1 && not (leased r now) && not (hard_pinned r) in
      let more = if takes then claimed + r.len else claimed in
      let count' = if takes then count + 1 else count in
      let rest = emergency_victims s now need_bytes need_count more count' es in
      let from_here = if ltb more need_bytes || ltb count' need_count then rest else ([], []) in
      if takes
      then (if pinned r then (from_here.0, e.0 ∷ from_here.1) else (e.0 ∷ from_here.0, from_here.1))
      else from_here

  -- `occupancy`: the units in use; and the triggers, by bytes and by live allocations.
  abbrev pub total_units : Store A P → ℕ
  total_units s = s.arena.size / alloc_unit

  abbrev pub used_units : Store A P → ℕ
  used_units s = total_units s - A.total_free s.alloc

  abbrev pub byte_trigger : EvictorConfig → Store A P → Bool
  byte_trigger cfg s = leb (total_units s * cfg.watermark_pct) (used_units s * 100)

  abbrev pub alloc_trigger : Store A P → Bool
  alloc_trigger s = leb (A.max_allocs * 95) (s.live_allocs * 100)

  abbrev pub excess : Store A P → ℕ
  excess s = s.live_allocs - A.max_allocs * 90 / 100

  module _ (shard_of : ℕ → ℕ) (walk : Index ℕ → List (ℕ × ℕ)) (share : ℕ → ℕ → ℕ → ℕ) (now : ℕ)
      (clock : Store A P → ℕ → ℕ) where
    -- The loop of `sweepExpired` over its victims.
    unfoldable pub evict_expired : Store A P → ℕ → ℕ → List ℕ → Store A P × ℕ
    evict_expired s need freed [] = (s, freed)
    evict_expired s need freed (k ∷ ks) =
        let r = evict_one shard_of s k false (clock s k) in
        let rest = evict_expired r.0 need (freed + r.1) ks in
        if leb need (freed + r.1) then (r.0, freed + r.1) else rest

    unfoldable pub sweep_expired : Store A P → ℕ → Store A P × ℕ
    unfolding evict_expired expired_victims
    sweep_expired s need =
        if need == 0
        then (s, 0)
        else evict_expired s need 0 (expired_victims s now need 0 (walk s.index))

    -- A loop of `sweepEmergency` over its victims: the bytes and the blocks that were freed.
    unfoldable pub evict_emergency : Store A P → ℕ → ℕ → ℕ → ℕ → List ℕ → Store A P × ℕ × ℕ
    evict_emergency s need_bytes need_count freed count [] = (s, freed, count)
    evict_emergency s need_bytes need_count freed count (k ∷ ks) =
        let r = evict_one shard_of s k true (clock s k) in
        let n = if_evicted r.2 r.1 in
        let c = if_evicted r.2 1 in
        let rest = evict_emergency r.0 need_bytes need_count (freed + n) (count + c) ks in
        if leb need_bytes (freed + n) && leb need_count (count + c)
        then (r.0, freed + n, count + c)
        else rest

    unfoldable pub sweep_emergency : Store A P → ℕ → ℕ → Store A P × ℕ
    unfolding evict_emergency emergency_victims
    sweep_emergency s need_bytes need_count =
        if need_bytes == 0 && need_count == 0
        then (s, 0)
        else (let v = emergency_victims s now need_bytes need_count 0 0 (walk s.index) in
            let a = evict_emergency s need_bytes need_count 0 0 v.0 in
            let b = evict_emergency a.0 need_bytes need_count a.1 a.2 v.1 in
            if leb need_bytes a.1 && leb need_count a.2 then (a.0, a.1) else (b.0, b.1))

    -- `harvest`: the candidates of a namespace are tried, and those that the gate refuses are admitted again.
    unfoldable pub evict_candidates : Store A P → ℕ → List (ℕ × ℕ) → Store A P × ℕ
    evict_candidates s freed [] = (s, freed)
    evict_candidates s freed (c ∷ cs) =
        let r = evict_one shard_of s c.0 false (clock s c.0) in
        let t = readmit r.0 r.2 c now in
        let n = if_evicted r.2 r.1 in evict_candidates t (freed + n) cs

    unfoldable pub harvest : Store A P → ℕ → ℕ → ℕ → Store A P × ℕ
    unfolding evict_candidates
    harvest s freed ns want =
        let v = P.victims s.policy ns want now in
        evict_candidates (record s { policy = v.0 }) freed v.1

    -- Round 0, on fuel: a round that frees nothing is the last.
    unfoldable pub over_quota_first : ℕ → Store A P → List (ℕ × ℕ) → ℕ → ℕ → Store A P × ℕ
    unfolding worst harvest
    over_quota_first zero s us need freed = (s, freed)
    over_quota_first (suc fuel) s us need freed =
        let w : ℕ × ℕ = elim s.quotas [ none ↦ (0, 1000) | some q ↦ worst q us (0, 1000) ] in
        let over : ℕ = elim s.quotas [
          | none ↦ 0
          | some q ↦ Q.usage q w.0 tier_dram - Q.limit_of q w.0 tier_dram
        ] in
        let want = min over (need - freed) in
        let h = harvest s freed w.0 want in
        let rest = over_quota_first fuel h.0 us need h.1 in
        if leb need freed || leb w.1 1000 || want == 0
        then (s, freed)
        else if h.1 == freed
        then h
        else rest

    -- Round 1, shared among the namespaces by their bytes, and round 2, the remainder from whoever has some.
    unfoldable pub fair_round : Store A P → List (ℕ × ℕ) → ℕ → ℕ → ℕ → Store A P × ℕ
    unfolding harvest
    fair_round s [] need total freed = (s, freed)
    fair_round s (u ∷ us) need total freed =
        let part = share need u.1 total in
        let h = harvest s freed u.0 part in
        let skip = fair_round s us need total freed in
        let rest = fair_round h.0 us need total h.1 in
        if leb need freed then (s, freed) else if part == 0 then skip else rest

    unfoldable pub remainder_round : Store A P → List (ℕ × ℕ) → ℕ → ℕ → Store A P × ℕ
    unfolding harvest
    remainder_round s [] need freed = (s, freed)
    remainder_round s (u ∷ us) need freed =
        let h = harvest s freed u.0 (need - freed) in
        let rest = remainder_round h.0 us need h.1 in if leb need freed then (s, freed) else rest

    unfoldable pub policy_pass : Store A P → ℕ → Store A P × ℕ
    unfolding over_quota_first fair_round remainder_round
    policy_pass s need =
        let u = P.usage s.policy now in
        let t = record s { policy = u.0 } in
        let a = over_quota_first need t u.1 need 0 in
        let b = fair_round a.0 u.1 need (total_bytes u.1) a.1 in
        if need == 0
        then (s, 0)
        else if total_bytes u.1 == 0
        then (t, 0)
        else remainder_round b.0 u.1 need b.1

    -- The third pass of `evictOnce`, if a trigger still stands.
    unfoldable pub emergency_pass : Store A P → EvictorConfig → ℕ → Store A P × ℕ
    unfolding sweep_emergency
    emergency_pass s cfg floor_units =
        let need = (used_units s - floor_units) * alloc_unit in
        let count = if alloc_trigger s then excess s else 0 in
        if byte_trigger cfg s || alloc_trigger s then sweep_emergency s need count else (s, 0)

    -- The passes of `evictOnce` when a trigger stands, and the cache of the generation that yielded nothing.
    unfoldable pub evict_armed : Store A P → EvictorConfig → Store A P × ℕ
    unfolding sweep_expired policy_pass emergency_pass
    evict_armed s cfg =
        let floor_units = total_units s * (cfg.watermark_pct - cfg.batch_pct) / 100 in
        let need = (used_units s - floor_units) * alloc_unit in
        let count = if alloc_trigger s then excess s else 0 in
        let a = if ltb 0 s.life.ttl_blocks then sweep_expired s need else (s, 0) in
        let b = if ltb a.1 need then policy_pass a.0 (need - a.1) else (a.0, 0) in
        let c = emergency_pass b.0 cfg floor_units in
        let freed = a.1 + b.1 + c.1 in
        if need == 0 && count == 0
        then (s, 0)
        else (record c.0 { last_futile_gen = if freed == 0 then s.occ_gen else 0 }, freed)

    -- `evictOnce`.
    unfoldable pub evict_once : Store A P → EvictorConfig → Bool → Store A P × ℕ
    unfolding evict_armed
    evict_once s cfg coalesce =
        if coalesce && s.occ_gen == s.last_futile_gen
        then (s, 0)
        else if not (byte_trigger cfg s) && not (alloc_trigger s)
        then (s, 0)
        else evict_armed s cfg

    -- `EvictNow` with a running evictor, as `Put` and `CanStore` call it.
    abbrev pub evict_now : EvictorConfig → Store A P → Store A P
    evict_now cfg s = (evict_once s cfg true).0
