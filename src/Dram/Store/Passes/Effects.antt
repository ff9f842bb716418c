-- ===== src/Dram/Store/Passes/Effects.antt =====
-- internal/store/dram/evict.go: a pass of the evictor leaves what callers hold.
use kvstash.Prelude.{
  ℕ, zero, suc, ◌+◌, ◌-◌, ◌<◌, ◌≡◌, ◌∙◌, refl, ap, sym, subst, inl, inr, Bool, true, false, ◌&&◌,
  ◌||◌, Bool-cases, if-both, Option, none, some, List, [], ◌∷◌, leb, min, ◌==◌, ==_iff,
  if◌then◌else◌, arith,
}
use kvstash.Tenant.Quota as Q
use kvstash.Protocol.Ops.{status_not_found}
use kvstash.Dram.Index.{Index, delete_if}
use kvstash.Dram.Allocator.{Allocator}
use kvstash.Dram.Store.{Policy, Store, tier_dram, update, len_of}
use kvstash.Dram.Store.Removals.{
  Outcome, evicted_ok, evict_refused, evict_gone, evict_one, take_out, evict_gate, forget,
  retire_evicted,
}
use kvstash.Dram.Store.Ledger.{Ledger, dropped, unshelved}
use kvstash.Dram.Store.Lookups.{delete_if-cases}
use kvstash.Dram.Store.Safe.{Safe}
use kvstash.Dram.Store.Safe.Calls.{cut-Safe, forgotten-Safe, retired_evicted-Safe}
use kvstash.Dram.Store.World.{Holds}
use kvstash.Dram.Store.Evictions.{evict_gate-IsOpen}
use kvstash.Dram.Store.Passes.{
  worst, total_bytes, expired_victims, emergency_victims, if_evicted, readmit, evict_expired,
  sweep_expired, evict_emergency, sweep_emergency, evict_candidates, harvest, over_quota_first,
  fair_round, remainder_round, policy_pass,
}

-- The references that calls hold, what was put and what was published are the same, and the index has let go of no
-- block to which a call holds a reference.
pub record SameHolders (l m : Ledger) : Type 0 where
  pub held : (p : ℕ) → m.held p ≡ l.held p
  pub content : (p : ℕ) → m.content p ≡ l.content p
  pub seen : (p : ℕ) → m.seen p ≡ l.seen p
  pub owner : (p : ℕ) → m.owner p ≡ l.owner p
  pub shelf : (p : ℕ) → 0 < l.held p → m.shelf p ≡ l.shelf p

module _ {A : Allocator} {P : Policy} (shard_of : ℕ → ℕ) where
  -- A store is safe, with the holders that there were.
  abbrev pub Spares : Ledger → Store A P → Type 0
  Spares l t = (m : Ledger) × Safe shard_of t m × SameHolders l m

  pub stays : (l : Ledger) (t : Store A P) → Safe shard_of t l → Spares l t
  stays l t h = (
    l,
    h,
    record {
      held = λ p. refl;
      content = λ p. refl;
      seen = λ p. refl;
      owner = λ p. refl;
      shelf = λ p i. refl;
    },
  )

  -- One thing after another.
  pub after :
      (l : Ledger) (t u : Store A P)
      → Spares l t
      → ((m : Ledger) → Safe shard_of t m → Spares m u)
      → Spares l u
  after l t u (m, h, same) f =
      let (n, g, other) = f m h in
      (
        n,
        g,
        record {
          held = λ p. other.held p ∙ same.held p;
          content = λ p. other.content p ∙ same.content p;
          seen = λ p. other.seen p ∙ same.seen p;
          owner = λ p. other.owner p ∙ same.owner p;
          shelf = λ p i. other.shelf p (omega (arith, i, same.held p)) ∙ same.shelf p i;
        },
      )

  -- What `evictOne` does after the removal.
  abbrev finish : Store A P × Option ℕ × ℕ → Store A P × ℕ × Outcome
  finish r = elim r.1 [
    | none ↦ (r.0, 0, if r.2 == status_not_found then evict_gone else evict_refused)
    | some p ↦ (retire_evicted r.0 p, len_of r.0 p, evicted_ok)
  ]

  evict_one-Spares :
      (s : Store A P) (l : Ledger) (k : ℕ) (emergency : Bool) (now : ℕ)
      → Safe shard_of s l
      → Spares l (evict_one shard_of s k emergency now).0
  unfolding evict_one take_out update
  evict_one-Spares s l k emergency now h =
      let cut = take_out shard_of s k (evict_gate emergency now) (λ t p. forget t k p) in
      let gate = λ (p : ℕ). evict_gate emergency now (s.heap p) in
      elim (delete_if-cases (len_of s) shard_of s.index h.unique k gate) [
        | inl e ↦
            let out : cut ≡ (s, none, (delete_if (len_of s) shard_of s.index k gate).2) =
              rw (take_out, e) refl in
            let nothing : s ≡ (evict_one shard_of s k emergency now).0 =
              ap (λ r. (finish r).0) (sym out) in
            subst (Spares l) nothing (stays l s h)
        | inr (p, at_k, e, opens, shows) ↦
            let idx = (delete_if (len_of s) shard_of s.index k gate).0 in
            let t = forget (record s { index = idx }) k p in
            let out : cut ≡ (t, some p, (delete_if (len_of s) shard_of s.index k gate).2) =
              rw (take_out, e) refl in
            let result : retire_evicted t p ≡ (evict_one shard_of s k emergency now).0 =
              ap (λ r. (finish r).0) (sym out) in
            let safe : Safe shard_of t (unshelved l p) =
              forgotten-Safe shard_of k (record s { index = idx }) (unshelved l p) p
                (cut-Safe shard_of s l k h p idx at_k shows) in
            let holds : Holds (unshelved l p) p = record {
              seen = (h.refs.shelved k p at_k).2;
              some_held = rw ((==_iff p p).1 refl) (omega arith);
            } in
            subst (Spares l) result (
              dropped (unshelved l p) p,
              retired_evicted-Safe shard_of t (unshelved l p) p holds safe,
              record {
                held = λ q. elim (Bool-cases (q == p)) [
                  | inl g ↦ rw (g, (==_iff q p).0 g, (==_iff p p).1 refl) (omega arith)
                  | inr g ↦ rw g refl
                ];
                content = λ q. refl;
                seen = λ q. refl;
                owner = λ q. refl;
                shelf = λ q i. elim (Bool-cases (q == p)) [
                  | inl g ↦
                      let there = h.refs.shelved k p at_k in
                      let counted = h.refs.counted p there.2 in
                      let one = ((evict_gate-IsOpen emergency now (s.heap p)).0 opens).one_ref in
                      absurd (omega (arith, i, one, counted, there.0, ap l.held ((==_iff q p).0 g)))
                  | inr g ↦ rw g refl
                ];
              },
            )
      ]

  module _ (walk : Index ℕ → List (ℕ × ℕ)) (share : ℕ → ℕ → ℕ → ℕ) (now : ℕ)
      (clock : Store A P → ℕ → ℕ) where
    evict_expired-Spares :
        (s : Store A P) (l : Ledger) (need freed : ℕ) (ks : List ℕ)
        → Safe shard_of s l
        → Spares l (evict_expired shard_of walk share now clock s need freed ks).0
    unfolding evict_expired
    evict_expired-Spares s l need freed [] h = stays l s h
    evict_expired-Spares s l need freed (k ∷ ks) h =
        let r = evict_one shard_of s k false (clock s k) in
        let one = evict_one-Spares s l k false (clock s k) h in
        if-both (λ (t : Store A P × ℕ). Spares l t.0) (leb need (freed + r.1)) (λ e. one)
          (λ e.
            after l r.0 (evict_expired shard_of walk share now clock r.0 need (freed + r.1) ks).0
              one (λ m g. evict_expired-Spares r.0 m need (freed + r.1) ks g))

    evict_emergency-Spares :
        (s : Store A P) (l : Ledger) (need_bytes need_count freed count : ℕ) (ks : List ℕ)
        → Safe shard_of s l
        → Spares l
            (evict_emergency shard_of walk share now clock s need_bytes need_count freed count ks).0
    unfolding evict_emergency
    evict_emergency-Spares s l nb nc freed count [] h = stays l s h
    evict_emergency-Spares s l nb nc freed count (k ∷ ks) h =
        let r = evict_one shard_of s k true (clock s k) in
        let n = if_evicted r.2 r.1 in
        let c = if_evicted r.2 1 in
        let one = evict_one-Spares s l k true (clock s k) h in
        if-both (λ (t : Store A P × ℕ × ℕ). Spares l t.0) (leb nb (freed + n) && leb nc (count + c))
          (λ e. one)
          (λ e.
            after l r.0
              (evict_emergency shard_of walk share now clock r.0 nb nc (freed + n) (count + c) ks).0
              one (λ m g. evict_emergency-Spares r.0 m nb nc (freed + n) (count + c) ks g))

    readmit-Safe :
        (s : Store A P) (l : Ledger) (o : Outcome) (c : ℕ × ℕ)
        → Safe shard_of s l
        → Safe shard_of (readmit s o c now) l
    unfolding readmit
    readmit-Safe s l evicted_ok c h = h
    readmit-Safe s l evict_refused c h = h
    readmit-Safe s l evict_gone c h = h

    evict_candidates-Spares :
        (s : Store A P) (l : Ledger) (freed : ℕ) (cs : List (ℕ × ℕ))
        → Safe shard_of s l
        → Spares l (evict_candidates shard_of walk share now clock s freed cs).0
    unfolding evict_candidates
    evict_candidates-Spares s l freed [] h = stays l s h
    evict_candidates-Spares s l freed (c ∷ cs) h =
        let r = evict_one shard_of s c.0 false (clock s c.0) in
        let t = readmit r.0 r.2 c now in
        let n = if_evicted r.2 r.1 in
        after l r.0 (evict_candidates shard_of walk share now clock t (freed + n) cs).0
          (evict_one-Spares s l c.0 false (clock s c.0) h)
          (λ m g.
            evict_candidates-Spares (readmit r.0 r.2 c now) m (freed + if_evicted r.2 r.1) cs
              (readmit-Safe r.0 m r.2 c g))

    harvest-Spares :
        (s : Store A P) (l : Ledger) (freed ns want : ℕ)
        → Safe shard_of s l
        → Spares l (harvest shard_of walk share now clock s freed ns want).0
    unfolding harvest
    harvest-Spares s l freed ns want h =
        let v = P.victims s.policy ns want now in
        evict_candidates-Spares (record s { policy = v.0 }) l freed v.1 h

    over_quota_first-Spares :
        (fuel : ℕ) (s : Store A P) (l : Ledger) (us : List (ℕ × ℕ)) (need freed : ℕ)
        → Safe shard_of s l
        → Spares l (over_quota_first shard_of walk share now clock fuel s us need freed).0
    unfolding over_quota_first
    over_quota_first-Spares zero s l us need freed h = stays l s h
    over_quota_first-Spares (suc fuel) s l us need freed h =
        let w : ℕ × ℕ = elim s.quotas [ none ↦ (0, 1000) | some q ↦ worst q us (0, 1000) ] in
        let over : ℕ = elim s.quotas [
          | none ↦ 0
          | some q ↦ Q.usage q w.0 tier_dram - Q.limit_of q w.0 tier_dram
        ] in
        let want = min over (need - freed) in
        let g = harvest shard_of walk share now clock s freed w.0 want in
        let one = harvest-Spares s l freed w.0 want h in
        if-both (λ (t : Store A P × ℕ). Spares l t.0) (leb need freed || leb w.1 1000 || want == 0)
          (λ e. stays l s h)
          (λ e.
            if-both (λ (t : Store A P × ℕ). Spares l t.0) (g.1 == freed) (λ f. one)
              (λ f.
                after l g.0 (over_quota_first shard_of walk share now clock fuel g.0 us need g.1).0
                  one (λ m i. over_quota_first-Spares fuel g.0 m us need g.1 i)))

    fair_round-Spares :
        (s : Store A P) (l : Ledger) (us : List (ℕ × ℕ)) (need total freed : ℕ)
        → Safe shard_of s l
        → Spares l (fair_round shard_of walk share now clock s us need total freed).0
    unfolding fair_round
    fair_round-Spares s l [] need total freed h = stays l s h
    fair_round-Spares s l (u ∷ us) need total freed h =
        let part = share need u.1 total in
        let g = harvest shard_of walk share now clock s freed u.0 part in
        if-both (λ (t : Store A P × ℕ). Spares l t.0) (leb need freed) (λ e. stays l s h)
          (λ e.
            if-both (λ (t : Store A P × ℕ). Spares l t.0) (part == 0)
              (λ f. fair_round-Spares s l us need total freed h)
              (λ f.
                after l g.0 (fair_round shard_of walk share now clock g.0 us need total g.1).0
                  (harvest-Spares s l freed u.0 part h)
                  (λ m i. fair_round-Spares g.0 m us need total g.1 i)))

    remainder_round-Spares :
        (s : Store A P) (l : Ledger) (us : List (ℕ × ℕ)) (need freed : ℕ)
        → Safe shard_of s l
        → Spares l (remainder_round shard_of walk share now clock s us need freed).0
    unfolding remainder_round
    remainder_round-Spares s l [] need freed h = stays l s h
    remainder_round-Spares s l (u ∷ us) need freed h =
        let g = harvest shard_of walk share now clock s freed u.0 (need - freed) in
        if-both (λ (t : Store A P × ℕ). Spares l t.0) (leb need freed) (λ e. stays l s h)
          (λ e.
            after l g.0 (remainder_round shard_of walk share now clock g.0 us need g.1).0
              (harvest-Spares s l freed u.0 (need - freed) h)
              (λ m i. remainder_round-Spares g.0 m us need g.1 i))

    pub policy_pass-Spares :
        (s : Store A P) (l : Ledger) (need : ℕ)
        → Safe shard_of s l
        → Spares l (policy_pass shard_of walk share now clock s need).0
    unfolding policy_pass
    policy_pass-Spares s l need h =
        let u = P.usage s.policy now in
        let t = record s { policy = u.0 } in
        let a = over_quota_first shard_of walk share now clock need t u.1 need 0 in
        let b = fair_round shard_of walk share now clock a.0 u.1 need (total_bytes u.1) a.1 in
        let c = remainder_round shard_of walk share now clock b.0 u.1 need b.1 in
        if-both (λ (t : Store A P × ℕ). Spares l t.0) (need == 0) (λ e. stays l s h)
          (λ e.
            if-both (λ (t : Store A P × ℕ). Spares l t.0) (total_bytes u.1 == 0) (λ f. stays l t h)
              (λ f. after l a.0 c.0 (over_quota_first-Spares need t l u.1 need 0 h) (λ m g.
                after m b.0 c.0 (fair_round-Spares a.0 m u.1 need (total_bytes u.1) a.1 g)
                  (λ n i. remainder_round-Spares b.0 n u.1 need b.1 i))))

    pub sweep_expired-Spares :
        (s : Store A P) (l : Ledger) (need : ℕ)
        → Safe shard_of s l
        → Spares l (sweep_expired shard_of walk share now clock s need).0
    unfolding sweep_expired
    sweep_expired-Spares s l need h =
        if-both (λ (t : Store A P × ℕ). Spares l t.0) (need == 0) (λ e. stays l s h)
          (λ e. evict_expired-Spares s l need 0 (expired_victims s now need 0 (walk s.index)) h)

    pub sweep_emergency-Spares :
        (s : Store A P) (l : Ledger) (nb nc : ℕ)
        → Safe shard_of s l
        → Spares l (sweep_emergency shard_of walk share now clock s nb nc).0
    unfolding sweep_emergency
    sweep_emergency-Spares s l nb nc h =
        let v = emergency_victims s now nb nc 0 0 (walk s.index) in
        let a = evict_emergency shard_of walk share now clock s nb nc 0 0 v.0 in
        let b = evict_emergency shard_of walk share now clock a.0 nb nc a.1 a.2 v.1 in
        let first = evict_emergency-Spares s l nb nc 0 0 v.0 h in
        if-both (λ (t : Store A P × ℕ). Spares l t.0) (nb == 0 && nc == 0) (λ e. stays l s h)
          (λ e.
            if-both (λ (t : Store A P × ℕ). Spares l t.0) (leb nb a.1 && leb nc a.2) (λ f. first)
              (λ f.
                after l a.0 b.0 first (λ m g. evict_emergency-Spares a.0 m nb nc a.1 a.2 v.1 g)))
