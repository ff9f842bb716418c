-- ===== src/Dram/Store/Safe/Puts.antt =====
-- internal/store/dram/store.go: the parts of `Put` keep what holds in every state.
use kvstash.Prelude.{
  ℕ, ◌+◌, ◌*◌, ◌<◌, ◌≡◌, refl, sym, subst, inl, inr, Bool, true, false, ltb, Bool-cases,
  Option-cases, if-both, some, [], length, length-zero, ◌==◌, ==_iff, if◌then◌else◌, arith,
}
use kvstash.Bytes.{Bytes}
use kvstash.Protocol.Ops.{status_ok}
use kvstash.Tenant.Quota as Q
use kvstash.Dram.Index.{index_put}
use kvstash.Dram.Arena.{arena_copy}
use kvstash.Dram.Arena.Copies.{inside}
use kvstash.Dram.Allocator.{Allocator}
use kvstash.Dram.Store.{
  Policy, Block, Store, alloc_unit, tier_dram, update, bytes_to_units, len_of, refund_quota,
}
use kvstash.Dram.Store.Puts.{
  new_block, put_exists_status, Staged, staged, no_room, panics, put_stage, unstage, put_charge,
  admitted, put_publish,
}
use kvstash.Dram.Store.Space.{HasSpace, fewer-HasSpace, free-HasSpace}
use kvstash.Dram.Store.Filling.{empty-HasSpace, extent-inside, fill-HasSpace}
use kvstash.Dram.Store.Ledger.{
  Ledger, live, made, shown, given_up, made-HasRefs, shown-HasRefs, given_up-HasRefs,
}
use kvstash.Dram.Store.Lookups.{index_put-cases}
use kvstash.Dram.Store.World.{Waits}
use kvstash.Dram.Store.Safe.{Parts, Safe}

pub exists-not_ok : (b : Block) (xxh3 : ℕ) → put_exists_status b xxh3 == status_ok ≡ false
unfolding put_exists_status
exists-not_ok b xxh3 =
    if-both (λ (t : ℕ). t == status_ok ≡ false) (b.xxh3 == xxh3) (λ e. refl) (λ e. refl)

module _ {A : Allocator} {P : Policy} (shard_of : ℕ → ℕ) where
  pub refund_quota-Safe :
      (s : Store A P) (l : Ledger) (p : ℕ) → Safe shard_of s l → Safe shard_of (refund_quota s p) l
  unfolding refund_quota
  refund_quota-Safe s l p h = elim (Option-cases s.quotas) [
    | inl e ↦ rw (refund_quota, e) h
    | inr (q, e) ↦
        rw (refund_quota, e)
          (if-both (λ (t : Store A P). Safe shard_of t l) (ltb 0 (len_of s p)) (λ f. h) (λ f. h))
  ]

  module _ (s : Store A P) (l : Ledger) (p : ℕ) (w : Waits l s.next p) (h : Safe shard_of s l) where
    no_shelf : l.shelf p ≡ 0
    no_shelf = (h.refs.waiting p w.old w.unseen).0

    unstage-Safe : Safe shard_of (unstage s p) (given_up l p)
    unfolding unstage update
    unstage-Safe =
        let less : (q : ℕ) → 0 < live (given_up l p) q → 0 < live l q = λ q. ground arith in
        let refs = given_up-HasRefs _ _ _ _ h.refs p w.unseen in
        if-both (λ (t : Store A P). Safe shard_of t (given_up l p)) (ltb 0 (len_of s p))
          (λ e. record {
            unique = h.unique;
            refs = refs;
            space =
                free-HasSpace A _ _ _ _ _ h.space p (live (given_up l p))
                  (omega (arith, w.one_held)) (ground (arith, e)) (ground (arith, no_shelf)) less;
          })
          (λ e. record {
            unique = h.unique;
            refs = refs;
            space =
                fewer-HasSpace A _ _ _ _ _ h.space s.heap (live (given_up l p))
                  (λ q. record { len = refl; extent = refl }) less;
          })

  module _ (s : Store A P) (l : Ledger) (p : ℕ) (w : Waits l s.next p) (h : Safe shard_of s l) where
    abbrev Charged : Store A P × Bool → Type 0
    Charged r = Safe shard_of r.0 (if r.1 then given_up l p else l)

    -- What follows the answer of the quotas.
    answered-Safe :
        (q : Q.Quotas) (a : Q.Answer)
        → Charged (elim a [
          | Q.charged ↦ (record s { quotas = some q }, false)
          | Q.err_quota ↦ (unstage (record s { quotas = some q }) p, true)
        ])
    answered-Safe q Q.charged = h
    answered-Safe q Q.err_quota = unstage-Safe (record s { quotas = some q }) l p w h

    pub Charged-Safe : Charged (put_charge s p)
    unfolding put_charge
    Charged-Safe = elim (Option-cases s.quotas) [
      | inl e ↦ rw (put_charge, e) h
      | inr (q, e) ↦
          rw (put_charge, e)
            (if-both Charged (ltb 0 (len_of s p))
              (λ f.
                let r = Q.charge q (s.heap p).ref.ns tier_dram (len_of s p) in
                answered-Safe r.0 r.1)
              (λ f. h))
    ]

    abbrev Published : Store A P × ℕ → Type 0
    Published r = Safe shard_of r.0 (if r.1 == status_ok then shown l p else given_up l p)

    pub Published-Safe : (now : ℕ) → Published (put_publish shard_of s (l.owner p) p now)
    unfolding put_publish admitted put_exists_status update
    Published-Safe now =
        let less : (q : ℕ) → 0 < live (shown l p) q → 0 < live l q = λ q.
          elim (Bool-cases (q == p)) [
            | inl g ↦ rw (g, (==_iff q p).0 g) (λ m. omega (arith, w.one_held))
            | inr g ↦ rw g (λ m. m)
          ] in
        elim (index_put-cases (len_of s) shard_of s.index h.unique (l.owner p) p) [
          | inl (won, unused, shows) ↦ rw won (record {
            unique = shows.unique';
            refs =
                shown-HasRefs _ _ _ _ h.refs p (l.owner p) _ w.old w.one_held w.unseen refl unused
                  shows.looks;
            space =
                fewer-HasSpace A _ _ _ _ _ h.space s.heap (live (shown l p))
                  (λ q. record { len = refl; extent = refl }) less;
          })
          | inr (lost, cur) ↦
              rw
                (
                  lost,
                  exists-not_ok (s.heap (index_put (len_of s) shard_of s.index (l.owner p) p).1)
                      (s.heap p).xxh3,
                )
                (refund_quota-Safe (unstage s p) (given_up l p) p (unstage-Safe s l p w h))
        ]

  module _ (s : Store A P) (l : Ledger) (ns k : ℕ) (bs : Bytes) (xxh3 : ℕ)
      (h : Safe shard_of s l) where
    abbrev pub StagedSafe : Staged (Store A P) → Type 0
    StagedSafe no_room = Unit
    StagedSafe panics = ⊥
    StagedSafe (staged s' p) = Safe shard_of s' (made l p k bs)

    -- The ledger of a block that is made.
    made-Safe :
        (arena : _) (al' : A.State) (b : Block)
        → b.ref.refcount ≡ 1
        → HasSpace A arena al'
            (update s.heap s.next b)
            (update (live l) s.next 1)
            (update l.content s.next bs)
        → Parts A shard_of arena s.index al'
            (update s.heap s.next b)
            (s.next + 1)
            (made l s.next k bs)
    unfolding update
    made-Safe arena al' b one space = record {
      unique = h.unique;
      refs =
          made-HasRefs _ _ _ _ h.refs k bs (λ q. (update s.heap s.next b q).ref.refcount)
            (λ q. elim (Bool-cases (q == s.next)) [ inl g ↦ rw g one | inr g ↦ rw g refl ]);
      space =
          fewer-HasSpace A _ _ _ _ _ space (update s.heap s.next b) (live (made l s.next k bs))
            (λ q. record { len = refl; extent = refl }) (λ q. ground arith);
    }

    nobody : live l s.next ≡ 0
    nobody = let f = h.refs.fresh s.next (omega arith) in omega (arith, f.0, f.1)

    -- A copy never panics.
    pub staged-Safe : StagedSafe (put_stage s ns bs xxh3)
    unfolding put_stage new_block arena_copy
    staged-Safe =
        if-both StagedSafe (length bs == 0)
          (λ e.
            let nil : bs ≡ [] = length-zero bs (ground (arith, e)) in
            let b = new_block ns bs xxh3 (record { offset = 0; alloc_meta = 0 }) in
            made-Safe s.arena s.alloc b refl (
              subst
                (λ c.
                  HasSpace A s.arena s.alloc (update s.heap s.next b) (update (live l) s.next 1)
                    (update l.content s.next c))
                (sym nil)
                (empty-HasSpace A s.arena s.alloc s.heap (live l) l.content h.space s.next nobody b
                  (ground (arith, e)))))
          (λ e. elim (Option-cases (A.alloc s.alloc (bytes_to_units (length bs)))) [
            | inl f ↦ rw (put_stage, f) tt
            | inr ((al', al), f) ↦
                let b = new_block ns bs xxh3 al in
                let some_bytes : 0 < length bs = ground (arith, e) in
                let fits = inside s.arena (al.offset * alloc_unit) (length bs) (
                  extent-inside A s.arena s.alloc s.heap (live l) l.content h.space s.next nobody b
                    bs al' some_bytes refl f) in
                rw (put_stage, f, arena_copy, fits)
                  (made-Safe _ al' b refl (
                    fill-HasSpace A s.arena s.alloc s.heap (live l) l.content h.space s.next nobody
                      b bs al' some_bytes refl f))
          ])

    abbrev pub IsNext : Staged (Store A P) → Type 0
    IsNext no_room = Unit
    IsNext panics = Unit
    IsNext (staged s' p) = p ≡ s.next

    -- The address of a new block was not given out before.
    pub staged-IsNext : IsNext (put_stage s ns bs xxh3)
    unfolding put_stage
    staged-IsNext =
        if-both IsNext (length bs == 0) (λ e. refl)
          (λ e. elim (Option-cases (A.alloc s.alloc (bytes_to_units (length bs)))) [
            | inl f ↦ rw (put_stage, f) tt
            | inr ((al', al), f) ↦
                rw (put_stage, f)
                  (elim (Option-cases (arena_copy s.arena (al.offset * alloc_unit) bs)) [
                    | inl g ↦ rw g tt
                    | inr (arena, g) ↦ rw g refl
                  ])
          ])
