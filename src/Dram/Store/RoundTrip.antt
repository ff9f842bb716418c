-- ===== src/Dram/Store/RoundTrip.antt =====
-- internal/store/dram/store.go: a read finds what was put.
use kvstash.Prelude.{
  ℕ, ◌+◌, ◌*◌, ◌<◌, ◌≡◌, ◌⊎◌, ◌∙◌, refl, ap, sym, subst, inl, inr, Bool, true, false, Option-cases,
  if-both, Option, none, some, length, ltb, ◌==◌, ==_iff, if◌then◌else◌, arith,
}
use kvstash.Bytes.{Bytes}
use kvstash.Protocol.Ops.{status_ok, status_ok_exists, status_err_immutable_conflict}
use kvstash.Dram.Index.{Index, index_get}
use kvstash.Dram.Arena.{arena_copy}
use kvstash.Dram.Allocator.{Allocation, Allocator}
use kvstash.Dram.Store.{Policy, Block, Store, alloc_unit, update, tier_dram, bytes_to_units, len_of}
use kvstash.Dram.Store.Reads.{hit, get_ref}
use kvstash.Dram.Store.Hits.{get_ref-hit}
use kvstash.Dram.Store.Puts.{
  Staged, staged, no_room, panics, new_block, put_stage, put_charge, put_publish, put_rest, put,
  admitted, put_exists_status,
}
use kvstash.Dram.Store.Ledger.{Ledger, taken, made, shown}
use kvstash.Dram.Store.Lookups.{index_put-cases}
use kvstash.Dram.Store.World.{Waits}
use kvstash.Dram.Store.Safe.{Safe}
use kvstash.Dram.Store.Safe.Puts.{StagedSafe, staged-Safe, Charged-Safe, Published-Safe}
use kvstash.Tenant.Quota as Q

-- What the parts of a put that goes through leave.
module _ {A : Allocator} {P : Policy} (s : Store A P) where
  IsBegun : ℕ → Bytes → ℕ → Staged (Store A P) → Type 0
  IsBegun ns bs xxh3 no_room = ⊥
  IsBegun ns bs xxh3 panics = ⊥
  IsBegun ns bs xxh3 (staged t p) =
      (p ≡ s.next)
      × (t.next ≡ s.next + 1)
      × (t.index ≡ s.index)
      × (t.quotas ≡ s.quotas)
      × ((al : Allocation) × (t.heap ≡ update s.heap s.next (new_block ns bs xxh3 al)))

  abbrev IsCharged : Store A P × Bool → Type 0
  IsCharged r = (r.1 ≡ false) × (r.0.heap ≡ s.heap) × (r.0.index ≡ s.index) × (r.0.next ≡ s.next)

  -- The extent that a new block asks for can be had.
  unfoldable pub HasRoom : Bytes → Type 0
  HasRoom bs =
      (length bs ≡ 0)
      ⊎ ((r : A.State × Allocation) × (A.alloc s.alloc (bytes_to_units (length bs)) ≡ some r))

  -- What the quotas answer.
  unfoldable pub budget : ℕ → ℕ → Q.Answer
  budget ns n = elim s.quotas [ none ↦ Q.charged | some q ↦ (Q.charge q ns tier_dram n).1 ]

  charge-IsCharged :
      (p : ℕ) → budget (s.heap p).ref.ns (s.heap p).ref.len ≡ Q.charged → IsCharged (put_charge s p)
  unfolding put_charge budget
  charge-IsCharged p e = elim (Option-cases s.quotas) [
    | inl f ↦ rw (put_charge, f) (refl, refl, refl, refl)
    | inr (q, f) ↦
        let paid : (Q.charge q (s.heap p).ref.ns tier_dram (len_of s p)).1 ≡ Q.charged =
          rw (budget, f) at e in
        rw (put_charge, f)
          (if-both IsCharged (ltb 0 (len_of s p)) (λ g. rw paid (refl, refl, refl, refl))
            (λ g. (refl, refl, refl, refl)))
  ]

module _ {A : Allocator} {P : Policy} (shard_of : ℕ → ℕ) where
  begin-IsBegun :
      (s : Store A P) (l : Ledger) (ns : ℕ) (bs : Bytes) (xxh3 : ℕ)
      → Safe shard_of s l
      → HasRoom s bs
      → IsBegun s ns bs xxh3 (put_stage s ns bs xxh3)
  unfolding put_stage HasRoom IsBegun
  begin-IsBegun s l ns bs xxh3 h room =
      if-both (IsBegun s ns bs xxh3) (length bs == 0) (λ e. (refl, refl, refl, refl, (_, refl)))
        (λ e. elim room [
          | inl z ↦ absurd (ground (arith, z, e))
          | inr ((al', al), f) ↦
              let safe = staged-Safe shard_of s l ns 0 bs xxh3 h in
              elim (Option-cases (arena_copy s.arena (al.offset * alloc_unit) bs)) [
                | inl g ↦ absurd (rw (put_stage, e, f, g) at safe)
                | inr (arena, g) ↦ rw (f, g) (refl, refl, refl, refl, (al, refl))
              ]
        ])

  abbrev Wins : Store A P → Ledger → ℕ → Store A P × ℕ → Type 0
  Wins s l p r =
      (r.1 ≡ status_ok)
      × (index_get shard_of r.0.index (l.owner p) ≡ some p)
      × (r.0.heap ≡ s.heap)
      × Safe shard_of r.0 (shown l p)

  publish-Wins :
      (s : Store A P) (l : Ledger) (p now : ℕ)
      → Waits l s.next p
      → Safe shard_of s l
      → index_get shard_of s.index (l.owner p) ≡ none
      → Wins s l p (put_publish shard_of s (l.owner p) p now)
  unfolding put_publish admitted
  publish-Wins s l p now w h free =
      let safe = Published-Safe shard_of s l p w h now in
      elim (index_put-cases (len_of s) shard_of s.index h.unique (l.owner p) p) [
        | inl (won, unused, shows) ↦
            let self : l.owner p == l.owner p ≡ true = (==_iff (l.owner p) (l.owner p)).1 refl in
            rw won (refl, shows.looks (l.owner p) ∙ rw self refl, refl, rw won at safe)
        | inr (lost, (cur, taken)) ↦ absurd (cc (free, taken))
      ]

  -- The answer of a put, and of a read after it.
  Found : ℕ → Bytes → ℕ → ℕ → Option (Store A P × ℕ) → Type 0
  Found k bs xxh3 later none = ⊥
  Found k bs xxh3 later (some r) =
      (r.1 ≡ status_ok)
      × ((p : ℕ) × ((get_ref shard_of r.0 k later).1 ≡ hit bs xxh3 p)
          × (index_get shard_of r.0.index k ≡ some p)
          × ((r.0.heap p).xxh3 ≡ xxh3))

  module _ (s : Store A P) (l : Ledger) (h : Safe shard_of s l) (ns k : ℕ) (bs : Bytes)
      (xxh3 now later : ℕ) (free : index_get shard_of s.index k ≡ none)
      (paid : budget s ns (length bs) ≡ Q.charged) where
    -- The parts after the first.
    rest-Found :
        (t : Store A P) (p : ℕ)
        → IsBegun s ns bs xxh3 (staged t p)
        → Safe shard_of t (made l p k bs)
        → Found k bs xxh3 later (some (put_rest shard_of t k p now))
    unfolding IsBegun Found put_rest update budget new_block
    rest-Found t p (at_p, at_next, same_index, same_quotas, (al, made_heap)) safe =
        let self : p == p ≡ true = (==_iff p p).1 refl in
        let m = made l p k bs in
        let unseen : l.seen p ≡ false = (h.refs.fresh p (omega (arith, at_p))).2 in
        let w : Waits m t.next p = record {
          unseen = unseen;
          one_held = rw self refl;
          old = omega (arith, at_p, at_next);
        } in
        let block : t.heap p ≡ new_block ns bs xxh3 al =
          ap (λ (f : ℕ → Block). f p) made_heap ∙ rw ((==_iff p s.next).1 at_p) refl in
        let charged = charge-IsCharged t p (
          ap (λ (b : Block). budget t b.ref.ns b.ref.len) block
          ∙ rw (budget, same_quotas) refl
          ∙ paid) in
        let u = (put_charge t p).0 in
        let safe_u : Safe shard_of u m = rw charged.0 at (Charged-Safe shard_of t m p w safe) in
        let w' : Waits m u.next p = record {
          unseen = unseen;
          one_held = w.one_held;
          old = subst (λ (n : ℕ). p < n) (sym charged.3) w.old;
        } in
        let owner : m.owner p ≡ k = rw self refl in
        let free_u : index_get shard_of u.index (m.owner p) ≡ none =
          ap (λ (i : Index ℕ). index_get shard_of i (m.owner p)) (charged.2 ∙ same_index)
          ∙ ap (index_get shard_of s.index) owner
          ∙ free in
        let wins = publish-Wins u m p now w' safe_u free_u in
        let v = (put_publish shard_of u (m.owner p) p now).0 in
        let at_k : index_get shard_of v.index k ≡ some p =
          ap (index_get shard_of v.index) (sym owner) ∙ wins.1 in
        let block_v : v.heap p ≡ new_block ns bs xxh3 al =
          ap (λ (f : ℕ → Block). f p) (wins.2 ∙ charged.1) ∙ block in
        let read = get_ref-hit shard_of v (shown m p) k later wins.3 p at_k in
        let put_there : m.content p ≡ bs = rw self refl in
        rw charged.0 (
          subst (λ (j : ℕ). Found k bs xxh3 later (some (put_publish shard_of u j p now))) owner
            (
              wins.0,
              (
                p,
                read
                    ∙ ap (λ (c : Bytes). hit c (v.heap p).xxh3 p) put_there
                    ∙ ap (λ (b : Block). hit bs b.xxh3 p) block_v,
                at_k,
                ap (λ (b : Block). b.xxh3) block_v,
              ),
            ))

    staged-Found :
        (o : Staged (Store A P)) (other : Option (Store A P × ℕ))
        → IsBegun s ns bs xxh3 o
        → StagedSafe shard_of s l ns k bs xxh3 h o
        → Found k bs xxh3 later (elim o [
          | panics ↦ none
          | staged t p ↦ some (put_rest shard_of t k p now)
          | no_room ↦ other
        ])
    unfolding IsBegun
    staged-Found no_room other b safe = absurd b
    staged-Found panics other b safe = absurd b
    staged-Found (staged t p) other b safe = rest-Found t p b safe

    put-Found : HasRoom s bs → Found k bs xxh3 later (put shard_of none s ns k bs xxh3 now)
    unfolding put
    put-Found room =
        rw (put, free)
          (staged-Found (put_stage s ns bs xxh3) _ (begin-IsBegun s l ns bs xxh3 h room)
            (staged-Safe shard_of s l ns k bs xxh3 h))

  -- A put of a published key.
  put-again :
      (pass : Option (Store A P → Store A P)) (s : Store A P) (ns k : ℕ) (bs : Bytes)
      (xxh3 now p : ℕ)
      → index_get shard_of s.index k ≡ some p
      → put shard_of pass s ns k bs xxh3 now
        ≡ some
            (s, if (s.heap p).xxh3 == xxh3 then status_ok_exists else status_err_immutable_conflict)
  unfolding put put_exists_status
  put-again pass s ns k bs xxh3 now p e = rw (put, e) refl

  -- The read after a put, and another put of the key.
  unfoldable pub Kept : ℕ → Bytes → ℕ → Store A P → Type 0
  Kept k bs xxh3 s' =
      ((later : ℕ) → (p : ℕ) × ((get_ref shard_of s' k later).1 ≡ hit bs xxh3 p))
      × ((pass : Option (Store A P → Store A P)) (ns : ℕ) (cs : Bytes) (other now : ℕ)
          → put shard_of pass s' ns k cs other now
            ≡ some (s', if xxh3 == other then status_ok_exists else status_err_immutable_conflict))

  result-Kept :
      (k : ℕ) (bs : Bytes) (xxh3 : ℕ) (o : Option (Store A P × ℕ))
      → ((later : ℕ) → Found k bs xxh3 later o)
      → (s' : Store A P) × (o ≡ some (s', status_ok)) × Kept k bs xxh3 s'
  unfolding Found Kept
  result-Kept k bs xxh3 none f = absurd (f 0)
  result-Kept k bs xxh3 (some (s', st)) f =
      let found = f 0 in
      (
        s',
        ap (λ (n : ℕ). some (s', n)) found.0,
        (
          λ later. ((f later).1.0, (f later).1.1),
          λ pass ns cs other now.
              put-again pass s' ns k cs other now found.1.0 found.1.2
              ∙ ap
                  (λ (n : ℕ).
                    some
                      (s', if n == other then status_ok_exists else status_err_immutable_conflict))
                  found.1.3,
        ),
      )

  pub put-Kept :
      (s : Store A P) (l : Ledger)
      → Safe shard_of s l
      → (ns k : ℕ) (bs : Bytes) (xxh3 now : ℕ) → index_get shard_of s.index k ≡ none
      → budget s ns (length bs) ≡ Q.charged
      → HasRoom s bs
      → (s' : Store A P) × (put shard_of none s ns k bs xxh3 now ≡ some (s', status_ok))
        × Kept k bs xxh3 s'
  put-Kept s l h ns k bs xxh3 now free paid room =
      result-Kept k bs xxh3 (put shard_of none s ns k bs xxh3 now)
        (λ later. put-Found s l h ns k bs xxh3 now later free paid room)
