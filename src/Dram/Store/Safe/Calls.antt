-- ===== src/Dram/Store/Safe/Calls.antt =====
-- internal/store/dram: the calls that read, protect or remove a block keep what holds in every state.
use kvstash.Prelude.{
  ℕ, ◌+◌, ◌≡◌, refl, inl, inr, true, false, not, ◌&&◌, leb, Bool-cases, Option-cases, if-both,
  Option, none, some, ◌==◌, ==_iff, if◌then◌else◌, arith,
}
use kvstash.Protocol.Ops as O
use kvstash.Dram.BlockRef.{BlockRef, acquire}
use kvstash.Dram.Lifecycle.{grant_read_lease, touch, lease, release_lease, pin, unpin}
use kvstash.Dram.Lifecycle.Keeps.{
  Keeps, grant_read_lease-Keeps, lease-Keeps, touch-Keeps, release_lease-Keeps, unpin-Keeps,
  pin-Keeps,
}
use kvstash.Dram.Index.{Index, index_get}
use kvstash.Dram.Allocator.{Allocator}
use kvstash.Dram.Store.{Policy, Block, Store, update, len_of, set_ref}
use kvstash.Dram.Store.Reads.{take_ref, take_for_demotion}
use kvstash.Dram.Store.Removals.{take_out, forget, retire, retire_evicted, retire_deleted}
use kvstash.Dram.Store.Verbs.{touch_block, pin_block, pin_op}
use kvstash.Dram.Store.Space.{fewer-HasSpace}
use kvstash.Dram.Store.Ledger.{Ledger, live, taken, dropped, unshelved, unshelved-HasRefs}
use kvstash.Dram.Store.Lookups.{Shows, delete_if-cases}
use kvstash.Dram.Store.World.{Holds, removed_from}
use kvstash.Dram.Store.Safe.{Safe, Alike-Safe, taken-Safe, dropped-Safe}
use kvstash.Dram.Store.Safe.Puts.{refund_quota-Safe}

module _ {A : Allocator} {P : Policy} (shard_of : ℕ → ℕ) where
  -- The metadata of a block is written by the lifecycle.
  written-Safe :
      (s : Store A P) (l : Ledger) (p : ℕ) (r : BlockRef)
      → Keeps (s.heap p).ref r
      → Safe shard_of s l
      → Safe shard_of (set_ref s p r) l
  written-Safe s l p r k h =
      Alike-Safe shard_of s l p (record (s.heap p) { ref = r })
        (record { len = k.len; extent = refl }, k.refcount) h

  pub read-Safe :
      (s : Store A P) (l : Ledger) (k p now : ℕ)
      → l.seen p ≡ true
      → Safe shard_of s l
      → Safe shard_of (take_ref s k p now).0 (if (acquire (s.heap p).ref).1 then taken l p else l)
  unfolding take_ref acquire
  read-Safe s l k p now t h = elim (Bool-cases (leb (s.heap p).ref.refcount 0)) [
    | inl e ↦ rw (take_ref, acquire, e) h
    | inr e ↦
        rw (take_ref, acquire, e)
          (let r = record (s.heap p).ref { refcount = (s.heap p).ref.refcount + 1 } in
            let keeps = grant_read_lease-Keeps s.life r now in
            taken-Safe shard_of s l p
              (record (s.heap p) {
                ref = grant_read_lease s.life r now;
                hits = (s.heap p).hits + 1;
              })
              (record { len = keeps.len; extent = refl }) keeps.refcount (ground (arith, e)) t h)
  ]

  pub demotion_read-Safe :
      (s : Store A P) (l : Ledger) (p : ℕ)
      → l.seen p ≡ true
      → Safe shard_of s l
      → Safe shard_of
          (take_for_demotion s p).0
          (if not (len_of s p == 0) && (acquire (s.heap p).ref).1 then taken l p else l)
  unfolding take_for_demotion acquire
  demotion_read-Safe s l p t h = elim (Bool-cases (len_of s p == 0)) [
    | inl z ↦ rw (take_for_demotion, z) h
    | inr z ↦ elim (Bool-cases (leb (s.heap p).ref.refcount 0)) [
      | inl e ↦ rw (take_for_demotion, acquire, z, e) h
      | inr e ↦
          rw (take_for_demotion, acquire, z, e)
            (let r = record (s.heap p).ref { refcount = (s.heap p).ref.refcount + 1 } in
              taken-Safe shard_of s l p (record (s.heap p) { ref = r })
                (record { len = refl; extent = refl }) refl (ground (arith, e)) t h)
    ]
  ]

  pub touched-Safe :
      (s : Store A P) (l : Ledger) (k p sub ttl_ms now : ℕ)
      → Safe shard_of s l
      → Safe shard_of (touch_block s k p sub ttl_ms now).0 l
  unfolding touch_block
  touched-Safe s l k p sub ttl_ms now h =
      let r = (s.heap p).ref in
      let Q = λ (t : Store A P × ℕ). Safe shard_of t.0 l in
      if-both Q (sub == O.touch_recency)
        (λ e. written-Safe s l p (touch s.life r ttl_ms now).1 (touch-Keeps s.life r ttl_ms now) h)
        (λ e.
          if-both Q (sub == O.lease_grant)
            (λ f.
              written-Safe s l p (lease s.life r ttl_ms now) (lease-Keeps s.life r ttl_ms now) h)
            (λ f.
              if-both Q (sub == O.lease_release)
                (λ g. written-Safe s l p (release_lease r) (release_lease-Keeps r) h) (λ g. h)))

  pub pinned-Safe :
      (s : Store A P) (l : Ledger) (k sub : ℕ)
      → Safe shard_of s l
      → Safe shard_of (pin_op shard_of s k sub).0 l
  unfolding pin_block pin_op
  pinned-Safe s l k sub h =
      let Q = λ (t : Store A P × ℕ). Safe shard_of t.0 l in
      elim (Option-cases (index_get shard_of s.index k)) [
        | inl e ↦ rw (pin_op, e) h
        | inr (p, e) ↦
            rw (pin_op, e)
              (let r = (s.heap p).ref in
                if-both Q (sub == O.pin_soft)
                  (λ e. written-Safe s l p (pin s.life r false).1 (pin-Keeps s.life r false) h)
                  (λ e.
                    if-both Q (sub == O.pin_hard)
                      (λ f. written-Safe s l p (pin s.life r true).1 (pin-Keeps s.life r true) h)
                      (λ f.
                        if-both Q (sub == O.unpin_op)
                          (λ g. written-Safe s l p (unpin s.life r).1 (unpin-Keeps s.life r) h)
                          (λ g. h))))
      ]

  -- A block leaves the index under the shard's lock.
  module _ (s : Store A P) (l : Ledger) (k : ℕ) (h : Safe shard_of s l) where
    pub cut-Safe :
        (p : ℕ) (idx' : Index ℕ)
        → index_get shard_of s.index k ≡ some p
        → Shows (len_of s) shard_of s.index h.unique k none idx'
        → Safe shard_of (record s { index = idx' }) (unshelved l p)
    unfolding update
    cut-Safe p idx' at_k shows = record {
      unique = shows.unique';
      refs = unshelved-HasRefs _ _ _ _ h.refs p k _ at_k shows.looks;
      space =
          fewer-HasSpace A _ _ _ _ _ h.space s.heap (live (unshelved l p))
            (λ q. record { len = refl; extent = refl })
            (λ q. elim (Bool-cases (q == p)) [
              | inl g ↦ rw (g, (==_iff q p).0 g) (λ m. omega (arith, (h.refs.shelved k p at_k).0))
              | inr g ↦ rw g (λ m. m)
            ]);
    }

    abbrev Removed : Store A P × Option ℕ × ℕ → Type 0
    Removed r = Safe shard_of r.0 (removed_from l r.1)

    pub cut_out-Safe :
        (gate : Block → ℕ) (inside : Store A P → ℕ → Store A P)
        → ((t : Store A P) (m : Ledger) (p : ℕ) → Safe shard_of t m → Safe shard_of (inside t p) m)
        → Removed (take_out shard_of s k gate inside)
    unfolding take_out
    cut_out-Safe gate inside keeps =
        elim (delete_if-cases (len_of s) shard_of s.index h.unique k (λ p. gate (s.heap p))) [
          | inl e ↦ rw (take_out, e) h
          | inr (p, at_k, e, opens, shows) ↦
              rw (take_out, e) (keeps _ (unshelved l p) p (cut-Safe p _ at_k shows))
        ]

  pub forgotten-Safe :
      (k : ℕ) (s : Store A P) (l : Ledger) (p : ℕ)
      → Safe shard_of s l
      → Safe shard_of (forget s k p) l
  unfolding forget
  forgotten-Safe k s l p h =
      written-Safe s l p (unpin s.life (s.heap p).ref).1 (unpin-Keeps s.life (s.heap p).ref) h

  module _ (s : Store A P) (l : Ledger) (p : ℕ) (t : Holds l p) (h : Safe shard_of s l) where
    pub retired-Safe : Safe shard_of (retire s p) (dropped l p)
    unfolding retire
    retired-Safe = dropped-Safe shard_of _ l p t h

    pub retired_deleted-Safe : Safe shard_of (retire_deleted s p) (dropped l p)
    unfolding retire_deleted
    retired_deleted-Safe = dropped-Safe shard_of _ l p t (refund_quota-Safe shard_of _ l p h)

    pub retired_evicted-Safe : Safe shard_of (retire_evicted s p) (dropped l p)
    unfolding retire_evicted
    retired_evicted-Safe = dropped-Safe shard_of _ l p t (refund_quota-Safe shard_of _ l p h)
