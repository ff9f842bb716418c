-- ===== src/Dram/Store/Safe.antt =====
-- internal/store/dram/store.go: what holds in every state of the memory tier, and the parts of the calls that keep
-- it.
pub mod Puts
pub mod Calls
pub mod Always
use kvstash.Prelude.{
  ℕ, ◌+◌, ◌-◌, ◌≤◌, ◌<◌, ◌≡◌, ◌∙◌, refl, ap, sym, subst, inl, inr, Bool, true, false, not, ◌&&◌,
  ltb, leb, Bool-cases, Option-cases, if-both, ifs-both, Option, none, some, ◌==◌, ==_iff,
  if◌then◌else◌, arith,
}
use kvstash.Assoc.Unique.{Unique}
use kvstash.Dram.BlockRef.{BlockRef, acquire, release}
use kvstash.Dram.Index.{Index, index_get}
use kvstash.Dram.Arena.{Arena}
use kvstash.Dram.Allocator.{Allocator}
use kvstash.Dram.Store.{Policy, Block, Store, update, len_of, set_ref, free, drop_ref, refund_quota}
use kvstash.Dram.Store.Space.{SamePlace, HasSpace, fewer-HasSpace, free-HasSpace}
use kvstash.Dram.Store.Ledger.{
  Ledger, live, HasRefs, dropped, taken, same-HasRefs, held-HasRefs, seen-old,
}
use kvstash.Dram.Store.World.{World, Holds}

module _ (A : Allocator) (shard_of : ℕ → ℕ) where
  pub record Parts (arena : Arena) (index : Index ℕ) (al : A.State) (heap : ℕ → Block) (next : ℕ)
      (l : Ledger) : Type 0 where
    pub unique : (i : ℕ) → Unique (index.shards i)
    pub refs : HasRefs (index_get shard_of index) (λ p. (heap p).ref.refcount) next l
    pub space : HasSpace A arena al heap (live l) l.content

-- The metadata of a block is written, but for its length and its count.
abbrev pub Alike : Block → Block → Type 0
Alike b c = SamePlace b c × (c.ref.refcount ≡ b.ref.refcount)

module _ {A : Allocator} {P : Policy} (shard_of : ℕ → ℕ) where
  -- The ledger's references are the counts of the blocks and the entries of the index, and the blocks with a
  -- reference have their own extents, in which their bytes are.
  abbrev pub Safe : Store A P → Ledger → Type 0
  Safe s l = Parts A shard_of s.arena s.index s.alloc s.heap s.next l

  pub Alike-Safe :
      (s : Store A P) (l : Ledger) (p : ℕ) (b : Block)
      → Alike (s.heap p) b
      → Safe s l
      → Safe (record s { heap = update s.heap p b }) l
  unfolding update
  Alike-Safe s l p b e h = record {
    unique = h.unique;
    refs = same-HasRefs _ _ _ _ h.refs _ (λ q. elim (Bool-cases (q == p)) [
      | inl g ↦ rw g (e.1 ∙ ap (λ x. (s.heap x).ref.refcount) (sym ((==_iff q p).0 g)))
      | inr g ↦ rw g refl
    ]);
    space =
        fewer-HasSpace A _ _ _ _ _ h.space _ (live l)
          (λ q. elim (Bool-cases (q == p)) [
            | inl g ↦ rw (g, (==_iff q p).0 g) e.0
            | inr g ↦ rw g (record { len = refl; extent = refl })
          ])
          (λ q m. m);
  }

  -- A reader takes a reference.
  pub taken-Safe :
      (s : Store A P) (l : Ledger) (p : ℕ) (b : Block)
      → SamePlace (s.heap p) b
      → b.ref.refcount ≡ (s.heap p).ref.refcount + 1
      → 0 < (s.heap p).ref.refcount
      → l.seen p ≡ true
      → Safe s l
      → Safe (record s { heap = update s.heap p b }) (taken l p)
  unfolding update
  taken-Safe s l p b e up pos t h =
      let count = h.refs.counted p t in
      record {
        unique = h.unique;
        refs = held-HasRefs _ _ _ _ h.refs p (l.held p + 1) _ (seen-old _ _ _ _ h.refs p t) t (λ q.
            elim (Bool-cases (q == p)) [
              | inl g ↦ rw g (omega (arith, up, count))
              | inr g ↦ rw g refl
            ]);
        space =
            fewer-HasSpace A _ _ _ _ _ h.space _ (live (taken l p))
              (λ q. elim (Bool-cases (q == p)) [
                | inl g ↦ rw (g, (==_iff q p).0 g) e
                | inr g ↦ rw g (record { len = refl; extent = refl })
              ])
              (λ q. elim (Bool-cases (q == p)) [
                | inl g ↦ rw (g, (==_iff q p).0 g) (λ m. omega (arith, count, pos))
                | inr g ↦ rw g (λ m. m)
              ]);
      }

  -- A release of a reference that is held: the count falls, and the extent goes back with the last.
  released : (s : Store A P) (p : ℕ) → Store A P
  released s p = set_ref s p (record (s.heap p).ref { refcount = (s.heap p).ref.refcount - 1 })

  released-drop_ref :
      (s : Store A P) (p : ℕ)
      → 0 < (s.heap p).ref.refcount
      → (if (s.heap p).ref.refcount - 1 == 0 then free (released s p) p else released s p)
        ≡ drop_ref s p
  unfolding drop_ref release released
  released-drop_ref s p pos =
      let some_refs : (s.heap p).ref.refcount == 0 ≡ false = ground (arith, pos) in
      rw (drop_ref, some_refs) refl

  pub dropped-Safe :
      (s : Store A P) (l : Ledger) (p : ℕ)
      → Holds l p
      → Safe s l
      → Safe (drop_ref s p) (dropped l p)
  unfolding update released free
  dropped-Safe s l p t h =
      let count = h.refs.counted p t.seen in
      let pos : 0 < (s.heap p).ref.refcount = omega (arith, count, t.some_held) in
      let refs =
        held-HasRefs _ _ _ _ h.refs p (l.held p - 1) (λ q. ((released s p).heap q).ref.refcount)
          (seen-old _ _ _ _ h.refs p t.seen) t.seen
          (λ q. elim (Bool-cases (q == p)) [
            | inl g ↦ rw g (omega (arith, count, t.some_held))
            | inr g ↦ rw g refl
          ]) in
      let same : (q : ℕ) → SamePlace (s.heap q) ((released s p).heap q) = λ q.
        elim (Bool-cases (q == p)) [
          | inl g ↦ rw (g, (==_iff q p).0 g) (record { len = refl; extent = refl })
          | inr g ↦ rw g (record { len = refl; extent = refl })
        ] in
      let less : (q : ℕ) → 0 < live (dropped l p) q → 0 < live l q = λ q.
        elim (Bool-cases (q == p)) [
          | inl g ↦ rw (g, (==_iff q p).0 g) (λ m. omega (arith, m))
          | inr g ↦ rw g (λ m. m)
        ] in
      let stays : Safe (released s p) (dropped l p) = record {
        unique = h.unique;
        refs = refs;
        space = fewer-HasSpace A _ _ _ _ _ h.space _ _ same less;
      } in
      subst (λ t. Safe t (dropped l p)) (released-drop_ref s p pos)
        (if-both (λ t. Safe t (dropped l p)) ((s.heap p).ref.refcount - 1 == 0)
          (λ e.
            if-both (λ t. Safe t (dropped l p)) (len_of (released s p) p == 0) (λ f. stays)
              (λ f. record {
                unique = h.unique;
                refs = refs;
                space =
                    let here = (==_iff p p).1 refl in
                    free-HasSpace A _ _ (released s p).heap (live l) _
                      (fewer-HasSpace A _ _ _ _ _ h.space _ _ same (λ q m. m)) p
                      (live (dropped l p)) (omega (arith, t.some_held)) (ground (arith, f))
                      (rw here (ground (arith, count, e))) less;
              }))
          (λ e. stays))
