-- ===== src/Dram/Store/Ledger.antt =====
-- internal/store/dram/store.go: who holds references to the blocks, beside the counts that the blocks have.
use kvstash.Prelude.{
  ℕ, ◌+◌, ◌-◌, ◌≤◌, ◌<◌, ◌≡◌, ◌∙◌, refl, ap, sym, inl, inr, Bool, true, false, Bool-cases, Option,
  none, some, ltb, ◌==◌, ==_iff, if◌then◌else◌, arith,
}
use kvstash.Bytes.{Bytes}
use kvstash.Dram.Store.{update}

-- `held` counts the references that calls under way hold, with that of a block which is not published yet;
-- `shelf` is the index's. `seen` tells that a block was published at some time, `owner` under which key, and
-- `content` is what was put.
pub record Ledger : Type 0 where
  pub held : ℕ → ℕ
  pub shelf : ℕ → ℕ
  pub seen : ℕ → Bool
  pub owner : ℕ → ℕ
  pub content : ℕ → Bytes

-- All references to a block.
abbrev pub live : Ledger → ℕ → ℕ
live l p = l.held p + l.shelf p

-- What the index finds, and the counts of the blocks, agree with the ledger.
pub record HasRefs (look : ℕ → Option ℕ) (refs : ℕ → ℕ) (next : ℕ) (l : Ledger) : Type 0 where
  pub fresh : (p : ℕ) → next ≤ p → (l.held p ≡ 0) × (l.shelf p ≡ 0) × (l.seen p ≡ false)
  pub shelved : (k p : ℕ) → look k ≡ some p → (l.shelf p ≡ 1) × (l.owner p ≡ k) × (l.seen p ≡ true)
  pub counted : (p : ℕ) → l.seen p ≡ true → refs p ≡ l.held p + l.shelf p
  pub waiting :
      (p : ℕ) → p < next → l.seen p ≡ false → (l.shelf p ≡ 0) × (l.held p ≤ 1) × (refs p ≡ 1)
  pub shelf_one : (p : ℕ) → l.shelf p ≤ 1
  pub found : (p : ℕ) → 0 < l.shelf p → look (l.owner p) ≡ some p

-- The ledger after a block was made, published or given up, and after a reference changed hands.
abbrev pub made : Ledger → ℕ → ℕ → Bytes → Ledger
made l p k bs = record l {
  held = update l.held p 1;
  owner = update l.owner p k;
  content = update l.content p bs;
}

abbrev pub shown : Ledger → ℕ → Ledger
shown l p = record l {
  held = update l.held p 0;
  shelf = update l.shelf p 1;
  seen = update l.seen p true;
}

abbrev pub given_up : Ledger → ℕ → Ledger
given_up l p = record l { held = update l.held p 0 }

abbrev pub taken : Ledger → ℕ → Ledger
taken l p = record l { held = update l.held p (l.held p + 1) }

abbrev pub dropped : Ledger → ℕ → Ledger
dropped l p = record l { held = update l.held p (l.held p - 1) }

abbrev pub unshelved : Ledger → ℕ → Ledger
unshelved l p = record l { held = update l.held p (l.held p + 1); shelf = update l.shelf p 0 }

module _ (look : ℕ → Option ℕ) (refs : ℕ → ℕ) (next : ℕ) (l : Ledger)
    (h : HasRefs look refs next l) where
  pub same-HasRefs : (refs' : ℕ → ℕ) → ((q : ℕ) → refs' q ≡ refs q) → HasRefs look refs' next l
  same-HasRefs refs' e = record {
    fresh = h.fresh;
    shelved = h.shelved;
    counted = λ q s. e q ∙ h.counted q s;
    waiting = λ q i s. let w = h.waiting q i s in (w.0, w.1, e q ∙ w.2);
    shelf_one = h.shelf_one;
    found = h.found;
  }

  -- A block that is not in the index.
  unseen-look : (p k q : ℕ) → l.seen p ≡ false → look k ≡ some q → q == p ≡ false
  unseen-look p k q s f = elim (Bool-cases (q == p)) [
    | inl g ↦
        let e : l.seen q ≡ l.seen p = ap l.seen ((==_iff q p).0 g) in
        absurd (cc (e, s, (h.shelved k q f).2))
    | inr g ↦ g
  ]

  pub made-HasRefs :
      (k : ℕ) (bs : Bytes) (refs' : ℕ → ℕ)
      → ((q : ℕ) → refs' q ≡ update refs next 1 q)
      → HasRefs look refs' (next + 1) (made l next k bs)
  unfolding update
  made-HasRefs k bs refs' e =
      let new = h.fresh next (omega arith) in
      record {
        fresh = λ q i. let f = h.fresh q (omega (arith, i)) in (ground (arith, f, i), f.1, f.2);
        shelved = λ j q f.
            let s = h.shelved j q f in
            let other = unseen-look next j q new.2 f in (s.0, rw other s.1, s.2);
        counted = λ q s. elim (Bool-cases (q == next)) [
          | inl g ↦ absurd (cc (s, new.2, ap l.seen ((==_iff q next).0 g)))
          | inr g ↦ rw g (e q ∙ rw g (h.counted q s))
        ];
        waiting = λ q i s. elim (Bool-cases (q == next)) [
          | inl g ↦
              let same = (==_iff q next).0 g in
              (ap l.shelf same ∙ new.1, rw g (omega arith), e q ∙ rw g refl)
          | inr g ↦ let w = h.waiting q (ground (arith, i, g)) s in (w.0, rw g w.1, e q ∙ rw g w.2)
        ];
        shelf_one = h.shelf_one;
        found = λ q i.
            let other : q == next ≡ false = elim (Bool-cases (q == next)) [
              | inl g ↦ absurd (omega (arith, i, new.1, ap l.shelf ((==_iff q next).0 g)))
              | inr g ↦ g
            ] in
            rw other (h.found q i);
      }

  -- A block that waits is published.
  pub shown-HasRefs :
      (p k : ℕ) (look' : ℕ → Option ℕ)
      → p < next
      → l.held p ≡ 1
      → l.seen p ≡ false
      → l.owner p ≡ k
      → look k ≡ none
      → ((j : ℕ) → look' j ≡ (if j == k then some p else look j))
      → HasRefs look' refs next (shown l p)
  unfolding update
  shown-HasRefs p k look' old one s o unused e =
      let w = h.waiting p old s in
      record {
        fresh =
            λ q i. let other : q == p ≡ false = ground (arith, i, old) in rw other (h.fresh q i);
        shelved = λ j q f. elim (Bool-cases (j == k)) [
          | inl g ↦
              let same : q ≡ p = cc (rw g at (e j), f) in
              let here : q == p ≡ true = (==_iff q p).1 same in
              rw here (refl, ap l.owner same ∙ o ∙ sym ((==_iff j k).0 g), refl)
          | inr g ↦
              let f' : look j ≡ some q = sym (rw g at (e j)) ∙ f in
              let other = unseen-look p j q s f' in rw other (h.shelved j q f')
        ];
        counted = λ q. elim (Bool-cases (q == p)) [
          | inl g ↦ rw g (λ t. ap refs ((==_iff q p).0 g) ∙ w.2)
          | inr g ↦ rw g (h.counted q)
        ];
        waiting = λ q i. elim (Bool-cases (q == p)) [
          | inl g ↦ rw g (λ t. absurd (cc t))
          | inr g ↦ rw g (h.waiting q i)
        ];
        shelf_one = λ q. ground (arith, h.shelf_one q);
        found = λ q. elim (Bool-cases (q == p)) [
          | inl g ↦
              let same = (==_iff q p).0 g in
              let at_k : (l.owner q == k) ≡ true = (==_iff (l.owner q) k).1 (ap l.owner same ∙ o) in
              rw g (λ i. e (l.owner q) ∙ rw at_k (ap some (sym same)))
          | inr g ↦ rw g (λ i.
              let there = h.found q i in
              let other : (l.owner q == k) ≡ false = elim (Bool-cases (l.owner q == k)) [
                | inl d ↦ absurd (cc (unused, there, ap look ((==_iff (l.owner q) k).0 d)))
                | inr d ↦ d
              ] in
              e (l.owner q) ∙ rw other there)
        ];
      }

  -- The block that waits is given up.
  pub given_up-HasRefs : (p : ℕ) → l.seen p ≡ false → HasRefs look refs next (given_up l p)
  unfolding update
  given_up-HasRefs p s = record {
    fresh = λ q i. let f = h.fresh q i in (ground (arith, f), f.1, f.2);
    shelved = h.shelved;
    counted = λ q t. elim (Bool-cases (q == p)) [
      | inl g ↦ absurd (cc (s, t, ap l.seen ((==_iff q p).0 g)))
      | inr g ↦ rw g (h.counted q t)
    ];
    waiting = λ q i t. let w = h.waiting q i t in (w.0, ground (arith, w), w.2);
    shelf_one = h.shelf_one;
    found = h.found;
  }

  -- The held references to a published block change with its count.
  pub held-HasRefs :
      (p n : ℕ) (refs' : ℕ → ℕ)
      → p < next
      → l.seen p ≡ true
      → ((q : ℕ) → refs' q ≡ update refs p (n + l.shelf p) q)
      → HasRefs look refs' next (record l { held = update l.held p n })
  unfolding update
  held-HasRefs p n refs' old s e = record {
    fresh = λ q i. let other : q == p ≡ false = ground (arith, i, old) in rw other (h.fresh q i);
    shelved = h.shelved;
    counted = λ q t. elim (Bool-cases (q == p)) [
      | inl g ↦ rw g (e q ∙ rw g (ap (λ x. n + l.shelf x) (sym ((==_iff q p).0 g))))
      | inr g ↦ rw g (e q ∙ rw g (h.counted q t))
    ];
    waiting = λ q i t. elim (Bool-cases (q == p)) [
      | inl g ↦ absurd (cc (s, t, ap l.seen ((==_iff q p).0 g)))
      | inr g ↦ let w = h.waiting q i t in rw g (w.0, w.1, e q ∙ rw g w.2)
    ];
    shelf_one = h.shelf_one;
    found = h.found;
  }

  -- A published block's address was given out.
  pub seen-old : (p : ℕ) → l.seen p ≡ true → p < next
  seen-old p s = elim (Bool-cases (ltb p next)) [
    | inl g ↦ ground (arith, g)
    | inr g ↦ absurd (cc (s, (h.fresh p (ground (arith, g))).2))
  ]

  -- A block leaves the index, and the remover holds the index's reference.
  pub unshelved-HasRefs :
      (p k : ℕ) (look' : ℕ → Option ℕ)
      → look k ≡ some p
      → ((j : ℕ) → look' j ≡ (if j == k then none else look j))
      → HasRefs look' refs next (unshelved l p)
  unfolding update
  unshelved-HasRefs p k look' f e =
      let at_k = h.shelved k p f in
      let old = seen-old p at_k.2 in
      record {
        fresh =
            λ q i. let other : q == p ≡ false = ground (arith, i, old) in rw other (h.fresh q i);
        shelved = λ j q t. elim (Bool-cases (j == k)) [
          | inl g ↦ absurd (cc (rw g at (e j), t))
          | inr g ↦
              let t' : look j ≡ some q = sym (rw g at (e j)) ∙ t in
              let there = h.shelved j q t' in
              let other : q == p ≡ false = elim (Bool-cases (q == p)) [
                | inl d ↦
                    absurd (ground (arith, g, sym there.1 ∙ ap l.owner ((==_iff q p).0 d) ∙ at_k.1))
                | inr d ↦ d
              ] in
              rw other there
        ];
        counted = λ q t. elim (Bool-cases (q == p)) [
          | inl g ↦
              let same = (==_iff q p).0 g in
              rw g (omega (arith, h.counted p at_k.2, at_k.0, ap refs same))
          | inr g ↦ rw g (h.counted q t)
        ];
        waiting = λ q i t. elim (Bool-cases (q == p)) [
          | inl g ↦ absurd (cc (at_k.2, t, ap l.seen ((==_iff q p).0 g)))
          | inr g ↦ rw g (h.waiting q i t)
        ];
        shelf_one = λ q. ground (arith, h.shelf_one q);
        found = λ q. elim (Bool-cases (q == p)) [
          | inl g ↦ rw g (λ i. absurd (omega (arith, i)))
          | inr g ↦ rw g (λ i.
              let there = h.found q i in
              let other : (l.owner q == k) ≡ false = elim (Bool-cases (l.owner q == k)) [
                | inl d ↦
                    let same : q ≡ p = cc (f, there, ap look ((==_iff (l.owner q) k).0 d)) in
                    absurd (cc (g, (==_iff q p).1 same))
                | inr d ↦ d
              ] in
              e (l.owner q) ∙ rw other there)
        ];
      }
