-- ===== src/Dram/Store/Space.antt =====
-- internal/store/dram/store.go: the extents of the blocks that someone refers to, and the bytes in them.
use kvstash.Prelude.{
  ℕ, ◌+◌, ◌*◌, ◌≤◌, ◌<◌, ◌≡◌, ◌⊎◌, inl, inr, ap, true, false, Bool-cases, some, ◌==◌, ==_iff, arith,
}
use kvstash.Bytes.{Bytes}
use kvstash.Dram.Arena.{Arena}
use kvstash.Dram.Allocator.{Allocator}
use kvstash.Dram.Store.{Block, alloc_unit, bytes_to_units}
use kvstash.Dram.Store.Reads.{block_bytes}

-- The first unit of a block's extent, and the number of its units.
abbrev pub start : Block → ℕ
start b = b.extent.offset

abbrev pub units : Block → ℕ
units b = bytes_to_units b.ref.len

-- Two extents have no unit in common.
abbrev pub Apart : Block → Block → Type 0
Apart b c = (start b + units b ≤ start c) ⊎ (start c + units c ≤ start b)

-- Two states of a block have the same extent.
pub record SamePlace (b c : Block) : Type 0 where
  pub len : c.ref.len ≡ b.ref.len
  pub extent : c.extent ≡ b.extent

module _ (A : Allocator) where
  -- The blocks with a positive `live` own their extents, which are apart and hold the content.
  pub record HasSpace (arena : Arena) (al : A.State) (heap : ℕ → Block) (live : ℕ → ℕ)
      (content : ℕ → Bytes) : Type 0 where
    pub room : A.capacity * alloc_unit ≤ arena.size
    pub backed :
        (p u : ℕ)
        → 0 < live p
        → u < units (heap p)
        → A.owns al (heap p).extent (start (heap p) + u) ≡ true
    pub apart :
        (p q : ℕ)
        → p == q ≡ false
        → 0 < live p
        → 0 < live q
        → 0 < (heap p).ref.len
        → 0 < (heap q).ref.len
        → Apart (heap p) (heap q)
    pub kept : (p : ℕ) → 0 < live p → block_bytes arena (heap p) ≡ some (content p)

  module _ (arena : Arena) (al : A.State) (heap : ℕ → Block) (live : ℕ → ℕ) (content : ℕ → Bytes)
      (h : HasSpace arena al heap live content) where
    -- Nobody becomes live, and the extents stay.
    pub fewer-HasSpace :
        (heap' : ℕ → Block) (live' : ℕ → ℕ)
        → ((p : ℕ) → SamePlace (heap p) (heap' p))
        → ((p : ℕ) → 0 < live' p → 0 < live p)
        → HasSpace arena al heap' live' content
    unfolding block_bytes bytes_to_units
    fewer-HasSpace heap' live' same less = record {
      room = h.room;
      backed =
          λ p u l i. rw (same p).extent (h.backed p u (less p l) (omega (arith, i, (same p).len)));
      apart = λ p q o l m i j.
          rw ((same p).extent, (same p).len, (same q).extent, (same q).len)
            (h.apart p q o (less p l) (less q m) (omega (arith, i, (same p).len))
              (omega (arith, j, (same q).len)));
      kept = λ p l. rw ((same p).extent, (same p).len) (h.kept p (less p l));
    }

    -- The extent of a block goes back when it is live no more.
    pub free-HasSpace :
        (p : ℕ) (live' : ℕ → ℕ)
        → 0 < live p
        → 0 < (heap p).ref.len
        → live' p ≡ 0
        → ((q : ℕ) → 0 < live' q → 0 < live q)
        → HasSpace arena (A.free al (heap p).extent) heap live' content
    unfolding bytes_to_units
    free-HasSpace p live' l i gone less = record {
      room = h.room;
      backed = λ q u m j.
          let other : p == q ≡ false = elim (Bool-cases (p == q)) [
            | inl e ↦ absurd (omega (arith, m, gone, ap live' ((==_iff p q).0 e)))
            | inr e ↦ e
          ] in
          let some_units : 0 < (heap q).ref.len = omega (arith, j) in
          let away = h.apart p q other l (less q m) i some_units in
          A.free-keeps al (start (heap q) + u) (start (heap p) + 0) (heap p).extent (heap q).extent
            (λ e.
              let at : start (heap q) ≡ start (heap p) = ap (λ x. x.offset) e in
              ground (arith, at, away, i, some_units))
            (h.backed p 0 l (omega (arith, i))) (h.backed q u (less q m) j);
      apart = λ q r o m m' i' j. h.apart q r o (less q m) (less r m') i' j;
      kept = λ q m. h.kept q (less q m);
    }
