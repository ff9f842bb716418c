-- ===== src/Dram/Store/Filling.antt =====
-- internal/store/dram/store.go: a new block gets an extent that nobody has, and its bytes are copied there.
use kvstash.Prelude.{
  ℕ, ◌+◌, ◌-◌, ◌*◌, ◌≤◌, ◌<◌, ◌≡◌, ◌⊎◌, inl, inr, ◌∙◌, refl, ap, true, Bool-cases, some, [], length,
  ltb, leb, ◌==◌, arith,
}
use kvstash.Bytes.{Bytes}
use kvstash.Dram.Arena.{Arena, out_of_arena, arena_bytes, copy_at}
use kvstash.Dram.Arena.Copies.{view-copy_at, view-copy_at-apart, inside}
use kvstash.Dram.Allocator.{Allocator}
use kvstash.Dram.Store.{Block, alloc_unit, update, bytes_to_units}
use kvstash.Dram.Store.Reads.{block_bytes}
use kvstash.Dram.Store.Space.{start, units, Apart, HasSpace}

module _ (A : Allocator) (arena : Arena) (al : A.State) (heap : ℕ → Block) (live : ℕ → ℕ)
    (content : ℕ → Bytes) (h : HasSpace A arena al heap live content) (p : ℕ) (new : live p ≡ 0)
    (b : Block) where
  -- A block without an extent.
  pub empty-HasSpace :
      b.ref.len ≡ 0 → HasSpace A arena al (update heap p b) (update live p 1) (update content p [])
  unfolding update block_bytes bytes_to_units
  empty-HasSpace e = record {
    room = h.room;
    backed = λ q u. elim (Bool-cases (q == p)) [
      | inl g ↦ rw (g, e) (λ l i. absurd (omega (arith, i)))
      | inr g ↦ rw g (h.backed q u)
    ];
    apart = λ q r o. elim (Bool-cases (q == p)) [
      | inl g ↦ rw (g, e) (λ l m i j. absurd (omega (arith, i)))
      | inr g ↦ elim (Bool-cases (r == p)) [
        | inl f ↦ rw (f, e) (λ l m i j. absurd (omega (arith, j)))
        | inr f ↦ rw (g, f) (h.apart q r o)
      ]
    ];
    kept =
        λ q. elim (Bool-cases (q == p)) [ inl g ↦ rw (g, e) (λ l. refl) | inr g ↦ rw g (h.kept q) ];
  }

  module _ (bs : Bytes) (al' : A.State) (some_bytes : 0 < length bs) (size : b.ref.len ≡ length bs)
      (gives : A.alloc al (bytes_to_units (length bs)) ≡ some (al', b.extent)) where
    -- The extent is in the arena.
    pub extent-inside : b.extent.offset * alloc_unit + length bs ≤ arena.size
    unfolding bytes_to_units
    extent-inside =
        let n = bytes_to_units (length bs) in
        let last = b.extent.offset + (n - 1) in
        let owned =
          A.alloc-gives al al' n last b.extent gives (omega arith) (omega (arith, some_bytes)) in
        omega (arith, A.owns-inside al' b.extent last owned, h.room, some_bytes)

    -- An extent with a unit of a live block's would be apart from it.
    new_extent-Apart : (q : ℕ) → 0 < live q → 0 < (heap q).ref.len → Apart b (heap q)
    unfolding bytes_to_units
    new_extent-Apart q l i =
        let n = bytes_to_units (length bs) in
        let x = start (heap q) in
        let outside : (u : ℕ) → u < units (heap q) → (x + u < start b) ⊎ (start b + n ≤ x + u) =
          λ u j. A.alloc-apart al al' n (x + u) b.extent (heap q).extent gives (h.backed q u l j) in
        elim (Bool-cases (leb x (start b))) [
          | inl g ↦ elim (Bool-cases (ltb (start b - x) (units (heap q)))) [
            | inl f ↦
                let o = outside (start b - x) (ground (arith, f)) in
                absurd (ground (arith, o, g, some_bytes))
            | inr f ↦ inr (ground (arith, g, f))
          ]
          | inr g ↦ ground (arith, outside 0 (omega (arith, i)), g, size)
        ]

    abbrev filled : Arena
    filled = record arena { mem = copy_at arena.mem (b.extent.offset * alloc_unit) bs }

    new_bytes : block_bytes filled b ≡ some bs
    unfolding block_bytes arena_bytes out_of_arena
    new_bytes =
        let some_len : ltb 0 (length bs) ≡ true = ground (arith, some_bytes) in
        rw (size, some_len, inside arena (b.extent.offset * alloc_unit) (length bs) extent-inside)
          (ap some (view-copy_at arena.mem (b.extent.offset * alloc_unit) bs))

    -- The bytes of the others stay.
    old_bytes : (q : ℕ) → 0 < live q → block_bytes filled (heap q) ≡ block_bytes arena (heap q)
    unfolding block_bytes arena_bytes bytes_to_units out_of_arena
    old_bytes q l = elim (Bool-cases (ltb 0 (heap q).ref.len)) [
      | inl g ↦
          elim (Bool-cases (out_of_arena arena (start (heap q) * alloc_unit) (heap q).ref.len)) [
            | inl f ↦ rw (g, f) refl
            | inr f ↦
                rw (g, f)
                  (ap some (
                    view-copy_at-apart arena.mem (b.extent.offset * alloc_unit) bs
                      (start (heap q) * alloc_unit) (heap q).ref.len
                      (ground (arith, new_extent-Apart q l (ground (arith, g)), size))))
          ]
      | inr g ↦ rw g refl
    ]

    -- The bytes are copied into the new extent.
    pub fill-HasSpace :
        HasSpace A
          (record arena { mem = copy_at arena.mem (b.extent.offset * alloc_unit) bs })
          al'
          (update heap p b)
          (update live p 1)
          (update content p bs)
    unfolding update block_bytes bytes_to_units
    fill-HasSpace = record {
      room = h.room;
      backed = λ q u. elim (Bool-cases (q == p)) [
        | inl g ↦ rw g (λ l i.
            A.alloc-gives al al' (bytes_to_units (length bs)) (b.extent.offset + u) b.extent gives
              (omega arith) (omega (arith, i, size)))
        | inr g ↦ rw g (λ l i.
            A.alloc-keeps al al' (bytes_to_units (length bs)) (start (heap q) + u) b.extent
              (heap q).extent gives (h.backed q u l i))
      ];
      apart = λ q r o. elim (Bool-cases (q == p)) [
        | inl g ↦ elim (Bool-cases (r == p)) [
          | inl f ↦ absurd (ground (arith, o, g, f))
          | inr f ↦ rw (g, f) (λ l m i j. new_extent-Apart r m j)
        ]
        | inr g ↦ elim (Bool-cases (r == p)) [
          | inl f ↦
              rw (g, f) (λ l m i j. elim (new_extent-Apart q l i) [ inl x ↦ inr x | inr x ↦ inl x ])
          | inr f ↦ rw (g, f) (h.apart q r o)
        ]
      ];
      kept = λ q. elim (Bool-cases (q == p)) [
        | inl g ↦ rw g (λ l. new_bytes)
        | inr g ↦ rw g (λ l. old_bytes q l ∙ h.kept q l)
      ];
    }
