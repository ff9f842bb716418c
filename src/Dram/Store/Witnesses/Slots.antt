-- ===== src/Dram/Store/Witnesses/Slots.antt =====
-- An allocator of two slots of two units each.
use kvstash.Prelude.{
  ℕ, ◌+◌, ◌-◌, ◌≤◌, ◌≡◌, ◌≢◌, ◌⊎◌, inl, inr, refl, subst, if-both, Bool, false, ◌&&◌, ◌||◌,
  Bool-cases, Option, none, some, ltb, leb, ◌==◌, if◌then◌else◌, arith,
}
use kvstash.Dram.Allocator.{Allocation, Allocator}

-- The sizes of the extents in the slots, 0 if they are free.
abbrev pub Sizes : Type 0
Sizes = ℕ × ℕ

abbrev pub take : Sizes → ℕ → Option (Sizes × Allocation)
take s n =
    if n == 0 || ltb 2 n
    then none
    else if s.0 == 0
    then some ((n, s.1), record { offset = 0; alloc_meta = n })
    else if s.1 == 0
    then some ((s.0, n), record { offset = 2; alloc_meta = n })
    else none

abbrev pub first : Sizes → Allocation → Bool
first s al = al.offset == 0 && al.alloc_meta == s.0

abbrev pub second : Sizes → Allocation → Bool
second s al = al.offset == 2 && al.alloc_meta == s.1

abbrev pub give : Sizes → Allocation → Sizes
give s al = (if first s al then 0 else s.0, if second s al then 0 else s.1)

abbrev pub has : Sizes → Allocation → ℕ → Bool
has s al u =
    first s al && ltb u s.0 && ltb u 2 || second s al && leb 2 u && ltb u (2 + s.1) && ltb u 4

pub fields-differ :
    (a b : Allocation) → a ≢ b → a.offset == b.offset && a.alloc_meta == b.alloc_meta ≡ false
fields-differ a b ne = elim (Bool-cases (a.offset == b.offset && a.alloc_meta == b.alloc_meta)) [
  | inl e ↦
      let o : a.offset ≡ b.offset = ground (arith, e) in
      let m : a.alloc_meta ≡ b.alloc_meta = ground (arith, e) in absurd (ne (cc (o, m)))
  | inr e ↦ e
]

-- What a granted extent is.
abbrev pub Fits : Sizes → ℕ → Option (Sizes × Allocation) → Type 0
Fits s n none = Unit
Fits s n (some (s', al)) =
    (al.alloc_meta ≡ n)
    × (n ≤ 2)
    × ((al.offset ≡ 0) × (s.0 ≡ 0) × (s'.0 ≡ n) × (s'.1 ≡ s.1)
        ⊎ (al.offset ≡ 2) × (s.1 ≡ 0) × (s'.0 ≡ s.0) × (s'.1 ≡ n))

take-Fits : (s : Sizes) (n : ℕ) → Fits s n (take s n)
take-Fits s n =
    if-both (Fits s n) (n == 0 || ltb 2 n) (λ e. tt)
      (λ e.
        if-both (Fits s n) (s.0 == 0)
          (λ f. (refl, ground (arith, e), inl (refl, ground (arith, f), refl, refl)))
          (λ f.
            if-both (Fits s n) (s.1 == 0)
              (λ g. (refl, ground (arith, e), inr (refl, ground (arith, g), refl, refl)))
              (λ g. tt)))

pub granted :
    (s s' : Sizes) (n : ℕ) (al : Allocation) → take s n ≡ some (s', al) → Fits s n (some (s', al))
granted s s' n al e = subst (Fits s n) e (take-Fits s n)

abbrev pub slots : Allocator
slots = record {
  State = Sizes;
  alloc = take;
  free = give;
  total_free = λ s. 4 - s.0 - s.1;
  max_allocs = 2;
  largest_free = λ s. if s.0 == 0 || s.1 == 0 then 2 else 0;
  owns = has;
  capacity = 4;
  owns-inside = λ s al u e. ground (arith, e);
  alloc-gives = λ s s' n u al e i j. let f = granted s s' n al e in ground (arith, f, i, j);
  alloc-apart = λ s s' n u al other e o. let f = granted s s' n al e in ground (arith, f, o);
  alloc-keeps = λ s s' n u al other e o. let f = granted s s' n al e in ground (arith, f, o);
  free-keeps =
      λ s u v al other ne mine e. let d = fields-differ other al ne in ground (arith, d, e);
}
