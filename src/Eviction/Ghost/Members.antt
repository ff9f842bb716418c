-- ===== src/Eviction/Ghost/Members.antt =====
-- Membership in lists without duplicates, as the set of a ghost ring and its entries have it.
use kvstash.Prelude.{
  ℕ, zero, suc, ◌≡◌, ◌∙◌, refl, Bool, true, false, ◌||◌, List, [], ◌∷◌, ◌++◌, inl, inr, Bool-cases,
  drop, ◌==◌, ==_iff, if◌then◌else◌, arith,
}
use kvstash.Eviction.Ghost.{elem, without}

abbrev pub Distinct : List ℕ → Type 0
Distinct [] = Unit
Distinct (x ∷ xs) = (elem x xs ≡ false) × Distinct xs

or_assoc_comm : (a b c : Bool) → a || (b || c) ≡ b || (a || c)
or_assoc_comm true true c = refl
or_assoc_comm true false c = refl
or_assoc_comm false b c = refl

-- A new last element is a new element.
pub elem-snoc : (y x : ℕ) (q : List ℕ) → elem y (q ++ x ∷ []) ≡ elem y (x ∷ q)
unfolding elem
elem-snoc y x [] = refl
elem-snoc y x (z ∷ q) = rw (elem-snoc y x q) (or_assoc_comm (y == z) (y == x) (elem y q))

eq_sym : (x y : ℕ) → (x == y) ≡ (y == x)
eq_sym x y = ground arith

pub Distinct-snoc : (q : List ℕ) (x : ℕ) → Distinct q → elem x q ≡ false → Distinct (q ++ x ∷ [])
unfolding elem
Distinct-snoc [] x d h = (refl, tt)
Distinct-snoc (y ∷ q) x d h = elim (Bool-cases (x == y)) [
  | inl e ↦ absurd (cc (rw e at h))
  | inr e ↦ (elem-snoc y x q ∙ rw (eq_sym y x, e) d.0, Distinct-snoc q x d.1 (rw e at h))
]

pub Distinct-drop : (n : ℕ) (q : List ℕ) → Distinct q → Distinct (drop n q)
Distinct-drop zero q d = d
Distinct-drop (suc n) [] d = tt
Distinct-drop (suc n) (x ∷ q) d = Distinct-drop n q d.1

pub elem-without :
    (y x : ℕ) (s : List ℕ) → elem y (without x s) ≡ (if y == x then false else elem y s)
unfolding elem without
elem-without y x [] = ground arith
elem-without y x (z ∷ s) =
    let i = elem-without y x s in
    elim (Bool-cases (x == z)) [
      | inl e ↦
          let p = (==_iff x z).0 e in
          elim (Bool-cases (y == x)) [
            | inl f ↦ rw e (i ∙ rw f refl)
            | inr f ↦ rw e (i ∙ rw (f, ← p, f) refl)
          ]
      | inr e ↦ elim (Bool-cases (y == x)) [
        | inl f ↦ let q = (==_iff y x).0 f in rw e (rw (i, f) (rw (q, e) refl))
        | inr f ↦ rw e (rw (i, f) refl)
      ]
    ]

-- In a list without duplicates, the head is not in the tail.
pub elem-tail :
    (y x : ℕ) (q : List ℕ)
    → Distinct (x ∷ q)
    → elem y q ≡ (if y == x then false else elem y (x ∷ q))
unfolding elem
elem-tail y x q d = elim (Bool-cases (y == x)) [
  | inl e ↦ let p = (==_iff y x).0 e in rw (e, p) d.0
  | inr e ↦ rw e refl
]
