-- ===== src/Assoc.antt =====
-- A Go map with number keys, as an association list. A key stands in it at most once, which is what
-- makes the sum over the values well defined; every operation here acts on the first entry of its key.
pub mod Unique
use kvstash.Prelude.{
  ◌∙◌, ==_iff, ℕ, ◌+◌, ◌≤◌, ◌≡◌, refl, Bool-cases, inl, inr, Option, none, some, List, [], ◌∷◌,
  length, All, ◌==◌, if◌then◌else◌, arith,
}

module _ {ℓ} {A : Type ℓ} where
  unfoldable pub find : ℕ → List (ℕ × A) → Option A
  find k [] = none
  find k (e ∷ m) = let rest = find k m in if k == e.0 then some e.1 else rest

  unfoldable pub erase : ℕ → List (ℕ × A) → List (ℕ × A)
  erase k [] = []
  erase k (e ∷ m) = let rest = erase k m in if k == e.0 then m else e ∷ rest

  -- `m[k] = v`: in place, or as a new entry.
  unfoldable pub put : ℕ → A → List (ℕ × A) → List (ℕ × A)
  put k v [] = (k, v) ∷ []
  put k v (e ∷ m) = let rest = put k v m in if k == e.0 then (k, v) ∷ m else e ∷ rest

  unfoldable pub sum : (A → ℕ) → List (ℕ × A) → ℕ
  sum f [] = 0
  sum f (e ∷ m) = f e.1 + sum f m

  unfoldable pub AllValues {κ} : (A → Type κ) → List (ℕ × A) → Type κ
  AllValues P m = All (λ e. P e.1) m

  -- What an entry adds to the sum.
  abbrev pub weight : (A → ℕ) → Option A → ℕ
  weight f none = 0
  weight f (some v) = f v

  pub sum-erase :
      (f : A → ℕ) (k : ℕ) (m : List (ℕ × A)) → sum f (erase k m) + weight f (find k m) ≡ sum f m
  unfolding find erase sum
  sum-erase f k [] = omega arith
  sum-erase f k (e ∷ m) = elim (Bool-cases (k == e.0)) [
    | inl g ↦ rw g (omega arith)
    | inr g ↦ rw g (omega (arith, sum-erase f k m))
  ]

  pub sum-put :
      (f : A → ℕ) (k : ℕ) (v : A) (m : List (ℕ × A))
      → sum f (put k v m) + weight f (find k m) ≡ sum f m + f v
  unfolding find put sum
  sum-put f k v [] = omega arith
  sum-put f k v (e ∷ m) = elim (Bool-cases (k == e.0)) [
    | inl g ↦ rw g (omega arith)
    | inr g ↦ rw g (omega (arith, sum-put f k v m))
  ]

  pub length-erase : (k : ℕ) (m : List (ℕ × A)) → length (erase k m) ≤ length m
  unfolding erase
  length-erase k [] = omega arith
  length-erase k (e ∷ m) = elim (Bool-cases (k == e.0)) [
    | inl g ↦ rw g (omega arith)
    | inr g ↦ rw g (omega (arith, length-erase k m))
  ]

  pub length-erase-found :
      (k : ℕ) (m : List (ℕ × A)) → length (erase k m) + weight (λ x. 1) (find k m) ≡ length m
  unfolding erase find
  length-erase-found k [] = omega arith
  length-erase-found k (e ∷ m) = elim (Bool-cases (k == e.0)) [
    | inl g ↦ rw g (omega arith)
    | inr g ↦ rw g (omega (arith, length-erase-found k m))
  ]

  pub length-put :
      (k : ℕ) (v : A) (m : List (ℕ × A))
      → length (put k v m) + weight (λ x. 1) (find k m) ≡ length m + 1
  unfolding find put
  length-put k v [] = omega arith
  length-put k v (e ∷ m) = elim (Bool-cases (k == e.0)) [
    | inl g ↦ rw g (omega arith)
    | inr g ↦ rw g (omega (arith, length-put k v m))
  ]

  pub find-put :
      (j k : ℕ) (v : A) (m : List (ℕ × A))
      → find j (put k v m) ≡ (if j == k then some v else find j m)
  unfolding find put
  find-put j k v [] = refl
  find-put j k v (e ∷ m) = elim (Bool-cases (k == e.0)) [
    | inl g ↦ ground (arith, g)
    | inr g ↦ rw g (ground (arith, find-put j k v m))
  ]

  pub find-put-same : (k : ℕ) (v : A) (m : List (ℕ × A)) → find k (put k v m) ≡ some v
  find-put-same k v m = find-put k k v m ∙ rw ((==_iff k k).1 refl) refl

  pub AllValues-erase {κ} :
      (P : A → Type κ) (k : ℕ) (m : List (ℕ × A)) → AllValues P m → AllValues P (erase k m)
  unfolding AllValues erase
  AllValues-erase P k [] h = tt
  AllValues-erase P k (e ∷ m) h = elim (Bool-cases (k == e.0)) [
    | inl g ↦ rw g h.1
    | inr g ↦ rw g (h.0, AllValues-erase P k m h.1)
  ]

  pub AllValues-put {κ} :
      (P : A → Type κ) (k : ℕ) (v : A) (m : List (ℕ × A))
      → P v
      → AllValues P m
      → AllValues P (put k v m)
  unfolding AllValues put
  AllValues-put P k v [] p h = (p, tt)
  AllValues-put P k v (e ∷ m) p h = elim (Bool-cases (k == e.0)) [
    | inl g ↦ rw g (p, h.1)
    | inr g ↦ rw g (h.0, AllValues-put P k v m p h.1)
  ]

  pub AllValues-find {κ} :
      (P : A → Type κ) (k : ℕ) (m : List (ℕ × A)) {v : A} → AllValues P m → find k m ≡ some v → P v
  unfolding AllValues find
  AllValues-find P k [] h q = absurd (cc q)
  AllValues-find P k (e ∷ m) {v} h q = elim (Bool-cases (k == e.0)) [
    | inl g ↦ let r : e.1 ≡ v = cc (rw g at q) in rw r at h.0
    | inr g ↦ AllValues-find P k m h.1 (rw g at q)
  ]

  pub AllValues-empty {κ} : (P : A → Type κ) → AllValues P []
  unfolding AllValues
  AllValues-empty P = tt
