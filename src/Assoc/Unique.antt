-- ===== src/Assoc/Unique.antt =====
-- Association lists in which no key stands twice, as in every map.
use kvstash.Prelude.{
  ℕ, ◌≡◌, ◌∙◌, refl, ap, inl, inr, false, Bool-cases, none, some, List, [], ◌∷◌, ◌==◌, ==_iff,
  if◌then◌else◌, arith,
}
use kvstash.Assoc.{find, erase, put, find-put}

module _ {ℓ} {A : Type ℓ} where
  unfoldable pub Unique : List (ℕ × A) → Type ℓ
  Unique [] = Unit
  Unique (e ∷ m) = (find e.0 m ≡ none) × Unique m

  pub find-erase :
      (j k : ℕ) (m : List (ℕ × A))
      → Unique m
      → find j (erase k m) ≡ (if j == k then none else find j m)
  unfolding find erase Unique
  find-erase j k [] u = ground arith
  find-erase j k (e ∷ m) u = elim (Bool-cases (k == e.0)) [
    | inl g ↦
        let same : k ≡ e.0 = (==_iff k e.0).0 g in
        elim (Bool-cases (j == k)) [
          | inl h ↦
              let gone : find j m ≡ none = ap (λ i. find i m) ((==_iff j k).0 h ∙ same) ∙ u.0 in
              rw (g, h) gone
          | inr h ↦ let other : j == e.0 ≡ false = rw same at h in rw (g, h, other) refl
        ]
    | inr g ↦
        let rest = find-erase j k m u.1 in
        elim (Bool-cases (j == e.0)) [
          | inl h ↦ let other : j == k ≡ false = ground (arith, g, h) in rw (g, h, other) refl
          | inr h ↦ rw (g, h) rest
        ]
  ]

  pub Unique-put : (k : ℕ) (v : A) (m : List (ℕ × A)) → Unique m → Unique (put k v m)
  unfolding Unique put find
  Unique-put k v [] u = (refl, tt)
  Unique-put k v (e ∷ m) u = elim (Bool-cases (k == e.0)) [
    | inl g ↦ let same : k ≡ e.0 = (==_iff k e.0).0 g in rw g (ap (λ i. find i m) same ∙ u.0, u.1)
    | inr g ↦
        let other : e.0 == k ≡ false = ground (arith, g) in
        let skip : (if e.0 == k then some v else find e.0 m) ≡ none = rw other u.0 in
        rw g (find-put e.0 k v m ∙ skip, Unique-put k v m u.1)
  ]

  pub Unique-erase : (k : ℕ) (m : List (ℕ × A)) → Unique m → Unique (erase k m)
  unfolding Unique erase
  Unique-erase k [] u = tt
  Unique-erase k (e ∷ m) u = elim (Bool-cases (k == e.0)) [
    | inl g ↦ rw g u.1
    | inr g ↦
        let other : e.0 == k ≡ false = ground (arith, g) in
        let skip : (if e.0 == k then none else find e.0 m) ≡ none = rw other u.0 in
        rw g (find-erase e.0 k m u.1 ∙ skip, Unique-erase k m u.1)
  ]
