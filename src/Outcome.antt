-- ===== src/Outcome.antt =====
-- What a Go function that returns a value and an error does: it returns the value, it returns the
-- error (beside the zero value), or it panics on an index or a slice out of range.
use kvstash.Prelude.{Bool, true, false, ◌≡◌, refl}

pub data Outcome {ℓ κ} (E : Type ℓ) (A : Type κ) : Type (ℓ ⊔ κ) where
  ok : A → Outcome E A
  err : E → Outcome E A
  panic : Outcome E A

infixl 5 ◌>>=◌ ◌>>◌
abbrev pub ◌>>=◌ {ℓ κ μ} :
    {E : Type ℓ} {A : Type κ} {B : Type μ} → Outcome E A → (A → Outcome E B) → Outcome E B
ok a >>= f = f a
err e >>= f = err e
panic >>= f = panic

abbrev pub ◌>>◌ {ℓ κ} : {E : Type ℓ} {B : Type κ} → Outcome E (Unit {0}) → Outcome E B → Outcome E B
m >> k = m >>= λ _. k

-- `if !ok { return zero, e }`.
abbrev pub guard {ℓ} : {E : Type ℓ} → Bool → E → Outcome E (Unit {0})
guard true e = ok tt
guard false e = err e

-- The index expression `_ = b[n-1]`, and any other access that is in range by `inside`.
abbrev pub bounds {ℓ} : {E : Type ℓ} → Bool → Outcome E (Unit {0})
bounds true = ok tt
bounds false = panic

-- What a result that is `ok` says of a guard in front of it.
pub guard-ok {ℓ κ} :
    {E : Type ℓ} {A : Type κ} (b : Bool) (e : E) (m : Outcome E A) {a : A}
    → (guard b e >> m) ≡ ok a
    → (b ≡ true) × (m ≡ ok a)
guard-ok true e m p = (refl, p)
guard-ok false e m p = cc
