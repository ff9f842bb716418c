-- ===== src/Transport/Credit/Strikes.antt =====
-- The verdicts over a connection's life: the first breach is answered busy, each later one fatal.
use native.Mathlib.Numerals.{add-one}
use kvstash.Prelude.{
  ℕ, zero, suc, ◌+◌, ◌≡◌, refl, Option, none, some, List, [], ◌∷◌, arith, replicate, leb, false,
  Bool-cases, ◌⊎◌, ◌==◌, inl, inr, if◌then◌else◌, ap, ◌∙◌,
}
use kvstash.Transport.Credit.{
  CreditWindow, Violation, violation_none, violation_busy, violation_fatal, set_window, account,
  consume, grant, take_grant, ◌+u64◌,
}
use kvstash.Transport.Credit.Ledger.{Call, set_windows, consumes, accounts, grants, takes}

-- A call's new ledger, and the verdict if it was `Consume`.
pub rule : CreditWindow → Call → CreditWindow × Option Violation
rule w (set_windows a b) = (set_window w a b, none)
rule w (consumes n) = let (w', v) = consume w n in (w', some v)
rule w (accounts n) = (account w n, none)
rule w (grants n) = (grant w n, none)
rule w takes = ((take_grant w).0, none)

-- The verdicts that are violations, in order.
abbrev noted : Option Violation → List Violation → List Violation
noted none vs = vs
noted (some violation_none) vs = vs
noted (some v) vs = v ∷ vs

pub violations : CreditWindow → List Call → List Violation
unfolding rule
violations w [] = []
violations w (c ∷ cs) = noted (rule w c).1 (violations (rule w c).0 cs)

pub after : CreditWindow → List Call → CreditWindow
unfolding rule
after w [] = w
after w (c ∷ cs) = after (rule w c).0 cs

-- What n breaches are answered, when there were k before.
pub escalation : ℕ → ℕ → List Violation
escalation k zero = []
escalation zero (suc n) = violation_busy ∷ replicate n violation_fatal
escalation (suc k) (suc n) = violation_fatal ∷ replicate n violation_fatal

-- A call either notes nothing and leaves the strikes, or it is the next strike and is answered so.
abbrev Ruled : ℕ → CreditWindow × Option Violation → Type 0
Ruled k (w, v) =
    ((w.strikes ≡ k) × ((vs : List Violation) → noted v vs ≡ vs))
    ⊎ ((w.strikes ≡ k + 1) × (v ≡ some (if k == 0 then violation_busy else violation_fatal)))

rule-Ruled : (w : CreditWindow) (c : Call) → Ruled w.strikes (rule w c)
unfolding rule set_window account grant take_grant consume
rule-Ruled w (set_windows a b) = inl (refl, λ vs. refl)
rule-Ruled w (consumes n) =
    elim (Bool-cases (leb (w.outstanding +u64 n) (w.window +u64 w.max_frame))) [
      | inl within ↦ rw within (inl (refl, λ vs. refl))
      | inr breach ↦ rw breach (inr (refl, ground arith))
    ]
rule-Ruled w (accounts n) = inl (refl, λ vs. refl)
rule-Ruled w (grants n) = inl (refl, λ vs. refl)
rule-Ruled w takes = inl (refl, λ vs. refl)

escalation-step :
    (k j : ℕ)
    → noted (some (if k == 0 then violation_busy else violation_fatal)) (escalation (k + 1) j)
      ≡ escalation k (suc j)
unfolding escalation
escalation-step zero zero = refl
escalation-step zero (suc j) = refl
escalation-step (suc k) zero = let e : (suc k == 0) ≡ false = ground arith in rw e
escalation-step (suc k) (suc j) = let e : (suc k == 0) ≡ false = ground arith in rw e (rw add-one)

-- Over any sequence of calls, the violations that are answered are an escalation: busy for the first
-- breach of the connection, fatal for every later one, and as many as the strikes that were added.
-- Calls other than `Consume` add none.
pub violations-escalation :
    (w : CreditWindow) (cs : List Call)
    → (k : ℕ) × ((after w cs).strikes ≡ w.strikes + k) × (violations w cs ≡ escalation w.strikes k)
unfolding violations after escalation
violations-escalation w [] = (0, omega arith, refl)
violations-escalation w (c ∷ cs) =
    let (k, total, vs) = violations-escalation (rule w c).0 cs in
    elim (rule-Ruled w c) [
      | inl (same, skip) ↦ (k, omega arith, skip _ ∙ vs ∙ ap (λ t. escalation t k) same)
      | inr (more, v) ↦ (suc k, omega arith, rw (v, vs, more) (escalation-step w.strikes k))
    ]
