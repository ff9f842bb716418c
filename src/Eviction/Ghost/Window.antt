-- ===== src/Eviction/Ghost/Window.antt =====
-- internal/eviction/ghost.go: the ring is a queue of bounded length. Its entries, the oldest first, are
-- the window of the ring that starts at the head.
use native.Mathlib.Nat.{mod-eq_of_lt, mod-eq-sub-mod, mod-add-mod}
use kvstash.Prelude.{
  ℕ, zero, suc, ◌+◌, ◌-◌, ◌%◌, ◌≤◌, ◌<◌, ◌≡◌, ◌≢◌, ◌⊎◌, ◌∙◌, refl, ap, List, [], ◌∷◌, ◌++◌,
  append_assoc, length-append, inl, inr, Bool-cases, length, drop, ltb, arith,
}
use kvstash.Eviction.Ghost.{slot, write, window}

-- A position that is less than two turns on.
wrap : (a m : ℕ) → a < m + m → ((a < m) × (a % m ≡ a)) ⊎ ((m ≤ a) × (a % m + m ≡ a))
wrap a m h = elim (Bool-cases (ltb a m)) [
  | inl g ↦ let l : a < m = ground arith in inl (l, mod-eq_of_lt l)
  | inr g ↦
      let l : m ≤ a = ground arith in
      let after : (a - m) % m ≡ a - m = mod-eq_of_lt (omega arith) in
      inr (l, rw (mod-eq-sub-mod l, after) (omega arith))
]

-- Positions less than a turn apart are different.
pub apart : (a b m : ℕ) → a < b → b < a + m → b < m + m → a % m ≢ b % m
apart a b m h k l e = elim (wrap a m (omega arith)) [
  | inl p ↦ elim (wrap b m l) [ inl q ↦ omega arith | inr q ↦ omega arith ]
  | inr p ↦ elim (wrap b m l) [ inl q ↦ omega arith | inr q ↦ omega arith ]
]

pub length-write : (r : List ℕ) (i v : ℕ) → length (write r i v) ≡ length r
unfolding write
length-write [] i v = refl
length-write (x ∷ r) zero v = refl
length-write (x ∷ r) (suc i) v = ap suc (length-write r i v)

pub slot-write : (r : List ℕ) (i v : ℕ) → i < length r → slot (write r i v) i ≡ v
unfolding write slot
slot-write [] i v h = absurd (omega arith)
slot-write (x ∷ r) zero v h = refl
slot-write (x ∷ r) (suc i) v h = slot-write r i v (omega arith)

slot-write_ne : (r : List ℕ) (i j v : ℕ) → i ≢ j → slot (write r j v) i ≡ slot r i
unfolding write slot
slot-write_ne [] i j v h = refl
slot-write_ne (x ∷ r) zero zero v h = absurd (h refl)
slot-write_ne (x ∷ r) zero (suc j) v h = refl
slot-write_ne (x ∷ r) (suc i) zero v h = refl
slot-write_ne (x ∷ r) (suc i) (suc j) v h = slot-write_ne r i j v (λ e. h (ap suc e))

pub window-write :
    (r : List ℕ) (head i k j v : ℕ)
    → ((t : ℕ) → t < k → (head + (i + t)) % length r ≢ j)
    → window (write r j v) head i k ≡ window r head i k
unfolding window
window-write r head i zero j v h = refl
window-write r head i (suc k) j v h =
    let first = rw (let e : i + 0 ≡ i = omega arith in e) at (h 0 (omega arith)) in
    rw (length-write r j v, slot-write_ne r _ j v first)
      (ap (λ t. slot r ((head + i) % length r) ∷ t)
        (window-write r head (i + 1) k j v
          (λ t l. let e : i + 1 + t ≡ i + (t + 1) = omega arith in rw e (h (t + 1) (omega arith)))))

pub window-snoc :
    (r : List ℕ) (head i k : ℕ)
    → window r head i (suc k) ≡ window r head i k ++ slot r ((head + (i + k)) % length r) ∷ []
unfolding window
window-snoc r head i zero = rw (let e : i + 0 ≡ i = omega arith in e) refl
window-snoc r head i (suc k) =
    let e : i + suc k ≡ i + 1 + k = omega arith in
    rw e (ap (λ t. slot r ((head + i) % length r) ∷ t) (window-snoc r head (i + 1) k))

-- Moving the head by one is starting one position later.
pub window-next :
    (r : List ℕ) (head i k : ℕ) → window r ((head + 1) % length r) i k ≡ window r head (i + 1) k
unfolding window
window-next r head i zero = refl
window-next r head i (suc k) =
    let e : head + 1 + i ≡ head + (i + 1) = omega arith in
    rw (mod-add-mod (head + 1) (length r) i, e, window-next r head (i + 1) k) refl

pub length-window : (r : List ℕ) (head i k : ℕ) → length (window r head i k) ≡ k
unfolding window
length-window r head i zero = refl
length-window r head i (suc k) = ap suc (length-window r head (i + 1) k)

pub drop-window :
    (a : ℕ) (r : List ℕ) (head i k : ℕ)
    → a ≤ k
    → drop a (window r head i k) ≡ window r head (i + a) (k - a)
unfolding window
drop-window zero r head i k h =
    let e : i + 0 ≡ i = omega arith in let f : k - 0 ≡ k = omega arith in rw (e, f) refl
drop-window (suc a) r head i zero h = absurd (omega arith)
drop-window (suc a) r head i (suc k) h =
    let e : i + suc a ≡ i + 1 + a = omega arith in
    let f : suc k - suc a ≡ k - a = omega arith in
    rw (e, f) (drop-window a r head (i + 1) k (omega arith))

slot-append : (pre post : List ℕ) (x : ℕ) → slot (pre ++ x ∷ post) (length pre) ≡ x
unfolding slot
slot-append [] post x = refl
slot-append (y ∷ pre) post x = slot-append pre post x

-- A list at its place in a ring whose head is 0.
pub window-append :
    (pre kept post : List ℕ) → window (pre ++ (kept ++ post)) 0 (length pre) (length kept) ≡ kept
unfolding window
window-append pre [] post = refl
window-append pre (x ∷ kept) post =
    let inside : 0 + length pre < length (pre ++ x ∷ (kept ++ post)) =
      omega (arith, length-append pre (x ∷ (kept ++ post))) in
    let at : (0 + length pre) % length (pre ++ x ∷ (kept ++ post)) ≡ length pre =
      mod-eq_of_lt inside ∙ omega arith in
    let move : (pre ++ x ∷ []) ++ (kept ++ post) ≡ pre ++ x ∷ (kept ++ post) =
      append_assoc pre (x ∷ []) (kept ++ post) in
    let len : length (pre ++ x ∷ []) ≡ length pre + 1 = length-append pre (x ∷ []) in
    rw (at, slot-append pre (kept ++ post) x)
      (ap (λ t. x ∷ t) (rw (move, len) at (window-append (pre ++ x ∷ []) kept post)))
