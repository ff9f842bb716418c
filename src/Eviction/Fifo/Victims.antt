-- ===== src/Eviction/Fifo/Victims.antt =====
-- internal/eviction/s3fifo.go, `Victims`: the loop ends with enough bytes or with empty queues, and
-- each of its iterations conserves bytes.
use kvstash.Prelude.{
  ℕ, zero, suc, ◌+◌, ◌-◌, ◌≤◌, ◌<◌, ◌≡◌, ◌⊎◌, refl, ap, Bool, true, false, ◌&&◌, not, List, [], ◌∷◌,
  ◌++◌, inl, inr, Bool-cases, length, ltb, ◌==◌, ltb→lt, arith,
}
use kvstash.Eviction.Fifo.{
  Entry, Domain, Params, Candidate, to_main, maybe_grow_ghost, small_visit, main_visit, visit,
  from_small, total, scan,
}

-- The number of visits that an entry can still take.
unfoldable pub small_work : List Entry → ℕ
small_work [] = 0
small_work (e ∷ q) = e.freq + 2 + small_work q

unfoldable pub main_work : List Entry → ℕ
main_work [] = 0
main_work (e ∷ q) = e.freq + 1 + main_work q

unfoldable pub work : Domain → ℕ
work d = small_work d.small + main_work d.main

main_work-push_tail :
    (q : List Entry) (e : Entry) → main_work (q ++ e ∷ []) ≡ main_work q + (e.freq + 1)
unfolding main_work
main_work-push_tail [] e = omega arith
main_work-push_tail (x ∷ q) e = omega (arith, main_work-push_tail q e)

maybe_grow_ghost-work : (p : Params) (d : Domain) → work (maybe_grow_ghost p d) ≡ work d
unfolding work maybe_grow_ghost
maybe_grow_ghost-work p d = ground arith

to_main-work : (p : Params) (d : Domain) (e : Entry) → work (to_main p d e) ≡ work d + (e.freq + 1)
unfolding to_main work
to_main-work p d e =
    let a = main_work-push_tail d.main e in
    elim (Bool-cases (ltb d.main_hi (d.main_count + 1))) [
      | inl g ↦ rw (g, maybe_grow_ghost-work p) (omega (arith, a))
      | inr g ↦ rw g (omega (arith, a))
    ]

-- A visit to an entry lowers the work.
small_visit-work :
    (p : Params) (q : List Entry) (d : Domain) (out : List Candidate)
    → q ≡ d.small
    → 0 < length q
    → work (small_visit p q d out).0 < work d
unfolding small_visit work small_work
small_visit-work p [] d out h k = absurd (omega arith)
small_visit-work p (e ∷ q) d out h k =
    let w : e.freq + 2 + small_work q ≡ small_work d.small = ap small_work h in
    elim (Bool-cases (ltb 1 e.freq)) [
      | inl g ↦ rw (g, to_main-work p) (omega (arith, w))
      | inr g ↦ rw g (omega (arith, w))
    ]

main_visit-work :
    (q : List Entry) (d : Domain) (out : List Candidate)
    → q ≡ d.main
    → 0 < length q
    → work (main_visit q d out).0 < work d
unfolding main_visit work main_work
main_visit-work [] d out h k = absurd (omega arith)
main_visit-work (e ∷ q) d out h k =
    let w : e.freq + 1 + main_work q ≡ main_work d.main = ap main_work h in
    let a = main_work-push_tail q (record e { freq = e.freq - 1 }) in
    elim (Bool-cases (ltb 0 e.freq)) [
      | inl g ↦ rw g (omega (arith, w, a, ltb→lt 0 e.freq g))
      | inr g ↦ rw g (omega (arith, w))
    ]

-- The queue that a visit takes from is not empty.
from_small-small :
    (d : Domain)
    → (length d.small == 0 && length d.main == 0) ≡ false
    → from_small d ≡ true
    → 0 < length d.small
unfolding from_small
from_small-small d n g = ground arith

from_small-main :
    (d : Domain)
    → (length d.small == 0 && length d.main == 0) ≡ false
    → from_small d ≡ false
    → 0 < length d.main
unfolding from_small
from_small-main d n g = ground arith

pub visit-work :
    (p : Params) (d : Domain) (out : List Candidate)
    → (length d.small == 0 && length d.main == 0) ≡ false
    → work (visit p d out).0 < work d
unfolding visit
visit-work p d out n = elim (Bool-cases (from_small d)) [
  | inl g ↦ rw g (small_visit-work p d.small d out refl (from_small-small d n g))
  | inr g ↦ rw g (main_visit-work d.main d out refl (from_small-main d n g))
]

List-cases : (q : List Entry) → (q ≡ []) ⊎ (0 < length q)
List-cases [] = inl refl
List-cases (e ∷ t) = inr (omega arith)

small_work-length : (q : List Entry) → length q ≤ small_work q
unfolding small_work
small_work-length [] = omega arith
small_work-length (e ∷ q) = omega (arith, small_work-length q)

main_work-length : (q : List Entry) → length q ≤ main_work q
unfolding main_work
main_work-length [] = omega arith
main_work-length (e ∷ q) = omega (arith, main_work-length q)

-- What `Victims` promises: enough bytes, or nothing is left.
abbrev pub Served : ℕ → Domain × List Candidate → Type 0
Served need r = (need ≤ total r.1) ⊎ ((r.0.small ≡ []) × (r.0.main ≡ []))

pub both_empty : (d : Domain) → length d.small + length d.main ≤ 0 → (d.small ≡ []) × (d.main ≡ [])
both_empty d h = elim (List-cases d.small) [
  | inl a ↦ elim (List-cases d.main) [ inl b ↦ (a, b) | inr b ↦ absurd (omega arith) ]
  | inr a ↦ absurd (omega arith)
]

left-empty : (a b : Bool) → (a && not b) ≡ true → b ≡ false
left-empty true true h = cc
left-empty true false h = refl
left-empty false b h = cc

pub spent-Served :
    (need : ℕ) (d : Domain) (out : List Candidate) → work d ≤ 0 → Served need (d, out)
unfolding work
spent-Served need d out h =
    inr (both_empty d (omega (arith, h, small_work-length d.small, main_work-length d.main)))

-- The loop leaves no more work than there was.
pub scan-work :
    (p : Params) (need budget : ℕ) (d : Domain) (out : List Candidate)
    → work (scan p need budget d out).0 ≤ work d
unfolding scan
scan-work p need zero d out = omega arith
scan-work p need (suc budget) d out =
    let open_test = ltb (total out) need && not (length d.small == 0 && length d.main == 0) in
    elim (Bool-cases open_test) [
      | inl g ↦
          let rest = scan-work p need budget (visit p d out).0 (visit p d out).1 in
          rw (scan, g) (omega (arith, rest, visit-work p d out (left-empty _ _ g)))
      | inr g ↦ rw (scan, g) (omega arith)
    ]
