-- ===== src/Eviction/Fifo/Conservation.antt =====
-- internal/eviction/s3fifo.go: `Victims` moves bytes from the queues to the candidates, and loses none.
use kvstash.Prelude.{
  ℕ, zero, suc, ◌+◌, ◌-◌, ◌≡◌, refl, ap, ◌&&◌, not, List, [], ◌∷◌, ◌++◌, inl, inr, Bool-cases,
  length, ltb, ◌==◌, arith,
}
use kvstash.Eviction.Fifo.{
  Entry, Domain, Params, Candidate, to_main, maybe_decay, maybe_grow_ghost, small_visit, main_visit,
  visit, from_small, total, scan,
}
use kvstash.Eviction.Fifo.Accounting.{
  sizes, IsAccounted, to_main-IsAccounted, sizes-push_tail, length-push_tail,
}

total-snoc : (out : List Candidate) (c : Candidate) → total (out ++ c ∷ []) ≡ total out + c.size
unfolding total
total-snoc [] c = omega arith
total-snoc (x ∷ out) c = omega (arith, total-snoc out c)

-- The bytes of the queues and of the candidates together.
abbrev pub held : Domain × List Candidate → ℕ
held r = r.0.small_bytes + r.0.main_bytes + total r.1

-- An accounted domain after a step that conserves bytes.
abbrev pub Kept : ℕ → Domain × List Candidate → Type 0
Kept n r = IsAccounted r.0 × (held r ≡ n)

maybe_grow_ghost-used :
    (p : Params) (d : Domain)
    → (maybe_grow_ghost p d).small_bytes + (maybe_grow_ghost p d).main_bytes
      ≡ d.small_bytes + d.main_bytes
unfolding maybe_grow_ghost
maybe_grow_ghost-used p d = ground arith

to_main-used :
    (p : Params) (d : Domain) (e : Entry)
    → (to_main p d e).small_bytes + (to_main p d e).main_bytes
      ≡ d.small_bytes + d.main_bytes + e.size
unfolding to_main
to_main-used p d e = elim (Bool-cases (ltb d.main_hi (d.main_count + 1))) [
  | inl g ↦ rw (g, maybe_grow_ghost-used p) (omega arith)
  | inr g ↦ rw g (omega arith)
]

pub maybe_decay-used :
    (p : Params) (d : Domain) (now : ℕ)
    → (maybe_decay p d now).small_bytes + (maybe_decay p d now).main_bytes
      ≡ d.small_bytes + d.main_bytes
unfolding maybe_decay
maybe_decay-used p d now = ground arith

pub held-nil : (d : Domain) → held (d, []) ≡ d.small_bytes + d.main_bytes
unfolding total
held-nil d = omega arith

small_visit-Kept :
    (p : Params) (q : List Entry) (d : Domain) (out : List Candidate)
    → q ≡ d.small
    → IsAccounted d
    → Kept (held (d, out)) (small_visit p q d out)
unfolding small_visit sizes
small_visit-Kept p [] d out h a = (a, refl)
small_visit-Kept p (e ∷ q) d out h a =
    let w : e.size + sizes q ≡ sizes d.small = ap sizes h in
    let d' : Domain = record d { small = q; small_bytes = d.small_bytes - e.size } in
    let a' : IsAccounted d' = record {
      small = omega (arith, w, a.small);
      main = a.main;
      count = a.count;
    } in
    elim (Bool-cases (ltb 1 e.freq)) [
      | inl g ↦ rw g (to_main-IsAccounted p d' e a', omega (arith, to_main-used p d' e, w, a.small))
      | inr g ↦ rw g (
        record { small = a'.small; main = a.main; count = a.count },
        omega (arith, w, a.small, total-snoc out (record { key = e.key; size = e.size })),
      )
    ]

main_visit-Kept :
    (q : List Entry) (d : Domain) (out : List Candidate)
    → q ≡ d.main
    → IsAccounted d
    → Kept (held (d, out)) (main_visit q d out)
unfolding main_visit sizes
main_visit-Kept [] d out h a = (a, refl)
main_visit-Kept (e ∷ q) d out h a =
    let w : e.size + sizes q ≡ sizes d.main = ap sizes h in
    let n : suc (length q) ≡ length d.main = ap (length {A = Entry}) h in
    let e' : Entry = record e { freq = e.freq - 1 } in
    elim (Bool-cases (ltb 0 e.freq)) [
      | inl g ↦ rw g (
        record {
          small = a.small;
          main = omega (arith, w, a.main, sizes-push_tail q e');
          count = omega (arith, n, a.count, length-push_tail q e');
        },
        refl,
      )
      | inr g ↦ rw g (
        record {
          small = a.small;
          main = omega (arith, w, a.main);
          count = omega (arith, n, a.count);
        },
        omega (arith, w, a.main, total-snoc out (record { key = e.key; size = e.size })),
      )
    ]

pub visit-Kept :
    (p : Params) (d : Domain) (out : List Candidate)
    → IsAccounted d
    → Kept (held (d, out)) (visit p d out)
unfolding visit
visit-Kept p d out a = elim (Bool-cases (from_small d)) [
  | inl g ↦ rw g (small_visit-Kept p d.small d out refl a)
  | inr g ↦ rw g (main_visit-Kept d.main d out refl a)
]

pub scan-Kept :
    (p : Params) (need budget : ℕ) (d : Domain) (out : List Candidate)
    → IsAccounted d
    → Kept (held (d, out)) (scan p need budget d out)
unfolding scan
scan-Kept p need zero d out a = (a, refl)
scan-Kept p need (suc budget) d out a =
    let v = visit-Kept p d out a in
    let r = scan-Kept p need budget (visit p d out).0 (visit p d out).1 v.0 in
    elim (Bool-cases (ltb (total out) need && not (length d.small == 0 && length d.main == 0))) [
      | inl g ↦ rw (scan, g) (r.0, omega (arith, r.1, v.1))
      | inr g ↦ rw (scan, g) (a, refl)
    ]
