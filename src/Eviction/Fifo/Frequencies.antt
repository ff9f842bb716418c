-- ===== src/Eviction/Fifo/Frequencies.antt =====
-- internal/eviction/s3fifo.go: an entry's frequency stays within 3, the bound that the budget of
-- `Victims` is made from.
use kvstash.Prelude.{
  ℕ, ◌+◌, ◌-◌, ◌*◌, ◌≤◌, ◌&&◌, List, [], ◌∷◌, inl, inr, Bool-cases, length, ltb, ◌==◌, All,
  All-append, arith,
}
use kvstash.Eviction.Ghost.{contains}
use kvstash.Eviction.Fifo.{
  Key, Entry, Domain, Params, Candidate, key_eq, has_key, queued, unlink, bump, to_main, enqueue,
  admit, touch, remove, maybe_decay, maybe_grow_ghost, small_visit, main_visit, visit, from_small,
  fingerprint,
}
use kvstash.Eviction.Fifo.Victims.{small_work, main_work, work}

abbrev pub Low : Entry → Type 0
Low e = e.freq ≤ 3

pub record IsCapped (d : Domain) : Type 0 where
  pub small : All Low d.small
  pub main : All Low d.main

bump-Low : (k : Key) (q : List Entry) → All Low q → All Low (bump k q)
unfolding bump
bump-Low k [] h = tt
bump-Low k (e ∷ q) h = elim (Bool-cases (key_eq k e.key && ltb e.freq 3)) [
  | inl g ↦ rw g (ground arith, bump-Low k q h.1)
  | inr g ↦ rw g (h.0, bump-Low k q h.1)
]

unlink-Low : (k : Key) (q : List Entry) → All Low q → All Low (unlink k q)
unfolding unlink
unlink-Low k [] h = tt
unlink-Low k (e ∷ q) h = elim (Bool-cases (key_eq k e.key)) [
  | inl g ↦ rw g h.1
  | inr g ↦ rw g (h.0, unlink-Low k q h.1)
]

maybe_grow_ghost-IsCapped : (p : Params) (d : Domain) → IsCapped d → IsCapped (maybe_grow_ghost p d)
unfolding maybe_grow_ghost
maybe_grow_ghost-IsCapped p d h = ground arith

pub maybe_decay-IsCapped :
    (p : Params) (d : Domain) (now : ℕ) → IsCapped d → IsCapped (maybe_decay p d now)
unfolding maybe_decay
maybe_decay-IsCapped p d now h = ground arith

to_main-IsCapped :
    (p : Params) (d : Domain) (e : Entry) → IsCapped d → Low e → IsCapped (to_main p d e)
unfolding to_main
to_main-IsCapped p d e h l =
    let m = All-append Low d.main (e ∷ []) h.main (l, tt) in
    elim (Bool-cases (ltb d.main_hi (d.main_count + 1))) [
      | inl g ↦ rw g (maybe_grow_ghost-IsCapped p _ (record { small = h.small; main = m }))
      | inr g ↦ rw g (record { small = h.small; main = m })
    ]

enqueue-IsCapped :
    (p : Params) (d : Domain) (e : Entry) → IsCapped d → Low e → IsCapped (enqueue p d e)
unfolding enqueue
enqueue-IsCapped p d e h l = elim (Bool-cases (contains d.ghost (fingerprint p e.key))) [
  | inl g ↦ rw g (to_main-IsCapped p d e h l)
  | inr g ↦ rw g (record { small = All-append Low d.small (e ∷ []) h.small (l, tt); main = h.main })
]

pub admit-IsCapped :
    (p : Params) (d : Domain) (k : Key) (size now : ℕ)
    → IsCapped d
    → IsCapped (admit p d k size now)
unfolding admit
admit-IsCapped p d k size now h =
    let d' : Domain = record d { table = k ∷ d.table } in
    let g : IsCapped d' = record { small = h.small; main = h.main } in
    let j =
      enqueue-IsCapped p (maybe_decay p d' now) (record { key = k; size = size; freq = 0 })
        (maybe_decay-IsCapped p d' now g) (omega arith) in
    elim (Bool-cases (size == 0)) [
      | inl a ↦ rw a h
      | inr a ↦ elim (Bool-cases (has_key k d.table)) [ inl b ↦ rw (a, b) h | inr b ↦ rw (a, b) j ]
    ]

pub touch-IsCapped : (d : Domain) (k : Key) → IsCapped d → IsCapped (touch d k)
unfolding touch
touch-IsCapped d k h = elim (Bool-cases (has_key k d.table)) [
  | inl g ↦ rw g (record { small = bump-Low k d.small h.small; main = bump-Low k d.main h.main })
  | inr g ↦ rw g h
]

pub remove-IsCapped : (d : Domain) (k : Key) → IsCapped d → IsCapped (remove d k)
unfolding remove
remove-IsCapped d k h =
    let a = unlink-Low k d.small h.small in
    let b = unlink-Low k d.main h.main in
    elim (Bool-cases (has_key k d.table)) [
      | inl x ↦ elim (Bool-cases (queued k d.small)) [
        | inl y ↦ rw (x, y) (record { small = a; main = h.main })
        | inr y ↦ elim (Bool-cases (queued k d.main)) [
          | inl z ↦ rw (x, y, z) (record { small = h.small; main = b })
          | inr z ↦ rw (x, y, z) (record { small = h.small; main = h.main })
        ]
      ]
      | inr x ↦ rw x h
    ]

small_visit-IsCapped :
    (p : Params) (q : List Entry) (d : Domain) (out : List Candidate)
    → All Low q
    → IsCapped d
    → IsCapped (small_visit p q d out).0
unfolding small_visit
small_visit-IsCapped p [] d out l h = h
small_visit-IsCapped p (e ∷ q) d out l h = elim (Bool-cases (ltb 1 e.freq)) [
  | inl g ↦ rw g (to_main-IsCapped p _ e (record { small = l.1; main = h.main }) l.0)
  | inr g ↦ rw g (record { small = l.1; main = h.main })
]

main_visit-IsCapped :
    (q : List Entry) (d : Domain) (out : List Candidate)
    → All Low q
    → IsCapped d
    → IsCapped (main_visit q d out).0
unfolding main_visit
main_visit-IsCapped [] d out l h = h
main_visit-IsCapped (e ∷ q) d out l h =
    let e' : Entry = record e { freq = e.freq - 1 } in
    let low : Low e' = omega (arith, l.0) in
    elim (Bool-cases (ltb 0 e.freq)) [
      | inl g ↦ rw g (record { small = h.small; main = All-append Low q (e' ∷ []) l.1 (low, tt) })
      | inr g ↦ rw g (record { small = h.small; main = l.1 })
    ]

pub visit-IsCapped :
    (p : Params) (d : Domain) (out : List Candidate) → IsCapped d → IsCapped (visit p d out).0
unfolding visit
visit-IsCapped p d out h = elim (Bool-cases (from_small d)) [
  | inl g ↦ rw g (small_visit-IsCapped p d.small d out h.small h)
  | inr g ↦ rw g (main_visit-IsCapped d.main d out h.main h)
]

small_work-Low : (q : List Entry) → All Low q → small_work q ≤ 5 * length q
unfolding small_work
small_work-Low [] h = omega arith
small_work-Low (e ∷ q) h = omega (arith, h.0, small_work-Low q h.1)

main_work-Low : (q : List Entry) → All Low q → main_work q ≤ 4 * length q
unfolding main_work
main_work-Low [] h = omega arith
main_work-Low (e ∷ q) h = omega (arith, h.0, main_work-Low q h.1)

-- The budget of `Victims` covers the work.
pub work-IsCapped : (d : Domain) → IsCapped d → work d ≤ 6 * (length d.small + length d.main) + 8
unfolding work
work-IsCapped d h = omega (arith, small_work-Low d.small h.small, main_work-Low d.main h.main)
