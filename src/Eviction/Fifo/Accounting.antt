-- ===== src/Eviction/Fifo/Accounting.antt =====
-- internal/eviction/s3fifo.go: the byte and entry counters of a domain against its queues.
use kvstash.Prelude.{
  ℕ, suc, ◌+◌, ◌≡◌, refl, ap, true, ◌&&◌, List, [], ◌∷◌, ◌++◌, inl, inr, Bool-cases, length, ltb,
  ◌==◌, arith,
}
use kvstash.Eviction.Ghost.{contains}
use kvstash.Eviction.Fifo.{
  Key, Entry, Domain, Params, key_eq, has_key, queued, size_of, unlink, bump, to_main, enqueue,
  admit, touch, remove, maybe_decay, maybe_grow_ghost, fingerprint,
}

unfoldable pub sizes : List Entry → ℕ
sizes [] = 0
sizes (e ∷ q) = e.size + sizes q

pub record IsAccounted (d : Domain) : Type 0 where
  pub small : d.small_bytes ≡ sizes d.small
  pub main : d.main_bytes ≡ sizes d.main
  pub count : d.main_count ≡ length d.main

pub length-push_tail : (q : List Entry) (e : Entry) → length (q ++ e ∷ []) ≡ length q + 1
length-push_tail [] e = refl
length-push_tail (x ∷ q) e = omega (arith, length-push_tail q e)

pub sizes-push_tail : (q : List Entry) (e : Entry) → sizes (q ++ e ∷ []) ≡ sizes q + e.size
unfolding sizes
sizes-push_tail [] e = omega arith
sizes-push_tail (x ∷ q) e = omega (arith, sizes-push_tail q e)

sizes-unlink : (k : Key) (q : List Entry) → sizes (unlink k q) + size_of k q ≡ sizes q
unfolding sizes unlink size_of
sizes-unlink k [] = refl
sizes-unlink k (e ∷ q) = elim (Bool-cases (key_eq k e.key)) [
  | inl h ↦ rw h (omega arith)
  | inr h ↦ rw h (omega (arith, sizes-unlink k q))
]

length-unlink : (k : Key) (q : List Entry) → queued k q ≡ true → length (unlink k q) + 1 ≡ length q
unfolding unlink queued
length-unlink k [] h = cc
length-unlink k (e ∷ q) h = elim (Bool-cases (key_eq k e.key)) [
  | inl g ↦ rw g (omega arith)
  | inr g ↦ rw g (omega (arith, length-unlink k q (rw g at h)))
]

sizes-bump : (k : Key) (q : List Entry) → sizes (bump k q) ≡ sizes q
unfolding sizes bump
sizes-bump k [] = refl
sizes-bump k (e ∷ q) = elim (Bool-cases (key_eq k e.key && ltb e.freq 3)) [
  | inl h ↦ rw (h, sizes-bump k q)
  | inr h ↦ rw (h, sizes-bump k q)
]

length-bump : (k : Key) (q : List Entry) → length (bump k q) ≡ length q
unfolding bump
length-bump k [] = refl
length-bump k (e ∷ q) = ap suc (length-bump k q)

maybe_grow_ghost-IsAccounted :
    (p : Params) (d : Domain) → IsAccounted d → IsAccounted (maybe_grow_ghost p d)
unfolding maybe_grow_ghost
maybe_grow_ghost-IsAccounted p d h = ground arith

pub maybe_decay-IsAccounted :
    (p : Params) (d : Domain) (now : ℕ) → IsAccounted d → IsAccounted (maybe_decay p d now)
unfolding maybe_decay
maybe_decay-IsAccounted p d now h = ground arith

pub to_main-IsAccounted :
    (p : Params) (d : Domain) (e : Entry) → IsAccounted d → IsAccounted (to_main p d e)
unfolding to_main
to_main-IsAccounted p d e h =
    let a = sizes-push_tail d.main e in
    let b = length-push_tail d.main e in
    elim (Bool-cases (ltb d.main_hi (d.main_count + 1))) [
      | inl g ↦ rw g (
          maybe_grow_ghost-IsAccounted p _ (record {
            small = h.small;
            main = omega (arith, a, h.main);
            count = omega (arith, b, h.count);
          }))
      | inr g ↦ rw g (record {
        small = h.small;
        main = omega (arith, a, h.main);
        count = omega (arith, b, h.count);
      })
    ]

enqueue-IsAccounted :
    (p : Params) (d : Domain) (e : Entry) → IsAccounted d → IsAccounted (enqueue p d e)
unfolding enqueue
enqueue-IsAccounted p d e h = elim (Bool-cases (contains d.ghost (fingerprint p e.key))) [
  | inl g ↦ rw g (to_main-IsAccounted p d e h)
  | inr g ↦ rw g (record {
    small = omega (arith, sizes-push_tail d.small e, h.small);
    main = h.main;
    count = h.count;
  })
]

pub admit-IsAccounted :
    (p : Params) (d : Domain) (k : Key) (size now : ℕ)
    → IsAccounted d
    → IsAccounted (admit p d k size now)
unfolding admit
admit-IsAccounted p d k size now h =
    let d' : Domain = record d { table = k ∷ d.table } in
    let g : IsAccounted d' = record { small = h.small; main = h.main; count = h.count } in
    let j =
      enqueue-IsAccounted p (maybe_decay p d' now) (record { key = k; size = size; freq = 0 })
        (maybe_decay-IsAccounted p d' now g) in
    elim (Bool-cases (size == 0)) [
      | inl a ↦ rw a h
      | inr a ↦ elim (Bool-cases (has_key k d.table)) [ inl b ↦ rw (a, b) h | inr b ↦ rw (a, b) j ]
    ]

pub touch-IsAccounted : (d : Domain) (k : Key) → IsAccounted d → IsAccounted (touch d k)
unfolding touch
touch-IsAccounted d k h = elim (Bool-cases (has_key k d.table)) [
  | inl g ↦ rw g (record {
    small = omega (arith, sizes-bump k d.small, h.small);
    main = omega (arith, sizes-bump k d.main, h.main);
    count = omega (arith, length-bump k d.main, h.count);
  })
  | inr g ↦ rw g h
]

pub remove-IsAccounted : (d : Domain) (k : Key) → IsAccounted d → IsAccounted (remove d k)
unfolding remove
remove-IsAccounted d k h =
    let a = sizes-unlink k d.small in
    let b = sizes-unlink k d.main in
    elim (Bool-cases (has_key k d.table)) [
      | inl x ↦ elim (Bool-cases (queued k d.small)) [
        | inl y ↦
            rw (x, y) (record { small = omega (arith, a, h.small); main = h.main; count = h.count })
        | inr y ↦ elim (Bool-cases (queued k d.main)) [
          | inl z ↦
              rw (x, y, z)
                (record {
                  small = h.small;
                  main = omega (arith, b, h.main);
                  count = omega (arith, length-unlink k d.main z, h.count);
                })
          | inr z ↦ rw (x, y, z) (record { small = h.small; main = h.main; count = h.count })
        ]
      ]
      | inr x ↦ rw x h
    ]
