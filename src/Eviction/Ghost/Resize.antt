-- ===== src/Eviction/Ghost/Resize.antt =====
-- internal/eviction/ghost.go: `grow` keeps all entries, `shrink` the newest that fit.
use kvstash.Prelude.{
  ℕ, ◌+◌, ◌-◌, ◌≤◌, ◌<◌, min, ◌≡◌, true, ◌∙◌, refl, sym, ap, ◌||◌, List, [], ◌++◌, inl, inr,
  Bool-cases, length, length-append, length-replicate, drop, replicate, ltb, leb, ◌==◌,
  if◌then◌else◌, arith,
}
use kvstash.Eviction.Ghost.{Ring, elem, window, grow, shrink, shrunk, floored, fresh}
use kvstash.Eviction.Ghost.Window.{length-window, drop-window, window-append}
use kvstash.Eviction.Ghost.Members.{Distinct, Distinct-drop}
use kvstash.Eviction.Ghost.Queue.{entries, IsRing, IsGhost}

length-fresh : (kept : List ℕ) (c : ℕ) → length kept ≤ c → length (fresh kept c) ≡ c
unfolding fresh
length-fresh kept c h = omega (
  arith,
  length-append kept (replicate (c - length kept) 0),
  length-replicate {A = ℕ} (c - length kept) 0,
)

-- A ring filled from its front.
filled-IsRing :
    (kept set : List ℕ) (c n : ℕ)
    → 0 < c
    → length kept ≡ n
    → n ≤ c
    → ((y : ℕ) → elem y set ≡ elem y kept)
    → Distinct kept
    → let g : Ring = record { ring = fresh kept c; set = set; head = 0; n = n } in
      IsRing g × (entries g ≡ kept)
unfolding fresh
filled-IsRing kept set c n p e h m d =
    let w : window (kept ++ replicate (c - length kept) 0) 0 0 n ≡ kept =
      rw (← e) (window-append [] kept (replicate (c - length kept) 0)) in
    let l = length-fresh kept c (omega arith) in
    (
      record {
        head = omega (arith, l);
        fits = omega (arith, l);
        members = λ y. rw w (m y);
        distinct = rw w d;
      },
      w,
    )

record Facts (g : Ring) : Type 0 where
  fits : g.n ≤ length g.ring
  members : (y : ℕ) → elem y g.set ≡ elem y (entries g)
  distinct : Distinct (entries g)

facts : (g : Ring) → IsGhost g → Facts g
unfolding elem window
facts g (inl e) = rw e (record { fits = omega arith; members = λ y. refl; distinct = tt })
facts g (inr h) = record { fits = h.fits; members = h.members; distinct = h.distinct }

-- `grow` on a ring that is made, or not made yet, keeps the invariant and all entries.
pub grow-IsGhost :
    (g : Ring) (c : ℕ) → IsGhost g → IsGhost (grow g c) × (entries (grow g c) ≡ entries g)
unfolding grow
grow-IsGhost g c h = elim (Bool-cases (leb c (length g.ring))) [
  | inl a ↦ rw a (h, refl)
  | inr a ↦
      let l : length g.ring < c = ground arith in
      let f = facts g h in
      let r =
        filled-IsRing (entries g) g.set c g.n (omega arith) (length-window g.ring g.head 0 g.n)
          (omega (arith, f.fits)) f.members f.distinct in
      rw a (inr r.0, r.1)
]

shrunk-IsRing :
    (g : Ring) (c : ℕ)
    → IsGhost g
    → 0 < c
    → IsRing (shrunk g c) × (entries (shrunk g c) ≡ drop (length (entries g) - c) (entries g))
unfolding shrunk
shrunk-IsRing g c h l =
    let f = facts g h in
    let n = length-window g.ring g.head 0 g.n in
    let keep = if ltb c g.n then c else g.n in
    let kept = window g.ring g.head (g.n - keep) keep in
    let keep-le : keep ≤ c = ground arith in
    let cut : g.n - keep ≡ length (entries g) - c = ground (arith, n) in
    let left : g.n - (g.n - keep) ≡ keep = ground arith in
    let zero_add : 0 + (g.n - keep) ≡ g.n - keep = omega arith in
    let d : drop (g.n - keep) (entries g) ≡ kept =
      drop-window (g.n - keep) g.ring g.head 0 g.n (omega arith) ∙ rw (left, zero_add) refl in
    let r =
      filled-IsRing kept kept c keep l (length-window g.ring g.head (g.n - keep) keep) keep-le
        (λ y. refl) (rw d at (Distinct-drop (g.n - keep) (entries g) f.distinct)) in
    (r.0, r.1 ∙ sym d ∙ ap (λ a. drop a (entries g)) cut)

-- `shrink` keeps the invariant, and keeps the newest entries: those beyond the wanted capacity, or
-- beyond the floor if that is larger, are dropped from the oldest on.
pub shrink-IsGhost :
    (g : Ring) (wanted : ℕ)
    → IsGhost g
    → IsGhost (shrink g wanted)
      × (entries (shrink g wanted) ≡ drop (length (entries g) - floored wanted) (entries g))
unfolding shrink
shrink-IsGhost g wanted h =
    let c = floored wanted in
    let f = facts g h in
    let n = length-window g.ring g.head 0 g.n in
    elim (Bool-cases (length g.ring == 0 || leb (length g.ring) c)) [
      | inl a ↦
          let few : g.n ≤ c = ground (arith, f.fits, a) in
          let none : length (entries g) - c ≡ 0 = omega (arith, n, few) in rw (a, none) (h, refl)
      | inr a ↦ let r = shrunk-IsRing g c h (ground arith) in rw a (inr r.0, r.1)
    ]

-- The capacities after a resizing.
grow-length :
    (g : Ring) (c : ℕ)
    → IsGhost g
    → length (grow g c).ring ≡ (if leb (length g.ring) c then c else length g.ring)
unfolding grow
grow-length g c h =
    let f = facts g h in
    let n = length-window g.ring g.head 0 g.n in
    elim (Bool-cases (leb c (length g.ring))) [
      | inl a ↦ rw a (ground (arith, a))
      | inr a ↦
          let l : leb (length g.ring) c ≡ true = ground (arith, a) in
          rw (a, l) (length-fresh (entries g) c (ground (arith, a, f.fits, n)))
    ]

shrink-length :
    (g : Ring) (wanted : ℕ)
    → IsGhost g
    → length (shrink g wanted).ring ≡ min (length g.ring) (if leb wanted 1024 then 1024 else wanted)
unfolding shrink shrunk
shrink-length g wanted h =
    let f = facts g h in
    let c = floored wanted in
    let keep = if ltb c g.n then c else g.n in
    let w = length-window g.ring g.head (g.n - keep) keep in
    let l : length (fresh (window g.ring g.head (g.n - keep) keep) c) ≡ c =
      length-fresh (window g.ring g.head (g.n - keep) keep) c (ground (arith, w)) in
    elim (Bool-cases (length g.ring == 0 || leb (length g.ring) c)) [
      | inl a ↦ rw a (ground (arith, a))
      | inr a ↦ rw (a, l) (ground (arith, a))
    ]

-- A ring that is made, or not made yet, keeps the invariant under both resizings. `grow` keeps all entries, and
-- the capacity is the wanted one, or the present one if that is larger. `shrink` keeps the newest entries, as many
-- as the wanted capacity or 1024, whichever is larger, and drops the others from the oldest on; the capacity becomes
-- this number, unless the present one is smaller and stays.
pub resizings-IsGhost :
    (g : Ring) (c wanted : ℕ)
    → IsGhost g
    → IsGhost (grow g c)
      × (entries (grow g c) ≡ entries g)
      × (length (grow g c).ring ≡ (if leb (length g.ring) c then c else length g.ring))
      × IsGhost (shrink g wanted)
      × (entries (shrink g wanted)
          ≡ drop (length (entries g) - (if leb wanted 1024 then 1024 else wanted)) (entries g))
      × (length (shrink g wanted).ring
          ≡ min (length g.ring) (if leb wanted 1024 then 1024 else wanted))
resizings-IsGhost g c wanted h =
    let a = grow-IsGhost g c h in
    let b = shrink-IsGhost g wanted h in
    let floor : floored wanted ≡ (if leb wanted 1024 then 1024 else wanted) = ground arith in
    (
      a.0,
      a.1,
      grow-length g c h,
      b.0,
      b.1 ∙ ap (λ m. drop (length (entries g) - m) (entries g)) floor,
      shrink-length g wanted h,
    )
