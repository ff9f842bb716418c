-- ===== src/Eviction/Ghost/Queue.antt =====
-- internal/eviction/ghost.go: what `push`, `grow` and `shrink` do to the entries, the oldest first, and
-- that the set stays the set of the entries.
use kvstash.Prelude.{
  ℕ, suc, ◌+◌, ◌-◌, ◌%◌, ◌≤◌, ◌<◌, ◌≡◌, ◌≢◌, ◌∙◌, refl, sym, ap, false, ◌||◌, List, [], ◌∷◌, ◌++◌,
  inl, inr, ◌⊎◌, Bool-cases, length, length-append, length-replicate, drop, replicate, ◌==◌, ==_iff,
  if◌then◌else◌, arith,
}
use native.Mathlib.Nat.{mod-lt, mod-eq_of_lt, add-mod_right}
use kvstash.Eviction.Ghost.{
  Ring, elem, without, slot, write, window, contains, push, push_live, empty_ring, ghost_floor,
}
use kvstash.Eviction.Ghost.Window.{
  apart, length-write, slot-write, window-write, window-snoc, window-next, length-window,
  drop-window,
}
use kvstash.Eviction.Ghost.Members.{Distinct, elem-snoc, Distinct-snoc, elem-without, elem-tail}

abbrev pub entries : Ring → List ℕ
entries g = window g.ring g.head 0 g.n

pub record IsRing (g : Ring) : Type 0 where
  pub head : g.head < length g.ring
  pub fits : g.n ≤ length g.ring
  pub members : (y : ℕ) → elem y g.set ≡ elem y (entries g)
  pub distinct : Distinct (entries g)

-- Append unless it is there already, and keep the newest `cap` elements.
pub queue_push : ℕ → List ℕ → ℕ → List ℕ
unfolding elem
queue_push cap q x = let q' = q ++ x ∷ [] in if elem x q then q else drop (length q' - cap) q'

added : Ring → ℕ → Ring
added g fp = record {
  ring = write g.ring ((g.head + g.n) % length g.ring) fp;
  set = fp ∷ g.set;
  head = g.head;
  n = g.n + 1;
}

replaced : Ring → ℕ → Ring
replaced g fp = record {
  ring = write g.ring g.head fp;
  set = fp ∷ without (slot g.ring g.head) g.set;
  head = (g.head + 1) % length g.ring;
  n = g.n;
}

-- Writing behind the last entry, and over the first.
window-added :
    (r : List ℕ) (head k v : ℕ)
    → head < length r
    → k < length r
    → window (write r ((head + k) % length r) v) head 0 (suc k) ≡ window r head 0 k ++ v ∷ []
window-added r head k v h l =
    let j = (head + k) % length r in
    let inside : j < length r = mod-lt _ (omega arith) in
    let e : 0 + k ≡ k = omega arith in
    rw
      (
        window-snoc (write r j v) head 0 k,
        length-write r j v,
        e,
        slot-write r j v inside,
        window-write r head 0 k j v (λ t a.
            apart (head + (0 + t)) (head + k) (length r) (omega arith) (omega arith) (omega arith)),
      )
      refl

window-replaced :
    (r : List ℕ) (head k v : ℕ)
    → head < length r
    → suc k ≡ length r
    → window (write r head v) ((head + 1) % length r) 0 (suc k)
      ≡ drop 1 (window r head 0 (suc k)) ++ v ∷ []
window-replaced r head k v h e =
    let turn : head + (1 + k) ≡ head + length r = omega arith in
    let back : (head + (1 + k)) % length r ≡ head =
      rw turn (add-mod_right head (length r) ∙ mod-eq_of_lt h) in
    let same : head % length r ≡ head = mod-eq_of_lt h in
    let other : (t : ℕ) → t < k → (head + (1 + t)) % length r ≢ head = λ t a q.
      apart head (head + (1 + t)) (length r) (omega arith) (omega arith) (omega arith)
        (same ∙ sym q) in
    let w = length-write r head v in
    let c = window-next (write r head v) head 0 (suc k) in
    let s = window-snoc (write r head v) head 1 k in
    let d = drop-window 1 r head 0 (suc k) (omega arith) in
    let e1 : 0 + 1 ≡ 1 = refl in
    let e2 : suc k - 1 ≡ k = omega arith in
    (rw w at c)
    ∙ s
    ∙ rw (w, back, slot-write r head v h, window-write r head 1 k head v other)
        (ap (λ q. q ++ v ∷ []) (sym (rw e2 at d)))

added-IsRing :
    (g : Ring) (fp : ℕ)
    → IsRing g
    → contains g fp ≡ false
    → g.n < length g.ring
    → IsRing (added g fp) × (entries (added g fp) ≡ entries g ++ fp ∷ [])
unfolding added contains elem
added-IsRing g fp h c l =
    let e : g.n + 1 ≡ suc g.n = omega arith in
    let w : entries (added g fp) ≡ entries g ++ fp ∷ [] =
      rw e (window-added g.ring g.head g.n fp h.head l) in
    let new : elem fp (entries g) ≡ false = sym (h.members fp) ∙ c in
    let len = length-write g.ring ((g.head + g.n) % length g.ring) fp in
    (
      record {
        head = omega (arith, len, h.head);
        fits = omega (arith, len, l);
        members = λ y. rw (w, elem-snoc y fp (entries g)) (rw (h.members y) refl);
        distinct = rw w (Distinct-snoc (entries g) fp h.distinct new);
      },
      w,
    )

-- A full ring's entries begin with the one at the head.
entries-full :
    (g : Ring)
    → IsRing g
    → g.n ≡ length g.ring
    → entries g ≡ slot g.ring g.head ∷ drop 1 (entries g)
unfolding window
entries-full g h l =
    let k = g.n - 1 in
    let e : g.n ≡ suc k = omega (arith, h.head) in
    let f : (g.head + 0) % length g.ring ≡ g.head =
      ap (λ a. a % length g.ring) (omega arith) ∙ mod-eq_of_lt h.head in
    rw (e, f) refl

replaced-IsRing :
    (g : Ring) (fp : ℕ)
    → IsRing g
    → contains g fp ≡ false
    → g.n ≡ length g.ring
    → IsRing (replaced g fp) × (entries (replaced g fp) ≡ drop 1 (entries g) ++ fp ∷ [])
unfolding replaced contains elem
replaced-IsRing g fp h c l =
    let old = slot g.ring g.head in
    let rest = drop 1 (entries g) in
    let k = g.n - 1 in
    let e : g.n ≡ suc k = omega (arith, h.head) in
    let w : entries (replaced g fp) ≡ rest ++ fp ∷ [] =
      rw e (window-replaced g.ring g.head k fp h.head (omega arith)) in
    let full = entries-full g h l in
    let dist : Distinct (old ∷ rest) = rw full at h.distinct in
    let members : (y : ℕ) → elem y g.set ≡ elem y (old ∷ rest) =
      λ y. h.members y ∙ ap (elem y) full in
    let new : elem fp (old ∷ rest) ≡ false = sym (members fp) ∙ c in
    let new' : elem fp rest ≡ false = elem-tail fp old rest dist ∙ rw new (ground arith) in
    let len = length-write g.ring g.head fp in
    (
      record {
        head = rw len (mod-lt _ (omega (arith, h.head)));
        fits = omega (arith, len, h.fits);
        members = λ y.
            rw (w, elem-snoc y fp rest)
              (ap (λ b. (y == fp) || b)
                (elem-without y old g.set ∙ rw (members y) (sym (elem-tail y old rest dist))));
        distinct = rw w (Distinct-snoc rest fp dist.1 new');
      },
      w,
    )

push_live-IsRing :
    (g : Ring) (fp : ℕ)
    → IsRing g
    → IsRing (push_live g fp)
      × (entries (push_live g fp) ≡ queue_push (length g.ring) (entries g) fp)
unfolding push_live queue_push contains added replaced
push_live-IsRing g fp h =
    let n = length-window g.ring g.head 0 g.n in
    let n' = length-append (entries g) (fp ∷ []) in
    elim (Bool-cases (elem fp g.set)) [
      | inl a ↦ rw (a, sym (h.members fp) ∙ a) (h, refl)
      | inr a ↦ elim (Bool-cases (g.n == length g.ring)) [
        | inl b ↦
            rw (a, b, sym (h.members fp) ∙ a)
              (let b' = (==_iff g.n (length g.ring)).0 b in
                let r = replaced-IsRing g fp h a b' in
                let m : length (entries g ++ fp ∷ []) - length g.ring ≡ 1 =
                  omega (arith, n, n', b') in
                let s : drop 1 (entries g ++ fp ∷ []) ≡ drop 1 (entries g) ++ fp ∷ [] =
                  ap (λ q. drop 1 (q ++ fp ∷ [])) (entries-full g h b') in
                (r.0, r.1 ∙ sym (rw m s)))
        | inr b ↦
            rw (a, b, sym (h.members fp) ∙ a)
              (let l : g.n < length g.ring = ground (arith, h.fits, b) in
                let r = added-IsRing g fp h a l in
                let m : length (entries g ++ fp ∷ []) - length g.ring ≡ 0 =
                  omega (arith, n, n', l) in
                (r.0, r.1 ∙ sym (rw m refl)))
      ]
    ]

-- A domain's ring: not made yet, or made.
abbrev pub IsGhost : Ring → Type 0
IsGhost g = (g ≡ empty_ring) ⊎ IsRing g

-- The capacity that `push` works with.
abbrev pub opened_capacity : Ring → ℕ
opened_capacity g = if length g.ring == 0 then ghost_floor else length g.ring

empty-IsRing : (c : ℕ) → 0 < c → IsRing (record { ring = replicate c 0; set = []; head = 0; n = 0 })
unfolding window elem
empty-IsRing c h = record {
  head = omega (arith, length-replicate {A = ℕ} c 0);
  fits = omega arith;
  members = λ y. refl;
  distinct = tt;
}

-- `push` on a ring keeps its invariant. It appends the fingerprint to the entries, unless they have it,
-- and drops the oldest entries beyond the capacity: the floor of 1024 for a ring not made yet.
pub push-IsRing :
    (g : Ring) (fp : ℕ)
    → IsGhost g
    → IsRing (push g fp) × (entries (push g fp) ≡ queue_push (opened_capacity g) (entries g) fp)
unfolding push window
push-IsRing g fp (inl e) =
    let r =
      push_live-IsRing (record { ring = replicate ghost_floor 0; set = []; head = 0; n = 0 }) fp
        (empty-IsRing ghost_floor (omega arith)) in
    rw e r
push-IsRing g fp (inr h) =
    let z : (length g.ring == 0) ≡ false = ground (arith, h.head) in rw z (push_live-IsRing g fp h)
