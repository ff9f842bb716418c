-- ===== src/Eviction/Ghost.antt =====
-- internal/eviction/ghost.go: a ring of the fingerprints of recently evicted keys, and the set of
-- its members. A nil ring is the empty list.
pub mod Window
pub mod Members
pub mod Queue
pub mod Resize
use kvstash.Prelude.{
  ℕ, zero, suc, ◌+◌, ◌-◌, ◌*◌, ◌%◌, Bool, true, false, ◌||◌, not, List, [], ◌∷◌, ◌++◌, length,
  replicate, ltb, leb, ◌==◌, if◌then◌else◌, min,
}

pub record Ring : Type 0 where
  pub ring : List ℕ
  pub set : List ℕ
  pub head : ℕ
  pub n : ℕ

abbrev pub ghost_floor : ℕ
ghost_floor = 1024

abbrev pub empty_ring : Ring
empty_ring = record { ring = []; set = []; head = 0; n = 0 }

pub elem : ℕ → List ℕ → Bool
elem x [] = false
elem x (y ∷ ys) = x == y || elem x ys

-- `delete(g.set, x)`.
pub without : ℕ → List ℕ → List ℕ
without x [] = []
without x (y ∷ ys) = let rest = without x ys in if x == y then rest else y ∷ rest

-- A slot of the ring, and a write to one; an index out of range does not occur (`IsRing`).
pub slot : List ℕ → ℕ → ℕ
slot [] i = 0
slot (x ∷ xs) zero = x
slot (x ∷ xs) (suc i) = slot xs i

pub write : List ℕ → ℕ → ℕ → List ℕ
write [] i v = []
write (x ∷ xs) zero v = v ∷ xs
write (x ∷ xs) (suc i) v = x ∷ write xs i v

-- The k live entries from position i on, the oldest first.
pub window : List ℕ → ℕ → ℕ → ℕ → List ℕ
window ring head i zero = []
window ring head i (suc k) = slot ring ((head + i) % length ring) ∷ window ring head (i + 1) k

unfoldable pub contains : Ring → ℕ → Bool
unfolding elem
contains g fp = elem fp g.set

-- `push` on a ring that is there.
pub push_live : Ring → ℕ → Ring
unfolding contains without write
push_live g fp =
    if contains g fp
    then g
    else if g.n == length g.ring
    then record {
      ring = write g.ring g.head fp;
      set = fp ∷ without (slot g.ring g.head) g.set;
      head = (g.head + 1) % length g.ring;
      n = g.n;
    }
    else record {
      ring = write g.ring ((g.head + g.n) % length g.ring) fp;
      set = fp ∷ g.set;
      head = g.head;
      n = g.n + 1;
    }

pub push : Ring → ℕ → Ring
unfolding push_live
push g fp =
    push_live
      (if length g.ring == 0 then record g { ring = replicate ghost_floor 0; set = [] } else g) fp

-- The kept entries at the front of a fresh ring.
pub fresh : List ℕ → ℕ → List ℕ
fresh kept cap = kept ++ replicate (cap - length kept) 0

pub grow : Ring → ℕ → Ring
unfolding fresh window
grow g new_cap = if leb new_cap (length g.ring) then g else record {
  ring = fresh (window g.ring g.head 0 g.n) new_cap;
  set = g.set;
  head = 0;
  n = g.n;
}

-- The capacity that `shrink` goes down to.
abbrev pub floored : ℕ → ℕ
floored wanted = if ltb wanted ghost_floor then ghost_floor else wanted

-- `shrink` behind its guards.
pub shrunk : Ring → ℕ → Ring
unfolding fresh window
shrunk g cap =
    let keep = if ltb cap g.n then cap else g.n in
    let kept = window g.ring g.head (g.n - keep) keep in
    record { ring = fresh kept cap; set = kept; head = 0; n = keep }

pub shrink : Ring → ℕ → Ring
unfolding shrunk
shrink g wanted =
    if length g.ring == 0 || leb (length g.ring) (floored wanted)
    then g
    else shrunk g (floored wanted)

pub capacity : Ring → ℕ
capacity g = length g.ring

-- `bytes`: 8 for each slot and 48 for each live entry.
pub bytes : Ring → ℕ
bytes g = length g.ring * 8 + g.n * 48
