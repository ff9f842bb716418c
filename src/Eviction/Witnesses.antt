-- ===== src/Eviction/Witnesses.antt =====
-- Runs of the eviction policy at concrete inputs.
use kvstash.Prelude.{
  ℕ, ◌+◌, ◌-◌, ◌≡◌, refl, ◌⊎◌, true, false, inl, inr, List, [], ◌∷◌, drop, length, leb, min,
  if◌then◌else◌,
}
use kvstash.Eviction.Ghost.{Ring, push, grow, shrink, empty_ring}
use kvstash.Eviction.Ghost.Queue.{
  IsRing, IsGhost, entries, queue_push, opened_capacity, push-IsRing,
}
use kvstash.Eviction.Ghost.Resize.{grow-IsGhost, resizings-IsGhost}
use kvstash.Eviction.Fifo.{Key, Params, victims}
use kvstash.Eviction.Fifo.Victims.{Served}
use kvstash.Eviction.Fifo.Conservation.{Kept}
use kvstash.Eviction.Fifo.Yields.{victims_yielding}
use kvstash.Eviction.Fifo.Yields.Served.{victims_yielding-run-Served}
use kvstash.Eviction.Fifo.Reachable.{
  Call, admits, touches, removes, takes, reports, run, new_domain, IsSound, run-new_domain-IsSound,
  victims-run-Kept,
}

abbrev once : Ring
once = push empty_ring 7

abbrev once-IsGhost : IsGhost once
once-IsGhost = inr (push-IsRing empty_ring 7 (inl refl)).0

push-IsRing_example :
    IsRing (push once 9)
    × (entries (push once 9) ≡ queue_push (opened_capacity once) (entries once) 9)
push-IsRing_example = push-IsRing once 9 once-IsGhost

grown_once-IsGhost : IsGhost (grow once 2048) × (entries (grow once 2048) ≡ entries once)
grown_once-IsGhost = grow-IsGhost once 2048 once-IsGhost

resizings-IsGhost_example :
    IsGhost (grow (grow once 2048) 4096)
    × (entries (grow (grow once 2048) 4096) ≡ entries (grow once 2048))
    × (length (grow (grow once 2048) 4096).ring
        ≡ (if leb (length (grow once 2048).ring) 4096 then 4096 else length (grow once 2048).ring))
    × IsGhost (shrink (grow once 2048) 5)
    × (entries (shrink (grow once 2048) 5)
        ≡ drop (length (entries (grow once 2048)) - 1024) (entries (grow once 2048)))
    × (length (shrink (grow once 2048) 5).ring ≡ min (length (grow once 2048).ring) 1024)
resizings-IsGhost_example = resizings-IsGhost (grow once 2048) 4096 5 grown_once-IsGhost.0

abbrev key : ℕ → Key
key h = record { ns = 1; hash = h }

abbrev params : Params
params = record { seed = 5; ghost_max = 4096 }

-- Three blocks, one of them read twice; the last is evicted and comes back.
abbrev calls : List Call
calls =
    admits (key 1) 4096 10
    ∷ admits (key 2) 8192 11
    ∷ touches (key 1)
    ∷ touches (key 1)
    ∷ takes 8192 12
    ∷ admits (key 2) 8192 13
    ∷ removes (key 1)
    ∷ reports 14
    ∷ []

run-new_domain-IsSound_example : IsSound (run params new_domain calls)
run-new_domain-IsSound_example = run-new_domain-IsSound params calls

-- Another goroutine has a removal and a report under way.
abbrev beside : List (List Call)
beside = [] ∷ (removes (key 2) ∷ reports 15 ∷ []) ∷ []

victims_yielding-run-Served_example :
    let d = run params new_domain calls in
    let r = victims_yielding params beside d 4096 15 in
    IsSound r.0
    × ((true ≡ false) ⊎ Served 4096 r)
    × (victims_yielding params [] d 4096 15 ≡ victims params d 4096 15)
victims_yielding-run-Served_example = victims_yielding-run-Served params calls beside 4096 15

victims-run-Kept_example :
    Kept
      ((run params new_domain calls).small_bytes + (run params new_domain calls).main_bytes)
      (victims params (run params new_domain calls) 4096 15)
victims-run-Kept_example = victims-run-Kept params calls 4096 15
