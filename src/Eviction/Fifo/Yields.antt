-- ===== src/Eviction/Fifo/Yields.antt =====
-- internal/eviction/s3fifo.go, `Victims` with the other methods that run beside it: each 512th iteration gives
-- the lock of the queues up and takes it again, and `Touch` never takes it.
pub mod Served
use kvstash.Prelude.{
  ℕ, zero, suc, ◌+◌, ◌*◌, Bool, true, false, ◌&&◌, ◌||◌, List, [], ◌∷◌, length, ltb, leb, ◌==◌,
  if◌then◌else◌,
}
use kvstash.Eviction.Fifo.{Domain, Params, Candidate, maybe_decay, visit, total}
use kvstash.Eviction.Fifo.Reachable.{Call, admits, touches, removes, takes, reports, run}

abbrev pub victims_yield_every : ℕ
victims_yield_every = 512

abbrev pub is_touch : Call → Bool
is_touch (touches k) = true
is_touch (admits k size now) = false
is_touch (removes k) = false
is_touch (takes need now) = false
is_touch (reports now) = false

-- Of the calls that other goroutines have under way, those that can run: all of them while the lock is
-- given up, and else the touches alone.
pub lets_in : Bool → List Call → List Call
lets_in unlocked [] = []
lets_in unlocked (c ∷ cs) =
    let rest = lets_in unlocked cs in if unlocked || is_touch c then c ∷ rest else rest

-- The calls under way in this iteration, and in those after it.
abbrev pub next_window : List (List Call) → List Call
next_window [] = []
next_window (w ∷ ws) = w

abbrev pub later_windows : List (List Call) → List (List Call)
later_windows [] = []
later_windows (w ∷ ws) = ws

-- The domain on which an iteration works, `since` iterations after the last yield.
abbrev pub yielded : Params → ℕ → List (List Call) → Domain → Domain
yielded p since windows d =
    run p d (lets_in (leb victims_yield_every (since + 1)) (next_window windows))

-- The loop, whose iterations let other calls in.
pub scan_yielding :
    Params → ℕ → ℕ → ℕ → List (List Call) → Domain → List Candidate → Domain × List Candidate
unfolding lets_in
scan_yielding p need zero since windows d out = (d, out)
scan_yielding p need (suc budget) since windows d out =
    let next = if leb victims_yield_every (since + 1) then 0 else since + 1 in
    let d' = yielded p since windows d in
    elim (ltb (total out) need) [
      | true ↦ elim (length d'.small == 0 && length d'.main == 0) [
        | true ↦ (d', out)
        | false ↦
            scan_yielding p need budget next (later_windows windows) (visit p d' out).0
              (visit p d' out).1
      ]
      | false ↦ (d, out)
    ]

-- `Victims`, beside other calls.
pub victims_yielding : Params → List (List Call) → Domain → ℕ → ℕ → Domain × List Candidate
unfolding scan_yielding
victims_yielding p windows d need now =
    if need == 0
    then (d, [])
    else (let d' = maybe_decay p d now in
        scan_yielding p need (6 * (length d'.small + length d'.main) + 8) 0 windows d' [])

-- Calls that neither admit nor touch an entry.
abbrev pub quiet_calls : List Call → Bool
quiet_calls [] = true
quiet_calls (admits k size now ∷ cs) = false
quiet_calls (touches k ∷ cs) = false
quiet_calls (removes k ∷ cs) = quiet_calls cs
quiet_calls (takes need now ∷ cs) = quiet_calls cs
quiet_calls (reports now ∷ cs) = quiet_calls cs

abbrev pub quiet : List (List Call) → Bool
quiet [] = true
quiet (w ∷ ws) = quiet_calls w && quiet ws
