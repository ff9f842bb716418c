-- ===== src/Eviction/Fifo/Yields/Served.antt =====
-- internal/eviction/s3fifo.go, `Victims` beside other calls: the domain stays sound, and calls that take entries
-- away do not keep it from its bytes.
use kvstash.Prelude.{
  ℕ, zero, suc, ◌+◌, ◌*◌, ◌≤◌, ◌≡◌, ◌⊎◌, refl, Bool, true, false, ◌&&◌, List, [], ◌∷◌, inl, inr,
  Bool-cases, length, ltb, leb, ◌==◌, if◌then◌else◌, arith,
}
use kvstash.Eviction.Fifo.{
  Key, Entry, Domain, Params, Candidate, key_eq, unlink, remove, maybe_decay, visit, total, scan,
  victims, usage,
}
use kvstash.Eviction.Fifo.Accounting.{maybe_decay-IsAccounted}
use kvstash.Eviction.Fifo.Conservation.{visit-Kept}
use kvstash.Eviction.Fifo.Frequencies.{maybe_decay-IsCapped, visit-IsCapped, work-IsCapped}
use kvstash.Eviction.Fifo.Reachable.{
  Call, admits, touches, removes, takes, reports, step, run, new_domain, IsSound, run-IsSound,
  run-new_domain-IsSound,
}
use kvstash.Eviction.Fifo.Victims.{
  Served, small_work, main_work, work, visit-work, both_empty, spent-Served, scan-work,
}
use kvstash.Eviction.Fifo.Yields.{
  victims_yield_every, lets_in, next_window, later_windows, yielded, scan_yielding,
  victims_yielding, quiet_calls, quiet,
}

small_work-unlink : (k : Key) (q : List Entry) → small_work (unlink k q) ≤ small_work q
unfolding small_work unlink
small_work-unlink k [] = omega arith
small_work-unlink k (e ∷ q) = elim (Bool-cases (key_eq k e.key)) [
  | inl g ↦ rw g (omega arith)
  | inr g ↦ rw g (omega (arith, small_work-unlink k q))
]

main_work-unlink : (k : Key) (q : List Entry) → main_work (unlink k q) ≤ main_work q
unfolding main_work unlink
main_work-unlink k [] = omega arith
main_work-unlink k (e ∷ q) = elim (Bool-cases (key_eq k e.key)) [
  | inl g ↦ rw g (omega arith)
  | inr g ↦ rw g (omega (arith, main_work-unlink k q))
]

remove-work : (d : Domain) (k : Key) → work (remove d k) ≤ work d
unfolding remove work
remove-work d k = ground (arith, small_work-unlink k d.small, main_work-unlink k d.main)

maybe_decay-work : (p : Params) (d : Domain) (now : ℕ) → work (maybe_decay p d now) ≡ work d
unfolding maybe_decay work
maybe_decay-work p d now = ground arith

victims-work : (p : Params) (d : Domain) (need now : ℕ) → work (victims p d need now).0 ≤ work d
unfolding victims
victims-work p d need now = elim (Bool-cases (need == 0)) [
  | inl g ↦ rw g (omega arith)
  | inr g ↦
      let d' = maybe_decay p d now in
      rw g (
        omega (
          arith,
          scan-work p need (6 * (length d'.small + length d'.main) + 8) d' [],
          maybe_decay-work p d now,
        ))
]

-- Calls that are quiet leave no more work.
run-lets_in-work :
    (p : Params) (unlocked : Bool) (cs : List Call) (d : Domain)
    → quiet_calls cs ≡ true
    → work (run p d (lets_in unlocked cs)) ≤ work d
unfolding lets_in run step usage
run-lets_in-work p u [] d h = omega arith
run-lets_in-work p u (admits k size now ∷ cs) d h = absurd (cc h)
run-lets_in-work p u (touches k ∷ cs) d h = absurd (cc h)
run-lets_in-work p true (removes k ∷ cs) d h =
    omega (arith, run-lets_in-work p true cs (remove d k) h, remove-work d k)
run-lets_in-work p false (removes k ∷ cs) d h = run-lets_in-work p false cs d h
run-lets_in-work p true (takes need now ∷ cs) d h =
    omega (arith, run-lets_in-work p true cs (victims p d need now).0 h, victims-work p d need now)
run-lets_in-work p false (takes need now ∷ cs) d h = run-lets_in-work p false cs d h
run-lets_in-work p true (reports now ∷ cs) d h =
    omega (arith, run-lets_in-work p true cs (maybe_decay p d now) h, maybe_decay-work p d now)
run-lets_in-work p false (reports now ∷ cs) d h = run-lets_in-work p false cs d h

scan_yielding-IsSound :
    (p : Params) (need budget since : ℕ) (windows : List (List Call)) (d : Domain)
    (out : List Candidate)
    → IsSound d
    → IsSound (scan_yielding p need budget since windows d out).0
unfolding scan_yielding
scan_yielding-IsSound p need zero since windows d out h = h
scan_yielding-IsSound p need (suc budget) since windows d out h =
    let next = if leb victims_yield_every (since + 1) then 0 else since + 1 in
    let calls = lets_in (leb victims_yield_every (since + 1)) (next_window windows) in
    let d' = yielded p since windows d in
    let s : IsSound d' = run-IsSound p d calls h in
    let v : IsSound (visit p d' out).0 = record {
      accounted = (visit-Kept p d' out s.accounted).0;
      capped = visit-IsCapped p d' out s.capped;
    } in
    let rest =
      scan_yielding-IsSound p need budget next (later_windows windows) (visit p d' out).0
        (visit p d' out).1 v in
    elim (Bool-cases (ltb (total out) need)) [
      | inl g ↦ elim (Bool-cases (length d'.small == 0 && length d'.main == 0)) [
        | inl e ↦ rw (scan_yielding, g, e) s
        | inr e ↦ rw (scan_yielding, g, e) rest
      ]
      | inr g ↦ rw (scan_yielding, g) h
    ]

quiet-next : (ws : List (List Call)) → quiet ws ≡ true → quiet_calls (next_window ws) ≡ true
quiet-next [] h = refl
quiet-next (w ∷ ws) h = ground (arith, h)

quiet-later : (ws : List (List Call)) → quiet ws ≡ true → quiet (later_windows ws) ≡ true
quiet-later [] h = refl
quiet-later (w ∷ ws) h = ground (arith, h)

scan_yielding-Served :
    (p : Params) (need budget since : ℕ) (windows : List (List Call)) (d : Domain)
    (out : List Candidate)
    → quiet windows ≡ true
    → work d ≤ budget
    → Served need (scan_yielding p need budget since windows d out)
unfolding scan_yielding
scan_yielding-Served p need zero since windows d out q h = spent-Served need d out h
scan_yielding-Served p need (suc budget) since windows d out q h =
    let unlocked = leb victims_yield_every (since + 1) in
    let next = if unlocked then 0 else since + 1 in
    let d' = yielded p since windows d in
    let less = run-lets_in-work p unlocked (next_window windows) d (quiet-next windows q) in
    elim (Bool-cases (ltb (total out) need)) [
      | inl g ↦ elim (Bool-cases (length d'.small == 0 && length d'.main == 0)) [
        | inl e ↦ rw (scan_yielding, g, e) (inr (both_empty d' (ground (arith, e))))
        | inr e ↦
            rw (scan_yielding, g, e)
              (scan_yielding-Served p need budget next (later_windows windows) (visit p d' out).0
                (visit p d' out).1 (quiet-later windows q)
                (omega (arith, h, less, visit-work p d' out e)))
      ]
      | inr g ↦ rw (scan_yielding, g) (inl (ground (arith, g)))
    ]

scan_yielding-scan :
    (p : Params) (need budget since : ℕ) (d : Domain) (out : List Candidate)
    → scan_yielding p need budget since [] d out ≡ scan p need budget d out
unfolding scan_yielding scan lets_in run
scan_yielding-scan p need zero since d out = refl
scan_yielding-scan p need (suc budget) since d out =
    let next = if leb victims_yield_every (since + 1) then 0 else since + 1 in
    let rest = scan_yielding-scan p need budget next (visit p d out).0 (visit p d out).1 in
    elim (Bool-cases (ltb (total out) need)) [
      | inl g ↦ elim (Bool-cases (length d.small == 0 && length d.main == 0)) [
        | inl e ↦ rw (scan_yielding, scan, g, e) refl
        | inr e ↦ rw (scan_yielding, scan, g, e) rest
      ]
      | inr g ↦ rw (scan_yielding, scan, g) refl
    ]

-- On a domain that any sequence of calls has made, with any calls under way beside `Victims`, of which those
-- that run between two iterations are all of them where the lock is given up, and else the touches: the
-- domain's counters and frequencies are sound in the end. If no calls that admit or touch an entry are under way,
-- `Victims` returns candidates of at least the bytes that it is asked for, or has emptied both queues: then its budget
-- does not cut it short, whatever is removed, reported or taken by another `Victims` in the yields. With no calls
-- under way it is `Victims` as one step.
pub victims_yielding-run-Served :
    (p : Params) (cs : List Call) (windows : List (List Call)) (need now : ℕ)
    → let d = run p new_domain cs in
      let r = victims_yielding p windows d need now in
      IsSound r.0
      × ((quiet windows ≡ false) ⊎ Served need r)
      × (victims_yielding p [] d need now ≡ victims p d need now)
unfolding victims_yielding victims
victims_yielding-run-Served p cs windows need now =
    let d = run p new_domain cs in
    let s = run-new_domain-IsSound p cs in
    let d' = maybe_decay p d now in
    let budget = 6 * (length d'.small + length d'.main) + 8 in
    let c = maybe_decay-IsCapped p d now s.capped in
    let sound : IsSound d' = record {
      accounted = maybe_decay-IsAccounted p d now s.accounted;
      capped = c;
    } in
    elim (Bool-cases (need == 0)) [
      | inl g ↦ rw g (s, inr (inl (ground arith)), refl)
      | inr g ↦ rw g (
        scan_yielding-IsSound p need budget 0 windows d' [] sound,
        elim (Bool-cases (quiet windows)) [
          | inl q ↦ inr (scan_yielding-Served p need budget 0 windows d' [] q (work-IsCapped d' c))
          | inr q ↦ inl q
        ],
        scan_yielding-scan p need budget 0 d' [],
      )
    ]
