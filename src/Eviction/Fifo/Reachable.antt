-- ===== src/Eviction/Fifo/Reachable.antt =====
-- internal/eviction/s3fifo.go: a domain after any sequence of calls.
use kvstash.Prelude.{
  ℕ, zero, suc, ◌+◌, ◌*◌, ◌∙◌, refl, ◌&&◌, not, List, [], ◌∷◌, inl, inr, Bool-cases, length, ltb,
  ◌==◌,
}
use kvstash.Eviction.Ghost.{empty_ring}
use kvstash.Eviction.Fifo.{
  Key, Domain, Params, Candidate, admit, touch, remove, maybe_decay, visit, total, scan, victims,
  usage,
}
use kvstash.Eviction.Fifo.Accounting.{
  sizes, IsAccounted, admit-IsAccounted, touch-IsAccounted, remove-IsAccounted,
  maybe_decay-IsAccounted,
}
use kvstash.Eviction.Fifo.Frequencies.{
  IsCapped, admit-IsCapped, touch-IsCapped, remove-IsCapped, maybe_decay-IsCapped, visit-IsCapped,
}
use kvstash.Eviction.Fifo.Conservation.{Kept, scan-Kept, held-nil, maybe_decay-used}

pub data Call : Type 0 where
  admits : Key → ℕ → ℕ → Call
  touches removes : Key → Call
  takes : ℕ → ℕ → Call
  reports : ℕ → Call

unfoldable pub step : Params → Domain → Call → Domain
unfolding usage
step p d (admits k size now) = admit p d k size now
step p d (touches k) = touch d k
step p d (removes k) = remove d k
step p d (takes need now) = (victims p d need now).0
step p d (reports now) = (usage p d now).0

unfoldable pub run : Params → Domain → List Call → Domain
unfolding step
run p d [] = d
run p d (c ∷ cs) = run p (step p d c) cs

abbrev pub new_domain : Domain
new_domain = record {
  table = [];
  small = [];
  main = [];
  small_bytes = 0;
  main_bytes = 0;
  main_count = 0;
  main_hi = 0;
  last_decay = 0;
  ghost = empty_ring;
}

-- The counters are those of the queues, and no frequency passes 3.
pub record IsSound (d : Domain) : Type 0 where
  pub accounted : IsAccounted d
  pub capped : IsCapped d

scan-IsCapped :
    (p : Params) (need budget : ℕ) (d : Domain) (out : List Candidate)
    → IsCapped d
    → IsCapped (scan p need budget d out).0
unfolding scan
scan-IsCapped p need zero d out h = h
scan-IsCapped p need (suc budget) d out h =
    let v = visit-IsCapped p d out h in
    let r = scan-IsCapped p need budget (visit p d out).0 (visit p d out).1 v in
    elim (Bool-cases (ltb (total out) need && not (length d.small == 0 && length d.main == 0))) [
      | inl g ↦ rw (scan, g) r
      | inr g ↦ rw (scan, g) h
    ]

victims-IsSound :
    (p : Params) (d : Domain) (need now : ℕ) → IsSound d → IsSound (victims p d need now).0
unfolding victims
victims-IsSound p d need now s =
    let a = maybe_decay-IsAccounted p d now s.accounted in
    let c = maybe_decay-IsCapped p d now s.capped in
    elim (Bool-cases (need == 0)) [
      | inl g ↦ rw g s
      | inr g ↦ rw g (record {
        accounted = (scan-Kept p need _ _ [] a).0;
        capped = scan-IsCapped p need _ _ [] c;
      })
    ]

step-IsSound : (p : Params) (d : Domain) (c : Call) → IsSound d → IsSound (step p d c)
unfolding step usage
step-IsSound p d (admits k size now) s = record {
  accounted = admit-IsAccounted p d k size now s.accounted;
  capped = admit-IsCapped p d k size now s.capped;
}
step-IsSound p d (touches k) s = record {
  accounted = touch-IsAccounted d k s.accounted;
  capped = touch-IsCapped d k s.capped;
}
step-IsSound p d (removes k) s = record {
  accounted = remove-IsAccounted d k s.accounted;
  capped = remove-IsCapped d k s.capped;
}
step-IsSound p d (takes need now) s = victims-IsSound p d need now s
step-IsSound p d (reports now) s = record {
  accounted = maybe_decay-IsAccounted p d now s.accounted;
  capped = maybe_decay-IsCapped p d now s.capped;
}

pub run-IsSound : (p : Params) (d : Domain) (cs : List Call) → IsSound d → IsSound (run p d cs)
unfolding run
run-IsSound p d [] s = s
run-IsSound p d (c ∷ cs) s = run-IsSound p (step p d c) cs (step-IsSound p d c s)

-- After any sequence of calls on a new domain, the byte counters are the sums of the sizes in their
-- queues, main's entry counter is its length, and no frequency passes 3.
pub run-new_domain-IsSound : (p : Params) (cs : List Call) → IsSound (run p new_domain cs)
unfolding sizes
run-new_domain-IsSound p cs = run-IsSound p new_domain cs (record {
  accounted = record { small = refl; main = refl; count = refl };
  capped = record { small = tt; main = tt };
})

-- On a domain that any sequence of calls has made, the bytes that `Victims` hands out are exactly the
-- bytes by which the domain's usage falls.
pub victims-run-Kept :
    (p : Params) (cs : List Call) (need now : ℕ)
    → Kept
        ((run p new_domain cs).small_bytes + (run p new_domain cs).main_bytes)
        (victims p (run p new_domain cs) need now)
unfolding victims
victims-run-Kept p cs need now =
    let d = run p new_domain cs in
    let a = (run-new_domain-IsSound p cs).accounted in
    let r =
      scan-Kept p need
        (6 * (length (maybe_decay p d now).small + length (maybe_decay p d now).main) + 8)
        (maybe_decay p d now) [] (maybe_decay-IsAccounted p d now a) in
    elim (Bool-cases (need == 0)) [
      | inl g ↦ rw g (a, held-nil d)
      | inr g ↦ rw g (r.0, r.1 ∙ held-nil (maybe_decay p d now) ∙ maybe_decay-used p d now)
    ]
