-- ===== src/Eviction/Fifo.antt =====
-- internal/eviction/s3fifo.go: one tenant's domain. A method is one step, under the locks of the
-- domain; the child Yields has `Victims` as its iterations, between which other methods run.
pub mod Accounting
pub mod Victims
pub mod Frequencies
pub mod Conservation
pub mod Reachable
pub mod Yields
use Prim.Native.Nat.{bit_xor}
use kvstash.Prelude.{
  ℕ, zero, suc, ◌+◌, ◌-◌, ◌*◌, ◌/◌, ◌%◌, ◌^◌, Bool, true, false, ◌&&◌, ◌||◌, not, List, [], ◌∷◌,
  ◌++◌, length, ltb, leb, ◌==◌, if◌then◌else◌,
}
use kvstash.Eviction.Ghost.{Ring, contains, push, grow, shrink, capacity, ghost_floor, bytes}

-- The hash is the number that its 32 bytes stand for, the lowest byte first.
pub record Key : Type 0 where
  pub ns : ℕ
  pub hash : ℕ

abbrev pub key_eq : Key → Key → Bool
key_eq a b = a.ns == b.ns && a.hash == b.hash

pub record Candidate : Type 0 where
  pub key : Key
  pub size : ℕ

-- An entry's `where` is the queue that it stands in.
pub record Entry : Type 0 where
  pub key : Key
  pub size : ℕ
  pub freq : ℕ

-- The queues from head to tail; their `count` is their length. The table holds the tracked keys.
pub record Domain : Type 0 where
  pub table : List Key
  pub small : List Entry
  pub main : List Entry
  pub small_bytes : ℕ
  pub main_bytes : ℕ
  pub main_count : ℕ
  pub main_hi : ℕ
  pub last_decay : ℕ
  pub ghost : Ring

-- The policy's parameters.
pub record Params : Type 0 where
  pub seed : ℕ
  pub ghost_max : ℕ

pub fingerprint : Params → Key → ℕ
fingerprint p k = bit_xor (bit_xor (k.hash % 2 ^ 64) p.seed) (k.ns * 0x9E3779B97F4A7C15 % 2 ^ 64)

pub has_key : Key → List Key → Bool
has_key k [] = false
has_key k (j ∷ js) = key_eq k j || has_key k js

pub delete_key : Key → List Key → List Key
delete_key k [] = []
delete_key k (j ∷ js) = let rest = delete_key k js in if key_eq k j then rest else j ∷ rest

-- `pushTail`.
abbrev pub push_tail : List Entry → Entry → List Entry
push_tail q e = q ++ e ∷ []

pub queued : Key → List Entry → Bool
queued k [] = false
queued k (e ∷ q) = key_eq k e.key || queued k q

-- The size of the entry of a key, 0 if it has none.
pub size_of : Key → List Entry → ℕ
size_of k [] = 0
size_of k (e ∷ q) = let rest = size_of k q in if key_eq k e.key then e.size else rest

-- `unlink` of the entry of a key.
pub unlink : Key → List Entry → List Entry
unlink k [] = []
unlink k (e ∷ q) = let rest = unlink k q in if key_eq k e.key then q else e ∷ rest

-- `capacity <<= 1` while it is below the target. The fuel is the target: each round adds at least 1.
pub ladder : ℕ → ℕ → ℕ → ℕ
ladder zero c target = c
ladder (suc f) c target = let more = ladder f (c * 2) target in if ltb c target then more else c

pub maybe_grow_ghost : Params → Domain → Domain
unfolding ladder
maybe_grow_ghost p d =
    if p.ghost_max == 0
    then d
    else (let want = if ltb p.ghost_max d.main_hi then p.ghost_max else d.main_hi in
        if leb want (capacity d.ghost)
        then d
        else (let c = ladder want ghost_floor want in
            record d { ghost = grow d.ghost (if ltb p.ghost_max c then p.ghost_max else c) }))

abbrev pub decay_epoch : ℕ
decay_epoch = 60000000000

pub maybe_decay : Params → Domain → ℕ → Domain
unfolding ladder
maybe_decay p d now =
    if now == 0
    then d
    else if d.last_decay == 0
    then record d { last_decay = now }
    else if ltb (now - d.last_decay) decay_epoch
    then d
    else (let hi =
          if ltb d.main_count d.main_hi
          then d.main_hi - (d.main_hi - d.main_count) / 2
          else d.main_hi in
        let top = ladder hi ghost_floor hi in
        let want = if ltb 0 p.ghost_max && ltb p.ghost_max top then p.ghost_max else top in
        record d { last_decay = now; main_hi = hi; ghost = shrink d.ghost want })

-- An entry goes to the tail of main; the high watermark follows.
pub to_main : Params → Domain → Entry → Domain
unfolding maybe_grow_ghost
to_main p d e =
    let d' = record d {
      main = push_tail d.main e;
      main_bytes = d.main_bytes + e.size;
      main_count = d.main_count + 1;
    } in
    if ltb d.main_hi (d.main_count + 1)
    then maybe_grow_ghost p (record d' { main_hi = d.main_count + 1 })
    else d'

-- The queue step of `Admit`.
pub enqueue : Params → Domain → Entry → Domain
unfolding to_main
enqueue p d e =
    if contains d.ghost (fingerprint p e.key)
    then to_main p d e
    else record d { small = push_tail d.small e; small_bytes = d.small_bytes + e.size }

pub admit : Params → Domain → Key → ℕ → ℕ → Domain
unfolding enqueue has_key maybe_decay
admit p d k size now =
    if size == 0
    then d
    else if has_key k d.table
    then d
    else enqueue p (maybe_decay p (record d { table = k ∷ d.table }) now)
        (record { key = k; size = size; freq = 0 })

pub bump : Key → List Entry → List Entry
bump k [] = []
bump k (e ∷ q) =
    (if key_eq k e.key && ltb e.freq 3 then record e { freq = e.freq + 1 } else e) ∷ bump k q

pub touch : Domain → Key → Domain
unfolding bump has_key
touch d k =
    if has_key k d.table then record d { small = bump k d.small; main = bump k d.main } else d

pub remove : Domain → Key → Domain
unfolding has_key queued unlink size_of delete_key
remove d k =
    if has_key k d.table
    then (let d' = record d { table = delete_key k d.table } in
        if queued k d.small
        then record d' { small = unlink k d.small; small_bytes = d.small_bytes - size_of k d.small }
        else if queued k d.main
        then record d' {
          main = unlink k d.main;
          main_bytes = d.main_bytes - size_of k d.main;
          main_count = d.main_count - 1;
        }
        else d')
    else d

-- The queue that an iteration of `Victims` takes from: small while it exceeds its 10% share, and
-- the other one if that one is empty.
pub from_small : Domain → Bool
from_small d =
    let wanted = ltb ((d.small_bytes + d.main_bytes) / 10) d.small_bytes in
    let kept = if wanted && length d.small == 0 then false else wanted in
    if not kept && length d.main == 0 then true else kept

-- `expel`: the table entry goes, and the candidate is appended.
abbrev pub expel : Domain → Entry → List Candidate → Domain × List Candidate
expel d e out = (
  record d { table = delete_key e.key d.table },
  out ++ record { key = e.key; size = e.size } ∷ [],
)

-- An iteration on small's head. (The picked queue is never empty.)
pub small_visit : Params → List Entry → Domain → List Candidate → Domain × List Candidate
unfolding to_main
small_visit p [] d out = (d, out)
small_visit p (e ∷ rest) d out =
    let d' = record d { small = rest; small_bytes = d.small_bytes - e.size } in
    if ltb 1 e.freq
    then (to_main p d' e, out)
    else expel (record d' { ghost = push d.ghost (fingerprint p e.key) }) e out

pub main_visit : List Entry → Domain → List Candidate → Domain × List Candidate
main_visit [] d out = (d, out)
main_visit (e ∷ rest) d out =
    if ltb 0 e.freq
    then (record d { main = push_tail rest (record e { freq = e.freq - 1 }) }, out)
    else expel
        (record d {
          main = rest;
          main_bytes = d.main_bytes - e.size;
          main_count = d.main_count - 1;
        })
        e out

pub visit : Params → Domain → List Candidate → Domain × List Candidate
unfolding small_visit main_visit
visit p d out = if from_small d then small_visit p d.small d out else main_visit d.main d out

pub total : List Candidate → ℕ
total [] = 0
total (c ∷ cs) = c.size + total cs

-- The loop, with `budget` iterations left; `got` is the size of what was taken.
pub scan : Params → ℕ → ℕ → Domain → List Candidate → Domain × List Candidate
unfolding visit
scan p need zero d out = (d, out)
scan p need (suc budget) d out =
    elim (ltb (total out) need && not (length d.small == 0 && length d.main == 0)) [
      | true ↦ scan p need budget (visit p d out).0 (visit p d out).1
      | false ↦ (d, out)
    ]

-- `Victims` as one step, in whose yields no other method runs, with the candidates that it takes.
pub victims : Params → Domain → ℕ → ℕ → Domain × List Candidate
unfolding scan
victims p d need now =
    if need == 0
    then (d, [])
    else (let d' = maybe_decay p d now in
        scan p need (6 * (length d'.small + length d'.main) + 8) d' [])

-- `Usage` for one domain: the housekeeping tick, and what it reports.
pub usage : Params → Domain → ℕ → Domain × (ℕ × ℕ)
usage p d now =
    let d' = maybe_decay p d now in (d', (d'.small_bytes + d'.main_bytes, bytes d'.ghost))
