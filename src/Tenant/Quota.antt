-- ===== src/Tenant/Quota.antt =====
-- internal/tenant/quota.go: the account of bytes per namespace and tier. A method is one step: its
-- compare-and-swap loop, and the heal of a balance below zero, are not interleaved with other methods.
-- The registry answers a namespace with its limits, one for each tier; a limit of 0 is none.
pub mod Limits
use kvstash.Prelude.{
  ℕ, zero, suc, ◌+◌, ◌-◌, ◌*◌, ◌/◌, Bool, true, false, ◌&&◌, ◌||◌, Option, none, some, ltb, leb,
  ◌==◌, if◌then◌else◌,
}

abbrev pub tier_count : ℕ
tier_count = 3

pub record NsUsage : Type 0 where
  pub used : ℕ → ℕ
  pub limit : ℕ → ℕ

abbrev pub Registry : Type 0
Registry = ℕ → Option (ℕ → ℕ)

pub record Quotas : Type 0 where
  pub reg : Registry
  pub by : ℕ → Option NsUsage

pub data Answer : Type 0 where
  charged err_quota : Answer

-- The limits that the registry has, 0 for a namespace that it does not know.
unfoldable pub snapshot : Registry → ℕ → ℕ → ℕ
snapshot reg ns tier = elim (reg ns) [ none ↦ 0 | some l ↦ l tier ]

-- `domain`: the account of a namespace, made on the first touch.
unfoldable pub domain : Quotas → ℕ → NsUsage
unfolding snapshot
domain q ns = elim (q.by ns) [
  | none ↦ record { used = λ t. 0; limit = snapshot q.reg ns }
  | some u ↦ u
]

-- A write to the map of accounts, and to one balance of an account.
unfoldable pub set_usage : Quotas → ℕ → NsUsage → Quotas
set_usage q ns u = record q { by = λ m. if m == ns then some u else q.by m }

unfoldable pub set_used : NsUsage → ℕ → ℕ → NsUsage
set_used u tier v = record u { used = λ t. if t == tier then v else u.used t }

unfoldable pub charge : Quotas → ℕ → ℕ → ℕ → Quotas × Answer
unfolding domain set_usage set_used
charge q ns tier n =
    if n == 0 || leb tier_count tier
    then (q, charged)
    else (let u = domain q ns in
        let q' = set_usage q ns (set_used u tier (u.used tier + n)) in
        if u.limit tier == 0
        then (q', charged)
        else if ltb (u.limit tier) (u.used tier + n)
        then (set_usage q ns u, err_quota)
        else (q', charged))

-- `Refund`, in a release build: a balance below zero is healed to zero.
unfoldable pub refund : Quotas → ℕ → ℕ → ℕ → Quotas
unfolding domain set_usage set_used
refund q ns tier n =
    if n == 0 || leb tier_count tier
    then q
    else (let u = domain q ns in set_usage q ns (set_used u tier (u.used tier - n)))

unfoldable pub seed : Quotas → ℕ → ℕ → ℕ → Quotas
unfolding domain set_usage set_used
seed q ns tier n =
    if n == 0 || leb tier_count tier
    then q
    else (let u = domain q ns in set_usage q ns (set_used u tier (u.used tier + n)))

unfoldable pub transfer : Quotas → ℕ → ℕ → ℕ → ℕ → Quotas
unfolding domain set_usage set_used refund
transfer q ns from to n =
    if n == 0
    then q
    else (let u = domain q ns in
        let u' = if ltb to tier_count then set_used u to (u.used to + n) else u in
        refund (set_usage q ns u') ns from n)

unfoldable pub usage : Quotas → ℕ → ℕ → ℕ
usage q ns tier =
    if leb tier_count tier then 0 else elim (q.by ns) [ none ↦ 0 | some u ↦ u.used tier ]

unfoldable pub limit_of : Quotas → ℕ → ℕ → ℕ
unfolding snapshot
limit_of q ns tier =
    if leb tier_count tier
    then 0
    else elim (q.by ns) [ none ↦ snapshot q.reg ns tier | some u ↦ u.limit tier ]

unfoldable pub would_exceed : Quotas → ℕ → ℕ → ℕ → Bool
unfolding snapshot
would_exceed q ns tier n = if n == 0 || leb tier_count tier then false else elim (q.by ns) [
  | none ↦ ltb 0 (snapshot q.reg ns tier) && ltb (snapshot q.reg ns tier) n
  | some u ↦ ltb 0 (u.limit tier) && ltb (u.limit tier) (u.used tier + n)
]

unfoldable pub over_ratio : Quotas → ℕ → ℕ → ℕ
over_ratio q ns tier = if leb tier_count tier then 0 else elim (q.by ns) [
  | none ↦ 0
  | some u ↦ if u.limit tier == 0 then 0 else u.used tier * 1000 / u.limit tier
]

-- `refreshLimits`: the limits that the registry has now, if it knows the namespace.
unfoldable pub refresh_limits : Quotas → ℕ → NsUsage → Quotas
unfolding set_usage
refresh_limits q ns u = elim (q.reg ns) [
  | none ↦ q
  | some l ↦ set_usage q ns (record { used = u.used; limit = l })
]

-- `reloadNS`, which a change of a quota calls.
unfoldable pub reload_ns : Quotas → ℕ → Quotas
unfolding refresh_limits
reload_ns q ns = elim (q.by ns) [ none ↦ q | some u ↦ refresh_limits q ns u ]
