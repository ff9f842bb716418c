-- ===== src/Tenant/Quota/Limits.antt =====
-- internal/tenant/quota.go: what a charge, a refund and a transfer do to the usage of a tier.
use kvstash.Prelude.{some, ℕ, ◌+◌, ◌≤◌, ◌<◌, ◌≡◌, ◌≢◌, arith, Option-cases, inl, inr}
use kvstash.Tenant.Quota.{
  Quotas, Registry, reload_ns, refresh_limits, refund, transfer, usage, limit_of, domain, snapshot,
  set_usage, set_used,
}

-- A transfer between two different tiers moves exactly its bytes, if the source tier holds them, and
-- leaves the usage of every other tier and every other namespace alone; no limit refuses it.
pub transfer-moves :
    (q : Quotas) (ns from to n : ℕ)
    → from < 3
    → to < 3
    → from ≢ to
    → n ≤ usage q ns from
    → (usage (transfer q ns from to n) ns from + n ≡ usage q ns from)
      × (usage (transfer q ns from to n) ns to ≡ usage q ns to + n)
      × ((tier : ℕ)
          → tier ≢ from
          → tier ≢ to
          → usage (transfer q ns from to n) ns tier ≡ usage q ns tier)
      × ((other tier : ℕ)
          → other ≢ ns
          → usage (transfer q ns from to n) other tier ≡ usage q other tier)
unfolding transfer usage refund domain set_usage set_used snapshot
transfer-moves q ns from to n hf ht d h = elim (Option-cases (q.by ns)) [
  | inl e ↦ (ground arith, ground arith, λ tier a b. ground arith, λ other tier a. ground arith)
  | inr (u, e) ↦
      (ground arith, ground arith, λ tier a b. ground arith, λ other tier a. ground arith)
]

-- After the registry has changed its limits and notified the account of a namespace that it knows, the
-- limit that binds in any tier is the registry's new one, charged namespace or not, and no usage of any
-- namespace has changed.
pub reload_ns-limit_of :
    (q : Quotas) (reg : Registry) (ns tier : ℕ) (l : ℕ → ℕ)
    → tier < 3
    → reg ns ≡ some l
    → (limit_of (reload_ns (record q { reg = reg }) ns) ns tier ≡ l tier)
      × ((other t : ℕ) → usage (reload_ns (record q { reg = reg }) ns) other t ≡ usage q other t)
unfolding reload_ns refresh_limits limit_of usage set_usage snapshot
reload_ns-limit_of q reg ns tier l h e = elim (Option-cases (q.by ns)) [
  | inl a ↦ (ground arith, λ other t. ground arith)
  | inr (u, a) ↦ (ground arith, λ other t. ground arith)
]
