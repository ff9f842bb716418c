-- ===== src/Tenant/Witnesses.antt =====
-- Accounts of a namespace in concrete runs.
use kvstash.Prelude.{ℕ, ◌+◌, ◌≡◌, ◌≢◌, refl, some, arith}
use kvstash.Tenant.Quota.{Quotas, reload_ns, transfer, usage, limit_of}
use kvstash.Tenant.Quota.Limits.{transfer-moves, reload_ns-limit_of}

-- Namespace 4 may hold 8192 bytes in each tier, and has 4096 in memory.
abbrev accounts : Quotas
accounts = record {
  reg = λ ns. some (λ tier. 8192);
  by = λ ns. some (record { used = λ tier. 4096; limit = λ tier. 8192 });
}

transfer-moves_example :
    (usage (transfer accounts 4 0 1 4096) 4 0 + 4096 ≡ usage accounts 4 0)
    × (usage (transfer accounts 4 0 1 4096) 4 1 ≡ usage accounts 4 1 + 4096)
    × ((tier : ℕ)
        → tier ≢ 0
        → tier ≢ 1
        → usage (transfer accounts 4 0 1 4096) 4 tier ≡ usage accounts 4 tier)
    × ((other tier : ℕ)
        → other ≢ 4
        → usage (transfer accounts 4 0 1 4096) other tier ≡ usage accounts other tier)
unfolding usage
transfer-moves_example =
    transfer-moves accounts 4 0 1 4096 (omega arith) (omega arith) (omega arith) (omega arith)

reload_ns-limit_of_example :
    (limit_of (reload_ns (record accounts { reg = λ ns. some (λ tier. 4096) }) 4) 4 0 ≡ 4096)
    × ((other t : ℕ)
        → usage (reload_ns (record accounts { reg = λ ns. some (λ tier. 4096) }) 4) other t
          ≡ usage accounts other t)
reload_ns-limit_of_example =
    reload_ns-limit_of accounts (λ ns. some (λ tier. 4096)) 4 0 (λ tier. 4096) (omega arith) refl
