-- ===== src/Dram/Lifecycle.antt =====
-- internal/store/dram/lifecycle.go: leases, pins and TTLs. Every call is given the time that it would
-- draw from the clock. Pins run under the shard's lock, so each is one step.
pub mod Keeps
pub mod Leases
pub mod Pins
use kvstash.Prelude.{
  ℕ, zero, suc, ◌+◌, ◌-◌, ◌*◌, Bool, true, false, ◌&&◌, not, ltb, leb, ◌==◌, if◌then◌else◌,
}
use kvstash.Dram.BlockRef.{BlockRef, pin_soft_bit, pin_hard_bit, leased, pinned, hard_pinned}

-- The statuses that the lifecycle answers with.
pub data Status : Type 0 where
  status_ok err_pinned err_leased err_pin_quota : Status

-- `pin_cap_for` answers 0 for a namespace without a cap of its own, and so does a nil function.
pub record Lifecycle : Type 0 where
  pub lease_default_ms : ℕ
  pub lease_max_ms : ℕ
  pub pinned_cap : ℕ
  pub pin_cap_for : ℕ → ℕ
  pub debits : ℕ → ℕ
  pub ttl_blocks : ℕ

-- A millisecond in nanoseconds.
abbrev pub millisecond : ℕ
millisecond = 1000000

unfoldable pub clamp_lease_ms : Lifecycle → ℕ → ℕ
clamp_lease_ms l ttl_ms =
    let ms = if ttl_ms == 0 then l.lease_default_ms else ttl_ms in
    if ltb l.lease_max_ms ms then l.lease_max_ms else ms

unfoldable pub extend_lease : BlockRef → ℕ → BlockRef
extend_lease r until = if leb until r.lease_until then r else record r { lease_until = until }

unfoldable pub grant_read_lease : Lifecycle → BlockRef → ℕ → BlockRef
unfolding extend_lease
grant_read_lease l r now =
    let r' = extend_lease r (now + l.lease_default_ms * millisecond) in
    record r' { last_access = now }

unfoldable pub touch : Lifecycle → BlockRef → ℕ → ℕ → Lifecycle × BlockRef
touch l r ttl_ms now =
    let r' = record r { last_access = now } in
    if ltb 0 ttl_ms
    then (
      if r.ttl_until == 0 then record l { ttl_blocks = l.ttl_blocks + 1 } else l,
      record r' { ttl_until = now + ttl_ms * millisecond },
    )
    else (l, r')

unfoldable pub note_ttl_gone : Lifecycle → BlockRef → Lifecycle
note_ttl_gone l r = if r.ttl_until == 0 then l else record l { ttl_blocks = l.ttl_blocks - 1 }

unfoldable pub lease : Lifecycle → BlockRef → ℕ → ℕ → BlockRef
unfolding clamp_lease_ms extend_lease
lease l r ttl_ms now =
    let r' = extend_lease r (now + clamp_lease_ms l ttl_ms * millisecond) in
    record r' { last_access = now }

unfoldable pub release_lease : BlockRef → BlockRef
release_lease r = record r { lease_until = 0 }

-- An entry of the map of debits, which has 0 for a missing key.
unfoldable pub set_debit : (ℕ → ℕ) → ℕ → ℕ → (ℕ → ℕ)
set_debit f ns v m = if m == ns then v else f m

-- The cap that binds a namespace.
unfoldable pub cap_bytes : Lifecycle → ℕ → ℕ
cap_bytes l ns = if ltb 0 (l.pin_cap_for ns) then l.pin_cap_for ns else l.pinned_cap

-- `refund`, in a release build: a debit below zero is set to zero.
unfoldable pub refund : Lifecycle → BlockRef → Lifecycle
unfolding set_debit
refund l r = record l { debits = set_debit l.debits r.ns (l.debits r.ns - r.len) }

unfoldable pub pin : Lifecycle → BlockRef → Bool → Lifecycle × BlockRef × Status
unfolding set_debit cap_bytes refund hard_pinned
pin l r hard =
    if hard && not (hard_pinned r)
    then (if ltb 0 (cap_bytes l r.ns) && ltb (cap_bytes l r.ns) (l.debits r.ns + r.len)
        then (l, r, err_pin_quota)
        else (
          record l { debits = set_debit l.debits r.ns (l.debits r.ns + r.len) },
          record r { pin_flags = pin_hard_bit },
          status_ok,
        ))
    else if hard
    then (l, record r { pin_flags = pin_hard_bit }, status_ok)
    else if hard_pinned r
    then (refund l r, record r { pin_flags = pin_soft_bit }, status_ok)
    else (l, record r { pin_flags = pin_soft_bit }, status_ok)

unfoldable pub unpin : Lifecycle → BlockRef → Lifecycle × BlockRef
unfolding refund hard_pinned
unpin l r = (if hard_pinned r then refund l r else l, record r { pin_flags = 0 })

unfoldable pub can_delete : BlockRef → Bool → ℕ → Status
unfolding hard_pinned leased pinned
can_delete r force now =
    if hard_pinned r
    then err_pinned
    else if force
    then status_ok
    else if leased r now
    then err_leased
    else if pinned r
    then err_pinned
    else status_ok
