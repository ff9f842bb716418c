-- ===== src/Dram/BlockRef.antt =====
-- internal/store/dram/blockref.go: the metadata of a committed block. An atomic read-modify-write, or a
-- compare-and-swap loop, is one step. Times are nanoseconds, 0 if unset.
pub mod Refcount
use kvstash.Prelude.{
  ℕ, zero, suc, ◌+◌, ◌-◌, ◌/◌, ◌%◌, Bool, true, false, ◌&&◌, not, ltb, leb, ◌==◌, if◌then◌else◌,
}

pub record BlockRef : Type 0 where
  pub len : ℕ
  pub ns : ℕ
  pub pin_flags : ℕ
  pub lease_until : ℕ
  pub ttl_until : ℕ
  pub last_access : ℕ
  pub refcount : ℕ

abbrev pub pin_soft_bit : ℕ
pin_soft_bit = 1

abbrev pub pin_hard_bit : ℕ
pin_hard_bit = 2

unfoldable pub acquire : BlockRef → BlockRef × Bool
acquire r = if leb r.refcount 0 then (r, false) else (record r { refcount = r.refcount + 1 }, true)

-- `Release`, in a release build: a count below zero is set to zero.
unfoldable pub release : BlockRef → BlockRef × Bool
release r =
    if r.refcount == 0
    then (record r { refcount = 0 }, false)
    else (record r { refcount = r.refcount - 1 }, r.refcount - 1 == 0)

unfoldable pub leased : BlockRef → ℕ → Bool
leased r now = ltb now r.lease_until

pub expired : BlockRef → ℕ → Bool
expired r now = not (r.ttl_until == 0) && leb r.ttl_until now

unfoldable pub pinned : BlockRef → Bool
pinned r = not (r.pin_flags == 0)

-- `PinFlags & pinHardBit != 0`.
unfoldable pub hard_pinned : BlockRef → Bool
hard_pinned r = r.pin_flags / 2 % 2 == 1

unfoldable pub can_evict : BlockRef → ℕ → Bool
unfolding leased pinned
can_evict r now = r.refcount == 1 && not (leased r now) && not (pinned r)
