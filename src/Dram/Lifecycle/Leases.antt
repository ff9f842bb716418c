-- ===== src/Dram/Lifecycle/Leases.antt =====
-- internal/store/dram/lifecycle.go: leases only grow until they are released, and what protects a block
-- from a delete.
use kvstash.Prelude.{
  ℕ, ◌+◌, ◌*◌, ◌≤◌, ◌<◌, ◌≡◌, ◌↔◌, lt→ltb, ◌⊎◌, Bool, true, false, List, [], ◌∷◌, arith,
}
use kvstash.Dram.BlockRef.{BlockRef, leased, pinned, hard_pinned}
use kvstash.Dram.Lifecycle.{
  Lifecycle, status_ok, err_pinned, clamp_lease_ms, extend_lease, grant_read_lease, touch, lease,
  pin, unpin, can_delete, millisecond,
}

-- The calls on a block that are no release of its lease.
pub data Use : Type 0 where
  reads : ℕ → Use
  touches leases : ℕ → ℕ → Use
  pins : Bool → Use
  unpins : Use

pub apply : Lifecycle → BlockRef → Use → Lifecycle × BlockRef
apply l r (reads now) = (l, grant_read_lease l r now)
apply l r (touches ms now) = touch l r ms now
apply l r (leases ms now) = (l, lease l r ms now)
apply l r (pins hard) = ((pin l r hard).0, (pin l r hard).1)
apply l r unpins = unpin l r

pub uses : Lifecycle → BlockRef → List Use → Lifecycle × BlockRef
unfolding apply
uses l r [] = (l, r)
uses l r (c ∷ cs) = uses (apply l r c).0 (apply l r c).1 cs

apply-lease_until :
    (l : Lifecycle) (r : BlockRef) (c : Use) → r.lease_until ≤ (apply l r c).1.lease_until
unfolding apply grant_read_lease extend_lease touch lease pin unpin
apply-lease_until l r (reads now) = ground arith
apply-lease_until l r (touches ms now) = ground arith
apply-lease_until l r (leases ms now) = ground arith
apply-lease_until l r (pins hard) = ground arith
apply-lease_until l r unpins = ground arith

uses-lease_until :
    (l : Lifecycle) (r : BlockRef) (cs : List Use) → r.lease_until ≤ (uses l r cs).1.lease_until
unfolding uses
uses-lease_until l r [] = omega arith
uses-lease_until l r (c ∷ cs) =
    omega (arith, apply-lease_until l r c, uses-lease_until (apply l r c).0 (apply l r c).1 cs)

lease-lease_until :
    (l : Lifecycle) (r : BlockRef) (ms now : ℕ)
    → now + clamp_lease_ms l ms * millisecond ≤ (lease l r ms now).lease_until
unfolding lease extend_lease
lease-lease_until l r ms now = ground arith

before-end :
    (l : Lifecycle) (ms now t : ℕ)
    → t < now + l.lease_max_ms * 1000000
    → ((ms ≡ 0) × (t < now + l.lease_default_ms * 1000000)) ⊎ (t < now + ms * 1000000)
    → t < now + clamp_lease_ms l ms * millisecond
unfolding clamp_lease_ms
before-end l ms now t longest asked = ground (arith, longest, asked)

-- A client that leases a block at some time for a number of milliseconds, or for the default number if it asks
-- for 0, has it leased at any instant that is less than this long after, and less than the maximum after,
-- whatever reads, touches, leases and pins come after.
pub lease-outlives :
    (l : Lifecycle) (r : BlockRef) (ms now : ℕ) (cs : List Use) (t : ℕ)
    → t < now + l.lease_max_ms * 1000000
    → ((ms ≡ 0) × (t < now + l.lease_default_ms * 1000000)) ⊎ (t < now + ms * 1000000)
    → leased (uses l (lease l r ms now) cs).1 t ≡ true
unfolding leased
lease-outlives l r ms now cs t longest asked =
    let h : t < now + clamp_lease_ms l ms * millisecond = before-end l ms now t longest asked in
    let g = uses-lease_until l (lease l r ms now) cs in
    let start = lease-lease_until l r ms now in lt→ltb t _ (omega (arith, h, g, start))

-- A delete is granted exactly on a block without a hard pin that is forced, or has neither a live lease
-- nor a soft pin; a hard pin always answers as pinned.
pub can_delete-gate :
    (r : BlockRef) (force : Bool) (now : ℕ)
    → ((can_delete r force now ≡ status_ok) ↔ (
        (hard_pinned r ≡ false) × ((force ≡ true) ⊎ ((leased r now ≡ false) × (pinned r ≡ false)))))
      × (hard_pinned r ≡ true → can_delete r force now ≡ err_pinned)
unfolding can_delete
can_delete-gate r force now = ground arith
