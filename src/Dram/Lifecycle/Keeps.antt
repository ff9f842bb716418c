-- ===== src/Dram/Lifecycle/Keeps.antt =====
-- internal/store/dram/lifecycle.go: leases, pins and TTLs leave a block's length and its references alone.
use kvstash.Prelude.{ℕ, ◌+◌, ◌*◌, ◌≡◌, refl, Bool, ◌&&◌, not, ltb, leb, if-both}
use kvstash.Dram.BlockRef.{BlockRef, hard_pinned}
use kvstash.Dram.Lifecycle.{
  cap_bytes, Lifecycle, Status, clamp_lease_ms, millisecond, extend_lease, grant_read_lease, touch,
  lease, release_lease, pin, unpin,
}

pub record Keeps (r r' : BlockRef) : Type 0 where
  pub len : r'.len ≡ r.len
  pub refcount : r'.refcount ≡ r.refcount

extend_lease-Keeps : (r : BlockRef) (t : ℕ) → Keeps r (extend_lease r t)
unfolding extend_lease
extend_lease-Keeps r t =
    if-both (Keeps r) (leb t r.lease_until) (λ e. record { len = refl; refcount = refl })
      (λ e. record { len = refl; refcount = refl })

pub grant_read_lease-Keeps :
    (l : Lifecycle) (r : BlockRef) (now : ℕ) → Keeps r (grant_read_lease l r now)
unfolding grant_read_lease
grant_read_lease-Keeps l r now =
    let k = extend_lease-Keeps r (now + l.lease_default_ms * millisecond) in
    record { len = k.len; refcount = k.refcount }

pub lease-Keeps : (l : Lifecycle) (r : BlockRef) (ttl_ms now : ℕ) → Keeps r (lease l r ttl_ms now)
unfolding lease
lease-Keeps l r ttl_ms now =
    let k = extend_lease-Keeps r (now + clamp_lease_ms l ttl_ms * millisecond) in
    record { len = k.len; refcount = k.refcount }

pub touch-Keeps : (l : Lifecycle) (r : BlockRef) (ttl_ms now : ℕ) → Keeps r (touch l r ttl_ms now).1
unfolding touch
touch-Keeps l r ttl_ms now =
    if-both (λ (t : Lifecycle × BlockRef). Keeps r t.1) (ltb 0 ttl_ms)
      (λ e. record { len = refl; refcount = refl }) (λ e. record { len = refl; refcount = refl })

pub release_lease-Keeps : (r : BlockRef) → Keeps r (release_lease r)
unfolding release_lease
release_lease-Keeps r = record { len = refl; refcount = refl }

pub unpin-Keeps : (l : Lifecycle) (r : BlockRef) → Keeps r (unpin l r).1
unfolding unpin
unpin-Keeps l r = record { len = refl; refcount = refl }

pub pin-Keeps : (l : Lifecycle) (r : BlockRef) (hard : Bool) → Keeps r (pin l r hard).1
unfolding pin
pin-Keeps l r hard =
    let same : (f : ℕ) → Keeps r (record r { pin_flags = f }) =
      λ f. record { len = refl; refcount = refl } in
    let P = λ (t : Lifecycle × BlockRef × Status). Keeps r t.1 in
    if-both P (hard && not (hard_pinned r))
      (λ e.
        if-both P (ltb 0 (cap_bytes l r.ns) && ltb (cap_bytes l r.ns) (l.debits r.ns + r.len))
          (λ f. same r.pin_flags) (λ f. same 2))
      (λ e.
        if-both P hard (λ f. same 2) (λ f. if-both P (hard_pinned r) (λ g. same 1) (λ g. same 1)))
