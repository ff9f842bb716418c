-- ===== src/Dram/Store.antt =====
-- internal/store/dram/store.go: the memory tier, as its calls change it between two points where another call may
-- run. Blocks are shared by address: the index holds addresses, and the heap has what stands there. A key is a
-- number; the allocator and the policy are interfaces. A nil policy is one whose calls do nothing.
pub mod Reads
pub mod Puts
pub mod Removals
pub mod Verbs
pub mod Space
pub mod Filling
pub mod Ledger
pub mod Lookups
pub mod World
pub mod Safe
pub mod Readers
pub mod Hits
pub mod RoundTrip
pub mod Evictions
pub mod Passes
pub mod Answers
mod Witnesses
use kvstash.Prelude.{
  ℕ, ◌+◌, ◌-◌, ◌*◌, ◌/◌, Bool, true, false, not, Option, none, some, List, [], leb, ltb, ◌==◌,
  if◌then◌else◌, length,
}
use kvstash.Bytes.{Bytes}
use kvstash.Dram.BlockRef.{BlockRef, release}
use kvstash.Dram.Lifecycle.{Lifecycle}
use kvstash.Dram.Index.{Index}
use kvstash.Dram.Arena.{Arena}
use kvstash.Dram.Allocator.{Allocation, Allocator}
use kvstash.Tenant.Quota as Q

-- The calls that the tier makes of its eviction policy (internal/eviction). Victims are keys with sizes, and usage
-- is the bytes of each namespace.
pub record Policy : Type 1 where
  pub State : Type 0
  pub admit : State → ℕ → ℕ → ℕ → State
  pub touch : State → ℕ → ℕ → State
  pub remove : State → ℕ → State
  pub victims : State → ℕ → ℕ → ℕ → State × List (ℕ × ℕ)
  pub usage : State → ℕ → State × List (ℕ × ℕ)

-- A `BlockRef` with the fields that are fixed when it is made, and its count of reads.
pub record Block : Type 0 where
  pub ref : BlockRef
  pub extent : Allocation
  pub xxh3 : ℕ
  pub hits : ℕ

-- The size of an allocation unit, and the tier that the quotas know as the memory.
abbrev pub alloc_unit : ℕ
alloc_unit = 4096

abbrev pub tier_dram : ℕ
tier_dram = 0

-- A word of the heap is written.
unfoldable pub update {ℓ} : {B : Type ℓ} → (ℕ → B) → ℕ → B → ℕ → B
update f p v q = if q == p then v else f q

unfoldable pub bytes_to_units : ℕ → ℕ
bytes_to_units n = (n + alloc_unit - 1) / alloc_unit

-- `next` is an address that no block has yet.
pub record Store (A : Allocator) (P : Policy) : Type 0 where
  pub arena : Arena
  pub index : Index ℕ
  pub heap : ℕ → Block
  pub next : ℕ
  pub life : Lifecycle
  pub alloc : A.State
  pub policy : P.State
  pub quotas : Option Q.Quotas
  pub live_allocs : ℕ
  pub evictions : ℕ
  pub occ_gen : ℕ
  pub last_futile_gen : ℕ

module _ {A : Allocator} {P : Policy} where
  -- The length of the block at an address, and its metadata written.
  abbrev pub len_of : Store A P → ℕ → ℕ
  len_of s p = (s.heap p).ref.len

  abbrev pub set_ref : Store A P → ℕ → BlockRef → Store A P
  set_ref s p r = record s { heap = update s.heap p (record (s.heap p) { ref = r }) }

  -- `free`.
  unfoldable pub free : Store A P → ℕ → Store A P
  free s p =
      let s' = record s { live_allocs = s.live_allocs - 1; occ_gen = s.occ_gen + 1 } in
      if len_of s p == 0 then s' else record s' { alloc = A.free s.alloc (s.heap p).extent }

  -- A reference is given up: `if ref.Release() { s.free(ref) }`.
  unfoldable pub drop_ref : Store A P → ℕ → Store A P
  unfolding free
  drop_ref s p =
      let r = release (s.heap p).ref in let s' = set_ref s p r.0 in if r.1 then free s' p else s'

  -- `refundQuota`.
  unfoldable pub refund_quota : Store A P → ℕ → Store A P
  refund_quota s p = elim s.quotas [
    | none ↦ s
    | some q ↦
        if ltb 0 (len_of s p)
        then record s { quotas = some (Q.refund q (s.heap p).ref.ns tier_dram (len_of s p)) }
        else s
  ]
