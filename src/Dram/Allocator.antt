-- ===== src/Dram/Allocator.antt =====
-- internal/store/dram/offsetalloc.go: the allocator of extents, a port of another project's OffsetAllocator. What
-- the memory tier relies on is an interface, with the laws that its callers need.
use kvstash.Prelude.{ℕ, ◌+◌, ◌≤◌, ◌<◌, ◌≡◌, ◌≢◌, ◌⊎◌, true, Option, some, Bool}

-- The first unit of an extent, and what `Free` finds its size by.
pub record Allocation : Type 0 where
  pub offset : ℕ
  pub alloc_meta : ℕ

-- `owns s al u`: the extent `al` is handed out, and the unit `u` is in it. A free leaves the other extents alone
-- if what it is given was handed out.
pub record Allocator : Type 1 where
  pub State : Type 0
  pub alloc : State → ℕ → Option (State × Allocation)
  pub free : State → Allocation → State
  pub largest_free : State → ℕ
  pub total_free : State → ℕ
  pub max_allocs : ℕ
  pub owns : State → Allocation → ℕ → Bool
  pub capacity : ℕ
  pub owns-inside : (s : State) (al : Allocation) (u : ℕ) → owns s al u ≡ true → u < capacity
  pub alloc-gives :
      (s s' : State) (n u : ℕ) (al : Allocation)
      → alloc s n ≡ some (s', al)
      → al.offset ≤ u
      → u < al.offset + n
      → owns s' al u ≡ true
  pub alloc-apart :
      (s s' : State) (n u : ℕ) (al other : Allocation)
      → alloc s n ≡ some (s', al)
      → owns s other u ≡ true
      → (u < al.offset) ⊎ (al.offset + n ≤ u)
  pub alloc-keeps :
      (s s' : State) (n u : ℕ) (al other : Allocation)
      → alloc s n ≡ some (s', al)
      → owns s other u ≡ true
      → owns s' other u ≡ true
  pub free-keeps :
      (s : State) (u v : ℕ) (al other : Allocation)
      → other ≢ al
      → owns s al v ≡ true
      → owns s other u ≡ true
      → owns (free s al) other u ≡ true
