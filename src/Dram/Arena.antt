-- ===== src/Dram/Arena.antt =====
-- internal/store/dram/arena.go: the mapped region that holds the bytes of the blocks, open. The mapping of pages
-- is the system's.
pub mod Copies
use kvstash.Prelude.{
  ℕ, zero, suc, ◌+◌, ◌-◌, Bool, ◌||◌, Option, none, some, [], ◌∷◌, length, ltb, ◌==◌, if◌then◌else◌,
}
use kvstash.Bytes.{Bytes}

pub record Arena : Type 0 where
  pub mem : ℕ → ℕ
  pub size : ℕ

-- The bytes of a slice of the region.
unfoldable pub view : (ℕ → ℕ) → ℕ → ℕ → Bytes
view mem off zero = []
view mem off (suc n) = mem off ∷ view mem (off + 1) n

-- `copy` into a slice of the region.
unfoldable pub copy_at : (ℕ → ℕ) → ℕ → Bytes → (ℕ → ℕ)
copy_at mem off [] = mem
copy_at mem off (b ∷ bs) =
    let rest = copy_at mem (off + 1) bs in λ a. if a == off then b else rest a

-- The bounds check of `Bytes`, which panics where this is true.
unfoldable pub out_of_arena : Arena → ℕ → ℕ → Bool
out_of_arena a off n = ltb a.size off || ltb (a.size - off) n

-- `Bytes`, none if it panics.
unfoldable pub arena_bytes : Arena → ℕ → ℕ → Option Bytes
arena_bytes a off n = if out_of_arena a off n then none else some (view a.mem off n)

-- A copy into the slice that `Bytes` gives, none if that panics.
unfoldable pub arena_copy : Arena → ℕ → Bytes → Option Arena
arena_copy a off bs =
    if out_of_arena a off (length bs) then none else some (record a { mem = copy_at a.mem off bs })
