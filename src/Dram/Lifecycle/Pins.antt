-- ===== src/Dram/Lifecycle/Pins.antt =====
-- internal/store/dram/lifecycle.go: the pinned bytes of a namespace against its hard-pinned blocks.
use kvstash.Prelude.{ℕ, ◌+◌, ◌≤◌, ◌≡◌, ◌⊎◌, Bool, ◌&&◌, List, [], ◌∷◌, ◌++◌, ◌==◌, if◌then◌else◌}
use kvstash.Dram.BlockRef.{BlockRef, hard_pinned}
use kvstash.Dram.Lifecycle.{Lifecycle, cap_bytes, pin, unpin}

-- The bytes that one block, and that a list of blocks, holds pinned hard in a namespace.
pub debt : ℕ → BlockRef → ℕ
unfolding hard_pinned
debt ns r = if r.ns == ns && hard_pinned r then r.len else 0

pub debts : ℕ → List BlockRef → ℕ
unfolding debt
debts ns [] = 0
debts ns (r ∷ rs) = debt ns r + debts ns rs

-- A cap of 0 binds nothing.
abbrev pub Within : Lifecycle → ℕ → Type 0
Within l ns = (cap_bytes l ns ≡ 0) ⊎ (l.debits ns ≤ cap_bytes l ns)

-- The resident blocks with the books, and what happens to one of them under the shard's lock: it is
-- inserted without a pin, pinned, unpinned, or unpinned as it leaves the index.
pub record Shard : Type 0 where
  pub books : Lifecycle
  pub blocks : List BlockRef

pub data Step : Shard → Shard → Type 0 where
  inserts :
      (l : Lifecycle) (xs : List BlockRef) (r : BlockRef)
      → r.pin_flags ≡ 0
      → Step (record { books = l; blocks = xs }) (record { books = l; blocks = r ∷ xs })
  pins :
      (l : Lifecycle) (xs ys : List BlockRef) (r : BlockRef) (hard : Bool)
      → Step
          (record { books = l; blocks = xs ++ r ∷ ys })
          (record { books = (pin l r hard).0; blocks = xs ++ (pin l r hard).1 ∷ ys })
  unpins :
      (l : Lifecycle) (xs ys : List BlockRef) (r : BlockRef)
      → Step
          (record { books = l; blocks = xs ++ r ∷ ys })
          (record { books = (unpin l r).0; blocks = xs ++ (unpin l r).1 ∷ ys })
  deletes :
      (l : Lifecycle) (xs ys : List BlockRef) (r : BlockRef)
      → Step
          (record { books = l; blocks = xs ++ r ∷ ys })
          (record { books = (unpin l r).0; blocks = xs ++ ys })

pub data Reach (s : Shard) : Shard → Type 0 where
  here : Reach s s
  next : {t u : Shard} → Reach s t → Step t u → Reach s u

-- The debits are the bytes that the resident blocks hold pinned hard, and within the caps.
pub record IsPaid (s : Shard) : Type 0 where
  pub debits : (ns : ℕ) → s.books.debits ns ≡ debts ns s.blocks
  pub within : (ns : ℕ) → Within s.books ns

-- An index without blocks, and books without debits.
abbrev pub started : ℕ → ℕ → ℕ → (ℕ → ℕ) → Shard
started lease_default lease_max cap cap_for = record {
  books = record {
    lease_default_ms = lease_default;
    lease_max_ms = lease_max;
    pinned_cap = cap;
    pin_cap_for = cap_for;
    debits = λ ns. 0;
    ttl_blocks = 0;
  };
  blocks = [];
}
