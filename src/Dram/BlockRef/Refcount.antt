-- ===== src/Dram/BlockRef/Refcount.antt =====
-- internal/store/dram/blockref.go: the reference count against the readers and the index that hold it.
use kvstash.Prelude.{ℕ, ◌+◌, ◌-◌, ◌≤◌, ◌<◌, ◌≡◌, refl, Bool, false, if◌then◌else◌, arith}
use kvstash.Dram.BlockRef.{BlockRef, acquire, release}

-- A block with those who hold it: the readers, and the index while the block is in it. `frees` counts
-- the releases that told their caller to free the extent.
pub record Holders : Type 0 where
  pub block : BlockRef
  pub readers : ℕ
  pub indexed : ℕ
  pub frees : ℕ

unfoldable pub count : Bool → ℕ
count b = if b then 1 else 0

-- A reader tries to take a reference, a reader drops its own, the index drops its own.
pub data Step : Holders → Holders → Type 0 where
  gets :
      (s : Holders)
      → Step s (record s {
        block = (acquire s.block).0;
        readers = s.readers + count (acquire s.block).1;
      })
  reads :
      (s : Holders)
      → 0 < s.readers
      → Step s (record s {
        block = (release s.block).0;
        readers = s.readers - 1;
        frees = s.frees + count (release s.block).1;
      })
  deletes :
      (s : Holders)
      → 0 < s.indexed
      → Step s (record s {
        block = (release s.block).0;
        indexed = s.indexed - 1;
        frees = s.frees + count (release s.block).1;
      })

pub data Reach (s : Holders) : Holders → Type 0 where
  here : Reach s s
  next : {t u : Holders} → Reach s t → Step t u → Reach s u

-- The count is the references, and the extent is freed once, when the last of them is gone.
pub record IsHeld (s : Holders) : Type 0 where
  pub refs : s.block.refcount ≡ s.readers + s.indexed
  pub once : s.frees + s.indexed ≤ 1
  pub freed : 0 < s.frees → s.block.refcount ≡ 0
  pub kept : s.frees ≡ 0 → 0 < s.block.refcount

Step-IsHeld : {s t : Holders} → Step s t → IsHeld s → IsHeld t
unfolding acquire release count
Step-IsHeld (gets s) h = ground arith
Step-IsHeld (reads s l) h = ground arith
Step-IsHeld (deletes s l) h = ground arith

-- `Put` publishes a block with one reference, the index's own.
abbrev pub published : BlockRef → Holders
published r = record { block = record r { refcount = 1 }; readers = 0; indexed = 1; frees = 0 }

Reach-IsHeld : (r : BlockRef) {s : Holders} → Reach (published r) s → IsHeld s
Reach-IsHeld r here = record {
  refs = refl;
  once = omega arith;
  freed = λ h. absurd (omega arith);
  kept = λ h. omega arith;
}
Reach-IsHeld r (next p st) = Step-IsHeld st (Reach-IsHeld r p)

-- However readers and a delete interleave on a published block, its extent is freed at most once, never
-- while a reader or the index holds it, and always once nobody does; after that no reader gets it.
pub freed-exactly-once :
    (r : BlockRef) {s : Holders}
    → Reach (published r) s
    → (s.frees ≤ 1)
      × (0 < s.frees → (s.readers ≡ 0) × (s.indexed ≡ 0) × ((acquire s.block).1 ≡ false))
      × (s.readers ≡ 0 → s.indexed ≡ 0 → s.frees ≡ 1)
unfolding acquire
freed-exactly-once r p = let h = Reach-IsHeld r p in ground (arith, h.refs, h.once, h.freed, h.kept)
