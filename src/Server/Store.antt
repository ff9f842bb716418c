-- ===== src/Server/Store.antt =====
-- What a session takes as given: the operations of the store that it serves, which internal/server
-- reads through interfaces, and the xxh3 hash of github.com/zeebo/xxh3, which is not part of the program.
use kvstash.Prelude.{ℕ, ◌≡◌, Bool, Option, List, [], ◌++◌}
use kvstash.Bytes.{Bytes}

-- What a read finds: GetRefTier's, GetRef's or Get's results, after which of them the store has. `rel` is
-- the callback that gives the block's reference back.
pub record Fetched (Rel : Type 0) : Type 0 where
  pub hit : Bool
  pub busy : Bool
  pub bytes : Bytes
  pub sum : ℕ
  pub rel : Option Rel

-- The store behind a session, with the calls that its handlers make: the interfaces Store, lifecycler,
-- quotaChecker and tierRefGetter of internal/server/server.go. A call that may evict, charge or commit
-- returns the store after it.
pub record StoreOps : Type 1 where
  pub State : Type 0
  pub Rel : Type 0
  pub contains : State → ℕ → Bytes → Bool
  pub can_store : State → ℕ → ℕ → State × Bool
  pub commit : State → ℕ → Bytes → Bytes → ℕ → State × ℕ
  pub touch_ttl : State → ℕ → Bytes → ℕ → State
  pub exists_prefix : State → ℕ → List Bytes → Bool → ℕ × Option Bytes
  pub fetch : State → ℕ → Bytes → State × Fetched Rel
  pub release : Rel → State → State
  pub has_lifecycle : Bool
  pub touch_lease : State → ℕ → Bytes → ℕ → ℕ → State × ℕ
  pub pin_op : State → ℕ → Bytes → ℕ → State × ℕ
  pub delete : State → ℕ → Bytes → Bool → State × ℕ
  pub stats : State → ℕ → Bytes

-- `xxh3.Hash`, and a running `xxh3.Hasher`, whose sum is the hash of all that was written to it.
pub record Hasher : Type 1 where
  pub Digest : Type 0
  pub hash : Bytes → ℕ
  pub fresh : Digest
  pub absorb : Digest → Bytes → Digest
  pub sum64 : Digest → ℕ
  pub fed : Bytes → Digest
  pub fed-nil : fed [] ≡ fresh
  pub absorb-fed : (bs cs : Bytes) → absorb (fed bs) cs ≡ fed (bs ++ cs)
  pub sum64-fed : (bs : Bytes) → sum64 (fed bs) ≡ hash bs
