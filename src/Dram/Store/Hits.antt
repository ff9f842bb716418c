-- ===== src/Dram/Store/Hits.antt =====
-- internal/store/dram/store.go: a read answers with the bytes of the block that the index has.
use kvstash.Prelude.{ℕ, ◌+◌, ◌≡◌, ◌∙◌, refl, ap, true, false, some, leb, ◌==◌, ==_iff, arith}
use kvstash.Bytes.{Bytes}
use kvstash.Dram.BlockRef.{acquire}
use kvstash.Dram.Lifecycle.{grant_read_lease}
use kvstash.Dram.Index.{index_get}
use kvstash.Dram.Arena.{Arena}
use kvstash.Dram.Allocator.{Allocator}
use kvstash.Dram.Store.{Policy, Block, Store, update}
use kvstash.Dram.Store.Reads.{hit, block_bytes, answer, take_ref, get_ref}
use kvstash.Dram.Store.Space.{SamePlace}
use kvstash.Dram.Lifecycle.Keeps.{grant_read_lease-Keeps}
use kvstash.Dram.Store.Ledger.{Ledger}
use kvstash.Dram.Store.Safe.{Safe}

place-block_bytes :
    (arena : Arena) (b c : Block) → SamePlace b c → block_bytes arena c ≡ block_bytes arena b
unfolding block_bytes
place-block_bytes arena b c same = rw (same.extent, same.len) refl

module _ {A : Allocator} {P : Policy} where
  answer-hit :
      (s : Store A P) (p : ℕ) (bs : Bytes)
      → block_bytes s.arena (s.heap p) ≡ some bs
      → answer s p ≡ hit bs (s.heap p).xxh3 p
  unfolding answer
  answer-hit s p bs e = rw (answer, e) refl

module _ {A : Allocator} {P : Policy} (shard_of : ℕ → ℕ) where
  module _ (s : Store A P) (l : Ledger) (k now : ℕ) (h : Safe shard_of s l) where
    -- What the index has is read.
    pub get_ref-hit :
        (p : ℕ)
        → index_get shard_of s.index k ≡ some p
        → (get_ref shard_of s k now).1 ≡ hit (l.content p) (s.heap p).xxh3 p
    unfolding get_ref take_ref acquire update
    get_ref-hit p at_k =
        let there = h.refs.shelved k p at_k in
        let count = h.refs.counted p there.2 in
        let some_refs : leb (s.heap p).ref.refcount 0 ≡ false = ground (arith, count, there.0) in
        let self : p == p ≡ true = (==_iff p p).1 refl in
        let r = record (s.heap p).ref { refcount = (s.heap p).ref.refcount + 1 } in
        let b : Block = record (s.heap p) {
          ref = grant_read_lease s.life r now;
          hits = (s.heap p).hits + 1;
        } in
        let s' : Store A P = record s {
          heap = update s.heap p b;
          policy = P.touch s.policy k now;
        } in
        let there_b : s'.heap p ≡ b = rw self refl in
        let bytes : block_bytes s.arena (s'.heap p) ≡ some (l.content p) =
          ap (block_bytes s.arena) there_b
          ∙ place-block_bytes s.arena (s.heap p) b
              (record { len = (grant_read_lease-Keeps s.life r now).len; extent = refl })
          ∙ h.space.kept p (omega (arith, there.0)) in
        rw (get_ref, at_k, take_ref, acquire, some_refs)
          (answer-hit s' p (l.content p) bytes
            ∙ ap (λ (x : Block). hit (l.content p) x.xxh3 p) there_b)
