-- ===== src/Dram/Store/Safe/Always.antt =====
-- internal/store/dram: what every run of the memory tier has.
use kvstash.Prelude.{
  ℕ, ◌+◌, ◌≡◌, refl, subst, true, false, ◌&&◌, not, if-both, Bool-cases, ==_iff, inl, inr, Option,
  none, some, ◌==◌, arith,
}
use kvstash.Dram.Allocator.{Allocator}
use kvstash.Dram.Store.{Policy, update, len_of}
use kvstash.Dram.BlockRef.{acquire}
use kvstash.Protocol.Ops.{status_ok}
use kvstash.Dram.Store.Puts.{put_charge, put_publish}
use kvstash.Dram.Store.Ledger.{Ledger}
use kvstash.Dram.Store.World.{
  World, removed_from, Step, stages, charges, publishes, reads, demotion_reads, drops, withdraws,
  evicts, demotes, retires_deleted, retires_evicted, retires_demoted, touches, pins,
}
use kvstash.Dram.Store.World.Runs.{Runs, here, next}
use kvstash.Dram.Store.Safe.{Safe}
use kvstash.Dram.Store.Safe.Puts.{
  StagedSafe, staged-Safe, IsNext, staged-IsNext, Charged-Safe, Published-Safe,
}
use kvstash.Dram.Store.Safe.Calls.{
  read-Safe, demotion_read-Safe, touched-Safe, pinned-Safe, cut_out-Safe, forgotten-Safe,
  retired-Safe, retired_deleted-Safe, retired_evicted-Safe,
}
use kvstash.Dram.Store.Safe.{dropped-Safe}

-- What was put into a block that was published, and under which key, is never changed.
pub record Remembers (l m : Ledger) (p : ℕ) : Type 0 where
  pub still : m.seen p ≡ true
  pub owner : m.owner p ≡ l.owner p
  pub content : m.content p ≡ l.content p

same : (l : Ledger) (p : ℕ) → l.seen p ≡ true → Remembers l l p
same l p t = record { still = t; owner = refl; content = refl }

removed : (l : Ledger) (p : ℕ) → l.seen p ≡ true → (o : Option ℕ) → Remembers l (removed_from l o) p
removed l p t none = same l p t
removed l p t (some q) = record { still = t; owner = refl; content = refl }

module _ {A : Allocator} {P : Policy} (shard_of : ℕ → ℕ) where
  abbrev pub IsSafe : World A P → Type 0
  IsSafe w = Safe shard_of w.store w.ledger

  pub Step-IsSafe : {w v : World A P} → Step shard_of w v → IsSafe w → IsSafe v
  Step-IsSafe (stages s s' l ns k bs xxh3 p e) h =
      subst (StagedSafe shard_of s l ns k bs xxh3 h) e (staged-Safe shard_of s l ns k bs xxh3 h)
  Step-IsSafe (charges s l p w) h = Charged-Safe shard_of s l p w h
  Step-IsSafe (publishes s l p now w) h = Published-Safe shard_of s l p w h now
  Step-IsSafe (reads s l k p now t) h = read-Safe shard_of s l k p now t h
  Step-IsSafe (demotion_reads s l p t) h = demotion_read-Safe shard_of s l p t h
  Step-IsSafe (drops s l p t) h = dropped-Safe shard_of s l p t h
  Step-IsSafe (withdraws s l k force now) h =
      cut_out-Safe shard_of s l k h _ _ (λ t m p. forgotten-Safe shard_of k t m p)
  Step-IsSafe (evicts s l k emergency now) h =
      cut_out-Safe shard_of s l k h _ _ (λ t m p. forgotten-Safe shard_of k t m p)
  Step-IsSafe (demotes s l k xxh3 now) h = cut_out-Safe shard_of s l k h _ _ (λ t m p i. i)
  Step-IsSafe (retires_deleted s l p t) h = retired_deleted-Safe shard_of s l p t h
  Step-IsSafe (retires_evicted s l p t) h = retired_evicted-Safe shard_of s l p t h
  Step-IsSafe (retires_demoted s l p more t) h =
      retired-Safe shard_of (record s { evictions = s.evictions + more }) l p t h
  Step-IsSafe (touches s l k p sub ttl_ms now t) h = touched-Safe shard_of s l k p sub ttl_ms now h
  Step-IsSafe (pins s l k sub) h = pinned-Safe shard_of s l k sub h

  pub Runs-IsSafe : {w v : World A P} → Runs shard_of w v → IsSafe w → IsSafe v
  Runs-IsSafe here h = h
  Runs-IsSafe (next r s) h = Step-IsSafe s (Runs-IsSafe r h)

  pub Step-Remembers :
      {w v : World A P} (p : ℕ)
      → Step shard_of w v
      → IsSafe w
      → w.ledger.seen p ≡ true
      → Remembers w.ledger v.ledger p
  unfolding update
  Step-Remembers p (stages s s' l ns k bs xxh3 q e) h t =
      let new : q ≡ s.next =
        subst (IsNext shard_of s l ns k bs xxh3 h) e (staged-IsNext shard_of s l ns k bs xxh3 h) in
      let other : p == q ≡ false = elim (Bool-cases (p == q)) [
        | inl g ↦ absurd (cc (t, (h.refs.fresh p (omega (arith, (==_iff p q).0 g, new))).2))
        | inr g ↦ g
      ] in
      record { still = t; owner = rw other refl; content = rw other refl }
  Step-Remembers p (charges s l q w) h t =
      if-both (λ m. Remembers l m p) (put_charge s q).1
        (λ e. record { still = t; owner = refl; content = refl })
        (λ e. record { still = t; owner = refl; content = refl })
  Step-Remembers p (publishes s l q now w) h t =
      if-both (λ m. Remembers l m p) ((put_publish shard_of s (l.owner q) q now).1 == status_ok)
        (λ e. record { still = ground (arith, t); owner = refl; content = refl })
        (λ e. record { still = t; owner = refl; content = refl })
  Step-Remembers p (reads s l k q now u) h t =
      if-both (λ m. Remembers l m p) (acquire (s.heap q).ref).1
        (λ e. record { still = t; owner = refl; content = refl })
        (λ e. record { still = t; owner = refl; content = refl })
  Step-Remembers p (demotion_reads s l q u) h t =
      if-both (λ m. Remembers l m p) (not (len_of s q == 0) && (acquire (s.heap q).ref).1)
        (λ e. record { still = t; owner = refl; content = refl })
        (λ e. record { still = t; owner = refl; content = refl })
  Step-Remembers p (drops s l q u) h t = record { still = t; owner = refl; content = refl }
  Step-Remembers p (withdraws s l k force now) h t = removed l p t _
  Step-Remembers p (evicts s l k emergency now) h t = removed l p t _
  Step-Remembers p (demotes s l k xxh3 now) h t = removed l p t _
  Step-Remembers p (retires_deleted s l q u) h t = record {
    still = t;
    owner = refl;
    content = refl;
  }
  Step-Remembers p (retires_evicted s l q u) h t = record {
    still = t;
    owner = refl;
    content = refl;
  }
  Step-Remembers p (retires_demoted s l q more u) h t = record {
    still = t;
    owner = refl;
    content = refl;
  }
  Step-Remembers p (touches s l k q sub ttl_ms now u) h t = record {
    still = t;
    owner = refl;
    content = refl;
  }
  Step-Remembers p (pins s l k sub) h t = record { still = t; owner = refl; content = refl }
