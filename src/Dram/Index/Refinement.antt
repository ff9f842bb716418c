-- ===== src/Dram/Index/Refinement.antt =====
-- internal/store/dram/index.go: over any sequence of calls the sharded index is a map that keeps the first
-- block published under a key.
use kvstash.Prelude.{
  ℕ, ◌+◌, ◌-◌, ◌<◌, ◌≡◌, ◌∙◌, refl, sym, ap, subst, fun_ext, inl, inr, Bool-cases, Option-cases,
  Option, none, some, List, [], ◌∷◌, All, ◌==◌, if◌then◌else◌, arith,
}
use kvstash.Assoc.{find, erase, put, find-put}
use kvstash.Assoc.Unique.{find-erase}
use kvstash.Shards.{
  set_shard, insert-IsCounted, replace-IsCounted, erase-IsCounted, find-set_shard, find-same,
}
use kvstash.Protocol.Ops.{status_ok}
use kvstash.Dram.BlockRef.{BlockRef}
use kvstash.Dram.Index.{
  Index, index_shards, set_shard, index_get, index_put, removed, index_delete, delete_if,
  with_shard_lock,
}
use kvstash.Dram.Index.Calls.{
  ref_len, Call, publish, withdraw, withdraw_if, rewrite_block, KeepsLen, after, key, run_map, call,
  run, IsIndexed, stepped,
}

module _ (shard_of : ℕ → ℕ) (in_range : (k : ℕ) → shard_of k < index_shards) where
  -- The index after a call is sound, and is the map after it.
  record Follows (idx : Index BlockRef) (c : Call) (next : Index BlockRef) : Type 0 where
    sound : IsIndexed next
    lookup : (j : ℕ) → index_get shard_of next j ≡ stepped c (index_get shard_of idx) j

  stays :
      (idx : Index BlockRef) (c : Call) (o : Option BlockRef)
      → IsIndexed idx
      → index_get shard_of idx (key c) ≡ o
      → after c o ≡ o
      → Follows idx c idx
  unfolding index_get
  stays idx c o h e a = record {
    sound = h;
    lookup = λ j.
        find-same shard_of idx.shards j (key c) (after c (index_get shard_of idx (key c)))
          (e ∙ sym a ∙ ap (after c) (sym e));
  }

  -- One shard changes, under the key of the call.
  changes :
      (idx : Index BlockRef) (c : Call) (blocks' bytes' : ℕ) (m' : List (ℕ × BlockRef))
      (o : Option BlockRef)
      → index_get shard_of idx (key c) ≡ o
      → IsIndexed (record {
        shards = set_shard idx.shards (shard_of (key c)) m';
        blocks = blocks';
        bytes = bytes';
      })
      → ((i : ℕ)
          → find i m' ≡ (if i == key c then after c o else find i (idx.shards (shard_of (key c)))))
      → Follows idx c (record {
        shards = set_shard idx.shards (shard_of (key c)) m';
        blocks = blocks';
        bytes = bytes';
      })
  unfolding index_get
  changes idx c blocks' bytes' m' o e h l = record {
    sound = h;
    lookup = λ j.
        find-set_shard shard_of idx.shards j (key c) m' (after c (index_get shard_of idx (key c)))
          (λ i.
            l i
            ∙ ap (λ x. if i == key c then after c x else find i (idx.shards (shard_of (key c))))
                (sym e));
  }

  -- A published block is withdrawn.
  erased :
      (idx : Index BlockRef) (c : Call) (r : BlockRef)
      → IsIndexed idx
      → index_get shard_of idx (key c) ≡ some r
      → after c (some r) ≡ none
      → Follows idx c (removed ref_len shard_of idx (key c) r)
  unfolding index_get
  erased idx c r h f a =
      let k = key c in
      let m = idx.shards (shard_of k) in
      changes idx c (idx.blocks - 1) (idx.bytes - r.len) (erase k m) (some r) f
        (erase-IsCounted ref_len index_shards shard_of in_range idx.shards idx.blocks idx.bytes k h
          r f)
        (λ i.
          find-erase i k m (h.unique (shard_of k))
          ∙ ap (λ x. if i == k then x else find i m) (sym a))

  publish-Follows :
      (idx : Index BlockRef) (k : ℕ) (r : BlockRef)
      → IsIndexed idx
      → Follows idx (publish k r) (call shard_of idx (publish k r))
  unfolding call index_put index_get key after
  publish-Follows idx k r h =
      let m = idx.shards (shard_of k) in
      elim (Option-cases (find k m)) [
        | inl f ↦
            let e : record {
              shards = set_shard idx.shards (shard_of k) (put k r m);
              blocks = idx.blocks + 1;
              bytes = idx.bytes + r.len;
            }
                ≡ call shard_of idx (publish k r) =
              rw (call, index_put, f) refl in
            subst (Follows idx (publish k r)) e (
              changes idx (publish k r) (idx.blocks + 1) (idx.bytes + r.len) (put k r m) none f
                (insert-IsCounted ref_len index_shards shard_of in_range idx.shards idx.blocks
                  idx.bytes k h r f)
                (λ i. find-put i k r m))
        | inr (cur, f) ↦
            let e : idx ≡ call shard_of idx (publish k r) = rw (call, index_put, f) refl in
            subst (Follows idx (publish k r)) e (stays idx (publish k r) (some cur) h f refl)
      ]

  withdraw-Follows :
      (idx : Index BlockRef) (k : ℕ)
      → IsIndexed idx
      → Follows idx (withdraw k) (call shard_of idx (withdraw k))
  unfolding call index_delete index_get key after
  withdraw-Follows idx k h = elim (Option-cases (find k (idx.shards (shard_of k)))) [
    | inl f ↦
        let e : idx ≡ call shard_of idx (withdraw k) = rw (call, index_delete, f) refl in
        subst (Follows idx (withdraw k)) e (stays idx (withdraw k) none h f refl)
    | inr (r, f) ↦
        let e : removed ref_len shard_of idx k r ≡ call shard_of idx (withdraw k) =
          rw (call, index_delete, f) refl in
        subst (Follows idx (withdraw k)) e (erased idx (withdraw k) r h f refl)
  ]

  withdraw_if-Follows :
      (idx : Index BlockRef) (k : ℕ) (gate : BlockRef → ℕ)
      → IsIndexed idx
      → Follows idx (withdraw_if k gate) (call shard_of idx (withdraw_if k gate))
  unfolding call delete_if index_get key after
  withdraw_if-Follows idx k gate h = elim (Option-cases (find k (idx.shards (shard_of k)))) [
    | inl f ↦
        let e : idx ≡ call shard_of idx (withdraw_if k gate) = rw (call, delete_if, f) refl in
        subst (Follows idx (withdraw_if k gate)) e (stays idx (withdraw_if k gate) none h f refl)
    | inr (r, f) ↦ elim (Bool-cases (gate r == status_ok)) [
      | inl g ↦
          let e : removed ref_len shard_of idx k r ≡ call shard_of idx (withdraw_if k gate) =
            rw (call, delete_if, f, g) refl in
          subst (Follows idx (withdraw_if k gate)) e
            (erased idx (withdraw_if k gate) r h f (rw g refl))
      | inr g ↦
          let e : idx ≡ call shard_of idx (withdraw_if k gate) = rw (call, delete_if, f, g) refl in
          subst (Follows idx (withdraw_if k gate)) e
            (stays idx (withdraw_if k gate) (some r) h f (rw g refl))
    ]
  ]

  rewrite-Follows :
      (idx : Index BlockRef) (k : ℕ) (fn : BlockRef → BlockRef)
      → IsIndexed idx
      → ((r : BlockRef) → (fn r).len ≡ r.len)
      → Follows idx (rewrite_block k fn) (call shard_of idx (rewrite_block k fn))
  unfolding call with_shard_lock index_get key after
  rewrite-Follows idx k fn h same_len =
      let m = idx.shards (shard_of k) in
      elim (Option-cases (find k m)) [
        | inl f ↦
            let e : idx ≡ call shard_of idx (rewrite_block k fn) =
              rw (call, with_shard_lock, f) refl in
            subst (Follows idx (rewrite_block k fn)) e
              (stays idx (rewrite_block k fn) none h f refl)
        | inr (r, f) ↦
            let e : record {
              shards = set_shard idx.shards (shard_of k) (put k (fn r) m);
              blocks = idx.blocks;
              bytes = idx.bytes;
            }
                ≡ call shard_of idx (rewrite_block k fn) =
              rw (call, with_shard_lock, f) refl in
            subst (Follows idx (rewrite_block k fn)) e (
              changes idx (rewrite_block k fn) idx.blocks idx.bytes (put k (fn r) m) (some r) f
                (replace-IsCounted ref_len index_shards shard_of in_range idx.shards idx.blocks
                  idx.bytes k h (fn r) r idx.bytes f (omega (arith, same_len r)))
                (λ i. find-put i k (fn r) m))
      ]

  call-Follows :
      (idx : Index BlockRef) (c : Call)
      → KeepsLen c
      → IsIndexed idx
      → Follows idx c (call shard_of idx c)
  unfolding KeepsLen
  call-Follows idx (publish k r) l h = publish-Follows idx k r h
  call-Follows idx (withdraw k) l h = withdraw-Follows idx k h
  call-Follows idx (withdraw_if k gate) l h = withdraw_if-Follows idx k gate h
  call-Follows idx (rewrite_block k fn) l h = rewrite-Follows idx k fn h l

  -- On a sound index, whatever hash picks the shards, and for any sequence of publishing, withdrawing, gated
  -- withdrawing and rewriting under a shard's lock in which no rewriting changes a length: the lookups are those
  -- of one map through the same calls, in which a published block stays until it is withdrawn, so writes are
  -- once; no key stands twice, and the counters are the number and the bytes of the blocks in the shards.
  pub run-run_map :
      (cs : List Call) (idx : Index BlockRef)
      → All KeepsLen cs
      → IsIndexed idx
      → IsIndexed (run shard_of cs idx)
        × (index_get shard_of (run shard_of cs idx) ≡ run_map cs (index_get shard_of idx))
  unfolding run run_map
  run-run_map [] idx l h = (h, refl)
  run-run_map (c ∷ cs) idx l h =
      let s = call-Follows idx c l.0 h in
      let rest = run-run_map cs (call shard_of idx c) l.1 s.sound in
      (rest.0, rest.1 ∙ ap (run_map cs) (fun_ext s.lookup))
