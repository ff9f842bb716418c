-- ===== src/Nvme/Index/Refinement.antt =====
-- internal/store/nvmeindex.go: over any sequence of writes the sharded index is a map in which the later write
-- wins.
use kvstash.Prelude.{
  ℕ, ◌+◌, ◌-◌, ◌<◌, ◌≡◌, ◌∙◌, refl, sym, ap, subst, fun_ext, inl, inr, Bool-cases, Option-cases,
  Option, none, some, List, [], ◌∷◌, ◌==◌, if◌then◌else◌, arith,
}
use kvstash.Assoc.{find, erase, put, find-put}
use kvstash.Assoc.Unique.{find-erase}
use kvstash.Shards.{
  IsCounted, set_shard, insert-IsCounted, replace-IsCounted, erase-IsCounted, shard-within,
  find-set_shard, find-same,
}
use kvstash.Protocol.Ops.{status_ok}
use kvstash.Nvme.Index.{
  NvmeRef, NvmeIndex, nvme_index_shards, nvme_get, put_then, dropped, nvme_delete_if,
}

-- A write to the index.
pub data Write : Type 0 where
  store : ℕ → NvmeRef → Write
  drop_if : ℕ → (NvmeRef → ℕ) → Write

pub key : Write → ℕ
key (store k r) = k
key (drop_if k gate) = k

-- What a write leaves under its key.
pub after : Write → Option NvmeRef → Option NvmeRef
after (store k r) o = some r
after (drop_if k gate) none = none
after (drop_if k gate) (some r) = if gate r == status_ok then none else some r

-- A map that takes the writes.
pub write_map : List Write → (ℕ → Option NvmeRef) → ℕ → Option NvmeRef
write_map [] f = f
write_map (c ∷ cs) f = write_map cs (λ j. if j == key c then after c (f (key c)) else f j)

-- No key stands twice, and the counters are the number and the bytes of the blocks.
abbrev pub IsNvmeIndexed : NvmeIndex → Type 0
IsNvmeIndexed idx =
    IsCounted (λ (r : NvmeRef). r.len) nvme_index_shards idx.shards idx.blocks idx.bytes

module _ (shard_for : ℕ → ℕ) {L : Type 0} (fn : L → L) (ledger : L) where
  pub write : NvmeIndex → Write → NvmeIndex
  write idx (store k r) = (put_then shard_for idx k r fn ledger).0
  write idx (drop_if k gate) = (nvme_delete_if shard_for idx k gate).0

  pub writes : List Write → NvmeIndex → NvmeIndex
  writes [] idx = idx
  writes (c ∷ cs) idx = writes cs (write idx c)

module _ (shard_for : ℕ → ℕ) (in_range : (k : ℕ) → shard_for k < nvme_index_shards) where
  -- The index after a write is sound, and is the map after it.
  record Follows (idx : NvmeIndex) (c : Write) (next : NvmeIndex) : Type 0 where
    sound : IsNvmeIndexed next
    lookup :
        (j : ℕ)
        → nvme_get shard_for next j ≡ (
            if j == key c
            then after c (nvme_get shard_for idx (key c))
            else nvme_get shard_for idx j)

  stays :
      (idx : NvmeIndex) (c : Write) (o : Option NvmeRef)
      → IsNvmeIndexed idx
      → nvme_get shard_for idx (key c) ≡ o
      → after c o ≡ o
      → Follows idx c idx
  unfolding nvme_get
  stays idx c o h e a = record {
    sound = h;
    lookup = λ j.
        find-same shard_for idx.shards j (key c) (after c (nvme_get shard_for idx (key c)))
          (e ∙ sym a ∙ ap (after c) (sym e));
  }

  changes :
      (idx : NvmeIndex) (c : Write) (blocks' bytes' : ℕ) (m' : List (ℕ × NvmeRef))
      (o : Option NvmeRef)
      → nvme_get shard_for idx (key c) ≡ o
      → IsNvmeIndexed (record {
        shards = set_shard idx.shards (shard_for (key c)) m';
        blocks = blocks';
        bytes = bytes';
      })
      → ((i : ℕ)
          → find i m' ≡ (if i == key c then after c o else find i (idx.shards (shard_for (key c)))))
      → Follows idx c (record {
        shards = set_shard idx.shards (shard_for (key c)) m';
        blocks = blocks';
        bytes = bytes';
      })
  unfolding nvme_get
  changes idx c blocks' bytes' m' o e h l = record {
    sound = h;
    lookup = λ j.
        find-set_shard shard_for idx.shards j (key c) m' (after c (nvme_get shard_for idx (key c)))
          (λ i.
            l i
            ∙ ap (λ x. if i == key c then after c x else find i (idx.shards (shard_for (key c))))
                (sym e));
  }

  module _ {L : Type 0} (fn : L → L) (ledger : L) where
    store-Follows :
        (idx : NvmeIndex) (k : ℕ) (r : NvmeRef)
        → IsNvmeIndexed idx
        → Follows idx (store k r) (write shard_for fn ledger idx (store k r))
    unfolding write put_then nvme_get key after
    store-Follows idx k r h =
        let m = idx.shards (shard_for k) in
        let m' = set_shard idx.shards (shard_for k) (put k r m) in
        elim (Option-cases (find k m)) [
          | inl f ↦
              let e : record { shards = m'; blocks = idx.blocks + 1; bytes = idx.bytes + r.len }
                  ≡ write shard_for fn ledger idx (store k r) =
                rw (write, put_then, f) refl in
              subst (Follows idx (store k r)) e (
                changes idx (store k r) (idx.blocks + 1) (idx.bytes + r.len) (put k r m) none f
                  (insert-IsCounted (λ (x : NvmeRef). x.len) nvme_index_shards shard_for in_range
                    idx.shards idx.blocks idx.bytes k h r f)
                  (λ i. find-put i k r m))
          | inr (cur, f) ↦
              let within =
                shard-within (λ (x : NvmeRef). x.len) nvme_index_shards shard_for in_range
                  idx.shards idx.blocks idx.bytes k h cur f in
              let e : record {
                shards = m';
                blocks = idx.blocks;
                bytes = idx.bytes + r.len - cur.len;
              }
                  ≡ write shard_for fn ledger idx (store k r) =
                rw (write, put_then, f) refl in
              subst (Follows idx (store k r)) e (
                changes idx (store k r) idx.blocks (idx.bytes + r.len - cur.len) (put k r m)
                  (some cur) f
                  (replace-IsCounted (λ (x : NvmeRef). x.len) nvme_index_shards shard_for in_range
                    idx.shards idx.blocks idx.bytes k h r cur (idx.bytes + r.len - cur.len) f
                    (omega (arith, within.1)))
                  (λ i. find-put i k r m))
        ]

    drop_if-Follows :
        (idx : NvmeIndex) (k : ℕ) (gate : NvmeRef → ℕ)
        → IsNvmeIndexed idx
        → Follows idx (drop_if k gate) (write shard_for fn ledger idx (drop_if k gate))
    unfolding write nvme_delete_if nvme_get key after
    drop_if-Follows idx k gate h =
        let m = idx.shards (shard_for k) in
        elim (Option-cases (find k m)) [
          | inl f ↦
              let e : idx ≡ write shard_for fn ledger idx (drop_if k gate) =
                rw (write, nvme_delete_if, f) refl in
              subst (Follows idx (drop_if k gate)) e (stays idx (drop_if k gate) none h f refl)
          | inr (r, f) ↦ elim (Bool-cases (gate r == status_ok)) [
            | inl g ↦
                let e : dropped shard_for idx k r ≡ write shard_for fn ledger idx (drop_if k gate) =
                  rw (write, nvme_delete_if, f, g) refl in
                let gone : none ≡ after (drop_if k gate) (some r) = rw g refl in
                subst (Follows idx (drop_if k gate)) e (
                  changes idx (drop_if k gate) (idx.blocks - 1) (idx.bytes - r.len) (erase k m)
                    (some r) f
                    (erase-IsCounted (λ (x : NvmeRef). x.len) nvme_index_shards shard_for in_range
                      idx.shards idx.blocks idx.bytes k h r f)
                    (λ i.
                      find-erase i k m (h.unique (shard_for k))
                      ∙ ap (λ x. if i == k then x else find i m) gone))
            | inr g ↦
                let e : idx ≡ write shard_for fn ledger idx (drop_if k gate) =
                  rw (write, nvme_delete_if, f, g) refl in
                subst (Follows idx (drop_if k gate)) e
                  (stays idx (drop_if k gate) (some r) h f (rw g refl))
          ]
        ]

    -- On a sound index, whatever hash picks the shards, and for any sequence of putThen and deleteIf: the lookups
    -- are those of one map that takes the same writes, where a later put replaces an earlier one; no key stands
    -- twice, and the counters are the number and the bytes of the blocks in the shards, overwritten ones not
    -- counted.
    pub writes-write_map :
        (cs : List Write) (idx : NvmeIndex)
        → IsNvmeIndexed idx
        → IsNvmeIndexed (writes shard_for fn ledger cs idx)
          × (nvme_get shard_for (writes shard_for fn ledger cs idx)
              ≡ write_map cs (nvme_get shard_for idx))
    unfolding writes write_map
    writes-write_map [] idx h = (h, refl)
    writes-write_map (store k r ∷ cs) idx h =
        let s = store-Follows idx k r h in
        let rest = writes-write_map cs (write shard_for fn ledger idx (store k r)) s.sound in
        (rest.0, rest.1 ∙ ap (write_map cs) (fun_ext s.lookup))
    writes-write_map (drop_if k gate ∷ cs) idx h =
        let s = drop_if-Follows idx k gate h in
        let rest = writes-write_map cs (write shard_for fn ledger idx (drop_if k gate)) s.sound in
        (rest.0, rest.1 ∙ ap (write_map cs) (fun_ext s.lookup))
