-- ===== src/Protocol/Body/KeyList.antt =====
-- The key-list request body of BATCH_EXISTS, BATCH_GET, TOUCH_LEASE, PIN and DELETE.
pub mod Chunks
pub mod RoundTrip
use kvstash.Prelude.{ℕ, zero, suc, ◌+◌, ◌*◌, List, [], ◌∷◌, ◌++◌, length, leb, ◌==◌}
use kvstash.Outcome.{Outcome, ok, ◌>>=◌, ◌>>◌, guard}
use kvstash.Bytes.{Bytes, le, u_at}
use kvstash.Protocol.Body.{BodyError, body_length, key_count, slice_from, array_of}

pub record KeyList : Type 0 where
  pub aux : ℕ
  pub keys : List Bytes

-- The loop of `DecodeKeyList`, from round i on, with the rounds that are left.
pub read_keys : ℕ → ℕ → Bytes → List Bytes → Outcome BodyError (List Bytes)
read_keys zero i body dst = ok dst
read_keys (suc n) i body dst = do
  tail ← slice_from (8 + 32 * i) body
  read_keys n (i + 1) body (dst ++ array_of 32 tail ∷ [])

-- `DecodeKeyList`. (`int(n)` is n on a 64-bit build.)
unfoldable pub decode_key_list : Bytes → ℕ → List Bytes → Outcome BodyError KeyList
unfolding read_keys
decode_key_list body max_keys dst = do
  guard (leb 8 (length body)) body_length
  n ← u_at 4 0 body
  guard (leb n max_keys) key_count
  guard (length body == 8 + 32 * n) body_length
  aux ← u_at 4 4 body
  keys ← read_keys n 0 body dst
  ok (record { aux = aux; keys = keys })

pub append_keys : Bytes → List Bytes → Bytes
append_keys dst [] = dst
append_keys dst (k ∷ ks) = append_keys (dst ++ k) ks

-- `AppendKeyList`.
unfoldable pub append_key_list : Bytes → ℕ → List Bytes → Bytes
unfolding append_keys
append_key_list dst aux keys = append_keys ((dst ++ le 4 (length keys)) ++ le 4 aux) keys
