-- ===== src/Protocol/Body.antt =====
-- internal/protocol/batch.go: the codecs of request and response bodies. What all of them share: the
-- errors, the padding to 8 bytes, and the 8-byte preamble of a response.
pub mod Pad
pub mod KeyList
pub mod Exists
pub mod KeyStatus
pub mod GetResp
use kvstash.Prelude.{
  ℕ, zero, suc, ◌+◌, ◌-◌, ◌*◌, ◌/◌, ◌%◌, ◌^◌, Bool, List, [], ◌∷◌, ◌++◌, length, drop, leb,
  replicate, take, if◌then◌else◌,
}
use kvstash.Outcome.{Outcome, ok, panic, ◌>>=◌, ◌>>◌, guard}
use kvstash.Bytes.{Bytes, le, u_at}
use kvstash.Protocol.Ops.{status_err_malformed, status_err_batch_too_large}

-- `ErrBodyLength` and `ErrKeyCount`.
pub data BodyError : Type 0 where
  body_length key_count : BodyError

-- `ErrorStatus`, on the errors of this package.
unfoldable pub error_status : BodyError → ℕ
error_status body_length = status_err_malformed
error_status key_count = status_err_batch_too_large

-- `padTo8`: n + 7 with its three low bits cleared.
abbrev pub pad_to8 : ℕ → ℕ
pad_to8 n = (n + 7) / 8 * 8

-- `padTo8u64`, on uint64.
abbrev pub pad_to8_u64 : ℕ → ℕ
pad_to8_u64 n = (n + 7) % 2 ^ 64 / 8 * 8

append_zeros : ℕ → Bytes → Bytes
append_zeros zero dst = dst
append_zeros (suc k) dst = append_zeros k (dst ++ 0 ∷ [])

-- `appendPad8`: one zero for each i from `unpadded` to below its padded length.
unfoldable pub append_pad8 : Bytes → ℕ → Bytes
unfolding append_zeros
append_pad8 dst unpadded = append_zeros (pad_to8 unpadded - unpadded) dst

-- `b[off:]`.
unfoldable pub slice_from : ℕ → Bytes → Outcome BodyError Bytes
slice_from off b = if leb off (length b) then ok (drop off b) else panic

-- `copy(k[:], b)` into a zeroed array of n bytes.
abbrev pub array_of : ℕ → Bytes → Bytes
array_of n b = take n (b ++ replicate n 0)

abbrev pub preamble_size : ℕ
preamble_size = 8

pub record Preamble : Type 0 where
  pub status : ℕ
  pub count : ℕ

unfoldable pub append_preamble : Bytes → ℕ → ℕ → Bytes
append_preamble dst status count = (dst ++ status ∷ 0 ∷ 0 ∷ 0 ∷ []) ++ le 4 count

unfoldable pub append_error_resp : Bytes → ℕ → Bytes
unfolding append_preamble
append_error_resp dst status = append_preamble dst status 0

unfoldable pub decode_preamble : Bytes → Outcome BodyError Preamble
decode_preamble b = do
  guard (leb preamble_size (length b)) body_length
  s ← u_at 1 0 b
  c ← u_at 4 4 b
  ok (record { status = s; count = c })
