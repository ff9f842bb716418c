-- ===== src/Protocol/Body/Exists.antt =====
-- The BATCH_EXISTS response.
pub mod RoundTrip
use kvstash.Prelude.{
  ℕ, ◌+◌, ◌%◌, ◌^◌, Bool, true, false, ◌&&◌, ◌||◌, Option, none, some, List, ◌++◌, length, ◌==◌,
  if◌then◌else◌,
}
use kvstash.Outcome.{Outcome, ok, ◌>>=◌, ◌>>◌, guard}
use kvstash.Bytes.{Bytes, le, u_at, sub}
use kvstash.Protocol.Ops.{status_ok, status_ok_exists}
use kvstash.Protocol.Body.{
  BodyError, body_length, Preamble, append_preamble, decode_preamble, append_pad8, pad_to8_u64,
}

-- `perKey`, when the bitmap was negotiated; one byte a status.
unfoldable pub append_exists_resp : Bytes → ℕ → ℕ → Option Bytes → Bytes
append_exists_resp dst n_keys n_consecutive none =
    (append_preamble dst status_ok n_keys ++ le 4 n_consecutive) ++ le 4 0
append_exists_resp dst n_keys n_consecutive (some per_key) =
    append_pad8
      (((append_preamble dst status_ok n_keys ++ le 4 n_consecutive) ++ le 4 0) ++ per_key)
      (length per_key)

pub record ExistsResp : Type 0 where
  pub preamble : Preamble
  pub n_consecutive : ℕ
  pub per_key : Option Bytes

-- A status with a body behind the preamble.
abbrev pub has_body : ℕ → Bool
has_body s = s == status_ok || s == status_ok_exists

-- `want64`, in uint64.
abbrev pub exists_want : ℕ → Bool → ℕ
exists_want count true = (16 + pad_to8_u64 count) % 2 ^ 64
exists_want count false = 16

bitmap : ℕ → Bytes → Bool → Outcome BodyError (Option Bytes)
bitmap count body true = do bits ← sub 16 (16 + count) body; ok (some bits)
bitmap count body false = ok none

-- `DecodeExistsResp` behind the preamble.
pub exists_rest : Preamble → Bytes → Bool → Outcome BodyError ExistsResp
unfolding bitmap
exists_rest p body expect_bitmap =
    if has_body p.status
    then (do
      guard (length body == exists_want p.count expect_bitmap) body_length
      n ← u_at 4 8 body
      bits ← bitmap p.count body expect_bitmap
      ok (record { preamble = p; n_consecutive = n; per_key = bits }))
    else (do
      guard (length body == 8 && p.count == 0) body_length
      ok (record { preamble = p; n_consecutive = 0; per_key = none }))

-- `DecodeExistsResp`.
unfoldable pub decode_exists_resp : Bytes → Bool → Outcome BodyError ExistsResp
unfolding exists_rest
decode_exists_resp body expect_bitmap = do
  p ← decode_preamble body
  exists_rest p body expect_bitmap
