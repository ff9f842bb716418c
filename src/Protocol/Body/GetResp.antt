-- ===== src/Protocol/Body/GetResp.antt =====
-- The header region of a BATCH_GET response: the descriptor table.
pub mod Table
pub mod RoundTrip
use kvstash.Prelude.{
  ℕ, ◌+◌, ◌*◌, ◌%◌, ◌^◌, ◌&&◌, List, [], ◌∷◌, ◌++◌, length, leb, replicate, ◌==◌, if◌then◌else◌,
}
use kvstash.Outcome.{Outcome, ok, ◌>>=◌, ◌>>◌, guard, bounds}
use kvstash.Bytes.{Bytes, le, u_at, sub, put_at}
use kvstash.Protocol.Body.{
  BodyError, body_length, Preamble, append_preamble, decode_preamble, slice_from,
}
use kvstash.Protocol.Body.Exists.{has_body}

abbrev pub desc_size : ℕ
desc_size = 16

pub record Desc : Type 0 where
  pub status : ℕ
  pub len : ℕ
  pub xxh3 : ℕ

-- `PutDesc`: the region that is passed, with its first 16 bytes written.
unfoldable pub put_desc : Bytes → Desc → Outcome BodyError Bytes
put_desc b₀ d = do
  bounds (leb desc_size (length b₀))
  b₁ ← put_at 0 (le 1 d.status) b₀
  b₂ ← put_at 1 (0 ∷ 0 ∷ 0 ∷ []) b₁
  b₃ ← put_at 4 (le 4 d.len) b₂
  put_at 8 (le 8 d.xxh3) b₃

-- `GetDesc`.
unfoldable pub get_desc : Bytes → Outcome BodyError Desc
get_desc b = do
  bounds (leb desc_size (length b))
  s ← u_at 1 0 b
  n ← u_at 4 4 b
  x ← u_at 8 8 b
  ok (record { status = s; len = n; xxh3 = x })

-- `GetRespHeaderSize`.
abbrev pub get_resp_header_size : ℕ → ℕ
get_resp_header_size n = 16 + desc_size * n

pub append_descs : Bytes → List Desc → Outcome BodyError Bytes
append_descs dst [] = ok dst
append_descs dst (d ∷ ds) = do db ← put_desc (replicate desc_size 0) d; append_descs (dst ++ db) ds

-- `AppendGetRespHeader`.
unfoldable pub append_get_resp_header : Bytes → ℕ → ℕ → ℕ → List Desc → Outcome BodyError Bytes
append_get_resp_header dst status first_index total_keys descs =
    append_descs
      ((append_preamble dst status (length descs) ++ le 4 first_index) ++ le 4 total_keys) descs

pub record GetRespHeader : Type 0 where
  pub preamble : Preamble
  pub first_index : ℕ
  pub total_keys : ℕ
  pub descs : Bytes

-- `DecodeGetRespHeader` behind the preamble.
pub get_resp_rest : Preamble → Bytes → Outcome BodyError GetRespHeader
get_resp_rest p body =
    if has_body p.status
    then (do
      guard (leb ((16 + desc_size * p.count) % 2 ^ 64) (length body)) body_length
      first ← u_at 4 8 body
      total ← u_at 4 12 body
      region ← sub 16 ((16 + desc_size * p.count) % 2 ^ 64) body
      ok (record { preamble = p; first_index = first; total_keys = total; descs = region }))
    else (do
      guard (length body == 8 && p.count == 0) body_length
      ok (record { preamble = p; first_index = 0; total_keys = 0; descs = [] }))

-- `DecodeGetRespHeader`.
unfoldable pub decode_get_resp_header : Bytes → Outcome BodyError GetRespHeader
unfolding get_resp_rest
decode_get_resp_header body = do p ← decode_preamble body; get_resp_rest p body

-- `GetRespHeader.Desc`.
unfoldable pub desc : GetRespHeader → ℕ → Outcome BodyError Desc
desc g i = do b ← slice_from (i * desc_size) g.descs; get_desc b

-- `GetRespHeader.PayloadOffset`.
unfoldable pub payload_offset : GetRespHeader → ℕ
payload_offset g = get_resp_header_size g.preamble.count
