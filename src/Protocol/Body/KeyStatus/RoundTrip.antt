-- ===== src/Protocol/Body/KeyStatus/RoundTrip.antt =====
-- A per-key status response decodes to what was encoded, and no body makes the decoder panic.
use kvstash.Prelude.{
  ◌+◌, ◌-◌, ◌%◌, ◌^◌, ◌<◌, ◌≡◌, ◌≢◌, refl, true, some, ◌∷◌, ◌++◌, append_assoc, arith, length, drop,
  All, leb, ◌==◌, ==_iff, Bool-cases, inl, inr, leb→le, length-append, take-append, drop-append,
}
use kvstash.Outcome.{ok, panic}
use kvstash.Bytes.{Bytes, IsByte, le, of_le-le, u_at, sub, sub-ok, word, word-lt}
use kvstash.Protocol.Body.{BodyError, Preamble, append_preamble, pad_to8, pad_to8_u64}
use kvstash.Protocol.Body.Pad.{
  pad, append_pad8-pad, length-pad, decode_preamble-ok, decode_preamble-short,
}
use kvstash.Protocol.Body.KeyStatus.{
  append_key_status_resp, decode_key_status_resp, key_status_rest,
}

abbrev body_of : Bytes → Bytes
body_of p = 0 ∷ 0 ∷ 0 ∷ 0 ∷ le 4 (length p) ++ (p ++ pad (length p))

append_key_status_resp-layout : (dst p : Bytes) → append_key_status_resp dst p ≡ dst ++ body_of p
unfolding append_key_status_resp append_preamble
append_key_status_resp-layout dst p = simp (append_pad8-pad, append_assoc)

key_status_rest-ne-panic :
    (p : Preamble) (body : Bytes) → p.count < 256 ^ 4 → key_status_rest p body ≢ panic
unfolding key_status_rest u_at sub
key_status_rest-ne-panic p body h = ground arith

pub decode_key_status_resp-ne-panic :
    (body : Bytes) → All IsByte body → decode_key_status_resp body ≢ panic
unfolding decode_key_status_resp
decode_key_status_resp-ne-panic body bytes = elim (Bool-cases (leb 8 (length body))) [
  | inr short ↦ rw (decode_preamble-short body (ground arith)) (λ e. cc)
  | inl long ↦ rw (decode_preamble-ok body (leb→le _ _ long)) (
      key_status_rest-ne-panic (record { status = word 1 0 body; count = word 4 4 body }) body
        (word-lt body bytes 4 4 (leb→le _ _ long)))
]

decode-body_of :
    (p : Bytes)
    → length p < 256 ^ 4
    → decode_key_status_resp (body_of p) ≡ ok (record { status = 0; count = length p }, some p)
unfolding decode_key_status_resp key_status_rest
decode-body_of p h =
    let b : Bytes = body_of p in
    let n = length p in
    let len : length (p ++ pad n) ≡ pad_to8 n =
      omega (arith, length-append p (pad n), length-pad n) in
    let fits : (length b == (8 + pad_to8_u64 n) % 2 ^ 64) ≡ true =
      (==_iff _ _).1 (omega (arith, len)) in
    rw (decode_preamble-ok b (omega arith)) (
      rw (of_le-le 4 n h) (
        rw fits (
          rw (sub-ok {E = BodyError} 8 (8 + n) b (omega arith) (omega (arith, len)))
            (rw (take-append (8 + n - 8) p (pad n) (omega arith))))))

-- What `AppendKeyStatusResp` puts behind any prefix decodes to its statuses.
pub decode_key_status_resp-append_key_status_resp :
    (dst p : Bytes)
    → length p < 256 ^ 4
    → decode_key_status_resp (drop (length dst) (append_key_status_resp dst p))
      ≡ ok (record { status = 0; count = length p }, some p)
decode_key_status_resp-append_key_status_resp dst p h =
    rw (append_key_status_resp-layout dst p)
      (rw (drop-append (length dst) dst (body_of p) refl) (decode-body_of p h))
