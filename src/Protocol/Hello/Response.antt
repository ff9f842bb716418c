-- ===== src/Protocol/Hello/Response.antt =====
-- A HELLO response decodes to what was encoded, and no body makes the decoder panic.
use kvstash.Prelude.{
  ◌+◌, ◌-◌, ◌*◌, ◌^◌, ◌<◌, ◌≤◌, ◌&&◌, ◌≡◌, ◌≢◌, refl, ap, ◌∙◌, true, ◌∷◌, ◌++◌, append_assoc, arith,
  length, drop, leb, leb→le, ◌==◌, ==_iff, Bool-cases, inl, inr, le→leb, length-append, drop-append,
}
use kvstash.Outcome.{ok, panic}
use kvstash.Bytes.{Bytes, of_le-le, u_at-ok, sub-ok, sub, sub-append, word}
use kvstash.Protocol.Body.{BodyError, Preamble, append_pad8, append_preamble, pad_to8}
use kvstash.Protocol.Body.Pad.{
  pad, append_pad8-pad, length-pad, decode_preamble-ok, decode_preamble-short,
}
use kvstash.Protocol.Hello.{
  HelloResp, resp_fixed, append_hello_resp, decode_hello_resp, hello_resp_rest,
}

-- The ranges of the Go types of the fields; the name fits its 16-bit length.
pub record FitsHelloResp (r : HelloResp) : Type 0 where
  pub proto : r.proto < 256 ^ 1
  pub features : r.features < 256 ^ 8
  pub max_batch_keys : r.limits.max_batch_keys < 256 ^ 4
  pub max_frame_len : r.limits.max_frame_len < 256 ^ 4
  pub max_blob_len : r.limits.max_blob_len < 256 ^ 4
  pub initial_credit : r.limits.initial_credit < 256 ^ 4
  pub namespace_id : r.namespace_id < 256 ^ 4
  pub lease_default_ms : r.lease_default_ms < 256 ^ 4
  pub lease_max_ms : r.lease_max_ms < 256 ^ 4
  pub stream_timeout_ms : r.stream_timeout_ms < 256 ^ 4
  pub server_name : length r.server_name < 256 ^ 2

abbrev fixed : HelloResp → Bytes
fixed r = 0 ∷ 0 ∷ 0 ∷ 0 ∷ 0 ∷ 0 ∷ 0 ∷ 0 ∷ resp_fixed r

abbrev body_of : HelloResp → Bytes
body_of r = fixed r ++ (r.server_name ++ pad (56 + length r.server_name))

padded :
    (dst f n : Bytes)
    → length f ≡ 56
    → let end = (dst ++ f) ++ n in
      append_pad8 end (length end - length dst) ≡ dst ++ (f ++ (n ++ pad (56 + length n)))
padded dst f n e =
    let end : Bytes = (dst ++ f) ++ n in
    let k : length end - length dst ≡ 56 + length n =
      omega (arith, length-append dst f, length-append (dst ++ f) n) in
    append_pad8-pad end (length end - length dst) ∙ rw k (simp append_assoc)

preamble_first :
    (dst f : Bytes) → append_preamble dst 0 0 ++ f ≡ dst ++ (0 ∷ 0 ∷ 0 ∷ 0 ∷ 0 ∷ 0 ∷ 0 ∷ 0 ∷ f)
unfolding append_preamble
preamble_first dst f = simp append_assoc

module _ (r : HelloResp) where
  append_hello_resp-body : (dst : Bytes) → append_hello_resp dst r ≡ dst ++ body_of r
  unfolding append_hello_resp
  append_hello_resp-body dst =
      ap (λ t. append_pad8 (t ++ r.server_name) (length (t ++ r.server_name) - length dst))
        (preamble_first dst (resp_fixed r))
      ∙ padded dst (fixed r) r.server_name refl

  length-body_of : length (body_of r) ≡ pad_to8 (56 + length r.server_name)
  length-body_of = omega (
    arith,
    length-append r.server_name (pad (56 + length r.server_name)),
    length-pad (56 + length r.server_name),
  )

  name_at : sub {E = BodyError} 56 (56 + length r.server_name) (body_of r) ≡ ok r.server_name
  name_at = sub-append 56 (56 + length r.server_name) (fixed r) r.server_name _ refl refl

  decode-body_of :
      FitsHelloResp r → decode_hello_resp (body_of r) ≡ ok (record { status = 0; count = 0 }, r)
  unfolding decode_hello_resp hello_resp_rest
  decode-body_of f =
      let b : Bytes = body_of r in
      let fits : (length b == pad_to8 (56 + length r.server_name)) ≡ true =
        (==_iff _ _).1 length-body_of in
      let pr : r.proto + 256 * 0 ≡ r.proto = omega arith in
      rw (decode_preamble-ok b (omega arith)) (
        rw (le→leb 56 (length b) (omega arith)) (
          rw (u_at-ok {E = BodyError} 2 52 b (omega arith)) (
            rw (of_le-le 2 (length r.server_name) f.server_name) (
              rw fits (
                rw (u_at-ok {E = BodyError} 1 8 b (omega arith)) (
                  rw (u_at-ok {E = BodyError} 8 12 b (omega arith)) (
                    rw (u_at-ok {E = BodyError} 4 20 b (omega arith)) (
                      rw (u_at-ok {E = BodyError} 4 24 b (omega arith)) (
                        rw (u_at-ok {E = BodyError} 4 28 b (omega arith)) (
                          rw (u_at-ok {E = BodyError} 4 36 b (omega arith)) (
                            rw (u_at-ok {E = BodyError} 4 32 b (omega arith)) (
                              rw (u_at-ok {E = BodyError} 4 40 b (omega arith)) (
                                rw (u_at-ok {E = BodyError} 4 44 b (omega arith)) (
                                  rw (u_at-ok {E = BodyError} 4 48 b (omega arith)) (
                                    rw name_at (
                                      rw
                                        (
                                          pr,
                                          of_le-le 8 r.features f.features,
                                          of_le-le 4 r.limits.max_batch_keys f.max_batch_keys,
                                          of_le-le 4 r.limits.max_frame_len f.max_frame_len,
                                          of_le-le 4 r.limits.max_blob_len f.max_blob_len,
                                        )
                                        (rw (
                                          of_le-le 4 r.limits.initial_credit f.initial_credit,
                                          of_le-le 4 r.namespace_id f.namespace_id,
                                          of_le-le 4 r.lease_default_ms f.lease_default_ms,
                                          of_le-le 4 r.lease_max_ms f.lease_max_ms,
                                          of_le-le 4 r.stream_timeout_ms f.stream_timeout_ms,
                                        ))))))))))))))))))

-- What `AppendHelloResp` puts behind any prefix decodes to an OK preamble and the response.
pub decode_hello_resp-append_hello_resp :
    (dst : Bytes) (r : HelloResp)
    → FitsHelloResp r
    → decode_hello_resp (drop (length dst) (append_hello_resp dst r))
      ≡ ok (record { status = 0; count = 0 }, r)
decode_hello_resp-append_hello_resp dst r f =
    rw (append_hello_resp-body r dst)
      (rw (drop-append (length dst) dst (body_of r) refl) (decode-body_of r f))

hello_resp_rest-ne-panic : (p : Preamble) (body : Bytes) → hello_resp_rest p body ≢ panic
unfolding hello_resp_rest
hello_resp_rest-ne-panic p body = elim (Bool-cases (p.status == 0)) [
  | inr other ↦ rw other (elim (Bool-cases (length body == 8 && p.count == 0)) [
    | inr odd ↦ rw odd (λ e. cc)
    | inl even ↦ rw even (λ e. cc)
  ])
  | inl good ↦ rw good (elim (Bool-cases (leb 56 (length body))) [
    | inr short ↦ rw short (λ e. cc)
    | inl l ↦
        let long : 56 ≤ length body = leb→le _ _ l in
        let n = word 2 52 body in
        rw l (
          rw (u_at-ok {E = BodyError} 2 52 body (omega arith))
            (elim (Bool-cases (length body == pad_to8 (56 + n))) [
              | inr odd ↦ rw odd (λ e. cc)
              | inl even ↦ rw even (
                  rw (u_at-ok {E = BodyError} 1 8 body (omega arith)) (
                    rw (u_at-ok {E = BodyError} 8 12 body (omega arith)) (
                      rw (u_at-ok {E = BodyError} 4 20 body (omega arith)) (
                        rw (u_at-ok {E = BodyError} 4 24 body (omega arith)) (
                          rw (u_at-ok {E = BodyError} 4 28 body (omega arith)) (
                            rw (u_at-ok {E = BodyError} 4 36 body (omega arith)) (
                              rw (u_at-ok {E = BodyError} 4 32 body (omega arith)) (
                                rw (u_at-ok {E = BodyError} 4 40 body (omega arith)) (
                                  rw (u_at-ok {E = BodyError} 4 44 body (omega arith)) (
                                    rw (u_at-ok {E = BodyError} 4 48 body (omega arith)) (
                                      rw
                                        (sub-ok {E = BodyError} 56 (56 + n) body (omega arith)
                                          (omega (arith, (==_iff _ _).0 even)))
                                        (λ e. cc))))))))))))
            ]))
  ])
]

pub decode_hello_resp-ne-panic : (body : Bytes) → decode_hello_resp body ≢ panic
unfolding decode_hello_resp
decode_hello_resp-ne-panic body = elim (Bool-cases (leb 8 (length body))) [
  | inr short ↦ rw (decode_preamble-short body (ground arith)) (λ e. cc)
  | inl long ↦
      rw (decode_preamble-ok body (leb→le _ _ long))
        (hello_resp_rest-ne-panic (record { status = word 1 0 body; count = word 4 4 body }) body)
]
