-- ===== src/Protocol/Hello/Request.antt =====
-- A HELLO request decodes to what was encoded, and no body makes the decoder panic.
use kvstash.Prelude.{
  ℕ, ◌+◌, ◌-◌, ◌*◌, ◌^◌, ◌<◌, ◌≤◌, ◌≡◌, ◌≢◌, leb→le, Bool-cases, inl, inr, refl, sym, ap, ◌∙◌, true,
  ◌++◌, append_assoc, arith, length, drop, leb, ◌==◌, ==_iff, le→leb, length-append, drop-append,
}
use kvstash.Outcome.{ok, panic}
use kvstash.Bytes.{Bytes, of_le-le, word, u_at-ok, sub-ok, sub, sub-append}
use kvstash.Protocol.Body.{BodyError, append_pad8, pad_to8}
use kvstash.Protocol.Body.Pad.{pad, append_pad8-pad, length-pad}
use kvstash.Protocol.Hello.{HelloReq, hello_fixed, append_hello_req, decode_hello_req}

-- The ranges of the Go types of the fields; the strings fit their 16-bit lengths.
pub record FitsHelloReq (r : HelloReq) : Type 0 where
  pub proto_min : r.proto_min < 256 ^ 1
  pub proto_max : r.proto_max < 256 ^ 1
  pub features : r.features < 256 ^ 8
  pub max_batch_keys : r.max_batch_keys < 256 ^ 4
  pub max_frame_len : r.max_frame_len < 256 ^ 4
  pub token : length r.token < 256 ^ 2
  pub namespace : length r.namespace < 256 ^ 2
  pub client_name : length r.client_name < 256 ^ 2

abbrev size : HelloReq → ℕ
size r = 36 + length r.token + length r.namespace + length r.client_name

abbrev body_of : HelloReq → Bytes
body_of r = hello_fixed r ++ (r.token ++ (r.namespace ++ (r.client_name ++ pad (size r))))

padded :
    (dst f t n c : Bytes)
    → length f ≡ 36
    → let end = (((dst ++ f) ++ t) ++ n) ++ c in
      append_pad8 end (length end - length dst)
      ≡ dst ++ (f ++ (t ++ (n ++ (c ++ pad (36 + length t + length n + length c)))))
padded dst f t n c e =
    let end : Bytes = (((dst ++ f) ++ t) ++ n) ++ c in
    let k : length end - length dst ≡ 36 + length t + length n + length c = omega (
      arith,
      length-append dst f,
      length-append (dst ++ f) t,
      length-append ((dst ++ f) ++ t) n,
      length-append (((dst ++ f) ++ t) ++ n) c,
    ) in
    append_pad8-pad end (length end - length dst) ∙ rw k (simp append_assoc)

module _ (r : HelloReq) where
  append_hello_req-body : (dst : Bytes) → append_hello_req dst r ≡ dst ++ body_of r
  unfolding append_hello_req
  append_hello_req-body dst = padded dst (hello_fixed r) r.token r.namespace r.client_name refl

  length-body_of : length (body_of r) ≡ pad_to8 (size r)
  length-body_of = omega (
    arith,
    length-append r.token (r.namespace ++ (r.client_name ++ pad (size r))),
    length-append r.namespace (r.client_name ++ pad (size r)),
    length-append r.client_name (pad (size r)),
    length-pad (size r),
  )

  token_at : sub {E = BodyError} 36 (36 + length r.token) (body_of r) ≡ ok r.token
  token_at = sub-append 36 (36 + length r.token) (hello_fixed r) r.token _ refl refl

  namespace_at :
      sub {E = BodyError}
        (36 + length r.token)
        (36 + length r.token + length r.namespace)
        (body_of r)
      ≡ ok r.namespace
  namespace_at =
      ap (sub (36 + length r.token) (36 + length r.token + length r.namespace))
        (sym (append_assoc (hello_fixed r) r.token _))
      ∙ sub-append _ _ (hello_fixed r ++ r.token) r.namespace _
          (omega (arith, length-append (hello_fixed r) r.token)) refl

  name_at :
      sub {E = BodyError} (36 + length r.token + length r.namespace) (size r) (body_of r)
      ≡ ok r.client_name
  name_at =
      ap (sub (36 + length r.token + length r.namespace) (size r)) (
        sym (append_assoc (hello_fixed r) r.token _)
        ∙ sym (append_assoc (hello_fixed r ++ r.token) r.namespace _))
      ∙ sub-append _ _ ((hello_fixed r ++ r.token) ++ r.namespace) r.client_name _
          (omega (
            arith,
            length-append (hello_fixed r) r.token,
            length-append (hello_fixed r ++ r.token) r.namespace,
          ))
          refl

  decode-body_of : FitsHelloReq r → decode_hello_req (body_of r) ≡ ok r
  unfolding decode_hello_req
  decode-body_of f =
      let b : Bytes = body_of r in
      let fits : (length b == pad_to8 (size r)) ≡ true = (==_iff _ _).1 length-body_of in
      let lo : r.proto_min + 256 * 0 ≡ r.proto_min = omega arith in
      let hi : r.proto_max + 256 * 0 ≡ r.proto_max = omega arith in
      rw (le→leb 36 (length b) (omega arith)) (
        rw (u_at-ok {E = BodyError} 2 28 b (omega arith)) (
          rw (u_at-ok {E = BodyError} 2 30 b (omega arith)) (
            rw (u_at-ok {E = BodyError} 2 32 b (omega arith)) (
              rw (of_le-le 2 (length r.token) f.token) (
                rw (of_le-le 2 (length r.namespace) f.namespace) (
                  rw (of_le-le 2 (length r.client_name) f.client_name) (
                    rw fits (
                      rw (u_at-ok {E = BodyError} 1 0 b (omega arith)) (
                        rw (u_at-ok {E = BodyError} 1 1 b (omega arith)) (
                          rw (u_at-ok {E = BodyError} 8 4 b (omega arith)) (
                            rw (u_at-ok {E = BodyError} 4 12 b (omega arith)) (
                              rw (u_at-ok {E = BodyError} 4 16 b (omega arith)) (
                                rw token_at (
                                  rw namespace_at (
                                    rw name_at (
                                      rw (
                                        lo,
                                        hi,
                                        of_le-le 8 r.features f.features,
                                        of_le-le 4 r.max_batch_keys f.max_batch_keys,
                                        of_le-le 4 r.max_frame_len f.max_frame_len,
                                      )))))))))))))))))

-- What `AppendHelloReq` puts behind any prefix decodes to the request, its three strings included.
pub decode_hello_req-append_hello_req :
    (dst : Bytes) (r : HelloReq)
    → FitsHelloReq r
    → decode_hello_req (drop (length dst) (append_hello_req dst r)) ≡ ok r
decode_hello_req-append_hello_req dst r f =
    rw (append_hello_req-body r dst)
      (rw (drop-append (length dst) dst (body_of r) refl) (decode-body_of r f))

pub decode_hello_req-ne-panic : (body : Bytes) → decode_hello_req body ≢ panic
unfolding decode_hello_req
decode_hello_req-ne-panic body = elim (Bool-cases (leb 36 (length body))) [
  | inr short ↦ rw short (λ e. cc)
  | inl l ↦
      let long : 36 ≤ length body = leb→le _ _ l in
      let t = word 2 28 body in
      let n = word 2 30 body in
      let c = word 2 32 body in
      rw l (
        rw (u_at-ok {E = BodyError} 2 28 body (omega arith)) (
          rw (u_at-ok {E = BodyError} 2 30 body (omega arith)) (
            rw (u_at-ok {E = BodyError} 2 32 body (omega arith))
              (elim (Bool-cases (length body == pad_to8 (36 + t + n + c))) [
                | inr odd ↦ rw odd (λ e. cc)
                | inl even ↦
                    let fits : 36 + t + n + c ≤ length body = omega (arith, (==_iff _ _).0 even) in
                    rw even (
                      rw (u_at-ok {E = BodyError} 1 0 body (omega arith)) (
                        rw (u_at-ok {E = BodyError} 1 1 body (omega arith)) (
                          rw (u_at-ok {E = BodyError} 8 4 body (omega arith)) (
                            rw (u_at-ok {E = BodyError} 4 12 body (omega arith)) (
                              rw (u_at-ok {E = BodyError} 4 16 body (omega arith)) (
                                rw
                                  (sub-ok {E = BodyError} 36 (36 + t) body (omega arith)
                                    (omega arith))
                                  (rw
                                    (sub-ok {E = BodyError} (36 + t) (36 + t + n) body (omega arith)
                                      (omega arith))
                                    (rw
                                      (sub-ok {E = BodyError} (36 + t + n) (36 + t + n + c) body
                                        (omega arith) fits)
                                      (λ e. cc)))))))))
              ]))))
]
