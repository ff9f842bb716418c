-- ===== src/Protocol/Body/KeyList/RoundTrip.antt =====
-- Encoding and decoding a key list are inverse to one another.
use mathlib.Core.List.{flatten}
use kvstash.Prelude.{
  ℕ, ◌+◌, ◌*◌, ◌^◌, ◌≤◌, ◌<◌, ◌≡◌, refl, ◌∙◌, List, [], ◌++◌, append-nil, append_assoc, Bool-cases,
  ◌⊎◌, inl, inr, ◌≢◌, arith, length, take, drop, All, leb, ◌==◌, ==_iff, le→leb, leb→le,
  length-drop, drop-append,
}
use kvstash.Outcome.{ok, err, panic}
use kvstash.Bytes.{le-word, rejoin, Bytes, IsByte, le, of_le, of_le-le, u_at-ok}
use kvstash.Protocol.Body.{BodyError, body_length, key_count}
use kvstash.Protocol.Body.KeyList.{KeyList, decode_key_list, append_key_list}
use kvstash.Protocol.Body.KeyList.Chunks.{
  IsKey, chunks, length-chunks, chunks-IsKey, flatten-chunks, chunks-flatten, length-flatten,
  read_keys-chunks, append_keys-flatten,
}

decode_key_list-ok :
    (body : Bytes) (max : ℕ) (dst : List Bytes) (n : ℕ)
    → of_le (take 4 body) ≡ n
    → n ≤ max
    → length body ≡ 8 + 32 * n
    → decode_key_list body max dst
      ≡ ok (record { aux = of_le (take 4 (drop 4 body)); keys = dst ++ chunks n (drop 8 body) })
unfolding decode_key_list
decode_key_list-ok body max dst n e le_max len = rw (le→leb 8 (length body) (omega arith)) (
    rw (u_at-ok {E = BodyError} 4 0 body (omega arith)) (
      rw e (
        rw (le→leb n max le_max) (
          rw ((==_iff (length body) (8 + 32 * n)).1 len) (
            rw (u_at-ok {E = BodyError} 4 4 body (omega arith))
              (rw (read_keys-chunks n 0 body dst (omega arith))))))))

-- Either the body is refused with an error, or its length is that of its count, which is in range.
pub decode_key_list-cases :
    (body : Bytes) (max : ℕ) (dst : List Bytes)
    → ((e : BodyError) × (decode_key_list body max dst ≡ err e))
      ⊎ ((of_le (take 4 body) ≤ max) × (length body ≡ 8 + 32 * of_le (take 4 body)))
unfolding decode_key_list
decode_key_list-cases body max dst = elim (Bool-cases (leb 8 (length body))) [
  | inr short ↦ inl (body_length, rw short)
  | inl l ↦
      let long : 8 ≤ length body = leb→le _ _ l in
      elim (Bool-cases (leb (of_le (take 4 body)) max)) [
        | inr over ↦
            inl (key_count, rw l (rw (u_at-ok {E = BodyError} 4 0 body (omega arith)) (rw over)))
        | inl fit ↦ elim (Bool-cases (length body == 8 + 32 * of_le (take 4 body))) [
          | inr odd ↦ inl (
            body_length,
            rw l (rw (u_at-ok {E = BodyError} 4 0 body (omega arith)) (rw fit (rw odd))),
          )
          | inl even ↦ inr (leb→le _ _ fit, (==_iff _ _).0 even)
        ]
      ]
]

pub decode_key_list-ne-panic :
    (body : Bytes) (max : ℕ) (dst : List Bytes) → decode_key_list body max dst ≢ panic
decode_key_list-ne-panic body max dst p = elim (decode_key_list-cases body max dst) [
  | inl (e, q) ↦ cc
  | inr (fit, len) ↦ cc (decode_key_list-ok body max dst (of_le (take 4 body)) refl fit len)
]

append_key_list-flatten :
    (dst : Bytes) (aux : ℕ) (keys : List Bytes)
    → append_key_list dst aux keys ≡ dst ++ (le 4 (length keys) ++ (le 4 aux ++ flatten keys))
unfolding append_key_list
append_key_list-flatten dst aux keys =
    append_keys-flatten ((dst ++ le 4 (length keys)) ++ le 4 aux) keys
    ∙ append_assoc (dst ++ le 4 (length keys)) (le 4 aux) (flatten keys)
    ∙ append_assoc dst (le 4 (length keys)) (le 4 aux ++ flatten keys)

-- What `AppendKeyList` puts behind any prefix decodes to the same reserved word and keys, behind
-- the keys that the decoder was given, if they are 32 bytes each and no more than the cap.
pub decode_key_list-append_key_list :
    (dst : Bytes) (aux max : ℕ) (keys held : List Bytes)
    → aux < 256 ^ 4
    → max < 256 ^ 4
    → All IsKey keys
    → length keys ≤ max
    → decode_key_list (drop (length dst) (append_key_list dst aux keys)) max held
      ≡ ok (record { aux = aux; keys = held ++ keys })
decode_key_list-append_key_list dst aux max keys held small cap ks fit =
    let body : Bytes = le 4 (length keys) ++ (le 4 aux ++ flatten keys) in
    rw (append_key_list-flatten dst aux keys) (
      rw (drop-append (length dst) dst body refl) (
        decode_key_list-ok body max held (length keys) (of_le-le 4 (length keys) (omega arith)) fit
          (omega (arith, length-flatten keys ks))
        ∙ let a : of_le (le 4 aux) ≡ aux = of_le-le 4 aux small in
          let k : chunks (length keys) (flatten keys) ≡ keys =
            rw append-nil at (chunks-flatten keys [] ks) in
          cc (a, k)))

-- What the decoder accepts is what the encoder writes: the keys are 32 bytes each, no more than the
-- cap, and encode back to the body.
pub append_key_list-decode_key_list :
    (body : Bytes) (max : ℕ) {r : KeyList}
    → All IsByte body
    → decode_key_list body max [] ≡ ok r
    → (append_key_list [] r.aux r.keys ≡ body) × (length r.keys ≤ max) × All IsKey r.keys
append_key_list-decode_key_list body max {r} bytes p = elim (decode_key_list-cases body max []) [
  | inl (e, q) ↦ cc
  | inr (fit, len) ↦
      let n = of_le (take 4 body) in
      let same : r ≡ record { aux = of_le (take 4 (drop 4 body)); keys = chunks n (drop 8 body) } =
        cc (decode_key_list-ok body max [] n refl fit len) in
      let tail : length (drop 8 body) ≡ 32 * n = omega (arith, length-drop 8 body) in
      let count : le 4 (length (chunks n (drop 8 body))) ≡ take 4 body =
        rw (length-chunks n (drop 8 body)) (le-word body bytes 4 0 (omega arith)) in
      rw same (
        append_key_list-flatten [] _ _
            ∙ rejoin body 0 4 4 _ _ refl count (
                rejoin body 4 4 8 _ _ refl (le-word body bytes 4 4 (omega arith))
                  (flatten-chunks n (drop 8 body) tail)),
        omega (arith, length-chunks n (drop 8 body)),
        chunks-IsKey n (drop 8 body) tail,
      )
]
