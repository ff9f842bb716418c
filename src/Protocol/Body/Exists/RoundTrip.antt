-- ===== src/Protocol/Body/Exists/RoundTrip.antt =====
-- An EXISTS response decodes to what was encoded, and no body makes the decoder panic.
use kvstash.Prelude.{
  ℕ, ◌+◌, ◌-◌, ◌^◌, ◌<◌, ◌≡◌, ◌≢◌, refl, Bool, true, false, Option, none, some, [], ◌∷◌, ◌++◌,
  append_assoc, arith, length, drop, All, leb, ◌==◌, ==_iff, Bool-cases, inl, inr, leb→le,
  length-append, take-append, drop-append,
}
use kvstash.Outcome.{ok, panic}
use kvstash.Bytes.{Bytes, IsByte, le, of_le-le, u_at-ok, u_at, sub, sub-ok, word, word-lt}
use kvstash.Protocol.Body.{BodyError, Preamble, append_preamble, pad_to8}
use kvstash.Protocol.Body.Pad.{
  pad, append_pad8-pad, length-pad, decode_preamble-ok, decode_preamble-short,
}
use kvstash.Protocol.Body.Exists.{append_exists_resp, decode_exists_resp, exists_rest, exists_want}

-- The bitmap region.
abbrev bits : Option Bytes → Bytes
bits none = []
bits (some per_key) = per_key ++ pad (length per_key)

abbrev pub expects : Option Bytes → Bool
expects none = false
expects (some _) = true

abbrev pub CountIs : ℕ → Option Bytes → Type 0
CountIs n none = Unit
CountIs n (some per_key) = length per_key ≡ n

abbrev body_of : ℕ → ℕ → Option Bytes → Bytes
body_of n c p = 0 ∷ 0 ∷ 0 ∷ 0 ∷ le 4 n ++ (le 4 c ++ (le 4 0 ++ bits p))

append_exists_resp-layout :
    (dst : Bytes) (n c : ℕ) (p : Option Bytes) → append_exists_resp dst n c p ≡ dst ++ body_of n c p
unfolding append_exists_resp append_preamble
append_exists_resp-layout dst n c none = simp append_assoc
append_exists_resp-layout dst n c (some p) = simp (append_pad8-pad, append_assoc)

exists_rest-ne-panic :
    (p : Preamble) (body : Bytes) (expect : Bool)
    → p.count < 256 ^ 4
    → exists_rest p body expect ≢ panic
unfolding exists_rest u_at sub
exists_rest-ne-panic p body true h = ground arith
exists_rest-ne-panic p body false h = ground arith

pub decode_exists_resp-ne-panic :
    (body : Bytes) (expect : Bool) → All IsByte body → decode_exists_resp body expect ≢ panic
unfolding decode_exists_resp
decode_exists_resp-ne-panic body expect bytes = elim (Bool-cases (leb 8 (length body))) [
  | inr short ↦ rw (decode_preamble-short body (ground arith)) (λ e. cc)
  | inl long ↦ rw (decode_preamble-ok body (leb→le _ _ long)) (
      exists_rest-ne-panic (record { status = word 1 0 body; count = word 4 4 body }) body expect
        (word-lt body bytes 4 4 (leb→le _ _ long)))
]

module _ (n c : ℕ) (hn : n < 256 ^ 4) (hc : c < 256 ^ 4) where
  decode-body_of :
      (p : Option Bytes)
      → CountIs n p
      → decode_exists_resp (body_of n c p) (expects p)
        ≡ ok
            (record { preamble = record { status = 0; count = n }; n_consecutive = c; per_key = p })
  unfolding decode_exists_resp exists_rest
  decode-body_of none h = rw (decode_preamble-ok (body_of n c none) (omega arith)) (
      rw (of_le-le 4 n hn)
        (rw (u_at-ok {E = BodyError} 4 8 (body_of n c none) (omega arith)) (rw (of_le-le 4 c hc))))
  decode-body_of (some p) h =
      let b : Bytes = body_of n c (some p) in
      let len : length (p ++ pad (length p)) ≡ pad_to8 n =
        omega (arith, length-append p (pad (length p)), length-pad (length p), h) in
      let fits : (length b == exists_want n true) ≡ true = (==_iff _ _).1 (omega (arith, len)) in
      rw (decode_preamble-ok b (omega arith)) (
        rw (of_le-le 4 n hn) (
          rw fits (
            rw (u_at-ok {E = BodyError} 4 8 b (omega arith)) (
              rw (of_le-le 4 c hc) (
                rw (sub-ok {E = BodyError} 16 (16 + n) b (omega arith) (omega (arith, len)))
                  (rw (take-append (16 + n - 16) p (pad (length p)) (omega (arith, h)))))))))

-- What `AppendExistsResp` puts behind any prefix decodes, by a peer that agrees on whether there is
-- a bitmap, to the counts and the bitmap that were encoded.
pub decode_exists_resp-append_exists_resp :
    (dst : Bytes) (n c : ℕ) (p : Option Bytes)
    → n < 256 ^ 4
    → c < 256 ^ 4
    → CountIs n p
    → decode_exists_resp (drop (length dst) (append_exists_resp dst n c p)) (expects p)
      ≡ ok (record { preamble = record { status = 0; count = n }; n_consecutive = c; per_key = p })
decode_exists_resp-append_exists_resp dst n c none hn hc hp =
    rw (append_exists_resp-layout dst n c none)
      (rw (drop-append (length dst) dst (body_of n c none) refl) (decode-body_of n c hn hc none hp))
decode_exists_resp-append_exists_resp dst n c (some p) hn hc hp =
    rw (append_exists_resp-layout dst n c (some p)) (
      rw (drop-append (length dst) dst (body_of n c (some p)) refl)
        (decode-body_of n c hn hc (some p) hp))
