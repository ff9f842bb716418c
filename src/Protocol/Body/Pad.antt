-- ===== src/Protocol/Body/Pad.antt =====
-- Padding, and the preamble: what is appended, and what is read of it.
use kvstash.Prelude.{
  ℕ, zero, suc, ◌+◌, ◌-◌, ◌≤◌, ◌<◌, ◌^◌, ◌≡◌, sym, ◌∙◌, [], ◌∷◌, ◌++◌, append-nil, append_assoc,
  arith, length, replicate, take, drop, le→leb, lt→leb, length-replicate, take-append_le,
}
use kvstash.Outcome.{ok, err}
use kvstash.Bytes.{Bytes, of_le, u_at-ok}
use kvstash.Protocol.Body.{
  BodyError, body_length, pad_to8, pad_to8_u64, append_zeros, append_pad8, slice_from, array_of,
  decode_preamble,
}

append_zeros-replicate : (k : ℕ) (dst : Bytes) → append_zeros k dst ≡ dst ++ replicate k 0
unfolding append_zeros
append_zeros-replicate zero dst = sym (append-nil dst)
append_zeros-replicate (suc k) dst =
    append_zeros-replicate k (dst ++ 0 ∷ []) ∙ append_assoc dst (0 ∷ []) (replicate k 0)

pub pad : ℕ → Bytes
pad n = replicate (pad_to8 n - n) 0

pub append_pad8-pad : (dst : Bytes) (n : ℕ) → append_pad8 dst n ≡ dst ++ pad n
unfolding append_pad8 pad
append_pad8-pad dst n = append_zeros-replicate (pad_to8 n - n) dst

pub length-pad : (n : ℕ) → n + length (pad n) ≡ pad_to8 n
unfolding pad
length-pad n = omega (arith, length-replicate {A = ℕ} (pad_to8 n - n) 0)

pub pad_to8_u64-pad_to8 : (n : ℕ) → n < 256 ^ 4 → pad_to8_u64 n ≡ pad_to8 n
pad_to8_u64-pad_to8 n h = omega arith

pub slice_from-ok : (off : ℕ) (b : Bytes) → off ≤ length b → slice_from off b ≡ ok (drop off b)
unfolding slice_from
slice_from-ok off b h = rw (le→leb off (length b) h)

pub array_of-take : (n : ℕ) (b : Bytes) → n ≤ length b → array_of n b ≡ take n b
array_of-take n b h = take-append_le n b (replicate n 0) h

pub decode_preamble-ok :
    (b : Bytes)
    → 8 ≤ length b
    → decode_preamble b
      ≡ ok (record { status = of_le (take 1 b); count = of_le (take 4 (drop 4 b)) })
unfolding decode_preamble
decode_preamble-ok b h = rw (le→leb 8 (length b) h) (
    rw (u_at-ok {E = BodyError} 1 0 b (omega arith))
      (rw (u_at-ok {E = BodyError} 4 4 b (omega arith))))

pub decode_preamble-short : (b : Bytes) → length b < 8 → decode_preamble b ≡ err body_length
unfolding decode_preamble
decode_preamble-short b h = rw (lt→leb 8 (length b) h)
