-- ===== src/Bytes/Reads.antt =====
-- Words read at an offset: their range, their bytes, and how consecutive reads cover the slice.
use kvstash.Prelude.{
  ℕ, ◌+◌, ◌^◌, ◌≤◌, ◌<◌, ◌≡◌, ◌++◌, arith, length, take, drop, length-take, length-drop, take-step,
  take-append-drop, drop-drop, All, All-take, All-drop,
}
use kvstash.Bytes.Words.{Bytes, IsByte, le, of_le, le-of_le, of_le-lt}

-- The little-endian word of k bytes at an offset.
abbrev pub word : ℕ → ℕ → Bytes → ℕ
word k off b = of_le (take k (drop off b))

module _ (b : Bytes) (bytes : All IsByte b) where
  pub le-word : (k off : ℕ) → off + k ≤ length b → le k (word k off b) ≡ take k (drop off b)
  le-word k off h =
      let n : length (take k (drop off b)) ≡ k =
        omega (arith, length-take k (drop off b), length-drop off b) in
      rw n at (le-of_le (take k (drop off b)) (All-take IsByte k _ (All-drop IsByte off b bytes)))

  pub word-lt : (k off : ℕ) → off + k ≤ length b → word k off b < 256 ^ k
  word-lt k off h =
      let n : length (take k (drop off b)) ≡ k =
        omega (arith, length-take k (drop off b), length-drop off b) in
      rw n at (of_le-lt (take k (drop off b)) (All-take IsByte k _ (All-drop IsByte off b bytes)))

-- A prefix and the piece behind it make a longer prefix.
pub join :
    (b : Bytes) (m k : ℕ) (w x : Bytes)
    → w ≡ take m b
    → x ≡ take k (drop m b)
    → w ++ x ≡ take (m + k) b
join b m k w x p q = rw (p, q) (take-step m k b)

-- A piece and what follows it make a suffix.
pub rejoin :
    (b : Bytes) (m k n : ℕ) (x r : Bytes)
    → m + k ≡ n
    → x ≡ take k (drop m b)
    → r ≡ drop n b
    → x ++ r ≡ drop m b
rejoin b m k n x r e p q = rw (p, q, ← e) (rw (← drop-drop k m b) (take-append-drop k (drop m b)))
