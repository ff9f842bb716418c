-- ===== src/Bytes/Slices.antt =====
-- Reads and writes at an offset of a slice. Each panics where Go's does.
use kvstash.Prelude.{
  ℕ, ◌+◌, ◌-◌, ◌≤◌, ◌≡◌, ◌&&◌, ◌++◌, append_assoc, length-drop, arith, length, take, drop,
  take-append, drop-append, drop-drop, take_all, length-append, leb, le→leb, if◌then◌else◌,
}
use kvstash.Outcome.{Outcome, ok, panic}
use kvstash.Bytes.Words.{Bytes, of_le}

module _ {ℓ} {E : Type ℓ} where
  -- `LittleEndian.UintN(b[off:])` with N = 8k, and `b[off]` for k = 1.
  unfoldable pub u_at : ℕ → ℕ → Bytes → Outcome E ℕ
  u_at k off b = if leb (off + k) (length b) then ok (of_le (take k (drop off b))) else panic

  -- `b[lo:hi]`. (Go allows `hi` up to the capacity; here it may not pass the length.)
  unfoldable pub sub : ℕ → ℕ → Bytes → Outcome E Bytes
  sub lo hi b = if leb lo hi && leb hi (length b) then ok (take (hi - lo) (drop lo b)) else panic

  -- `LittleEndian.PutUintN(b[off:], x)`, with `xs` the bytes of `x`; `b[off] = x` for one byte.
  unfoldable pub put_at : ℕ → Bytes → Bytes → Outcome E Bytes
  put_at off xs b =
      if leb (off + length xs) (length b)
      then ok (take off b ++ (xs ++ drop (off + length xs) b))
      else panic

  -- `copy(b[off:], xs)`, which stops at the end of `b`.
  unfoldable pub copy_at : ℕ → Bytes → Bytes → Outcome E Bytes
  copy_at off xs b =
      if leb off (length b)
      then ok (take off b ++ (take (length b - off) xs ++ drop (off + length xs) b))
      else panic

  pub u_at-ok :
      (k off : ℕ) (b : Bytes) → off + k ≤ length b → u_at k off b ≡ ok (of_le (take k (drop off b)))
  unfolding u_at
  u_at-ok k off b h = rw (le→leb _ _ h)

  pub sub-ok :
      (lo hi : ℕ) (b : Bytes)
      → lo ≤ hi
      → hi ≤ length b
      → sub lo hi b ≡ ok (take (hi - lo) (drop lo b))
  unfolding sub
  sub-ok lo hi b h k = rw (le→leb _ _ h, le→leb _ _ k)

  pub copy_at-put_at :
      (off : ℕ) (xs b : Bytes) → off + length xs ≤ length b → copy_at off xs b ≡ put_at off xs b
  unfolding copy_at put_at
  copy_at-put_at off xs b h = rw (
    le→leb (off + length xs) (length b) h,
    le→leb off (length b) (omega arith),
    take_all (length b - off) xs (omega arith),
  )

  -- Writing right behind what is written already.
  pub put_at-next :
      (off : ℕ) (w xs b : Bytes)
      → length w ≡ off
      → off + length xs ≤ length b
      → put_at off xs (w ++ drop off b) ≡ ok ((w ++ xs) ++ drop (off + length xs) b)
  unfolding put_at
  put_at-next off w xs b e h =
      rw
        (le→leb (off + length xs) (length (w ++ drop off b))
          (omega (arith, length-append w (drop off b), length-drop off b)))
        (rw (
          take-append off w (drop off b) e,
          ← drop-drop (length xs) off (w ++ drop off b),
          drop-append off w (drop off b) e,
          drop-drop (length xs) off b,
          append_assoc w xs (drop (off + length xs) b),
        ))

  -- The piece between a prefix and a rest.
  pub sub-append :
      (lo hi : ℕ) (pre x post : Bytes)
      → length pre ≡ lo
      → lo + length x ≡ hi
      → sub lo hi (pre ++ (x ++ post)) ≡ ok x
  sub-append lo hi pre x post e f =
      rw
        (sub-ok lo hi (pre ++ (x ++ post)) (omega arith)
          (omega (arith, length-append pre (x ++ post), length-append x post)))
        (rw (drop-append lo pre (x ++ post) e) (rw (take-append (hi - lo) x post (omega arith))))
