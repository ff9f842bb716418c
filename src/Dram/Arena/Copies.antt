-- ===== src/Dram/Arena/Copies.antt =====
-- internal/store/dram/arena.go: what a copy into the region does to the slices of it.
use kvstash.Prelude.{
  ℕ, zero, suc, ◌+◌, ◌≤◌, ◌<◌, ◌≡◌, ◌⊎◌, refl, ◌∙◌, false, [], ◌∷◌, length, ◌==◌, arith,
}
use kvstash.Bytes.{Bytes}
use kvstash.Dram.Arena.{Arena, view, copy_at, out_of_arena}

-- Slices are equal where the bytes are.
view-cong :
    (m m' : ℕ → ℕ) (off n : ℕ)
    → ((a : ℕ) → off ≤ a → a < off + n → m a ≡ m' a)
    → view m off n ≡ view m' off n
unfolding view
view-cong m m' off zero h = refl
view-cong m m' off (suc n) h =
    let head : m off ≡ m' off = h off (omega arith) (omega arith) in
    let rest = view-cong m m' (off + 1) n (λ a l u. h a (omega (arith, l)) (omega (arith, u))) in
    cc (head, rest)

copy_at-outside :
    (m : ℕ → ℕ) (off : ℕ) (bs : Bytes) (a : ℕ)
    → (a < off) ⊎ (off + length bs ≤ a)
    → copy_at m off bs a ≡ m a
unfolding copy_at
copy_at-outside m off [] a h = refl
copy_at-outside m off (b ∷ bs) a h =
    let other : a == off ≡ false = ground (arith, h) in
    rw other (copy_at-outside m (off + 1) bs a (ground (arith, h)))

pub view-copy_at : (m : ℕ → ℕ) (off : ℕ) (bs : Bytes) → view (copy_at m off bs) off (length bs) ≡ bs
unfolding view copy_at
view-copy_at m off [] = refl
view-copy_at m off (b ∷ bs) =
    let head : copy_at m off (b ∷ bs) off ≡ b = ground arith in
    let rest =
      view-cong (copy_at m off (b ∷ bs)) (copy_at m (off + 1) bs) (off + 1) (length bs)
        (λ a l u. ground (arith, l))
      ∙ view-copy_at m (off + 1) bs in
    cc (head, rest)

pub view-copy_at-apart :
    (m : ℕ → ℕ) (off : ℕ) (bs : Bytes) (c n : ℕ)
    → (c + n ≤ off) ⊎ (off + length bs ≤ c)
    → view (copy_at m off bs) c n ≡ view m c n
view-copy_at-apart m off bs c n h =
    view-cong (copy_at m off bs) m c n
      (λ a l u. copy_at-outside m off bs a (ground (arith, h, l, u)))

-- A slice within the region is read and written.
pub inside : (a : Arena) (off n : ℕ) → off + n ≤ a.size → out_of_arena a off n ≡ false
unfolding out_of_arena
inside a off n h = ground (arith, h)
