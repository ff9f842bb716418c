-- ===== src/Bytes/Words.antt =====
-- Little-endian words: AppendUint16/32/64, PutUint16/32/64 and Uint16/32/64 of encoding/binary.
use native.Mathlib.Nat.{pow-suc}
use kvstash.Prelude.{
  ℕ, zero, suc, ◌+◌, ◌*◌, ◌/◌, ◌%◌, ◌^◌, ◌<◌, ◌≡◌, refl, ap, List, [], ◌∷◌, arith, length, All,
}

abbrev pub Bytes : Type 0
Bytes = List ℕ

abbrev pub IsByte : ℕ → Type 0
IsByte b = b < 256

-- The k low bytes of a number, the lowest first.
abbrev pub le : ℕ → ℕ → Bytes
le zero n = []
le (suc k) n = n % 256 ∷ le k (n / 256)

-- The number that little-endian bytes stand for.
abbrev pub of_le : Bytes → ℕ
of_le [] = 0
of_le (b ∷ bs) = b + 256 * of_le bs

pub length-le : (k n : ℕ) → length (le k n) ≡ k
length-le zero n = refl
length-le (suc k) n = ap suc (length-le k (n / 256))

pub le-IsByte : (k n : ℕ) → All IsByte (le k n)
le-IsByte zero n = tt
le-IsByte (suc k) n = (omega arith, le-IsByte k (n / 256))

div_pow : (k n : ℕ) → n < 256 ^ suc k → n / 256 < 256 ^ k
div_pow k n h = let e : 256 ^ suc k ≡ 256 ^ k * 256 = pow-suc 256 k in omega (arith, e)

-- Reading back a written word gives the word.
pub of_le-le : (k n : ℕ) → n < 256 ^ k → of_le (le k n) ≡ n
of_le-le zero n h = omega arith
of_le-le (suc k) n h = omega (arith, of_le-le k (n / 256) (div_pow k n h))

-- Writing back a word that was read gives its bytes.
pub le-of_le : (bs : Bytes) → All IsByte bs → le (length bs) (of_le bs) ≡ bs
le-of_le [] p = refl
le-of_le (b ∷ bs) p =
    let low : (b + 256 * of_le bs) % 256 ≡ b = omega (arith, p.0) in
    let high : (b + 256 * of_le bs) / 256 ≡ of_le bs = omega (arith, p.0) in
    rw (low, high) (rw (le-of_le bs p.1))

pub of_le-lt : (bs : Bytes) → All IsByte bs → of_le bs < 256 ^ length bs
of_le-lt [] p = omega arith
of_le-lt (b ∷ bs) p =
    let e : 256 ^ suc (length bs) ≡ 256 ^ length bs * 256 = pow-suc 256 (length bs) in
    omega (arith, e, of_le-lt bs p.1, p.0)
