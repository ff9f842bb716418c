-- ===== src/Protocol/Body/KeyList/Chunks.antt =====
-- The loop over the keys is a cut of the body into chunks of 32 bytes.
use mathlib.Core.List.{flatten}
use kvstash.Prelude.{
  ℕ, zero, suc, ◌+◌, ◌*◌, ◌≤◌, ◌≡◌, refl, sym, ap, ◌∙◌, List, [], ◌∷◌, ◌++◌, append-nil,
  append_assoc, arith, length, take, drop, All, length-append, length-drop, length-take,
  take-append, drop-append, drop-drop, take-append-drop, length-append,
}
use kvstash.Outcome.{ok}
use kvstash.Bytes.{Bytes}
use kvstash.Protocol.Body.Pad.{slice_from-ok, array_of-take}
use kvstash.Protocol.Body.KeyList.{read_keys, append_keys}

pub chunks : ℕ → Bytes → List Bytes
chunks zero xs = []
chunks (suc n) xs = take 32 xs ∷ chunks n (drop 32 xs)

abbrev pub IsKey : Bytes → Type 0
IsKey k = length k ≡ 32

pub length-chunks : (n : ℕ) (xs : Bytes) → length (chunks n xs) ≡ n
unfolding chunks
length-chunks zero xs = refl
length-chunks (suc n) xs = ap suc (length-chunks n (drop 32 xs))

pub chunks-IsKey : (n : ℕ) (xs : Bytes) → length xs ≡ 32 * n → All IsKey (chunks n xs)
unfolding chunks
chunks-IsKey zero xs h = tt
chunks-IsKey (suc n) xs h = (
  omega (arith, length-take 32 xs),
  chunks-IsKey n (drop 32 xs) (omega (arith, length-drop 32 xs)),
)

pub flatten-chunks : (n : ℕ) (xs : Bytes) → length xs ≡ 32 * n → flatten (chunks n xs) ≡ xs
unfolding chunks flatten
flatten-chunks zero [] h = refl
flatten-chunks zero (x ∷ xs) h = absurd (omega arith)
flatten-chunks (suc n) xs h =
    ap (λ t. take 32 xs ++ t) (flatten-chunks n (drop 32 xs) (omega (arith, length-drop 32 xs)))
    ∙ take-append-drop 32 xs

pub chunks-flatten :
    (ks : List Bytes) (rest : Bytes) → All IsKey ks → chunks (length ks) (flatten ks ++ rest) ≡ ks
unfolding chunks flatten
chunks-flatten [] rest a = refl
chunks-flatten (k ∷ ks) rest a = rw (append_assoc k (flatten ks) rest) (
    rw (take-append 32 k (flatten ks ++ rest) a.0, drop-append 32 k (flatten ks ++ rest) a.0)
      (ap (λ t. k ∷ t) (chunks-flatten ks rest a.1)))

pub length-flatten : (ks : List Bytes) → All IsKey ks → length (flatten ks) ≡ 32 * length ks
unfolding flatten
length-flatten [] a = refl
length-flatten (k ∷ ks) a = omega (arith, length-append k (flatten ks), length-flatten ks a.1, a.0)

pub read_keys-chunks :
    (n i : ℕ) (body : Bytes) (dst : List Bytes)
    → 8 + 32 * (i + n) ≤ length body
    → read_keys n i body dst ≡ ok (dst ++ chunks n (drop (8 + 32 * i) body))
unfolding read_keys chunks
read_keys-chunks zero i body dst h = ap ok (sym (append-nil dst))
read_keys-chunks (suc n) i body dst h =
    let e : 8 + 32 * i + 32 ≡ 8 + 32 * (i + 1) = omega arith in
    rw (slice_from-ok (8 + 32 * i) body (omega arith)) (
      rw (array_of-take 32 (drop (8 + 32 * i) body) (omega (arith, length-drop (8 + 32 * i) body)))
        (read_keys-chunks n (i + 1) body (dst ++ take 32 (drop (8 + 32 * i) body) ∷ [])
            (omega arith)
          ∙ ap ok (
              append_assoc dst (take 32 (drop (8 + 32 * i) body) ∷ [])
                (chunks n (drop (8 + 32 * (i + 1)) body)))
          ∙ rw (drop-drop 32 (8 + 32 * i) body, e)))

pub append_keys-flatten : (dst : Bytes) (ks : List Bytes) → append_keys dst ks ≡ dst ++ flatten ks
unfolding append_keys flatten
append_keys-flatten dst [] = sym (append-nil dst)
append_keys-flatten dst (k ∷ ks) =
    append_keys-flatten (dst ++ k) ks ∙ append_assoc dst k (flatten ks)
