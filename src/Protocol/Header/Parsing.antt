-- ===== src/Protocol/Header/Parsing.antt =====
-- `ParseHeader` with its reads made total: which inputs it refuses, how, and that it never panics.
use kvstash.Prelude.{
  ℕ, ◌≤◌, ◌<◌, ◌≡◌, refl, ◌∙◌, ap, sym, ==_iff, Bool, ltb→lt, leb→le, lt→leb, inl, inr, true, false,
  Option, none, some, arith, length, leb, ltb, ◌==◌, take, drop, le→leb, Bool-cases,
}
use kvstash.Outcome.{Outcome, ok, err, panic, ◌>>◌, guard}
use kvstash.Bytes.{word, Bytes, le, u_at-ok, sub-ok}
use kvstash.Protocol.Crc.{checksum, header_crc, header_crc-ok}
use kvstash.Protocol.Header.{
  Header, FrameError, short_header, bad_magic, bad_version, bad_crc, magic_le, cap_check,
  read_fields, parse_header, is_fatal,
}

-- The header that 64 bytes stand for.
abbrev pub fields : Bytes → ℕ → Header
fields b c = record {
  magic = le 4 magic_le;
  version = word 1 4 b;
  opcode = word 1 5 b;
  flags = word 2 6 b;
  namespace_id = word 4 8 b;
  credit = word 4 12 b;
  request_id = word 8 16 b;
  key = take 32 (drop 24 b);
  payload_len = word 4 56 b;
  crc = c;
}

read_fields-ok : (b : Bytes) (c : ℕ) → 64 ≤ length b → read_fields b c ≡ ok (fields b c)
unfolding read_fields
read_fields-ok b c h = rw (u_at-ok {E = FrameError} 1 4 b (omega arith)) (
    rw (u_at-ok {E = FrameError} 1 5 b (omega arith)) (
      rw (u_at-ok {E = FrameError} 2 6 b (omega arith)) (
        rw (u_at-ok {E = FrameError} 4 8 b (omega arith)) (
          rw (u_at-ok {E = FrameError} 4 12 b (omega arith)) (
            rw (u_at-ok {E = FrameError} 8 16 b (omega arith)) (
              rw (sub-ok {E = FrameError} 24 56 b (omega arith) (omega arith))
                (rw (u_at-ok {E = FrameError} 4 56 b (omega arith)))))))))

-- The checks in their order, and the header behind them.
abbrev pub gate : Bool → Bool → Bool → ℕ → Header → Outcome FrameError (Header × Option FrameError)
gate m v c max h = do guard m bad_magic; guard v bad_version; guard c bad_crc; ok (cap_check max h)

abbrev pub checked : Bytes → ℕ → Outcome FrameError (Header × Option FrameError)
checked b max =
    gate (word 4 0 b == magic_le) (word 1 4 b == 1) (word 4 60 b == checksum (take 60 b)) max
      (fields b (word 4 60 b))

pub parse_header-checked :
    (b : Bytes) (max : ℕ) → 64 ≤ length b → parse_header b max ≡ checked b max
unfolding parse_header
parse_header-checked b max h = rw (le→leb 64 (length b) h) (
    rw (u_at-ok {E = FrameError} 4 0 b (omega arith)) (
      rw (u_at-ok {E = FrameError} 1 4 b (omega arith)) (
        rw (u_at-ok {E = FrameError} 4 60 b (omega arith)) (
          rw (header_crc-ok {E = FrameError} b (omega arith))
            (rw (read_fields-ok b (word 4 60 b) h) refl)))))

pub parse_header-short :
    (b : Bytes) (max : ℕ) → length b < 64 → parse_header b max ≡ err short_header
unfolding parse_header
parse_header-short b max h = rw (lt→leb 64 (length b) h)

pub gate-ok :
    (m v c : Bool) (max : ℕ) (h₀ : Header) {h : Header} {e : Option FrameError}
    → gate m v c max h₀ ≡ ok (h, e)
    → (m ≡ true) × (v ≡ true) × (c ≡ true) × (h ≡ h₀)
unfolding cap_check
gate-ok false v c max h₀ p = cc
gate-ok true false c max h₀ p = cc
gate-ok true true false max h₀ p = cc
gate-ok true true true max h₀ p = (refl, refl, refl, ground arith)

-- What each answer of the parser says of the bytes that were parsed.
abbrev pub Verdict : Bytes → ℕ → Outcome FrameError (Header × Option FrameError) → Type 0
Verdict b max (err e) = is_fatal e ≡ true
Verdict b max (ok (h, none)) = (header_crc {E = FrameError} b ≡ ok h.crc) × (h.payload_len ≤ max)
Verdict b max (ok (h, some e)) =
    (header_crc {E = FrameError} b ≡ ok h.crc) × (max < h.payload_len) × (is_fatal e ≡ false)
Verdict b max panic = ⊥

gate-Verdict :
    (b : Bytes) (max : ℕ) (m v c : Bool) (h : Header)
    → (c ≡ true → header_crc {E = FrameError} b ≡ ok h.crc)
    → Verdict b max (gate m v c max h)
unfolding is_fatal cap_check
gate-Verdict b max false v c h auth = refl
gate-Verdict b max true false c h auth = refl
gate-Verdict b max true true false h auth = refl
gate-Verdict b max true true true h auth = elim (Bool-cases (ltb max h.payload_len)) [
  | inl over ↦ rw over (auth refl, ltb→lt _ _ over, refl)
  | inr under ↦ rw under (auth refl, ground arith)
]

-- The parser never panics. An error that it returns with the zero header is fatal; a header that it
-- returns carries the checksum of its first 60 bytes, and is flagged, with an error that is not
-- fatal, exactly when the payload is over the cap.
pub parse_header-Verdict : (b : Bytes) (max : ℕ) → Verdict b max (parse_header b max)
unfolding is_fatal
parse_header-Verdict b max = elim (Bool-cases (leb 64 (length b))) [
  | inl long ↦
      let n : 64 ≤ length b = leb→le _ _ long in
      rw (parse_header-checked b max n) (
        gate-Verdict b max _ _ _ (fields b (word 4 60 b))
          (λ e. header_crc-ok b (omega arith) ∙ ap ok (sym ((==_iff _ _).0 e))))
  | inr short ↦ rw (parse_header-short b max (ground arith)) refl
]
