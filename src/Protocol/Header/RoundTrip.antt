-- ===== src/Protocol/Header/RoundTrip.antt =====
-- Writing and parsing a header are inverse to one another.
use kvstash.Prelude.{
  ℕ, ◌≤◌, ◌≡◌, refl, inl, inr, leb, ltb, leb→le, Bool-cases, true, false, if◌then◌else◌, sym, ◌∙◌,
  ap, Option, none, some, ◌++◌, ◌==◌, ==_iff, arith, length, take, drop, length-append, length-take,
  length-drop, take-append, drop-append, drop-drop, append_assoc, All,
}
use kvstash.Outcome.{ok, ◌>>=◌}
use kvstash.Bytes.{word, le-word, word-lt, join, Bytes, IsByte, le, of_le-le}
use kvstash.Protocol.Crc.{checksum, checksum-lt}
use kvstash.Protocol.Header.{
  Header, FrameError, FitsWire, payload_too_large, marshal_to, parse_header, cap_check, magic_le,
  version1,
}
use kvstash.Protocol.Header.Layout.{prefix60, layout, length-prefix60, marshal_lem}
use kvstash.Protocol.Header.Parsing.{fields, parse_header-checked, parse_header-short, gate-ok}

-- The header as it arrives: magic, version and checksum are the writer's.
abbrev pub as_sent : Header → Header
as_sent h = record h { magic = le 4 magic_le; version = version1; crc = checksum (prefix60 h) }

regroup : (a b c d : Bytes) → ((a ++ b) ++ c) ++ d ≡ a ++ (b ++ (c ++ d))
regroup a b c d = append_assoc (a ++ b) c d ∙ append_assoc a b (c ++ d)

module _ (h : Header) (fits : FitsWire h) (rest : Bytes) where
  sent : Bytes
  sent = layout h ++ rest

  sent_crc : word 4 60 sent ≡ checksum (prefix60 h)
  unfolding sent layout
  sent_crc = rw (append_assoc (prefix60 h) (le 4 (checksum (prefix60 h))) rest) (
      rw
        (drop-append 60 (prefix60 h) (le 4 (checksum (prefix60 h)) ++ rest)
          (length-prefix60 h fits))
        (of_le-le 4 (checksum (prefix60 h)) (checksum-lt (prefix60 h))))

  sent_prefix : take 60 sent ≡ prefix60 h
  unfolding sent layout
  sent_prefix = rw append_assoc (take-append 60 (prefix60 h) _ (length-prefix60 h fits))

  sent_tail : Bytes
  sent_tail = le 4 h.payload_len ++ (le 4 (checksum (prefix60 h)) ++ rest)

  drop-sent : drop 24 sent ≡ h.key ++ sent_tail
  unfolding sent layout prefix60 sent_tail
  drop-sent = regroup h.key (le 4 h.payload_len) (le 4 (checksum (prefix60 h))) rest

  sent_key : take 32 (drop 24 sent) ≡ h.key
  sent_key = rw drop-sent (take-append 32 h.key sent_tail fits.key_length)

  sent_len : word 4 56 sent ≡ h.payload_len
  unfolding sent_tail
  sent_len = rw (← drop-drop 32 24 sent) (
      rw drop-sent (
        rw (drop-append 32 h.key sent_tail fits.key_length)
          (of_le-le 4 h.payload_len fits.payload_len)))

  sent_fields : fields sent (checksum (prefix60 h)) ≡ as_sent h
  sent_fields = cc (sent_key, sent_len, v, op, fl, ns, cr, rid)
    where
      v : word 1 4 sent ≡ version1
      v = unfold sent layout prefix60 in refl

      op : word 1 5 sent ≡ h.opcode
      op = unfold sent layout prefix60 in of_le-le 1 h.opcode fits.opcode

      fl : word 2 6 sent ≡ h.flags
      fl = unfold sent layout prefix60 in of_le-le 2 h.flags fits.flags

      ns : word 4 8 sent ≡ h.namespace_id
      ns = unfold sent layout prefix60 in of_le-le 4 h.namespace_id fits.namespace_id

      cr : word 4 12 sent ≡ h.credit
      cr = unfold sent layout prefix60 in of_le-le 4 h.credit fits.credit

      rid : word 8 16 sent ≡ h.request_id
      rid = unfold sent layout prefix60 in of_le-le 8 h.request_id fits.request_id

  parse-sent : (max : ℕ) → parse_header sent max ≡ ok (cap_check max (as_sent h))
  parse-sent max =
      let m : (word 4 0 sent == magic_le) ≡ true = unfold sent layout prefix60 in refl in
      let v : (word 1 4 sent == 1) ≡ true = unfold sent layout prefix60 in refl in
      let c : (word 4 60 sent == checksum (take 60 sent)) ≡ true =
        (==_iff _ _).1 (sent_crc ∙ sym (ap checksum sent_prefix)) in
      rw (parse_header-checked sent max long)
        (rw (m, v, c) (rw sent_crc (ap (λ g. ok (cap_check max g)) sent_fields)))
    where
      long : 64 ≤ length sent
      long =
          unfold sent layout in
          omega (
            arith,
            length-append (prefix60 h ++ le 4 (checksum (prefix60 h))) rest,
            length-append (prefix60 h) (le 4 (checksum (prefix60 h))),
            length-prefix60 h fits,
          )

flagged :
    (max : ℕ) (g : Header)
    → cap_check max g ≡ (g, if leb g.payload_len max then none else some payload_too_large)
unfolding cap_check
flagged max g = elim (Bool-cases (leb g.payload_len max)) [
  | inl a ↦ let b : ltb max g.payload_len ≡ false = ground (arith, a) in rw (a, b) refl
  | inr a ↦ let b : ltb max g.payload_len ≡ true = ground (arith, a) in rw (a, b) refl
]

-- A header whose fields fit the wire, marshalled into any buffer that has room for it, parses back
-- to its own fields, with the writer's magic, version and checksum. The error beside it is none if
-- its payload is at most the cap, and that of a payload that is too large if it is over the cap.
pub parse_header-marshal_to :
    (h : Header) (b : Bytes) (max : ℕ)
    → FitsWire h
    → 64 ≤ length b
    → (marshal_to h b >>= λ b'. parse_header b' max)
      ≡ ok (as_sent h, if leb h.payload_len max then none else some payload_too_large)
parse_header-marshal_to h b max fits room =
    rw (marshal_lem h fits b room) (unfold sent in parse-sent h fits (drop 64 b) max)
    ∙ ap ok (flagged max (as_sent h))

module _ (b : Bytes) (bytes : All IsByte b) where
  module _ (c : ℕ) (long : 64 ≤ length b) where
    fields-FitsWire : FitsWire (fields b c)
    fields-FitsWire = record {
      opcode = word-lt b bytes 1 5 (omega arith);
      flags = word-lt b bytes 2 6 (omega arith);
      namespace_id = word-lt b bytes 4 8 (omega arith);
      credit = word-lt b bytes 4 12 (omega arith);
      request_id = word-lt b bytes 8 16 (omega arith);
      key_length = omega (arith, length-take 32 (drop 24 b), length-drop 24 b);
      payload_len = word-lt b bytes 4 56 (omega arith);
    }

    prefix60-fields :
        word 4 0 b ≡ magic_le → word 1 4 b ≡ version1 → prefix60 (fields b c) ≡ take 60 b
    unfolding prefix60
    prefix60-fields m v =
        join b 56 4 (w₇ ++ h.key) (le 4 h.payload_len)
          (join b 24 32 w₇ h.key
            (join b 16 8 w₆ (le 8 h.request_id)
              (join b 12 4 w₅ (le 4 h.credit)
                (join b 8 4 w₄ (le 4 h.namespace_id)
                  (join b 6 2 w₃ (le 2 h.flags)
                    (join b 5 1 w₂ (le 1 h.opcode)
                      (join b 4 1 w₁ (le 1 version1) (rw m at (le-word b bytes 4 0 (omega arith)))
                        (rw v at (le-word b bytes 1 4 (omega arith))))
                      (le-word b bytes 1 5 (omega arith)))
                    (le-word b bytes 2 6 (omega arith)))
                  (le-word b bytes 4 8 (omega arith)))
                (le-word b bytes 4 12 (omega arith)))
              (le-word b bytes 8 16 (omega arith)))
            refl)
          (le-word b bytes 4 56 (omega arith))
      where
        h : Header
        h = fields b c

        w₁ : Bytes
        w₁ = le 4 magic_le

        w₂ : Bytes
        w₂ = w₁ ++ le 1 version1

        w₃ : Bytes
        w₃ = w₂ ++ le 1 h.opcode

        w₄ : Bytes
        w₄ = w₃ ++ le 2 h.flags

        w₅ : Bytes
        w₅ = w₄ ++ le 4 h.namespace_id

        w₆ : Bytes
        w₆ = w₅ ++ le 4 h.credit

        w₇ : Bytes
        w₇ = w₆ ++ le 8 h.request_id

  layout-fields :
      64 ≤ length b
      → word 4 0 b ≡ magic_le
      → word 1 4 b ≡ version1
      → word 4 60 b ≡ checksum (take 60 b)
      → layout (fields b (word 4 60 b)) ≡ take 64 b
  unfolding layout
  layout-fields long m v e =
      let p : prefix60 (fields b (word 4 60 b)) ≡ take 60 b =
        prefix60-fields (word 4 60 b) long m v in
      join b 60 4 _ _ p (rw (p, ← e) (le-word b bytes 4 60 (omega arith)))

-- What the parser accepts is what it would write: marshalling a parsed header, flagged or not,
-- into any buffer that has room puts back the very 64 bytes that were parsed.
pub marshal_to-parse_header :
    (b b' : Bytes) (max : ℕ) {h : Header} {e : Option FrameError}
    → All IsByte b
    → 64 ≤ length b'
    → parse_header b max ≡ ok (h, e)
    → marshal_to h b' ≡ ok (take 64 b ++ drop 64 b')
marshal_to-parse_header b b' max {h} {e} bytes room parsed = elim (Bool-cases (leb 64 (length b))) [
  | inr short ↦ cc (parse_header-short b max (ground arith))
  | inl l ↦
      let long : 64 ≤ length b = leb→le _ _ l in
      let (m, v, c, same) =
        gate-ok _ _ _ max (fields b (word 4 60 b))
          (sym (parse_header-checked b max long) ∙ parsed) in
      rw same (
        rw (marshal_lem (fields b (word 4 60 b)) (fields-FitsWire b bytes _ long) b' room) (
          ap (λ w. ok (w ++ drop 64 b'))
            (layout-fields b bytes long ((==_iff _ _).0 m) ((==_iff _ _).0 v) ((==_iff _ _).0 c))))
]
