-- ===== src/Protocol/Header/Layout.antt =====
-- What `MarshalTo` writes: the fields in the order of the wire, then the checksum.
use kvstash.Prelude.{
  ℕ, ◌+◌, ◌≤◌, ◌≡◌, refl, [], ◌++◌, arith, length, drop, length-append, length-drop, take-append,
  le→leb,
}
use kvstash.Outcome.{ok}
use kvstash.Bytes.{Bytes, le, put_at, put_at-next, copy_at-put_at}
use kvstash.Protocol.Crc.{checksum, header_crc-ok}
use kvstash.Protocol.Header.{Header, FrameError, FitsWire, marshal_to, magic_le, version1}

-- The bytes that the checksum covers.
unfoldable pub prefix60 : Header → Bytes
prefix60 h =
    le 4 magic_le
    ++ le 1 version1
    ++ le 1 h.opcode
    ++ le 2 h.flags
    ++ le 4 h.namespace_id
    ++ le 4 h.credit
    ++ le 8 h.request_id
    ++ h.key
    ++ le 4 h.payload_len

unfoldable pub layout : Header → Bytes
layout h = prefix60 h ++ le 4 (checksum (prefix60 h))

module _ (h : Header) (fits : FitsWire h) where
  pub length-prefix60 : length (prefix60 h) ≡ 60
  unfolding prefix60
  length-prefix60 = omega (arith, length-append h.key (le 4 h.payload_len), fits.key_length)

  module _ (b : Bytes) (room : 64 ≤ length b) where
    put :
        (off end : ℕ) (w xs : Bytes)
        → length w ≡ off
        → off + length xs ≡ end
        → end ≤ 64
        → put_at {E = FrameError} off xs (w ++ drop off b) ≡ ok ((w ++ xs) ++ drop end b)
    put off end w xs e f k = rw (← f) (put_at-next off w xs b e (omega arith))

    -- `MarshalTo` writes the layout over the first 64 bytes and leaves the others alone.
    pub marshal_lem : marshal_to h b ≡ ok (layout h ++ drop 64 b)
    unfolding marshal_to prefix60 layout
    marshal_lem =
        let w₁ : Bytes = le 4 magic_le in
        let w₂ : Bytes = w₁ ++ le 1 version1 in
        let w₃ : Bytes = w₂ ++ le 1 h.opcode in
        let w₄ : Bytes = w₃ ++ le 2 h.flags in
        let w₅ : Bytes = w₄ ++ le 4 h.namespace_id in
        let w₆ : Bytes = w₅ ++ le 4 h.credit in
        let w₇ : Bytes = w₆ ++ le 8 h.request_id in
        let w₈ : Bytes = w₇ ++ h.key in
        let w₉ : Bytes = w₈ ++ le 4 h.payload_len in
        let l₉ : length w₉ ≡ 60 = length-prefix60 in
        let k : length h.key ≡ 32 = fits.key_length in
        rw (le→leb 64 (length b) room) (
          rw (put 0 4 [] w₁ refl refl (omega arith)) (
            rw (put 4 5 w₁ (le 1 version1) refl refl (omega arith)) (
              rw (put 5 6 w₂ (le 1 h.opcode) refl refl (omega arith)) (
                rw (put 6 8 w₃ (le 2 h.flags) refl refl (omega arith)) (
                  rw (put 8 12 w₄ (le 4 h.namespace_id) refl refl (omega arith)) (
                    rw (put 12 16 w₅ (le 4 h.credit) refl refl (omega arith)) (
                      rw (put 16 24 w₆ (le 8 h.request_id) refl refl (omega arith)) (
                        rw
                          (copy_at-put_at {E = FrameError} 24 h.key (w₇ ++ drop 24 b)
                            (omega (arith, length-append w₇ (drop 24 b), length-drop 24 b, k)))
                          (rw (put 24 56 w₇ h.key refl (omega arith) (omega arith)) (
                            rw
                              (put 56 60 w₈ (le 4 h.payload_len)
                                (omega (arith, length-append w₇ h.key)) refl (omega arith))
                              (rw
                                (header_crc-ok {E = FrameError} (w₉ ++ drop 60 b)
                                  (omega (arith, length-append w₉ (drop 60 b), l₉)))
                                (rw (take-append 60 w₉ (drop 60 b) l₉) (
                                  put 60 64 w₉ (le 4 (checksum w₉)) l₉ refl
                                    (omega arith))))))))))))))
