-- ===== src/Protocol/Crc.antt =====
-- internal/protocol/crc.go: the CRC32C of a frame header. hash/crc32 is Go's standard library; what
-- `crc32.Checksum` and `crc32.Update` compute over the Castagnoli table is written out bit by bit.
use Prim.Native.Nat.{bit_xor}
use kvstash.Prelude.{
  ℕ, zero, suc, ◌/◌, ◌%◌, ◌^◌, ◌<◌, ◌≤◌, ◌≡◌, refl, [], ◌∷◌, arith, length, take, leb, ◌==◌,
  if◌then◌else◌, le→leb,
}
use kvstash.Outcome.{Outcome, ok, panic}
use kvstash.Bytes.{Bytes}

-- One bit of the reflected polynomial division.
crc_bit : ℕ → ℕ
crc_bit c = if c % 2 == 1 then bit_xor (c / 2) 0x82F63B78 else c / 2

crc_bits : ℕ → ℕ → ℕ
unfolding crc_bit
crc_bits zero c = c
crc_bits (suc k) c = crc_bits k (crc_bit c)

crc_bytes : Bytes → ℕ → ℕ
unfolding crc_bits
crc_bytes [] c = c
crc_bytes (b ∷ bs) c = crc_bytes bs (crc_bits 8 (bit_xor c b))

-- `crc32.Update(crc, castagnoli, bs)`, a uint32.
unfoldable pub crc_update : ℕ → Bytes → ℕ
unfolding crc_bytes
crc_update crc bs = bit_xor (crc_bytes bs (bit_xor crc 0xFFFFFFFF)) 0xFFFFFFFF % 2 ^ 32

-- `crc32.Checksum(bs, castagnoli)`.
unfoldable pub checksum : Bytes → ℕ
unfolding crc_update
checksum bs = crc_update 0 bs

pub checksum-lt : (bs : Bytes) → checksum bs < 256 ^ 4
unfolding checksum
checksum-lt bs = omega arith

abbrev pub crc_offset : ℕ
crc_offset = 60

-- `HeaderCRC`: a buffer shorter than 60 bytes is a panic.
unfoldable pub header_crc {ℓ} : {E : Type ℓ} → Bytes → Outcome E ℕ
header_crc b = if leb crc_offset (length b) then ok (checksum (take crc_offset b)) else panic

pub header_crc-ok {ℓ} :
    {E : Type ℓ} (b : Bytes) → 60 ≤ length b → header_crc {E = E} b ≡ ok (checksum (take 60 b))
unfolding header_crc
header_crc-ok b h = rw (le→leb 60 (length b) h)

-- The check value of CRC-32/ISCSI: the checksum of "123456789".
checksum_check_value :
    checksum (0x31 ∷ 0x32 ∷ 0x33 ∷ 0x34 ∷ 0x35 ∷ 0x36 ∷ 0x37 ∷ 0x38 ∷ 0x39 ∷ []) ≡ 0xE3069283
unfolding checksum
checksum_check_value = refl
