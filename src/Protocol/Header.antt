-- ===== src/Protocol/Header.antt =====
-- internal/protocol/header.go: the 64-byte frame header, its parser and its writer.
pub mod Layout
pub mod Parsing
pub mod RoundTrip
use kvstash.Prelude.{
  ℕ, ◌^◌, ◌<◌, ◌≡◌, Bool, true, false, Option, none, some, length, leb, ltb, ◌==◌, if◌then◌else◌,
}
use kvstash.Outcome.{Outcome, ok, ◌>>=◌, ◌>>◌, guard, bounds}
use kvstash.Bytes.{Bytes, le, u_at, sub, put_at, copy_at}
use kvstash.Protocol.Crc.{header_crc}

abbrev pub header_size : ℕ
header_size = 64

abbrev pub version1 : ℕ
version1 = 0x01

-- The bytes 4B 56 42 31, "KVB1".
abbrev pub magic_le : ℕ
magic_le = 0x3142564B

pub record Header : Type 0 where
  pub magic : Bytes
  pub version : ℕ
  pub opcode : ℕ
  pub flags : ℕ
  pub namespace_id : ℕ
  pub credit : ℕ
  pub request_id : ℕ
  pub key : Bytes
  pub payload_len : ℕ
  pub crc : ℕ

-- `payload_too_large` is the one that is not fatal, and comes with a populated header.
pub data FrameError : Type 0 where
  short_header bad_magic bad_version bad_crc payload_too_large : FrameError

-- `errors.Is(err, ErrFatalFrame)`.
pub is_fatal : FrameError → Bool
is_fatal payload_too_large = false
is_fatal _ = true

-- `if h.PayloadLen > maxPayloadLen { return h, ErrPayloadTooLarge }; return h, nil`.
unfoldable pub cap_check : ℕ → Header → Header × Option FrameError
cap_check max h = if ltb max h.payload_len then (h, some payload_too_large) else (h, none)

-- The reads of the fields, once the checks have passed.
unfoldable pub read_fields : Bytes → ℕ → Outcome FrameError Header
read_fields b wire_crc = do
  v ← u_at 1 4 b
  op ← u_at 1 5 b
  fl ← u_at 2 6 b
  ns ← u_at 4 8 b
  cr ← u_at 4 12 b
  rid ← u_at 8 16 b
  k ← sub 24 56 b
  len ← u_at 4 56 b
  ok (record {
    magic = le 4 magic_le;
    version = v;
    opcode = op;
    flags = fl;
    namespace_id = ns;
    credit = cr;
    request_id = rid;
    key = k;
    payload_len = len;
    crc = wire_crc;
  })

-- `ParseHeader`: `err` is a fatal error beside the zero header.
unfoldable pub parse_header : Bytes → ℕ → Outcome FrameError (Header × Option FrameError)
parse_header b max_payload_len = do
  guard (leb header_size (length b)) short_header
  m ← u_at 4 0 b
  guard (m == magic_le) bad_magic
  v ← u_at 1 4 b
  guard (v == version1) bad_version
  wire_crc ← u_at 4 60 b
  c ← header_crc b
  guard (wire_crc == c) bad_crc
  h ← read_fields b wire_crc
  ok (cap_check max_payload_len h)

-- `MarshalTo`: the buffer that is passed, with its first 64 bytes written.
unfoldable pub marshal_to : Header → Bytes → Outcome FrameError Bytes
marshal_to h b₀ = do
  bounds (leb header_size (length b₀))
  b₁ ← put_at 0 (le 4 magic_le) b₀
  b₂ ← put_at 4 (le 1 version1) b₁
  b₃ ← put_at 5 (le 1 h.opcode) b₂
  b₄ ← put_at 6 (le 2 h.flags) b₃
  b₅ ← put_at 8 (le 4 h.namespace_id) b₄
  b₆ ← put_at 12 (le 4 h.credit) b₅
  b₇ ← put_at 16 (le 8 h.request_id) b₆
  b₈ ← copy_at 24 h.key b₇
  b₉ ← put_at 56 (le 4 h.payload_len) b₈
  c ← header_crc b₉
  put_at 60 (le 4 c) b₉

-- The ranges of the Go types of the fields that travel.
pub record FitsWire (h : Header) : Type 0 where
  pub opcode : h.opcode < 256 ^ 1
  pub flags : h.flags < 256 ^ 2
  pub namespace_id : h.namespace_id < 256 ^ 4
  pub credit : h.credit < 256 ^ 4
  pub request_id : h.request_id < 256 ^ 8
  pub key_length : length h.key ≡ 32
  pub payload_len : h.payload_len < 256 ^ 4
