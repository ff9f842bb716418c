-- ===== src/Protocol/Ops.antt =====
-- internal/protocol/ops.go: flag bits, statuses, features and the limits of the protocol. A Status
-- is a uint8 of which any value may come off the wire.
use Prim.Native.Nat.{bit_and, bit_or, bit_xor}
use kvstash.Prelude.{ℕ, ◌*◌, ◌/◌, ◌%◌, ◌^◌}

abbrev pub status_ok : ℕ
status_ok = 0x00

abbrev pub status_ok_exists : ℕ
status_ok_exists = 0x01

abbrev pub status_not_found : ℕ
status_not_found = 0x10

abbrev pub status_err_quota_bytes : ℕ
status_err_quota_bytes = 0x30

abbrev pub status_err_pin_quota : ℕ
status_err_pin_quota = 0x31

abbrev pub status_err_too_large : ℕ
status_err_too_large = 0x32

abbrev pub status_err_batch_too_large : ℕ
status_err_batch_too_large = 0x33

abbrev pub status_err_busy : ℕ
status_err_busy = 0x34

abbrev pub status_err_leased : ℕ
status_err_leased = 0x44

abbrev pub status_err_pinned : ℕ
status_err_pinned = 0x45

abbrev pub status_err_malformed : ℕ
status_err_malformed = 0x51

abbrev pub status_err_internal : ℕ
status_err_internal = 0x60

abbrev pub status_err_auth_required : ℕ
status_err_auth_required = 0x20

abbrev pub status_err_auth_failed : ℕ
status_err_auth_failed = 0x21

abbrev pub status_err_checksum : ℕ
status_err_checksum = 0x40

abbrev pub status_err_short_stream : ℕ
status_err_short_stream = 0x41

abbrev pub status_err_stale_stream : ℕ
status_err_stale_stream = 0x42

abbrev pub status_err_immutable_conflict : ℕ
status_err_immutable_conflict = 0x43

abbrev pub status_err_unsupported : ℕ
status_err_unsupported = 0x50

abbrev pub put_begin_op : ℕ
put_begin_op = 0

abbrev pub put_chunk_op : ℕ
put_chunk_op = 1

abbrev pub put_commit_op : ℕ
put_commit_op = 2

abbrev pub put_abort_op : ℕ
put_abort_op = 3

abbrev pub touch_recency : ℕ
touch_recency = 0

abbrev pub lease_grant : ℕ
lease_grant = 1

abbrev pub lease_release : ℕ
lease_release = 2

abbrev pub pin_soft : ℕ
pin_soft = 0

abbrev pub pin_hard : ℕ
pin_hard = 1

abbrev pub unpin_op : ℕ
unpin_op = 2

abbrev pub op_nop : ℕ
op_nop = 0x00

abbrev pub op_hello : ℕ
op_hello = 0x01

abbrev pub op_batch_exists : ℕ
op_batch_exists = 0x02

abbrev pub op_batch_get : ℕ
op_batch_get = 0x03

abbrev pub op_put_stream : ℕ
op_put_stream = 0x04

abbrev pub op_touch_lease : ℕ
op_touch_lease = 0x05

abbrev pub op_pin : ℕ
op_pin = 0x06

abbrev pub op_delete : ℕ
op_delete = 0x07

abbrev pub op_stats : ℕ
op_stats = 0x08

abbrev pub flag_resp : ℕ
flag_resp = 0x0001

abbrev pub flag_more : ℕ
flag_more = 0x0002

abbrev pub flag_fatal : ℕ
flag_fatal = 0x0004

abbrev pub flag_force : ℕ
flag_force = 0x0008

abbrev pub floor_max_batch_keys : ℕ
floor_max_batch_keys = 128

abbrev pub floor_max_frame_len : ℕ
floor_max_frame_len = 16 * 2 ^ 20

-- FeatOOO, FeatExistsBitmap, FeatPayloadCRC32C, FeatCreditSymmetric and FeatTLSUpgrade: bits 0 to 4.
abbrev pub known_features : ℕ
known_features = 0x1F

-- `SubOp`: bits 4 to 7 of the flags.
unfoldable pub sub_op : ℕ → ℕ
sub_op flags = bit_and (flags / 2 ^ 4) 0xF

-- `WithSubOp`: a &^ m is a & (m ^ 0xFFFF) on 16 bits, and the shift stays within them.
unfoldable pub with_sub_op : ℕ → ℕ → ℕ
with_sub_op flags s =
    bit_or (bit_and flags (bit_xor (0xF * 2 ^ 4) 0xFFFF)) (bit_and s 0xF * 2 ^ 4 % 2 ^ 16)

-- `IntersectFeatures`.
unfoldable pub intersect_features : ℕ → ℕ → ℕ
intersect_features client server = bit_and (bit_and client server) known_features
