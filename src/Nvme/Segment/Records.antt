-- ===== src/Nvme/Segment/Records.antt =====
-- internal/store/nvme/segment.go: a record's frame, its alignment and its header.
use kvstash.Prelude.{
  ℕ, ◌+◌, ◌-◌, ◌%◌, ◌^◌, ◌<◌, ◌≤◌, ◌≡◌, ◌≢◌, refl, sym, ap, ◌++◌, append_assoc, arith, length,
  length-append, length-replicate, take, drop, take-append, drop-append, drop-drop, replicate, leb,
  le→leb, [], true,
}
use kvstash.Outcome.{ok, panic}
use kvstash.Bytes.{Bytes, le, of_le-le, u_at, u_at-ok, sub, sub-append, length-le}
use kvstash.Nvme.Segment.{
  SegmentError, RecordHeader, header_bytes, append_record, parse_record_header, record_span,
  round_up_align, record_magic,
}

pub record FitsRecord (h : RecordHeader) (payload : Bytes) : Type 0 where
  pub ns : h.ns < 256 ^ 4
  pub key : length h.key ≡ 32
  pub len : h.len ≡ length payload
  pub small : h.len < 256 ^ 4
  pub xxh3 : h.xxh3 < 256 ^ 8

-- A word that stands behind a prefix of a slice.
pub u_at-append :
    (k off n : ℕ) (pre post : Bytes)
    → length pre ≡ off
    → n < 256 ^ k
    → u_at {E = SegmentError} k off (pre ++ (le k n ++ post)) ≡ ok n
u_at-append k off n pre post e h =
    rw
      (u_at-ok {E = SegmentError} k off (pre ++ (le k n ++ post)) (
        omega
          (arith, length-append pre (le k n ++ post), length-append (le k n) post, length-le k n)))
      (rw (drop-append off pre (le k n ++ post) e)
        (rw (take-append k (le k n) post (length-le k n)) (rw (of_le-le k n h))))

-- A span is a multiple of the alignment, holds the header and the payload, and wastes less than a block.
pub record_span-aligned :
    (n : ℕ)
    → n < 256 ^ 4
    → (record_span n % 4096 ≡ 0) × (56 + n ≤ record_span n) × (record_span n < 56 + n + 4096)
unfolding record_span round_up_align
record_span-aligned n h = (omega arith, omega arith, omega arith)

length-header_bytes : (h : RecordHeader) → length h.key ≡ 32 → length (header_bytes h) ≡ 56
unfolding header_bytes
length-header_bytes h e =
    omega (arith, length-append h.key (le 4 h.len ++ (le 4 0 ++ le 8 h.xxh3)), e)

-- A header and what follows it, field by field.
flat : RecordHeader → Bytes → Bytes
flat h rest =
    le 4 record_magic ++ (le 4 h.ns ++ (h.key ++ (le 4 h.len ++ (le 4 0 ++ (le 8 h.xxh3 ++ rest)))))

header_bytes-append : (h : RecordHeader) (rest : Bytes) → header_bytes h ++ rest ≡ flat h rest
unfolding header_bytes flat
header_bytes-append h rest =
    ap (λ t. le 4 record_magic ++ (le 4 h.ns ++ t))
      (append_assoc h.key (le 4 h.len ++ (le 4 0 ++ le 8 h.xxh3)) rest)

parse-flat :
    (h : RecordHeader) (payload rest : Bytes) (max : ℕ)
    → FitsRecord h payload
    → h.len ≤ max
    → parse_record_header (flat h rest) max ≡ ok h
unfolding parse_record_header flat
parse-flat h payload rest max f l =
    let front = le 4 record_magic ++ le 4 h.ns in
    let tail = le 4 h.len ++ (le 4 0 ++ (le 8 h.xxh3 ++ rest)) in
    let b = front ++ (h.key ++ tail) in
    let long : leb 56 (length b) ≡ true =
      le→leb _ _ (omega (arith, length-append h.key tail, f.key)) in
    let m = u_at-append 4 0 record_magic [] (le 4 h.ns ++ (h.key ++ tail)) refl (omega arith) in
    let ns = u_at-append 4 4 h.ns (le 4 record_magic) (h.key ++ tail) refl f.ns in
    let key : sub {E = SegmentError} 8 40 b ≡ ok h.key =
      sub-append 8 40 front h.key tail refl (omega (arith, f.key)) in
    let len : u_at {E = SegmentError} 4 40 b ≡ ok h.len =
      u_at-append 4 40 h.len (front ++ h.key) (le 4 0 ++ (le 8 h.xxh3 ++ rest))
        (omega (arith, f.key)) f.small in
    let x : u_at {E = SegmentError} 8 48 b ≡ ok h.xxh3 =
      rw (append_assoc h.key (le 4 h.len ++ le 4 0) (le 8 h.xxh3 ++ rest)) at (
        u_at-append 8 48 h.xxh3 (front ++ (h.key ++ (le 4 h.len ++ le 4 0))) rest
          (omega (arith, length-append h.key (le 4 h.len ++ le 4 0), f.key)) f.xxh3) in
    rw long (rw (m, ns, key, len, x) (rw (le→leb _ _ l) refl))

pad : Bytes → RecordHeader → Bytes → Bytes
pad dst h payload =
    replicate (length dst + record_span h.len - length ((dst ++ header_bytes h) ++ payload)) 0

append_record-parts :
    (dst : Bytes) (h : RecordHeader) (payload : Bytes)
    → append_record dst h payload ≡ dst ++ (header_bytes h ++ (payload ++ pad dst h payload))
unfolding append_record pad
append_record-parts dst h payload = simp append_assoc

-- A record that was framed behind any bytes starts with a header that parses to the one given, holds
-- the payload 56 bytes on, and takes exactly its span, a multiple of 4096. The condition is that the
-- header's length is the payload's and within the volume's bound, and that its fields fit.
pub append_record-framed :
    (dst : Bytes) (h : RecordHeader) (payload : Bytes) (max : ℕ)
    → FitsRecord h payload
    → h.len ≤ max
    → (parse_record_header (drop (length dst) (append_record dst h payload)) max ≡ ok h)
      × (take h.len (drop (length dst + 56) (append_record dst h payload)) ≡ payload)
      × (length (append_record dst h payload) ≡ length dst + record_span h.len)
      × (record_span h.len % 4096 ≡ 0)
unfolding pad
append_record-framed dst h payload max f l =
    let p = pad dst h payload in
    let head = header_bytes h in
    let behind = drop-append (length dst) dst (head ++ (payload ++ p)) refl in
    let n = length-header_bytes h f.key in
    let span = record_span-aligned h.len f.small in
    let framed = length-append (dst ++ head) payload in
    let front = length-append dst head in
    let zeros =
      length-replicate {A = ℕ} (length dst + record_span h.len - length ((dst ++ head) ++ payload))
        0 in
    rw (append_record-parts dst h payload) (
      rw behind
          (rw (header_bytes-append h (payload ++ p)) (parse-flat h payload (payload ++ p) max f l)),
      rw (← drop-drop 56 (length dst) (dst ++ (head ++ (payload ++ p)))) (
          rw behind
            (rw (drop-append 56 head (payload ++ p) n) (take-append h.len payload p (sym f.len)))),
      omega (
        arith,
        n,
        span.1,
        framed,
        front,
        zeros,
        f.len,
        length-append dst (head ++ (payload ++ p)),
        length-append head (payload ++ p),
        length-append payload p,
      ),
      span.0,
    )

pub parse_record_header-ne-panic : (b : Bytes) (max : ℕ) → parse_record_header b max ≢ panic
unfolding parse_record_header u_at sub
parse_record_header-ne-panic b max = ground arith
