-- ===== src/Nvme/Segment/Entries.antt =====
-- internal/store/nvme/segment.go: the entry table of a sealed segment.
use kvstash.Prelude.{
  ℕ, suc, ◌+◌, ◌*◌, ◌%◌, ◌^◌, ◌<◌, ◌≤◌, ◌≡◌, ◌∙◌, refl, ap, List, [], ◌∷◌, ◌++◌, append-nil,
  append_assoc, arith, length, length-append, length-replicate, length-drop, drop, replicate,
  le→leb, All,
}
use kvstash.Outcome.{ok}
use kvstash.Bytes.{Bytes, le, u_at, sub, sub-append, put_at, put_at-next}
use kvstash.Nvme.Segment.{
  SegmentError, FooterEntry, write_entry, write_entries, encode_entries, read_entry, read_entries,
  decode_entries, round_up_align,
}
use kvstash.Nvme.Segment.Records.{u_at-append}

pub record FitsEntry (e : FooterEntry) : Type 0 where
  pub ns : e.ns < 256 ^ 4
  pub key : length e.key ≡ 32
  pub off : e.off < 256 ^ 4
  pub len : e.len < 256 ^ 4
  pub xxh3 : e.xxh3 < 256 ^ 8

entry_bytes : FooterEntry → Bytes
entry_bytes e = le 4 e.ns ++ (e.key ++ (le 4 e.off ++ (le 4 e.len ++ le 8 e.xxh3)))

length-entry_bytes : (e : FooterEntry) → length e.key ≡ 32 → length (entry_bytes e) ≡ 52
unfolding entry_bytes
length-entry_bytes e k =
    omega (arith, k, length-append e.key (le 4 e.off ++ (le 4 e.len ++ le 8 e.xxh3)))

put_at-then :
    (off off' : ℕ) (w xs b : Bytes)
    → length w ≡ off
    → off + length xs ≡ off'
    → off' ≤ length b
    → (put_at {E = SegmentError} off xs (w ++ drop off b) ≡ ok ((w ++ xs) ++ drop off' b))
      × (length (w ++ xs) ≡ off')
put_at-then off off' w xs b p e h = (
  rw e at (put_at-next {E = SegmentError} off w xs b p (omega arith)),
  omega (arith, length-append w xs),
)

-- The fields of an entry are written one behind the other.
write-entry_bytes :
    (pos : ℕ) (e : FooterEntry) (w b : Bytes)
    → length e.key ≡ 32
    → length w ≡ pos
    → pos + 52 ≤ length b
    → write_entry pos e (w ++ drop pos b) ≡ ok ((w ++ entry_bytes e) ++ drop (pos + 52) b)
unfolding write_entry entry_bytes
write-entry_bytes pos e w b k p h =
    let ns = le 4 e.ns in
    let off = le 4 e.off in
    let len = le 4 e.len in
    let x = le 8 e.xxh3 in
    let a1 = put_at-then pos (pos + 4) w ns b p (omega arith) (omega arith) in
    let a2 = put_at-then (pos + 4) (pos + 36) (w ++ ns) e.key b a1.1 (omega arith) (omega arith) in
    let a3 =
      put_at-then (pos + 36) (pos + 40) ((w ++ ns) ++ e.key) off b a2.1 (omega arith)
        (omega arith) in
    let a4 =
      put_at-then (pos + 40) (pos + 44) (((w ++ ns) ++ e.key) ++ off) len b a3.1 (omega arith)
        (omega arith) in
    let a5 =
      put_at-then (pos + 44) (pos + 52) ((((w ++ ns) ++ e.key) ++ off) ++ len) x b a4.1
        (omega arith) (omega arith) in
    rw (a1.0, a2.0, a3.0, a4.0, a5.0) (simp append_assoc)

table : List FooterEntry → Bytes
unfolding entry_bytes
table [] = []
table (e ∷ es) = entry_bytes e ++ table es

length-table : (es : List FooterEntry) → All FitsEntry es → length (table es) ≡ 52 * length es
unfolding table
length-table [] f = omega arith
length-table (e ∷ es) f = omega (
  arith,
  length-append (entry_bytes e) (table es),
  length-entry_bytes e f.0.key,
  length-table es f.1,
)

write_entries-table :
    (i : ℕ) (es : List FooterEntry) (w b : Bytes)
    → All FitsEntry es
    → length w ≡ i * 52
    → i * 52 + 52 * length es ≤ length b
    → write_entries i es (w ++ drop (i * 52) b)
      ≡ ok ((w ++ table es) ++ drop (i * 52 + 52 * length es) b)
unfolding write_entries table
write_entries-table i [] w b f p h =
    let e : i * 52 + 52 * 0 ≡ i * 52 = omega arith in rw (e, append-nil w) refl
write_entries-table i (e ∷ es) w b f p h =
    let one = write-entry_bytes (i * 52) e w b f.0.key p (omega arith) in
    let next : i * 52 + 52 ≡ (i + 1) * 52 = omega arith in
    let n : length (w ++ entry_bytes e) ≡ (i + 1) * 52 =
      omega (arith, length-append w (entry_bytes e), length-entry_bytes e f.0.key) in
    let rest = write_entries-table (i + 1) es (w ++ entry_bytes e) b f.1 n (omega arith) in
    let end : (i + 1) * 52 + 52 * length es ≡ i * 52 + 52 * suc (length es) = omega arith in
    rw (one, next, rest, end)
      (ap (λ t. ok (t ++ drop (i * 52 + 52 * suc (length es)) b))
        (append_assoc w (entry_bytes e) (table es)))

u_at-within :
    (k off n : ℕ) (b pre post : Bytes)
    → b ≡ pre ++ (le k n ++ post)
    → length pre ≡ off
    → n < 256 ^ k
    → u_at {E = SegmentError} k off b ≡ ok n
u_at-within k off n b pre post e p h = rw e (u_at-append k off n pre post p h)

sub-within :
    (lo hi : ℕ) (b pre x post : Bytes)
    → b ≡ pre ++ (x ++ post)
    → length pre ≡ lo
    → lo + length x ≡ hi
    → sub {E = SegmentError} lo hi b ≡ ok x
sub-within lo hi b pre x post e p h = rw e (sub-append lo hi pre x post p h)

read_entry-table :
    (pos : ℕ) (e : FooterEntry) (w rest b : Bytes)
    → FitsEntry e
    → length w ≡ pos
    → b ≡ w ++ (entry_bytes e ++ rest)
    → read_entry pos b ≡ ok e
unfolding read_entry entry_bytes
read_entry-table pos e w rest b f p q =
    let ns = le 4 e.ns in
    let off = le 4 e.off in
    let len = le 4 e.len in
    let x = le 8 e.xxh3 in
    let n1 = length-append w ns in
    let n2 = length-append (w ++ ns) e.key in
    let n3 = length-append ((w ++ ns) ++ e.key) off in
    let n4 = length-append (((w ++ ns) ++ e.key) ++ off) len in
    let a1 =
      u_at-within 4 pos e.ns b w (e.key ++ (off ++ (len ++ (x ++ rest)))) (q ∙ simp append_assoc) p
        f.ns in
    let a2 =
      sub-within (pos + 4) (pos + 36) b (w ++ ns) e.key (off ++ (len ++ (x ++ rest)))
        (q ∙ simp append_assoc) (omega arith) (omega (arith, f.key)) in
    let a3 =
      u_at-within 4 (pos + 36) e.off b ((w ++ ns) ++ e.key) (len ++ (x ++ rest))
        (q ∙ simp append_assoc) (omega (arith, f.key)) f.off in
    let a4 =
      u_at-within 4 (pos + 40) e.len b (((w ++ ns) ++ e.key) ++ off) (x ++ rest)
        (q ∙ simp append_assoc) (omega (arith, f.key)) f.len in
    let a5 =
      u_at-within 8 (pos + 44) e.xxh3 b ((((w ++ ns) ++ e.key) ++ off) ++ len) rest
        (q ∙ simp append_assoc) (omega (arith, f.key)) f.xxh3 in
    rw (a1, a2, a3, a4, a5) refl

read_entries-table :
    (i : ℕ) (es : List FooterEntry) (w rest : Bytes)
    → All FitsEntry es
    → length w ≡ i * 52
    → read_entries (length es) i (w ++ (table es ++ rest)) ≡ ok es
unfolding read_entries table
read_entries-table i [] w rest f p = refl
read_entries-table i (e ∷ es) w rest f p =
    let n = length-append w (entry_bytes e) in
    let m = length-entry_bytes e f.0.key in
    let r = read_entries-table (i + 1) es (w ++ entry_bytes e) rest f.1 (omega arith) in
    let flat : (w ++ entry_bytes e) ++ (table es ++ rest)
        ≡ w ++ (entry_bytes e ++ table es ++ rest) =
      simp append_assoc in
    let one =
      read_entry-table (i * 52) e w (table es ++ rest) (w ++ (entry_bytes e ++ table es ++ rest))
        f.0 p (simp append_assoc) in
    rw (one, rw flat at r) refl

-- An entry table is written without a panic and in whole blocks, and reading as many entries as were
-- written gives them back. The condition is that the entries' fields fit, and their number is a uint32.
pub decode_entries-encode_entries :
    (es : List FooterEntry)
    → All FitsEntry es
    → length es < 256 ^ 4
    → (out : Bytes) × (encode_entries es ≡ ok out)
      × (decode_entries out (length es) ≡ ok es)
      × (length out % 4096 ≡ 0)
unfolding encode_entries decode_entries round_up_align
decode_entries-encode_entries es f h =
    let zeros = replicate {A = ℕ} (round_up_align (length es * 52)) 0 in
    let z = length-replicate {A = ℕ} (round_up_align (length es * 52)) 0 in
    let span : (length es * 52 ≤ round_up_align (length es * 52))
        × (round_up_align (length es * 52) % 4096 ≡ 0) =
      (omega arith, omega arith) in
    let w = write_entries-table 0 es [] zeros f (omega arith) (omega (arith, z, span.0)) in
    let t = length-table es f in
    let r = read_entries-table 0 es [] (drop (0 * 52 + 52 * length es) zeros) f (omega arith) in
    let len = length-append (table es) (drop (0 * 52 + 52 * length es) zeros) in
    let d = length-drop (0 * 52 + 52 * length es) zeros in
    let whole : length (table es ++ drop (0 * 52 + 52 * length es) zeros)
        ≡ round_up_align (length es * 52) =
      omega (arith, len, d, t, z, span.0) in
    (
      table es ++ drop (0 * 52 + 52 * length es) zeros,
      w,
      rw
          (le→leb (length es * 52) (length (table es ++ drop (0 * 52 + 52 * length es) zeros))
            (omega arith))
          r,
      rw whole span.1,
    )
