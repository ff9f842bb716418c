-- ===== src/Protocol/Body/GetResp/RoundTrip.antt =====
-- A GET response decodes to what was encoded, descriptor by descriptor, and nothing of it panics.
use kvstash.Prelude.{
  ℕ, ◌+◌, ◌*◌, ◌-◌, ◌%◌, ◌^◌, ◌<◌, ◌≡◌, ◌≢◌, refl, true, some, List, ◌++◌, arith, length, drop,
  get_elem?, All, leb, Bool-cases, inl, inr, le→leb, leb→le, length-append, length-take,
  length-drop, take-append, drop-append,
}
use kvstash.Outcome.{ok, panic}
use kvstash.Bytes.{Bytes, IsByte, of_le-le, u_at, sub, sub-ok, u_at-ok, word, word-lt}
use kvstash.Protocol.Body.{BodyError, Preamble, slice_from}
use kvstash.Protocol.Body.Pad.{slice_from-ok, decode_preamble-ok, decode_preamble-short}
use kvstash.Protocol.Body.Exists.{has_body}
use kvstash.Protocol.Body.GetResp.{
  Desc, GetRespHeader, append_get_resp_header, decode_get_resp_header, get_resp_rest, get_desc,
  desc, payload_offset,
}
use kvstash.Protocol.Body.GetResp.Table.{
  FitsDesc, table, length-table, desc_at, region, append_get_resp_header-region,
}

get_resp_rest-ne-panic :
    (p : Preamble) (body : Bytes) → p.count < 256 ^ 4 → get_resp_rest p body ≢ panic
unfolding get_resp_rest u_at sub
get_resp_rest-ne-panic p body h = ground arith

pub decode_get_resp_header-ne-panic :
    (body : Bytes) → All IsByte body → decode_get_resp_header body ≢ panic
unfolding decode_get_resp_header
decode_get_resp_header-ne-panic body bytes = elim (Bool-cases (leb 8 (length body))) [
  | inr short ↦ rw (decode_preamble-short body (ground arith)) (λ e. cc)
  | inl long ↦ rw (decode_preamble-ok body (leb→le _ _ long)) (
      get_resp_rest-ne-panic (record { status = word 1 0 body; count = word 4 4 body }) body
        (word-lt body bytes 4 4 (leb→le _ _ long)))
]

abbrev header_of : ℕ → ℕ → ℕ → List Desc → GetRespHeader
header_of status first total ds = record {
  preamble = record { status = status; count = length ds };
  first_index = first;
  total_keys = total;
  descs = table ds;
}

module _ (status first total : ℕ) (ds : List Desc) (payload : Bytes) (kind : has_body status ≡ true)
    (hf : first < 256 ^ 4) (ht : total < 256 ^ 4) (hn : length ds < 256 ^ 4) where
  decode-region :
      decode_get_resp_header (region status first total ds ++ payload)
      ≡ ok (header_of status first total ds)
  unfolding decode_get_resp_header get_resp_rest
  decode-region =
      let b : Bytes = region status first total ds ++ payload in
      let n = length ds in
      let len : length (table ds ++ payload) ≡ 16 * n + length payload =
        omega (arith, length-append (table ds) payload, length-table ds) in
      let want : (16 + 16 * n) % 2 ^ 64 ≡ 16 + 16 * n = omega arith in
      let s : status + 256 * 0 ≡ status = omega arith in
      rw (decode_preamble-ok b (omega arith)) (
        rw (of_le-le 4 n hn) (
          rw (s, kind)
            (rw want (
              rw (le→leb (16 + 16 * n) (length b) (omega (arith, len))) (
                rw (u_at-ok {E = BodyError} 4 8 b (omega arith)) (
                  rw (u_at-ok {E = BodyError} 4 12 b (omega arith)) (
                    rw (of_le-le 4 first hf) (
                      rw (of_le-le 4 total ht) (
                        rw
                          (sub-ok {E = BodyError} 16 (16 + 16 * n) b (omega arith)
                            (omega (arith, len)))
                          (rw (
                            take-append (16 + 16 * n - 16) (table ds) payload
                              (omega (arith, length-table ds)))))))))))))

-- What `AppendGetRespHeader` puts behind any prefix, with the payload bytes behind it, decodes to
-- the counts that were encoded; descriptor i of the decoded header is the i-th one encoded; and its
-- payload offset is where the payload starts.
pub decode_get_resp_header-append_get_resp_header :
    (dst : Bytes) (status first total : ℕ) (ds : List Desc) (payload : Bytes) (i : ℕ) (d : Desc)
    → has_body status ≡ true
    → first < 256 ^ 4
    → total < 256 ^ 4
    → length ds < 256 ^ 4
    → All FitsDesc ds
    → get_elem? ds i ≡ some d
    → (r : Bytes) × (g : GetRespHeader) × (append_get_resp_header dst status first total ds
        ≡ ok (dst ++ r))
      × (decode_get_resp_header (r ++ payload) ≡ ok g)
      × (g.preamble ≡ record { status = status; count = length ds })
      × (g.first_index ≡ first)
      × (g.total_keys ≡ total)
      × (desc g i ≡ ok d)
      × (drop (payload_offset g) (r ++ payload) ≡ payload)
unfolding desc payload_offset
decode_get_resp_header-append_get_resp_header dst status first total ds payload i d kind hf ht hn
      fits e =
    let (lt, f, at) = desc_at ds i d e fits in
    let start : 16 + 16 * length ds ≡ length (region status first total ds) =
      omega (arith, length-table ds) in
    (
      region status first total ds,
      header_of status first total ds,
      append_get_resp_header-region dst status first total ds,
      decode-region status first total ds payload kind hf ht hn,
      refl,
      refl,
      refl,
      rw (slice_from-ok (i * 16) (table ds) (omega (arith, length-table ds))) at,
      drop-append (16 + 16 * length ds) (region status first total ds) payload
          (omega (arith, start)),
    )

length-descs :
    (p : Preamble) (body : Bytes) (g : GetRespHeader)
    → p.count < 256 ^ 4
    → get_resp_rest p body ≡ ok g
    → length g.descs ≡ 16 * g.preamble.count
unfolding get_resp_rest u_at sub
length-descs p body g h e =
    ground
      (arith, length-take ((16 + 16 * p.count) % 2 ^ 64 - 16) (drop 16 body), length-drop 16 body)

length-decoded_descs :
    (body : Bytes) (g : GetRespHeader)
    → All IsByte body
    → decode_get_resp_header body ≡ ok g
    → length g.descs ≡ 16 * g.preamble.count
unfolding decode_get_resp_header
length-decoded_descs body g bytes e = elim (Bool-cases (leb 8 (length body))) [
  | inr short ↦ absurd (cc (decode_preamble-short body (ground arith)))
  | inl long ↦
      length-descs (record { status = word 1 0 body; count = word 4 4 body }) body g
        (word-lt body bytes 4 4 (leb→le _ _ long))
        (rw (decode_preamble-ok body (leb→le _ _ long)) at e)
]

-- The descriptors of a header that was decoded, from any bytes, are all there to be read.
pub desc-ne-panic :
    (body : Bytes) (g : GetRespHeader) (i : ℕ)
    → All IsByte body
    → decode_get_resp_header body ≡ ok g
    → i < g.preamble.count
    → desc g i ≢ panic
unfolding desc get_desc u_at slice_from
desc-ne-panic body g i bytes e lt =
    let n : length g.descs ≡ 16 * g.preamble.count = length-decoded_descs body g bytes e in
    ground (arith, length-drop (i * 16) g.descs)
