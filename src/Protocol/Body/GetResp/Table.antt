-- ===== src/Protocol/Body/GetResp/Table.antt =====
-- The descriptor table: what is written, and where each descriptor stands.
use kvstash.Prelude.{
  ℕ, zero, suc, ◌+◌, ◌*◌, ◌^◌, ◌<◌, ◌≡◌, refl, sym, ap, ◌∙◌, some, List, [], ◌∷◌, ◌++◌, append-nil,
  append_assoc, arith, length, drop, get_elem?, All, le→leb, drop-drop,
}
use kvstash.Outcome.{ok}
use kvstash.Bytes.{Bytes, le, of_le-le, u_at-ok, put_at}
use kvstash.Protocol.Body.{BodyError, append_preamble}
use kvstash.Protocol.Body.GetResp.{Desc, put_desc, get_desc, append_descs, append_get_resp_header}

abbrev pub desc_bytes : Desc → Bytes
desc_bytes d = le 1 d.status ++ (0 ∷ 0 ∷ 0 ∷ (le 4 d.len ++ le 8 d.xxh3))

pub table : List Desc → Bytes
table [] = []
table (d ∷ ds) = desc_bytes d ++ table ds

-- The ranges of the Go types of a descriptor's fields.
pub record FitsDesc (d : Desc) : Type 0 where
  pub status : d.status < 256 ^ 1
  pub len : d.len < 256 ^ 4
  pub xxh3 : d.xxh3 < 256 ^ 8

put_desc-desc_bytes :
    (d : Desc)
    → put_desc (0 ∷ 0 ∷ 0 ∷ 0 ∷ 0 ∷ 0 ∷ 0 ∷ 0 ∷ 0 ∷ 0 ∷ 0 ∷ 0 ∷ 0 ∷ 0 ∷ 0 ∷ 0 ∷ []) d
      ≡ ok (desc_bytes d)
unfolding put_desc put_at
put_desc-desc_bytes d = refl

append_descs-table : (dst : Bytes) (ds : List Desc) → append_descs dst ds ≡ ok (dst ++ table ds)
unfolding append_descs table
append_descs-table dst [] = ap ok (sym (append-nil dst))
append_descs-table dst (d ∷ ds) = rw (put_desc-desc_bytes d) (
    append_descs-table (dst ++ desc_bytes d) ds
    ∙ ap ok (append_assoc dst (desc_bytes d) (table ds)))

pub length-table : (ds : List Desc) → length (table ds) ≡ 16 * length ds
unfolding table
length-table [] = refl
length-table (d ∷ ds) = omega (arith, length-table ds)

pub get_desc-desc_bytes :
    (d : Desc) (rest : Bytes) → FitsDesc d → get_desc (desc_bytes d ++ rest) ≡ ok d
unfolding get_desc
get_desc-desc_bytes d rest f =
    let b : Bytes = desc_bytes d ++ rest in
    rw (le→leb 16 (length b) (omega arith)) (
      rw (u_at-ok {E = BodyError} 1 0 b (omega arith)) (
        rw (u_at-ok {E = BodyError} 4 4 b (omega arith)) (
          rw (u_at-ok {E = BodyError} 8 8 b (omega arith)) (
            rw (of_le-le 1 d.status f.status)
              (rw (of_le-le 4 d.len f.len) (rw (of_le-le 8 d.xxh3 f.xxh3)))))))

-- Descriptor i stands 16 i bytes into the table.
pub desc_at :
    (ds : List Desc) (i : ℕ) (d : Desc)
    → get_elem? ds i ≡ some d
    → All FitsDesc ds
    → (i < length ds) × FitsDesc d × (get_desc (drop (i * 16) (table ds)) ≡ ok d)
unfolding table
desc_at [] i d e a = cc
desc_at (x ∷ ds) zero d e a =
    let same : x ≡ d = cc in rw (← same) (omega arith, a.0, get_desc-desc_bytes x (table ds) a.0)
desc_at (x ∷ ds) (suc i) d e a =
    let (lt, f, g) = desc_at ds i d e a.1 in
    let m : suc i * 16 ≡ 16 + i * 16 = omega arith in
    (omega arith, f, rw m (rw (← drop-drop (i * 16) 16 (desc_bytes x ++ table ds)) g))

-- The header region.
abbrev pub region : ℕ → ℕ → ℕ → List Desc → Bytes
region status first total ds =
    status ∷ 0 ∷ 0 ∷ 0 ∷ le 4 (length ds) ++ (le 4 first ++ (le 4 total ++ table ds))

pub append_get_resp_header-region :
    (dst : Bytes) (status first total : ℕ) (ds : List Desc)
    → append_get_resp_header dst status first total ds ≡ ok (dst ++ region status first total ds)
unfolding append_get_resp_header append_preamble
append_get_resp_header-region dst status first total ds =
    append_descs-table _ ds ∙ ap ok (simp append_assoc)
