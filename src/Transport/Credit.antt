-- ===== src/Transport/Credit.antt =====
-- internal/transport/credit.go: the ledger of the backpressure window. A method runs under the
-- mutex, so it is one step from a ledger to the next.
pub mod Ledger
pub mod Strikes
pub mod Lawful
use kvstash.Prelude.{ℕ, ◌+◌, ◌-◌, ◌*◌, ◌%◌, ◌^◌, Bool, leb, ltb, ◌==◌, if◌then◌else◌}

pub data Violation : Type 0 where
  violation_none violation_busy violation_fatal : Violation

pub record CreditWindow : Type 0 where
  pub window : ℕ
  pub max_frame : ℕ
  pub outstanding : ℕ
  pub pending : ℕ
  pub strikes : ℕ
  pub consumed : ℕ
  pub granted : ℕ

-- Addition on uint64.
infixl 65 ◌+u64◌
abbrev pub ◌+u64◌ : ℕ → ℕ → ℕ
a +u64 b = (a + b) % 2 ^ 64

abbrev pub max_uint32 : ℕ
max_uint32 = 4294967295

-- `SetWindow`.
unfoldable pub set_window : CreditWindow → ℕ → ℕ → CreditWindow
set_window w window max_frame = record w { window = window; max_frame = max_frame }

-- `Account`.
unfoldable pub account : CreditWindow → ℕ → CreditWindow
account w n = record w { outstanding = w.outstanding +u64 n; consumed = w.consumed +u64 n }

-- `Consume`.
unfoldable pub consume : CreditWindow → ℕ → CreditWindow × Violation
consume w n =
    let w' = record w { outstanding = w.outstanding +u64 n; consumed = w.consumed +u64 n } in
    if leb w'.outstanding (w.window +u64 w.max_frame) then (w', violation_none) else (
      record w' { strikes = w.strikes + 1 },
      if w.strikes + 1 == 1 then violation_busy else violation_fatal,
    )

-- `Grant`: the amount is cut to what is outstanding.
unfoldable pub grant : CreditWindow → ℕ → CreditWindow
grant w n =
    let m = if ltb w.outstanding n then w.outstanding % 2 ^ 32 else n in
    record w {
      outstanding = w.outstanding - m;
      granted = w.granted +u64 m;
      pending = w.pending +u64 m;
    }

-- `TakeGrant`: at most what a header's credit field holds.
unfoldable pub take_grant : CreditWindow → CreditWindow × ℕ
take_grant w =
    let g = if ltb max_uint32 w.pending then max_uint32 else w.pending in
    (record w { pending = w.pending - g }, g)

-- `PendingGrant`.
unfoldable pub pending_grant : CreditWindow → Bool
pending_grant w = ltb 0 w.pending

-- The zero value, with which a connection starts.
abbrev pub new_window : CreditWindow
new_window = record {
  window = 0;
  max_frame = 0;
  outstanding = 0;
  pending = 0;
  strikes = 0;
  consumed = 0;
  granted = 0;
}
