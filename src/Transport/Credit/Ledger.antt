-- ===== src/Transport/Credit/Ledger.antt =====
-- Conservation: the books balance after any sequence of calls.
use kvstash.Prelude.{ℕ, ◌+◌, ◌%◌, ◌^◌, ◌≡◌, List, [], ◌∷◌}
use kvstash.Transport.Credit.{
  CreditWindow, set_window, account, consume, grant, take_grant, new_window,
}

pub data Call : Type 0 where
  set_windows : ℕ → ℕ → Call
  consumes accounts grants : ℕ → Call
  takes : Call

-- The ledger, with all that has been taken from it for the wire so far.
pub record Books : Type 0 where
  pub ledger : CreditWindow
  pub taken : ℕ

pub step : Books → Call → Books
step s (set_windows a b) = record s { ledger = set_window s.ledger a b }
step s (consumes n) = record s { ledger = (consume s.ledger n).0 }
step s (accounts n) = record s { ledger = account s.ledger n }
step s (grants n) = record s { ledger = grant s.ledger n }
step s takes = record {
  ledger = (take_grant s.ledger).0;
  taken = s.taken + (take_grant s.ledger).1;
}

pub run : Books → List Call → Books
unfolding step
run s [] = s
run s (c ∷ cs) = run (step s c) cs

-- Up to the wrap of uint64, what was consumed is what was granted and what is outstanding, and what
-- was granted is what was taken and what is pending.
pub record Balanced (s : Books) : Type 0 where
  pub consumed : s.ledger.consumed ≡ (s.ledger.granted + s.ledger.outstanding) % 2 ^ 64
  pub granted : s.ledger.granted ≡ (s.taken + s.ledger.pending) % 2 ^ 64

abbrev pub opened : Books
opened = record { ledger = new_window; taken = 0 }
