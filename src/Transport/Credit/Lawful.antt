-- ===== src/Transport/Credit/Lawful.antt =====
-- The ledger against a client that keeps the rule of the window: it sends a frame, of at most the
-- negotiated length, only while its window is open. Frames and grants take any time on the way.
use kvstash.Prelude.{ℕ, ◌+◌, ◌^◌, ◌≤◌, ◌<◌, ◌≡◌, arith}
use kvstash.Transport.Credit.{
  CreditWindow, violation_none, consume, account, grant, take_grant, new_window, set_window,
}

-- `sent` and `received` are the client's totals, of bytes sent and of grants received; `taken` is
-- what the server has put on the wire.
pub record Link : Type 0 where
  pub ledger : CreditWindow
  pub sent : ℕ
  pub taken : ℕ
  pub received : ℕ

-- The window is open while less has been sent than the first window and all grants received. The
-- totals of a connection stay below 2 ^ 64.
pub data Step : Link → Link → Type 0 where
  sends :
      (s : Link) (n : ℕ)
      → s.sent < s.ledger.window + s.received
      → n ≤ s.ledger.max_frame
      → s.sent + n < 2 ^ 64
      → Step s (record s { sent = s.sent + n })
  arrives :
      (s : Link) (n : ℕ)
      → s.ledger.consumed + n ≤ s.sent
      → Step s (record s { ledger = (consume s.ledger n).0 })
  arrives_over_cap :
      (s : Link) (n : ℕ)
      → s.ledger.consumed + n ≤ s.sent
      → Step s (record s { ledger = account s.ledger n })
  grants : (s : Link) (n : ℕ) → Step s (record s { ledger = grant s.ledger n })
  takes :
      (s : Link)
      → Step s
          (record s { ledger = (take_grant s.ledger).0; taken = s.taken + (take_grant s.ledger).1 })
  receives :
      (s : Link) (n : ℕ)
      → s.received + n ≤ s.taken
      → Step s (record s { received = s.received + n })

pub data Reach (s : Link) : Link → Type 0 where
  here : Reach s s
  next : {t u : Link} → Reach s t → Step t u → Reach s u

-- A connection as it opens.
unfoldable pub opened : ℕ → ℕ → Link
opened window max_frame = record {
  ledger = set_window new_window window max_frame;
  sent = 0;
  taken = 0;
  received = 0;
}

record Inv (s : Link) : Type 0 where
  books : s.ledger.consumed ≡ s.ledger.granted + s.ledger.outstanding
  wire : s.ledger.granted ≡ s.taken + s.ledger.pending
  order : s.ledger.consumed ≤ s.sent
  acked : s.received ≤ s.taken
  room : s.sent ≤ s.ledger.window + s.received + s.ledger.max_frame
  words : s.ledger.window + s.ledger.max_frame < 2 ^ 64
  total : s.sent < 2 ^ 64
  clean : s.ledger.strikes ≡ 0

Step-Inv : {s t : Link} → Step s t → Inv s → Inv t
unfolding consume account grant take_grant
Step-Inv (sends s n ready fits total) v = ground arith
Step-Inv (arrives s n h) v = ground arith
Step-Inv (arrives_over_cap s n h) v = ground arith
Step-Inv (grants s n) v = ground arith
Step-Inv (takes s) v = ground arith
Step-Inv (receives s n h) v = ground arith

opened-Inv :
    (window max_frame : ℕ) → window < 2 ^ 32 → max_frame < 2 ^ 32 → Inv (opened window max_frame)
unfolding opened set_window
opened-Inv window max_frame hw hf = omega arith

Reach-Inv : {s t : Link} → Inv s → Reach s t → Inv t
Reach-Inv h here = h
Reach-Inv h (next r st) = Step-Inv st (Reach-Inv h r)

-- However sends, arrivals, grants and their receipts interleave on a connection whose window stays as it
-- was opened, a client that keeps the rule is never answered with a violation: no strike is noted, and any frame of its that can still arrive
-- is ruled within the window.
pub lawful_client_unstruck :
    (window max_frame n : ℕ) {s : Link}
    → window < 2 ^ 32
    → max_frame < 2 ^ 32
    → Reach (opened window max_frame) s
    → s.ledger.consumed + n ≤ s.sent
    → (s.ledger.strikes ≡ 0) × ((consume s.ledger n).1 ≡ violation_none)
unfolding consume
lawful_client_unstruck window max_frame n hw hf r h =
    let v = Reach-Inv (opened-Inv window max_frame hw hf) r in
    ground (arith, v.books, v.wire, v.order, v.acked, v.room, v.words, v.total, v.clean)
