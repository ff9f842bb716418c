-- ===== src/Transport/Witnesses.antt =====
-- The ledger's theorems at concrete inputs.
use kvstash.Prelude.{ℕ, ◌+◌, ◌≡◌, List, [], ◌∷◌, arith}
use kvstash.Transport.Credit.{violation_none, consume, new_window, set_window}
use kvstash.Transport.Credit.Ledger.{Call, consumes, accounts, grants, takes, set_windows, opened}
use kvstash.Transport.Credit.Strikes.{violations, after, escalation, violations-escalation}
use kvstash.Transport.Credit.Lawful
use kvstash.Transport.Credit.Lawful.{Link, lawful_client_unstruck}

abbrev calls : List Call
calls =
    set_windows 10 5 ∷ consumes 12 ∷ grants 20 ∷ accounts 3 ∷ takes ∷ consumes 13 ∷ consumes 1 ∷ []

violations-escalation_example :
    (k : ℕ) × ((after new_window calls).strikes ≡ 0 + k)
    × (violations new_window calls ≡ escalation 0 k)
violations-escalation_example = violations-escalation new_window calls

-- One frame of 4 bytes is on its way.
in_flight : Link
in_flight = record { ledger = set_window new_window 10 5; sent = 4; taken = 0; received = 0 }

sent_once : Lawful.Reach (Lawful.opened 10 5) in_flight
unfolding in_flight Lawful.opened set_window
sent_once = Lawful.next Lawful.here (Lawful.sends _ 4 (omega arith) (omega arith) (omega arith))

lawful_client_unstruck_example :
    (in_flight.ledger.strikes ≡ 0) × ((consume in_flight.ledger 4).1 ≡ violation_none)
unfolding in_flight set_window
lawful_client_unstruck_example =
    lawful_client_unstruck 10 5 4 (omega arith) (omega arith) sent_once (omega arith)
