-- ===== src/Server/Session/Replies.antt =====
-- internal/server/session.go: what a handler queues on the connection.
use kvstash.Prelude.{
  ℕ, ◌+◌, ◌≡◌, refl, sym, ap, ◌∙◌, List, [], ◌∷◌, ◌++◌, append-nil, length, length-append, All,
  arith,
}
use kvstash.Protocol.Header.{Header}
use kvstash.Server.Session.{Reply}

-- `n` responses are queued behind the others, each one with the request id of its frame.
pub record Adds (h : Header) (n : ℕ) (before after : List Reply) : Type 0 where
  pub added : List Reply
  pub appended : after ≡ before ++ added
  pub count : length added ≡ n
  pub echoed : All (λ r. r.request_id ≡ h.request_id) added

pub Adds-none : (h : Header) (before : List Reply) → Adds h 0 before before
Adds-none h before = record {
  added = [];
  appended = sym (append-nil before);
  count = refl;
  echoed = tt;
}

pub Adds-one :
    (h : Header) (before : List Reply) (r : Reply)
    → r.request_id ≡ h.request_id
    → Adds h 1 before (before ++ r ∷ [])
Adds-one h before r e = record { added = r ∷ []; appended = refl; count = refl; echoed = (e, tt) }

pub Adds-length :
    {h : Header} {n : ℕ} {before after : List Reply}
    → Adds h n before after
    → length after ≡ length before + n
Adds-length {before = before} a =
    ap length a.appended ∙ omega (arith, length-append before a.added, a.count)
