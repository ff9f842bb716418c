-- ===== src/Server/Witnesses.antt =====
-- A session over a small store and a small hash, in concrete runs.
use kvstash.Prelude.{
  ℕ, ◌+◌, ◌-◌, ◌≡◌, refl, inl, inr, Bool, true, false, not, Bool-cases, ◌==◌, none, some, List, [],
  ◌∷◌, ◌++◌, ltb, if◌then◌else◌, arith,
}
use kvstash.Bytes.{Bytes}
use kvstash.Assoc.{AllValues, sum, find}
use kvstash.Protocol.Ops.{status_ok, flag_resp, op_put_stream}
use kvstash.Protocol.Header.{Header}
use kvstash.Protocol.Limits.{Limits}
use kvstash.Protocol.PutBody.{PutBegin, append_put_begin, append_put_commit}
use kvstash.Server.Store.{StoreOps, Hasher, Fetched}
use kvstash.Server.Session.{reply_to, status_preamble}
use kvstash.Server.BatchGet.{batch_frames, release_all}
use kvstash.Server.BatchGet.Packing.{Covers, Flagged, batch_frames-Covers}
use kvstash.Server.BatchGet.References.{count, held_by, tally, batch_frames-refs}
use kvstash.Server.PutStream.{Conn, live_at, put_begin, put_commit, commit_decoded}
use kvstash.Server.PutStream.Bounds.{IsBounded, live_weight, staged_weight}
use kvstash.Server.PutStream.Sums.{commit_whole, commit_decoded-commit_whole}
use kvstash.Server.PutStream.Upload.{upload}
use kvstash.Server.PutStream.Delivery.{upload-stored}
use kvstash.Server.Handlers.{Config, handle_frame}
use kvstash.Server.Handlers.Answers.{debt}
use kvstash.Server.Handlers.Frames.{
  IsSession, Answered, fresh, frame, handle_frame-Answered, Lives-IsSession,
}

-- A store that keeps its blocks in a list and counts the references it hands out: every read finds the
-- newest block, or nothing.
abbrev shelf : StoreOps
shelf = record {
  State = List Bytes × ℕ;
  Rel = Unit {0};
  contains = λ s ns k. false;
  can_store = λ s ns n. (s, true);
  commit = λ s ns k b sum. ((b ∷ s.0, s.1), status_ok);
  touch_ttl = λ s ns k ttl. s;
  exists_prefix = λ s ns ks bitmap. (0, none);
  fetch = λ s ns k. (
    (s.0, s.1 + 1),
    record { hit = true; busy = false; bytes = 7 ∷ 8 ∷ []; sum = 15; rel = some tt },
  );
  release = λ r s. (s.0, s.1 - 1);
  has_lifecycle = false;
  touch_lease = λ s ns k sub ttl. (s, status_ok);
  pin_op = λ s ns k sub. (s, status_ok);
  delete = λ s ns k force. (s, status_ok);
  stats = λ s ns. [];
}

abbrev add_up : Bytes → ℕ
add_up [] = 0
add_up (b ∷ bs) = b + add_up bs

-- A hash that adds the bytes up, over a running digest that keeps them.
abbrev adder : Hasher
adder = record {
  Digest = Bytes;
  hash = add_up;
  fresh = [];
  absorb = λ d bs. d ++ bs;
  sum64 = add_up;
  fed = λ bs. bs;
  fed-nil = refl;
  absorb-fed = λ bs cs. refl;
  sum64-fed = λ bs. refl;
}

abbrev limits : Limits
limits = record { max_batch_keys = 128; max_frame_len = 60; max_blob_len = 8; initial_credit = 64 }

abbrev config : Config
config = record {
  wire_limits = limits;
  lease_default_ms = 1000;
  lease_max_ms = 5000;
  stream_timeout_ms = 30000;
  authenticate = λ ns token. some 4;
}

abbrev opened_conn : Conn shelf adder
opened_conn = record {
  session = record {
    authed = true;
    ns = 4;
    limits = limits;
    feats = 0;
    streams = [];
    live_streams = 0;
    staged_bytes = 0;
  };
  store = ([], 0);
  replies = [];
  held = [];
  granted = 0;
  aborted = none;
  closed = false;
}

-- The header of an upload's frames, as far as the handlers read it.
abbrev request : Header
request = record {
  magic = [];
  version = 1;
  opcode = op_put_stream;
  flags = 0;
  namespace_id = 4;
  credit = 0;
  request_id = 9;
  key = 1 ∷ [];
  payload_len = 3;
  crc = 0;
}

opened-IsBounded : IsBounded adder opened_conn.session
unfolding AllValues sum
opened-IsBounded = record {
  live = refl;
  staged = refl;
  live_cap = omega arith;
  entries_cap = omega arith;
  staged_cap = omega arith;
  each = tt;
}

-- An upload of three bytes under way, all of which have come.
abbrev staged_conn : Conn shelf adder
staged_conn = record opened_conn {
  session = record opened_conn.session {
    streams =
        (
          9,
          record {
            ns = 4;
            key = 1 ∷ [];
            total_len = 3;
            ttl_ms = 0;
            xxh3_hint = 0;
            buf = 1 ∷ 2 ∷ 3 ∷ [];
            digest = some (1 ∷ 2 ∷ 3 ∷ []);
            one_shot = 0;
            received = 3;
            tombstoned = false;
            last_active = 50;
            tombstoned_at = 0;
          },
        )
        ∷ [];
    live_streams = 1;
    staged_bytes = 3;
  };
}

staged-IsBounded : IsBounded adder staged_conn.session
unfolding AllValues sum live_weight staged_weight
staged-IsBounded = record {
  live = omega arith;
  staged = omega arith;
  live_cap = omega arith;
  entries_cap = omega arith;
  staged_cap = omega arith;
  each = (
    record {
      size = λ e. refl;
      within = omega arith;
      total = omega arith;
      buried = λ e. cc e;
      unhashed = λ l e. cc e;
      running = λ d e. cc e;
    },
    tt,
  );
}

-- The COMMIT takes the block over, with the sum of its bytes, and answers once.
commit_decoded-commit_whole_example :
    commit_decoded shelf adder staged_conn request 6
    ≡ commit_whole shelf adder staged_conn request 6
commit_decoded-commit_whole_example =
    commit_decoded-commit_whole shelf adder staged_conn request 6 staged-IsBounded

abbrev order : PutBegin
order = record { total_len = 3; ttl_ms = 0; xxh3_hint = 0; flags = 0 }

abbrev chunks : List Bytes
chunks = (1 ∷ 2 ∷ []) ∷ (3 ∷ []) ∷ []

upload-stored_example :
    let acked = reply_to opened_conn.session request flag_resp (status_preamble status_ok) in
    let begin = put_begin shelf adder opened_conn request (append_put_begin [] order) 50 in
    let done =
      put_commit shelf adder
        (upload shelf adder begin request chunks 50)
        request
        (append_put_commit [] 6) in
    (done.store
      ≡ (if ltb 0 order.ttl_ms then ((1 ∷ 2 ∷ 3 ∷ []) ∷ [], 0) else ((1 ∷ 2 ∷ 3 ∷ []) ∷ [], 0)))
    × (done.replies ≡ ([] ++ acked ∷ []) ++ acked ∷ [])
unfolding live_at find
upload-stored_example =
    upload-stored shelf adder opened_conn request order chunks 50 ((1 ∷ 2 ∷ 3 ∷ []) ∷ [], 0)
      opened-IsBounded
      (record {
        total_len = omega arith;
        ttl_ms = omega arith;
        xxh3_hint = omega arith;
        flags = omega arith;
      })
      (record {
        request_free = refl;
        unsealed = refl;
        size = omega arith;
        room = refl;
        live = omega arith;
        entries = omega arith;
        staged = omega arith;
        no_wrap = omega arith;
      })
      refl (omega arith) refl

abbrev wanted : List Bytes
wanted = (1 ∷ []) ∷ (2 ∷ []) ∷ []

-- A key that begins with 0 is busy, one that begins with 1 is missed and hands a reference out all the
-- same, another one is found. A reference is named by its key.
abbrev spotty_read : Bytes → Fetched Bytes
spotty_read [] = record { hit = false; busy = false; bytes = []; sum = 0; rel = none }
spotty_read (b ∷ bs) =
    if b == 0
    then record { hit = false; busy = true; bytes = []; sum = 0; rel = none }
    else record {
      hit = not (b == 1);
      busy = false;
      bytes = 7 ∷ 8 ∷ [];
      sum = 15;
      rel = some (b ∷ bs);
    }

abbrev spotty : StoreOps
spotty = record {
  State = ℕ;
  Rel = Bytes;
  contains = λ s ns k. false;
  can_store = λ s ns n. (s, true);
  commit = λ s ns k b sum. (s, status_ok);
  touch_ttl = λ s ns k ttl. s;
  exists_prefix = λ s ns ks bitmap. (0, none);
  fetch = λ s ns k. (s + 1, spotty_read k);
  release = λ r s. s;
  has_lifecycle = false;
  touch_lease = λ s ns k sub ttl. (s, status_ok);
  pin_op = λ s ns k sub. (s, status_ok);
  delete = λ s ns k force. (s, status_ok);
  stats = λ s ns. [];
}

abbrev is_two : Bytes → Bool
is_two [] = false
is_two (b ∷ bs) = b == 2

spotty-busy :
    (s : ℕ) (k : Bytes)
    → (spotty_read k).hit ≡ false
    → (spotty_read k).busy ≡ true
    → (spotty_read k).rel ≡ none
spotty-busy s [] miss busy = refl
spotty-busy s (b ∷ bs) miss busy = elim (Bool-cases (b == 0)) [
  | inl z ↦ rw z refl
  | inr z ↦ absurd (cc (rw z at busy))
]

-- Found, found without room in the frame and so read twice, busy, and missed.
abbrev asked : List Bytes
asked = (2 ∷ []) ∷ (2 ∷ 5 ∷ []) ∷ (0 ∷ []) ∷ (1 ∷ []) ∷ []

batch_frames-refs_example :
    let u = batch_frames (tally spotty is_two) 50 4 (3, 0, 0) asked in
    let v = batch_frames spotty 50 4 3 asked in
    let done = release_all (tally spotty is_two) (held_by u.1) u.0 in
    (u.0.0 ≡ v.0)
    × (u.1 ≡ v.1)
    × (u.0.1 ≡ u.0.2 + count is_two (held_by v.1))
    × (done.0 ≡ release_all spotty (held_by v.1) v.0)
    × (done.1 ≡ done.2)
batch_frames-refs_example = batch_frames-refs spotty is_two 50 4 spotty-busy 3 asked

batch_frames-Covers_example :
    let fs = (batch_frames shelf 60 4 ([], 3) wanted).1 in
    Covers shelf 60 4 0 2 fs × Flagged shelf 60 4 2 fs
batch_frames-Covers_example = batch_frames-Covers shelf 60 4 ([], 3) (1 ∷ []) ((2 ∷ []) ∷ [])

handle_frame-Answered_example :
    Answered shelf adder opened_conn request
      (handle_frame shelf adder config opened_conn request (1 ∷ 2 ∷ 3 ∷ []) 50)
      (debt true request)
handle_frame-Answered_example =
    handle_frame-Answered shelf adder config opened_conn request (1 ∷ 2 ∷ 3 ∷ []) 50
      (record { bounded = opened-IsBounded; unopened = λ e. refl })
      (record { body_length = refl; no_wrap = omega arith })

abbrev new_conn : Conn shelf adder
new_conn = record opened_conn { session = record opened_conn.session { authed = false; ns = 0 } }

Lives-IsSession_example :
    let q = handle_frame shelf adder config new_conn request (1 ∷ 2 ∷ 3 ∷ []) 50 in
    IsSession shelf adder q.session × (q.granted ≡ 0 + 3)
Lives-IsSession_example = Lives-IsSession shelf adder config (
    frame request (1 ∷ 2 ∷ 3 ∷ []) 50 (record { body_length = refl; no_wrap = omega arith })
      (fresh ([], 0)))
