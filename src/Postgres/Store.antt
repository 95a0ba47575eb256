-- ===== src/Postgres/Store.antt =====
-- internal/postgres/store.go: durable acceptance of a receipt, once for each source and event
-- identifier; internal/notification/publish.go: the hint after a commit.

pub mod Idempotency
pub mod Ledger
use p3_relay.Prelude.{
  ℕ, zero, suc, Bool, true, false, ◌&&◌, not, Option, none, some, List, [], ◌∷◌, ◌++◌, Bytes,
  bytes_eq, if◌then◌else◌,
}
use p3_relay.Errors.{Error, Result, ok, err, failed, conflict, Reply, fine, refused, lost}
use p3_relay.Table.{find, is_there, exists}
use p3_relay.Postgres.{Db, EventRow, pending, event_key, event_checks}

pub record Receipt : Type 0 where
  pub id : Bytes
  pub source_key : Bytes
  pub external_event_id : Bytes
  pub body : Bytes
  pub body_sha256 : Bytes
  pub destination_url : Bytes

pub record Accepted : Type 0 where
  pub id : Bytes
  pub duplicate : Bool

-- A publisher's calls in their order, with whether each failed; `none` is the nil publisher.
abbrev pub Publisher : Type 0
Publisher = Option (Bytes → Option Error)

-- `AfterCommit`: the identifiers published. A publisher's error is logged and dropped.
unfoldable pub after_commit : Publisher → Bytes → List Bytes
after_commit none event_id = []
after_commit (some publish) event_id = event_id ∷ []

-- What a call leaves: its result, the database, and the identifiers it handed to the publisher.
pub record Outcome (A : Type 0) : Type 0 where
  pub result : Result A
  pub db : Db
  pub published : List Bytes

abbrev pub quiet : {A : Type 0} → Result A → Db → Outcome A
quiet r db = record { result = r; db = db; published = [] }

-- The conflict target of the insertion, and the condition of the selection.
abbrev pub same_key : Bytes → Bytes → EventRow → Bool
same_key source_key external_event_id r =
    bytes_eq r.source_key source_key && bytes_eq r.external_event_id external_event_id

-- The row of `VALUES`, with the table's defaults; `clock` is `clock_timestamp()`.
abbrev pub new_event : Receipt → ℕ → EventRow
new_event receipt clock = record {
  id = receipt.id;
  source_key = receipt.source_key;
  external_event_id = receipt.external_event_id;
  body = receipt.body;
  body_sha256 = receipt.body_sha256;
  destination_url = receipt.destination_url;
  state = pending;
  attempt_count = 0;
  replay_count = 0;
  next_attempt_at = clock;
  lease_expires_at = none;
  claim_id = none;
  created_at = clock;
  delivered_at = none;
  sandbox_id = none;
}

-- The first row that a condition selects.
unfoldable pub select_one : (EventRow → Bool) → List EventRow → Option EventRow
select_one where_ [] = none
select_one where_ (r ∷ rows) =
    let rest = select_one where_ rows in if where_ r then some r else rest

-- `accept_existing`, on the row that the selection found.
abbrev pub compare_digest : Receipt → Option EventRow → Result Accepted
compare_digest receipt none = err (failed "read existing event")
compare_digest receipt (some r) =
    if bytes_eq r.body_sha256 receipt.body_sha256
    then ok (record { id = r.id; duplicate = true })
    else err conflict

unfoldable pub accept_existing : Reply → Db → Receipt → Result Accepted
accept_existing fine db receipt =
    compare_digest receipt
      (select_one (same_key receipt.source_key receipt.external_event_id) db.events)
accept_existing _ db receipt = err (failed "read existing event")

-- The insertion took place: its reply tells whether the program hears of it.
abbrev pub inserted : Reply → Publisher → Db → Receipt → Outcome Accepted
inserted fine publisher db receipt = record {
  result = ok (record { id = receipt.id; duplicate = false });
  db = db;
  published = after_commit publisher receipt.id;
}
inserted _ publisher db receipt = quiet (err (failed "insert event")) db

abbrev pub keep_existing : Reply → Reply → Db → Receipt → Outcome Accepted
keep_existing fine select_reply db receipt = quiet (accept_existing select_reply db receipt) db
keep_existing _ select_reply db receipt = quiet (err (failed "insert event")) db

abbrev pub insert_event : Reply → Reply → Publisher → ℕ → Db → Receipt → Outcome Accepted
insert_event insert_reply select_reply publisher clock db receipt =
    let row = new_event receipt clock in
    if not (event_checks row)
    then quiet (err (failed "insert event")) db
    else if exists (same_key receipt.source_key receipt.external_event_id) db.events
    then keep_existing insert_reply select_reply db receipt
    else if is_there event_key receipt.id db.events
    then quiet (err (failed "insert event")) db
    else inserted insert_reply publisher (record db { events = db.events ++ row ∷ [] }) receipt

-- The replies are those to the insertion and to the selection behind a conflict.
unfoldable pub accept : Reply → Reply → Publisher → ℕ → Db → Receipt → Outcome Accepted
accept refused select_reply publisher clock db receipt = quiet (err (failed "insert event")) db
accept insert_reply select_reply publisher clock db receipt =
    insert_event insert_reply select_reply publisher clock db receipt
