-- ===== src/Sandbox/Store.antt =====
-- internal/sandbox/store.go and cleanup.go: the visitors' transactions. Each runs under the lock
-- of the budget row; what fails before the commit is rolled back. `replies` answers a transaction's
-- statements in their order, and `clock` gives the readings of `clock_timestamp()` in theirs.
pub mod Submission
pub mod Replay
pub mod Cleanup
pub mod Outcomes
pub mod Removal
pub mod Shares
use p3_relay.Prelude.{
  ℕ, ◌+◌, ◌-◌, ◌%◌, Bool, true, false, ◌&&◌, ◌||◌, not, Option, none, some, List, [], ◌∷◌, ◌++◌,
  Bytes, codes, bytes_eq, length, count, ltb, leb, ◌==◌, if◌then◌else◌,
}
use p3_relay.Errors.{
  Error, Result, ok, err, failed, session, quota, missing, state, Reply, fine, refused, lost,
  ensure, ◌>>=◌, ◌>>◌,
}
use p3_relay.Identifier.{new_uuid}
use p3_relay.Table.{find, update, exists, is_there}
use p3_relay.Postgres.{
  Db, EventRow, SessionRow, pending, dead_lettered, state_eq, event_key, event_checks, timestamptz,
}
use p3_relay.Postgres.Queue.{is_fine}
use p3_relay.Postgres.Store.{Publisher, after_commit, same_key, select_one}
use p3_relay.Sandbox.{Budget, Tables, valid_scenario}

-- `date_trunc('hour', clock_timestamp() AT TIME ZONE 'UTC')`.
abbrev pub hour_of : ℕ → ℕ
hour_of clock = clock - clock % 3600000000

abbrev pub rolled : ℕ → Budget → Budget
rolled hour b = record {
  window_start = if ltb b.window_start hour then hour else b.window_start;
  sessions = if ltb b.window_start hour then 0 else b.sessions;
  admissions = if ltb b.window_start hour then 0 else b.admissions;
}

abbrev pub roll : ℕ → Option Budget → Result Budget
roll hour none = err (failed "no rows in result set")
roll hour (some b) = ok (rolled hour b)

-- `admission`: the budget row, locked and moved to the current hour.
abbrev pub admission : (ℕ → Reply) → (ℕ → ℕ) → Option Budget → Result Budget
admission replies clock budget = do
  ensure (is_fine (replies 0)) (failed "begin")
  ensure (is_fine (replies 1)) (failed "lock budget")
  b ← roll (hour_of (clock 0)) budget
  ensure (is_fine (replies 2)) (failed "roll budget")
  ok b

-- What a call leaves: its result, the tables, and the identifiers handed to the publisher.
pub record Finished (A : Type 0) : Type 0 where
  pub result : Result A
  pub tables : Tables
  pub published : List Bytes

abbrev pub publish_id : Publisher → Option Bytes → List Bytes
publish_id publisher none = []
publish_id publisher (some id) = after_commit publisher id

-- The commit of a transaction that got so far, with the tables that it made.
abbrev pub finish :
    {A : Type 0} → Reply → Tables → Result (A × Tables × Option Bytes) → Publisher → Finished A
finish reply before (err e) publisher = record { result = err e; tables = before; published = [] }
finish fine before (ok (a, after, id)) publisher = record {
  result = ok a;
  tables = after;
  published = publish_id publisher id;
}
finish refused before (ok (a, after, id)) publisher = record {
  result = err (failed "commit");
  tables = before;
  published = [];
}
finish lost before (ok (a, after, id)) publisher = record {
  result = err (failed "commit");
  tables = after;
  published = [];
}

abbrev pub session_key : SessionRow → Bytes
session_key s = s.id

abbrev pub is_lower_hex : Bytes → Bool
is_lower_hex [] = true
is_lower_hex (c ∷ s) = ((leb b'0' c && leb c b'9') || (leb b'a' c && leb c b'f')) && is_lower_hex s

-- The checks of a new row of `sandbox_sessions`: its pattern, and its primary key.
unfoldable pub session_fits : Db → Bytes → Bool
session_fits db id =
    length id == 32 && (is_lower_hex id && not (is_there session_key id db.sessions))

abbrev pub new_session : Bytes → ℕ → SessionRow
new_session id expiry = record { id = id; expires_at = timestamptz expiry; event_count = 0 }

-- The tables after the two statements.
abbrev pub created : Bytes → ℕ → Budget → Tables → Tables
created id expiry b t = record {
  db = record (t.db) { sessions = t.db.sessions ++ new_session id expiry ∷ [] };
  budget = some (record b { sessions = b.sessions + 1 });
}

abbrev pub creation :
    (ℕ → Reply) → (ℕ → ℕ) → Bytes → ℕ → Tables → Result (Unit {0} × Tables × Option Bytes)
creation replies clock id expiry t = do
  b ← admission replies clock t.budget
  ensure (is_fine (replies 3)) (failed "charge session")
  ensure (ltb b.sessions 100 && ltb (length t.db.sessions) 1000) quota
  ensure (is_fine (replies 4) && session_fits t.db id) (failed "insert session")
  ok (tt, created id expiry b t, none)

-- `Create`: a session within the hour's quota and the retained number.
unfoldable pub create : (ℕ → Reply) → (ℕ → ℕ) → Bytes → ℕ → Tables → Finished (Unit {0})
create replies clock id expiry t = finish (replies 5) t (creation replies clock id expiry t) none

-- `id = $1 AND expires_at > clock_timestamp()`.
abbrev pub is_live : Bytes → ℕ → SessionRow → Bool
is_live id clock s = bytes_eq s.id id && ltb clock s.expires_at

unfoldable pub active : Reply → ℕ → Db → Bytes → Result (Unit {0})
active fine clock db id = ensure (exists (is_live id clock) db.sessions) session
active _ clock db id = err (failed "read session")

abbrev pub charge : Reply → Budget → Result Budget
charge reply b = do
  ensure (is_fine reply) (failed "charge admission")
  ensure (ltb b.admissions 1000) quota
  ok (record b { admissions = b.admissions + 1 })
