-- ===== src/Sandbox/Store/Replay.antt =====
-- internal/sandbox/store.go: `Replay`, a visitor's own dead-lettered event sent again.
use p3_relay.Prelude.{
  ℕ, ◌+◌, Bool, false, ◌&&◌, Option, none, some, Bytes, bytes_eq, ltb, if◌then◌else◌,
}
use p3_relay.Errors.{Result, ok, err, failed, quota, missing, state, Reply, ensure, ◌>>=◌, ◌>>◌}
use p3_relay.Table.{update, exists}
use p3_relay.Postgres.{Db, EventRow, pending, dead_lettered, state_eq}
use p3_relay.Postgres.Queue.{is_fine}
use p3_relay.Postgres.Store.{Publisher, select_one}
use p3_relay.Sandbox.{Budget, Tables}
use p3_relay.Sandbox.Store.{admission, finish, is_live, Finished, charge}

abbrev pub is_owner : Bytes → Option Bytes → Bool
is_owner owner none = false
is_owner owner (some s) = bytes_eq s owner

-- The join of the event with its live session.
abbrev pub is_own : Bytes → Bytes → EventRow → Bool
is_own owner id r = bytes_eq r.id id && is_owner owner r.sandbox_id

abbrev pub owned_row : Bytes → Bytes → ℕ → Db → Option EventRow
owned_row owner id clock db =
    if exists (is_live owner clock) db.sessions
    then select_one (is_own owner id) db.events
    else none

abbrev pub found_or_missing : Option EventRow → Result EventRow
found_or_missing none = err missing
found_or_missing (some r) = ok r

abbrev pub sandbox_replayed : ℕ → EventRow → EventRow
sandbox_replayed clock r = record r {
  state = pending;
  attempt_count = 0;
  replay_count = r.replay_count + 1;
  next_attempt_at = clock;
  lease_expires_at = none;
  claim_id = none;
}

abbrev pub repeated : (ℕ → ℕ) → Bytes → Bytes → Budget → Tables → Tables
repeated clock owner id charged t = record {
  db = record (t.db) { events = update (is_own owner id) (sandbox_replayed (clock 2)) t.db.events };
  budget = some charged;
}

abbrev pub repetition :
    (ℕ → Reply) → (ℕ → ℕ) → Bytes → Bytes → Tables → Result (Unit {0} × Tables × Option Bytes)
repetition replies clock owner id t = do
  b ← admission replies clock t.budget
  ensure (is_fine (replies 3)) (failed "read event")
  r ← found_or_missing (owned_row owner id (clock 1) t.db)
  ensure (state_eq r.state dead_lettered) state
  ensure (ltb r.replay_count 2) quota
  charged ← charge (replies 4) b
  ensure (is_fine (replies 5)) (failed "replay event")
  ok (tt, repeated clock owner id charged t, some id)

-- `Replay`: the visitor's own dead-lettered event, at most twice.
unfoldable pub sandbox_replay :
    (ℕ → Reply) → (ℕ → ℕ) → Publisher → Bytes → Bytes → Tables → Finished (Unit {0})
sandbox_replay replies clock publisher owner id t =
    finish (replies 6) t (repetition replies clock owner id t) publisher
