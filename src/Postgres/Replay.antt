-- ===== src/Postgres/Replay.antt =====
-- internal/postgres/replay.go: an operator sends a dead-lettered event again.
pub mod Exact
use p3_relay.Prelude.{
  ℕ, ◌+◌, Bool, ◌&&◌, Option, none, some, List, Bytes, bytes_eq, ltb, count, ◌==◌, if◌then◌else◌,
}
use p3_relay.Errors.{Result, ok, err, failed, not_found, invalid_state, Reply, fine, refused, lost}
use p3_relay.Table.{update}
use p3_relay.Postgres.{Db, EventRow, pending, dead_lettered, state_eq}
use p3_relay.Postgres.Store.{Outcome, quiet, Publisher, after_commit, select_one}

abbrev pub can_replay : Bytes → Bytes → EventRow → Bool
can_replay event_id source_key r =
    bytes_eq r.id event_id
    && (bytes_eq r.source_key source_key && state_eq r.state dead_lettered && ltb r.replay_count 16)

abbrev pub replayed : ℕ → EventRow → EventRow
replayed clock r = record r {
  state = pending;
  attempt_count = 0;
  replay_count = r.replay_count + 1;
  next_attempt_at = clock;
  lease_expires_at = none;
  claim_id = none;
  delivered_at = none;
}

-- Why the update matched no row.
abbrev pub explain : Reply → Bytes → Bytes → Db → Result (Unit {0})
explain fine event_id source_key db =
    elim (select_one (λ r. bytes_eq r.id event_id && bytes_eq r.source_key source_key) db.events) [
      | none ↦ err not_found
      | some r ↦ err invalid_state
    ]
explain _ event_id source_key db = err (failed "read event replay state")

abbrev pub updated : Reply → Reply → Publisher → ℕ → Db → Bytes → Bytes → Outcome (Unit {0})
updated fine select_reply publisher clock db event_id source_key =
    let after = record db {
      events = update (can_replay event_id source_key) (replayed clock) db.events;
    } in
    if count (can_replay event_id source_key) db.events == 1
    then record { result = ok tt; db = after; published = after_commit publisher event_id }
    else quiet (explain select_reply event_id source_key after) after
updated lost select_reply publisher clock db event_id source_key =
    quiet (err (failed "replay dead-lettered event"))
      (record db { events = update (can_replay event_id source_key) (replayed clock) db.events })
updated refused select_reply publisher clock db event_id source_key =
    quiet (err (failed "replay dead-lettered event")) db

unfoldable pub replay : Reply → Reply → Publisher → ℕ → Db → Bytes → Bytes → Outcome (Unit {0})
replay update_reply select_reply publisher clock db event_id source_key =
    updated update_reply select_reply publisher clock db event_id source_key
