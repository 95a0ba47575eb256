-- ===== src/Postgres.antt =====
-- internal/postgres and migrations/: the database's tables, and the statements that the program
-- runs on them. Columns of type timestamptz are microseconds since the Unix epoch; a Go instant is
-- cut to them, as the driver does. Rows stand in storage order.
pub mod Store
pub mod Replay
pub mod Queue
pub mod Read
pub mod System
pub mod Tls
use p3_relay.Prelude.{
  ℕ, ◌+◌, ◌*◌, ◌/◌, Bool, true, false, ◌&&◌, ◌||◌, not, Option, none, some, List, Bytes, bytes_eq,
  length, filter, leb, ltb, is_some, ◌==◌, if◌then◌else◌,
}
use p3_relay.Table.{find, exists, is_there}
use p3_relay.Delivery.{Outcome}

-- The states that the check on `events.state` allows.
pub data EventState : Type 0 where
  pending delivering delivered retry_scheduled dead_lettered : EventState

pub record EventRow : Type 0 where
  pub id : Bytes
  pub source_key : Bytes
  pub external_event_id : Bytes
  pub body : Bytes
  pub body_sha256 : Bytes
  pub destination_url : Bytes
  pub state : EventState
  pub attempt_count : ℕ
  pub replay_count : ℕ
  pub next_attempt_at : ℕ
  pub lease_expires_at : Option ℕ
  pub claim_id : Option Bytes
  pub created_at : ℕ
  pub delivered_at : Option ℕ
  pub sandbox_id : Option Bytes

pub record AttemptRow : Type 0 where
  pub id : Bytes
  pub event_id : Bytes
  pub replay_number : ℕ
  pub attempt_number : ℕ
  pub started_at : ℕ
  pub finished_at : ℕ
  pub outcome : Outcome
  pub status_code : Option ℕ
  pub response_excerpt : Bytes
  pub error_code : Option Bytes

pub record SessionRow : Type 0 where
  pub id : Bytes
  pub expires_at : ℕ
  pub event_count : ℕ

pub record Db : Type 0 where
  pub events : List EventRow
  pub attempts : List AttemptRow
  pub sessions : List SessionRow

abbrev pub event_key : EventRow → Bytes
event_key r = r.id

-- A Go instant, in nanoseconds, as a timestamptz.
abbrev pub timestamptz : ℕ → ℕ
timestamptz t = t / 1000

-- interval '24 hours'.
abbrev pub day : ℕ
day = 86400000000

abbrev pub state_eq : EventState → EventState → Bool
state_eq pending pending = true
state_eq delivering delivering = true
state_eq delivered delivered = true
state_eq retry_scheduled retry_scheduled = true
state_eq dead_lettered dead_lettered = true
state_eq _ _ = false

-- `length(text)`: the characters of UTF-8, which are the bytes that continue none.
abbrev pub char_length : Bytes → ℕ
char_length s = length (filter (λ b. not (leb 128 b && ltb b 192)) s)

abbrev pub between : ℕ → ℕ → ℕ → Bool
between low high n = leb low n && leb n high

-- The checks of `events` on a new row.
unfoldable pub event_checks : EventRow → Bool
event_checks r =
    between 1 128 (char_length r.source_key)
    && between 1 128 (char_length r.external_event_id)
    && between 1 262144 (length r.body)
    && length r.body_sha256 == 32
    && between 1 2048 (char_length r.destination_url)

-- A status or an error, and never both.
abbrev pub status_or_error : Option ℕ → Option Bytes → Bool
status_or_error (some status) none = between 100 599 status
status_or_error none (some error) = between 1 64 (char_length error)
status_or_error _ _ = false

-- The checks of `delivery_attempts` on a new row, column by column, and that on status and error.
unfoldable pub attempt_checks : AttemptRow → Bool
attempt_checks a =
    between 0 16 a.replay_number
    && between 1 8 a.attempt_number
    && leb a.started_at a.finished_at
    && leb (length a.response_excerpt) 4096
    && status_or_error a.status_code a.error_code

-- UNIQUE (event_id, replay_number, attempt_number).
abbrev pub same_attempt : AttemptRow → AttemptRow → Bool
same_attempt a b =
    bytes_eq b.event_id a.event_id
    && b.replay_number == a.replay_number
    && b.attempt_number == a.attempt_number

-- Whether PostgreSQL takes a new row of `delivery_attempts`: its checks, its primary key, its
-- unique triple and its reference to an event.
unfoldable pub attempt_fits : Db → AttemptRow → Bool
attempt_fits db a =
    attempt_checks a
    && not (exists (λ b. bytes_eq b.id a.id) db.attempts)
    && not (exists (same_attempt a) db.attempts)
    && is_there event_key a.event_id db.events
