-- ===== src/Postgres/Read.antt =====
-- internal/postgres/read.go: the dashboard's queries. `strings.ToValidUTF8` is a parameter.
pub mod Views
use p3_relay.Prelude.{
  ℕ, ◌+◌, ◌-◌, ◌*◌, ◌^◌, Bool, true, false, ◌&&◌, ◌||◌, not, Option, none, some, List, [], ◌∷◌, map,
  Bytes, codes, bytes_eq, length, count, filter, take, ltb, leb, ◌==◌, if◌then◌else◌,
}
use p3_relay.Errors.{Result, ok, err, failed, not_found, Reply, fine}
use p3_relay.Table.{order_by}
use p3_relay.Delivery
use p3_relay.Postgres.{
  Db, EventRow, AttemptRow, EventState, pending, delivering, delivered, retry_scheduled,
  dead_lettered, state_eq,
}
use p3_relay.Postgres.Store.{select_one}

pub record Overview : Type 0 where
  pub pending : ℕ
  pub delivering : ℕ
  pub delivered : ℕ
  pub retrying : ℕ
  pub dead_lettered : ℕ

pub record Summary : Type 0 where
  pub id : Bytes
  pub external_event_id : Bytes
  pub state : EventState
  pub attempt_count : ℕ
  pub created_at : ℕ

pub record AttemptView : Type 0 where
  pub replay_number : ℕ
  pub attempt_number : ℕ
  pub outcome : Delivery.Outcome
  pub status_code : Option ℕ
  pub error_code : Option Bytes
  pub started_at : ℕ
  pub finished_at : ℕ
  pub response_excerpt : Bytes

pub record Detail : Type 0 where
  pub summary : Summary
  pub destination_url : Bytes
  pub replay_count : ℕ
  pub attempts : List AttemptView

-- `count(*) FILTER (WHERE state = …) … WHERE source_key = $1`.
abbrev pub tally : Bytes → EventState → List EventRow → ℕ
tally source_key state events =
    count (λ r. bytes_eq r.source_key source_key && state_eq r.state state) events

abbrev pub fits_u32 : ℕ → Bool
fits_u32 n = ltb n (2 ^ 32)

unfoldable pub overview : Reply → Db → Bytes → Result Overview
overview fine db source_key =
    let tally_of = λ (state : EventState). tally source_key state db.events in
    if fits_u32 (tally_of pending)
      && fits_u32 (tally_of delivering)
      && fits_u32 (tally_of delivered)
      && fits_u32 (tally_of retry_scheduled)
      && fits_u32 (tally_of dead_lettered)
    then ok (record {
      pending = tally_of pending;
      delivering = tally_of delivering;
      delivered = tally_of delivered;
      retrying = tally_of retry_scheduled;
      dead_lettered = tally_of dead_lettered;
    })
    else err (failed "read event overview")
overview _ db source_key = err (failed "read event overview")

abbrev pub state_name : EventState → Bytes
state_name pending = codes "pending"
state_name delivering = codes "delivering"
state_name delivered = codes "delivered"
state_name retry_scheduled = codes "retry_scheduled"
state_name dead_lettered = codes "dead_lettered"

-- The order of identifiers, which is that of their texts.
unfoldable pub bytes_leb : Bytes → Bytes → Bool
bytes_leb [] b = true
bytes_leb (x ∷ a) [] = false
bytes_leb (x ∷ a) (y ∷ b) = ltb x y || (x == y && bytes_leb a b)

-- `ORDER BY created_at DESC, id DESC`.
abbrev pub newest_first : EventRow → EventRow → Bool
newest_first a b =
    ltb b.created_at a.created_at || (a.created_at == b.created_at && bytes_leb b.id a.id)

abbrev pub summary_of : EventRow → Summary
summary_of r = record {
  id = r.id;
  external_event_id = r.external_event_id;
  state = r.state;
  attempt_count = r.attempt_count;
  created_at = r.created_at * 1000;
}

abbrev pub is_listed : Bytes → Bytes → EventRow → Bool
is_listed source_key state r =
    bytes_eq r.source_key source_key && (length state == 0 || bytes_eq (state_name r.state) state)

unfoldable pub list : Reply → Db → Bytes → Bytes → ℕ → Result (List Summary)
list fine db source_key state limit = ok (
    map summary_of
      (take limit (order_by newest_first (filter (is_listed source_key state) db.events))))
list _ db source_key state limit = err (failed "list events")

abbrev pub attempt_order : AttemptRow → AttemptRow → Bool
attempt_order a b =
    ltb a.replay_number b.replay_number
    || (a.replay_number == b.replay_number && leb a.attempt_number b.attempt_number)

module _ (to_valid_utf8 : Bytes → Bytes) where
  abbrev pub view_of : AttemptRow → AttemptView
  view_of a = record {
    replay_number = a.replay_number;
    attempt_number = a.attempt_number;
    outcome = a.outcome;
    status_code = a.status_code;
    error_code = a.error_code;
    started_at = a.started_at * 1000;
    finished_at = a.finished_at * 1000;
    response_excerpt = to_valid_utf8 a.response_excerpt;
  }

  unfoldable pub detail_attempts : Reply → Db → Bytes → Result (List AttemptView)
  detail_attempts fine db event_id = ok (
      map view_of (order_by attempt_order (filter (λ a. bytes_eq a.event_id event_id) db.attempts)))
  detail_attempts _ db event_id = err (failed "list delivery attempts")

  abbrev pub with_attempts : EventRow → Result (List AttemptView) → Result Detail
  with_attempts r (err e) = err e
  with_attempts r (ok attempts) = ok (record {
    summary = summary_of r;
    destination_url = r.destination_url;
    replay_count = r.replay_count;
    attempts = attempts;
  })

  abbrev pub with_event : Reply → Db → Bytes → Option EventRow → Result Detail
  with_event attempts_reply db event_id none = err not_found
  with_event attempts_reply db event_id (some r) =
      with_attempts r (detail_attempts attempts_reply db event_id)

  -- The replies are those to the event's query and to that of its attempts.
  unfoldable pub detail : Reply → Reply → Db → Bytes → Bytes → Result Detail
  detail fine attempts_reply db event_id source_key =
      with_event attempts_reply db event_id
        (select_one (λ r. bytes_eq r.id event_id && bytes_eq r.source_key source_key) db.events)
  detail _ attempts_reply db event_id source_key = err (failed "read event detail")
