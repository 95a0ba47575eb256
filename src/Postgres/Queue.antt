-- ===== src/Postgres/Queue.antt =====
-- internal/postgres/queue.go: claiming the next event under a lease, and recording an attempt.
pub mod Claimed
use p3_relay.Prelude.{
  ℕ, suc, ◌+◌, ◌*◌, Bool, true, false, ◌&&◌, ◌||◌, not, Option, none, some, List, [], ◌∷◌, ◌++◌,
  map, Bytes, bytes_eq, ltb, leb, count, filter, take, ◌==◌, if◌then◌else◌,
}
use p3_relay.Errors.{Result, ok, err, failed, Reply, fine, refused, lost}
use p3_relay.Identifier.{new_uuid}
use p3_relay.Table.{find, update, exists, order_by, first_row}
use p3_relay.Delivery
use p3_relay.Delivery.{ClaimedEvent, Attempt, hour}
use p3_relay.Delivery.Policy.{can_retry}
use p3_relay.Postgres.{
  Db, EventRow, EventState, AttemptRow, SessionRow, pending, delivering, delivered, retry_scheduled,
  dead_lettered, state_eq, event_key, timestamptz, day, attempt_fits,
}

abbrev pub is_waiting : EventState → Bool
is_waiting pending = true
is_waiting retry_scheduled = true
is_waiting _ = false

-- `lease_expires_at <= $1`, which is not true of NULL.
abbrev pub lease_over : ℕ → Option ℕ → Bool
lease_over now none = false
lease_over now (some t) = leb t now

abbrev pub is_abandoned : ℕ → EventRow → Bool
is_abandoned now r = state_eq r.state delivering && lease_over now r.lease_expires_at

-- Too old: `created_at <= $1 - interval '24 hours'`.
abbrev pub is_too_old : ℕ → EventRow → Bool
is_too_old now r = leb (r.created_at + day) now

abbrev pub has_live_session : ℕ → List SessionRow → Option Bytes → Bool
has_live_session now sessions none = true
has_live_session now sessions (some session) =
    exists (λ s. bytes_eq s.id session && ltb now s.expires_at) sessions

-- The condition of `expired`.
unfoldable pub is_expired : ℕ → EventRow → Bool
is_expired now r = is_too_old now r && (is_waiting r.state || is_abandoned now r)

-- The condition of `candidate`.
unfoldable pub is_eligible : ℕ → List SessionRow → EventRow → Bool
is_eligible now sessions r =
    ((is_waiting r.state && leb r.next_attempt_at now) || is_abandoned now r)
    && not (is_too_old now r)
    && has_live_session now sessions r.sandbox_id

abbrev pub created_first : EventRow → EventRow → Bool
created_first a b = leb a.created_at b.created_at

abbrev pub due_first : EventRow → EventRow → Bool
due_first a b =
    ltb a.next_attempt_at b.next_attempt_at
    || (a.next_attempt_at == b.next_attempt_at && leb a.created_at b.created_at)

-- `locked` tells the rows that other transactions hold: `SKIP LOCKED` passes over them.
unfoldable pub expired_rows : (Bytes → Bool) → ℕ → List EventRow → List EventRow
unfolding is_expired
expired_rows locked now events =
    take 10
      (filter (λ r. not (locked r.id)) (order_by created_first (filter (is_expired now) events)))

unfoldable pub candidate : (Bytes → Bool) → ℕ → List SessionRow → List EventRow → Option EventRow
unfolding is_eligible
candidate locked now sessions events = first_row (
    filter (λ r. not (locked r.id)) (order_by due_first (filter (is_eligible now sessions) events)))

abbrev pub retired : EventRow → EventRow
retired r = record r { state = dead_lettered; lease_expires_at = none; claim_id = none }

abbrev pub leased : Bytes → ℕ → EventRow → EventRow
leased claim_id lease_end r = record r {
  state = delivering;
  attempt_count = if state_eq r.state delivering then r.attempt_count else r.attempt_count + 1;
  lease_expires_at = some lease_end;
  claim_id = some claim_id;
}

abbrev pub is_candidate : Option EventRow → EventRow → Bool
is_candidate none r = false
is_candidate (some c) r = bytes_eq r.id c.id

-- Both updates of the statement see the rows as they stood before it. The two sets of rows do not
-- meet, since `expired` wants an age that `candidate` excludes.
unfoldable pub after_claim : (Bytes → Bool) → Bytes → ℕ → ℕ → Db → Db
unfolding expired_rows candidate
after_claim locked claim_id now lease_end db =
    let old = expired_rows locked now db.events in
    let chosen = candidate locked now db.sessions db.events in
    record db {
      events =
          update (is_candidate chosen) (leased claim_id lease_end)
            (update (λ r. exists (λ e. bytes_eq e.id r.id) old) retired db.events);
    }

-- `RETURNING`, scanned into the claimed event.
abbrev pub claimed_event : Bytes → EventRow → ClaimedEvent
claimed_event claim_id r = record {
  sandbox = elim r.sandbox_id [ none ↦ false | some s ↦ true ];
  id = r.id;
  claim_id = claim_id;
  body = r.body;
  destination_url = r.destination_url;
  replay_number = r.replay_count;
  attempt_number = r.attempt_count;
  created_at = r.created_at * 1000;
}

abbrev pub returned : Bytes → ℕ → Option EventRow → Option ClaimedEvent
returned claim_id lease_end none = none
returned claim_id lease_end (some r) = some (claimed_event claim_id (leased claim_id lease_end r))

abbrev pub claim_with :
    Reply → (Bytes → Bool) → Bytes → ℕ → ℕ → Db → Result (Option ClaimedEvent) × Db
claim_with fine locked claim_id now lease_end db = (
  ok (returned claim_id lease_end (candidate locked now db.sessions db.events)),
  after_claim locked claim_id now lease_end db,
)
claim_with lost locked claim_id now lease_end db =
    (err (failed "claim delivery"), after_claim locked claim_id now lease_end db)
claim_with refused locked claim_id now lease_end db = (err (failed "claim delivery"), db)

abbrev pub claim_identified :
    Result Bytes → Reply → (Bytes → Bool) → ℕ → ℕ → Db → Result (Option ClaimedEvent) × Db
claim_identified (err e) reply locked now lease db = (err (failed "create claim identifier"), db)
claim_identified (ok claim_id) reply locked now lease db =
    claim_with reply locked claim_id (timestamptz now) (timestamptz (now + lease)) db

-- `random` is what the system's randomness gives to `NewUUID`.
unfoldable pub claim :
    Reply → Option Bytes → (Bytes → Bool) → ℕ → ℕ → Db → Result (Option ClaimedEvent) × Db
unfolding after_claim
claim reply random locked now lease db =
    claim_identified (new_uuid random) reply locked now lease db

-- `now.Sub(created_at) < 24*time.Hour`, also where `now` is the earlier.
unfoldable pub can_retry_at : ℕ → ℕ → ℕ → Bool
unfolding can_retry
can_retry_at attempt created_at now = can_retry attempt && ltb now (created_at + 24 * hour)

abbrev pub state_after : Delivery.Outcome → Bool → EventState
state_after Delivery.delivered may_retry = delivered
state_after Delivery.terminal_http may_retry = dead_lettered
state_after _ may_retry = if may_retry then retry_scheduled else dead_lettered

unfoldable pub record_state : ClaimedEvent → Attempt → EventState
unfolding can_retry_at
record_state claimed attempt =
    state_after attempt.outcome
      (can_retry_at claimed.attempt_number claimed.created_at attempt.finished_at)

-- `claim_id = $5`, which is not true of NULL.
abbrev pub is_claim : Option Bytes → Bytes → Bool
is_claim none claim_id = false
is_claim (some c) claim_id = bytes_eq c claim_id

abbrev pub holds_claim : ClaimedEvent → EventRow → Bool
holds_claim claimed r =
    bytes_eq r.id claimed.id
    && (state_eq r.state delivering && is_claim r.claim_id claimed.claim_id)

abbrev pub completed : EventState → Attempt → EventRow → EventRow
completed state attempt r = record r {
  state = state;
  next_attempt_at = timestamptz attempt.next_attempt_at;
  lease_expires_at = none;
  claim_id = none;
  delivered_at =
      if state_eq state delivered then some (timestamptz attempt.finished_at) else r.delivered_at;
}

abbrev pub attempt_row : ClaimedEvent → Attempt → AttemptRow
attempt_row claimed attempt = record {
  id = attempt.id;
  event_id = claimed.id;
  replay_number = claimed.replay_number;
  attempt_number = claimed.attempt_number;
  started_at = timestamptz attempt.started_at;
  finished_at = timestamptz attempt.finished_at;
  outcome = attempt.outcome;
  status_code = attempt.status_code;
  response_excerpt = attempt.response_excerpt;
  error_code = attempt.error_code;
}

-- The database after the transaction's two statements.
unfoldable pub recorded : ClaimedEvent → Attempt → Db → Db
unfolding record_state
recorded claimed attempt db = record db {
  events =
      update (holds_claim claimed) (completed (record_state claimed attempt) attempt) db.events;
  attempts = db.attempts ++ attempt_row claimed attempt ∷ [];
}

-- The replies to the transaction's statements, in their order.
pub record Replies : Type 0 where
  pub begin : Reply
  pub update : Reply
  pub insert : Reply
  pub commit : Reply

abbrev pub is_fine : Reply → Bool
is_fine fine = true
is_fine _ = false

abbrev pub commit_attempt : Reply → Db → Db → Result (Unit {0}) × Db
commit_attempt fine before after = (ok tt, after)
commit_attempt refused before after = (err (failed "commit delivery attempt"), before)
commit_attempt lost before after = (err (failed "commit delivery attempt"), after)

-- Any failure before the commit rolls the transaction back.
unfoldable pub record_attempt : Replies → ClaimedEvent → Attempt → Db → Result (Unit {0}) × Db
unfolding recorded
record_attempt replies claimed attempt db =
    if not (is_fine replies.begin)
    then (err (failed "begin attempt transaction"), db)
    else if not (is_fine replies.update)
    then (err (failed "complete claimed event"), db)
    else if not (count (holds_claim claimed) db.events == 1)
    then (err (failed "delivery claim expired or was replaced"), db)
    else if not (is_fine replies.insert && attempt_fits db (attempt_row claimed attempt))
    then (err (failed "insert delivery attempt"), db)
    else commit_attempt replies.commit db (recorded claimed attempt db)
