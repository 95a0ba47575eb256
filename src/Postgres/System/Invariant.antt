-- ===== src/Postgres/System/Invariant.antt =====
-- The invariant of the tables and of the claims handed out.
use p3_relay.Prelude.{
  ℕ, ◌≤◌, ◌<◌, ◌≡◌, ◌≢◌, true, Option, none, some, List, Bytes, bytes_eq→eq, bytes_eq_iff, ap, All,
  arith, is_some, ltb,
}
use p3_relay.Table.{find, Unique}
use p3_relay.Delivery.{ClaimedEvent, Attempt}
use p3_relay.Postgres.{
  EventRow, AttemptRow, SessionRow, pending, delivering, delivered, retry_scheduled, event_key,
  state_eq,
}
use p3_relay.Postgres.System.{System}
use p3_relay.Postgres.Replay.{replayed}
use p3_relay.Postgres.Queue.{
  retired, leased, is_claim, completed, is_eligible, holds_claim, record_state, attempt_row,
}

-- A row of `events`: its checks, and what its state says of its attempts.
pub record IsSound (r : EventRow) : Type 0 where
  pub attempts_bounded : r.attempt_count ≤ 8
  pub replays_bounded : r.replay_count ≤ 16
  pub pending_reset : r.state ≡ pending → r.attempt_count ≡ 0
  pub delivering_counted : r.state ≡ delivering → 1 ≤ r.attempt_count
  pub retry_room : r.state ≡ retry_scheduled → r.attempt_count < 8
  pub claim_held : is_some r.claim_id ≡ state_eq r.state delivering
  pub lease_held : is_some r.lease_expires_at ≡ state_eq r.state delivering
  pub delivered_stamped : r.state ≡ delivered → is_some r.delivered_at ≡ true

-- A recorded attempt lies behind what its event's row may still record.
pub record IsBehind (a : AttemptRow) (r : EventRow) : Type 0 where
  pub replay_le : a.replay_number ≤ r.replay_count
  pub attempt_le : a.replay_number ≡ r.replay_count → a.attempt_number ≤ r.attempt_count
  pub attempt_lt :
      a.replay_number ≡ r.replay_count → r.state ≡ delivering → a.attempt_number < r.attempt_count

-- A row that holds a claim has the claim's numbers.
pub record Agrees (c : ClaimedEvent) (r : EventRow) : Type 0 where
  pub numbers :
      r.claim_id ≡ some c.claim_id
      → (r.attempt_count ≡ c.attempt_number) × (r.replay_count ≡ c.replay_number)

abbrev pub OnRow : (EventRow → Type 0) → Type 0 → Option EventRow → Type 0
OnRow P missing none = missing
OnRow P missing (some r) = P r

-- Every attempt refers to an event, and lies behind it.
abbrev pub IsCounted : List EventRow → AttemptRow → Type 0
IsCounted events a = OnRow (IsBehind a) ⊥ (find event_key a.event_id events)

-- A claim whose event was deleted says nothing.
abbrev pub IsCurrent : List EventRow → ClaimedEvent → Type 0
IsCurrent events c = OnRow (Agrees c) Unit (find event_key c.id events)

pub record IsConsistent (s : System) : Type 0 where
  pub sound : All IsSound s.db.events
  pub unique : Unique event_key s.db.events
  pub counted : All (IsCounted s.db.events) s.db.attempts
  pub current : All (IsCurrent s.db.events) s.issued

pub retired-IsSound : (r : EventRow) → IsSound r → IsSound (retired r)
retired-IsSound r h = ground arith

pub replayed-IsSound :
    (clock : ℕ) (r : EventRow)
    → ltb r.replay_count 16 ≡ true
    → IsSound r
    → IsSound (replayed clock r)
replayed-IsSound clock r room h = ground arith

pub retired-IsBehind : (a : AttemptRow) (r : EventRow) → IsBehind a r → IsBehind a (retired r)
retired-IsBehind a r h = ground arith

pub replayed-IsBehind :
    (clock : ℕ) (a : AttemptRow) (r : EventRow) → IsBehind a r → IsBehind a (replayed clock r)
replayed-IsBehind clock a r h = ground arith

pub leased-IsSound :
    (claim_id : Bytes) (now lease_end : ℕ) (sessions : List SessionRow) (r : EventRow)
    → is_eligible now sessions r ≡ true
    → IsSound r
    → IsSound (leased claim_id lease_end r)
unfolding is_eligible
leased-IsSound claim_id now lease_end sessions r fit h = ground arith

pub leased-IsBehind :
    (claim_id : Bytes) (lease_end : ℕ) (a : AttemptRow) (r : EventRow)
    → IsBehind a r
    → IsBehind a (leased claim_id lease_end r)
leased-IsBehind claim_id lease_end a r h = ground arith

is_claim-eq :
    (held : Option Bytes) (claim_id : Bytes) → is_claim held claim_id ≡ true → held ≡ some claim_id
is_claim-eq none claim_id h = cc
is_claim-eq (some c) claim_id h = ap some (bytes_eq→eq c claim_id h)

-- The compare-and-set condition of the update.
pub holds_claim-row :
    (c : ClaimedEvent) (r : EventRow)
    → holds_claim c r ≡ true
    → (r.id ≡ c.id) × (r.state ≡ delivering) × (r.claim_id ≡ some c.claim_id)
holds_claim-row c r h = ground (arith, is_claim-eq r.claim_id c.claim_id, bytes_eq_iff r.id c.id)

pub completed-IsSound :
    (c : ClaimedEvent) (attempt : Attempt) (r : EventRow)
    → holds_claim c r ≡ true
    → Agrees c r
    → IsSound r
    → IsSound (completed (record_state c attempt) attempt r)
unfolding record_state
completed-IsSound c attempt r held agrees h = ground (arith, holds_claim-row c r held)

pub completed-IsBehind :
    (c : ClaimedEvent) (attempt : Attempt) (a : AttemptRow) (r : EventRow)
    → IsBehind a r
    → IsBehind a (completed (record_state c attempt) attempt r)
unfolding record_state
completed-IsBehind c attempt a r h = ground arith

pub attempt_row-IsBehind :
    (c : ClaimedEvent) (attempt : Attempt) (r : EventRow)
    → holds_claim c r ≡ true
    → Agrees c r
    → IsBehind (attempt_row c attempt) (completed (record_state c attempt) attempt r)
unfolding record_state
attempt_row-IsBehind c attempt r held agrees = ground (arith, holds_claim-row c r held)

pub unclaimed-Agrees : (c : ClaimedEvent) (r : EventRow) → r.claim_id ≡ none → Agrees c r
unclaimed-Agrees c r h = record { numbers = λ e. cc }

pub leased-Agrees :
    (claim_id : Bytes) (lease_end : ℕ) (c : ClaimedEvent) (r : EventRow)
    → c.claim_id ≢ claim_id
    → Agrees c (leased claim_id lease_end r)
leased-Agrees claim_id lease_end c r fresh = record { numbers = λ e. absurd (fresh (cc)) }
