-- ===== src/Postgres/System/Working.antt =====
-- internal/delivery/worker.go over internal/postgres/queue.go: one run of a worker on the tables.
use mathlib.Core.List.{Memᴰ}
use mathlib.Core.Option
use p3_relay.Prelude.{
  ℕ, ◌<◌, ◌+◌, ◌/◌, ◌≡◌, ◌⊎◌, inl, inr, refl, Bool, Bool-cases, true, false, ◌&&◌, Option, none,
  some, List, [], ◌∷◌, ◌++◌, arith, ltb, if◌then◌else◌, Bytes, bytes_eq, subst, sym, ap, ◌∙◌,
}
use p3_relay.Errors.{Result, ok, Reply}
use p3_relay.Identifier.{new_uuid}
use p3_relay.Delivery
use p3_relay.Delivery.Policy.{can_retry}
use p3_relay.Delivery.{ClaimedEvent, Attempt}
use p3_relay.Delivery.Worker
use p3_relay.Delivery.Worker.{QueueStore, Worker, run_once}
use p3_relay.Table.{find, exists}
use p3_relay.Table.Laws.{find-update}
use p3_relay.Postgres.{
  Db, EventRow, EventState, delivered, dead_lettered, retry_scheduled, event_key, attempt_checks,
}
use p3_relay.Postgres.Queue.{
  claim, holds_claim, attempt_row, recorded, record_attempt, completed, record_state, Replies,
  can_retry_at, state_after,
}
use p3_relay.Postgres.System.{System, Reach, next, claims, migrated, IsFresh, hand_out}
use p3_relay.Postgres.System.Invariant.{Agrees, OnRow, holds_claim-row}
use p3_relay.Postgres.System.Reachable.{
  record_attempt-stored, all_fine, Reach-IsConsistent, migrated-IsConsistent, All-mem,
}
use p3_relay.Postgres.System.Guarantees.{claim-IsUsable}

-- What one run meets: the replies of the database, the random bytes, the locked rows and what the
-- sender makes of a claimed event.
pub record Meeting : Type 0 where
  pub claim_reply : Reply
  pub random : Option Bytes
  pub locked : Bytes → Bool
  pub sends : ClaimedEvent → Attempt
  pub replies : Replies

-- The store's queries and the sender, as a worker calls them.
abbrev pub tables_worker : Meeting → ℕ → Worker Db
tables_worker meeting lease_length = record {
  store = record {
    claim = claim meeting.claim_reply meeting.random meeting.locked;
    record_attempt = record_attempt meeting.replies;
  };
  send = λ claimed db. (meeting.sends claimed, db);
  lease_length = lease_length;
}

run_once-claimed :
    (meeting : Meeting) (lease now : ℕ) (db : Db) (c : ClaimedEvent)
    → (claim meeting.claim_reply meeting.random meeting.locked now lease db).0 ≡ ok (some c)
    → (record_attempt meeting.replies c
        (meeting.sends c)
        (claim meeting.claim_reply meeting.random meeting.locked now lease db).1)
      ≡ (
        ok tt,
        recorded c
            (meeting.sends c)
            (claim meeting.claim_reply meeting.random meeting.locked now lease db).1,
      )
    → run_once (tables_worker meeting lease) now db ≡ (
      ok true,
      recorded c
          (meeting.sends c)
          (claim meeting.claim_reply meeting.random meeting.locked now lease db).1,
    )
unfolding run_once
run_once-claimed meeting lease now db c handed stored =
    ap (Worker.after_claim (tables_worker meeting lease)) (pair _ (ok (some c)) handed)
    ∙ ap Worker.after_record stored
  where
    pair :
        (p : Result (Option ClaimedEvent) × Db) (r : Result (Option ClaimedEvent))
        → p.0 ≡ r
        → p ≡ (r, p.1)
    pair (q, d) r e = ap (λ x. (x, d)) e

recorded_row :
    (c : ClaimedEvent) (attempt : Attempt) (db : Db) (r : EventRow)
    → find event_key c.id db.events ≡ some r
    → holds_claim c r ≡ true
    → find event_key c.id (recorded c attempt db).events
      ≡ some (completed (record_state c attempt) attempt r)
unfolding recorded
recorded_row c attempt db r found held =
    find-update event_key c.id (holds_claim c) (completed (record_state c attempt) attempt)
      db.events (λ x. refl)
    ∙ ap (Option.map _) found
    ∙ rw held refl

issued_head :
    (given : Result (Option ClaimedEvent)) (c : ClaimedEvent) (issued : List ClaimedEvent)
    → given ≡ ok (some c)
    → Memᴰ c (hand_out given issued)
issued_head given c issued e = subst (λ g. Memᴰ c (hand_out g issued)) (sym e) (Memᴰ.head refl)

-- Of an attempt that is to be repeated: whether the contract has room for another, at most eight
-- attempts and within 24 hours (in nanoseconds) of the event's acceptance.
abbrev pub HasRoom : ClaimedEvent → Attempt → Type 0
HasRoom c attempt = (c.attempt_number < 8) × (attempt.finished_at < c.created_at + 86400000000000)

-- The state in which the delivery contract leaves an event after an attempt.
pub data Leaves (c : ClaimedEvent) (attempt : Attempt) : EventState → Type 0 where
  succeeded : attempt.outcome ≡ Delivery.delivered → Leaves c attempt delivered
  refused_for_good : attempt.outcome ≡ Delivery.terminal_http → Leaves c attempt dead_lettered
  tried_again :
      (attempt.outcome ≡ Delivery.retryable_http) ⊎ (attempt.outcome ≡ Delivery.network_error)
      → HasRoom c attempt
      → Leaves c attempt retry_scheduled
  given_up :
      (attempt.outcome ≡ Delivery.retryable_http) ⊎ (attempt.outcome ≡ Delivery.network_error)
      → ¬ (HasRoom c attempt)
      → Leaves c attempt dead_lettered

record_state-Leaves :
    (c : ClaimedEvent) (attempt : Attempt) → Leaves c attempt (record_state c attempt)
unfolding record_state can_retry_at can_retry
record_state-Leaves c attempt = by_outcome attempt.outcome refl
  where
    again :
        (attempt.outcome ≡ Delivery.retryable_http) ⊎ (attempt.outcome ≡ Delivery.network_error)
        → Leaves c attempt (
            if can_retry_at c.attempt_number c.created_at attempt.finished_at
            then retry_scheduled
            else dead_lettered)
    again kind =
        elim (Bool-cases
          (ltb c.attempt_number 8 && ltb attempt.finished_at (c.created_at + 86400000000000))) [
            | inl room ↦ rw room (tried_again kind (ground arith))
            | inr full ↦ rw full (given_up kind (λ (few, young). ground arith))
          ]

    by_outcome :
        (outcome : Delivery.Outcome)
        → attempt.outcome ≡ outcome
        → Leaves c attempt
            (state_after outcome (can_retry_at c.attempt_number c.created_at attempt.finished_at))
    by_outcome Delivery.delivered e = succeeded e
    by_outcome Delivery.terminal_http e = refused_for_good e
    by_outcome Delivery.retryable_http e = again (inl e)
    by_outcome Delivery.network_error e = again (inr e)

-- The event's row after an attempt: in the contract's state, without claim or lease, due when the
-- attempt says, with the attempt's numbers and the instant of a delivery.
pub record IsSettled (c : ClaimedEvent) (attempt : Attempt) (r : EventRow) : Type 0 where
  pub state : Leaves c attempt r.state
  pub unclaimed : r.claim_id ≡ none
  pub unleased : r.lease_expires_at ≡ none
  pub due : r.next_attempt_at ≡ attempt.next_attempt_at / 1000
  pub counted : r.attempt_count ≡ c.attempt_number
  pub stamped : r.state ≡ delivered → r.delivered_at ≡ some (attempt.finished_at / 1000)

completed-IsSettled :
    (c : ClaimedEvent) (attempt : Attempt) (r : EventRow)
    → r.attempt_count ≡ c.attempt_number
    → IsSettled c attempt (completed (record_state c attempt) attempt r)
completed-IsSettled c attempt r numbered = record {
  state = record_state-Leaves c attempt;
  unclaimed = refl;
  unleased = refl;
  due = refl;
  counted = numbered;
  stamped = λ done. rw done refl;
}

-- A run that is handed an event, in a database that any history of calls made, reports that it
-- processed one. The event's row is then in the state that the delivery contract gives after the
-- attempt: delivered, dead-lettered after a terminal answer, or after any other scheduled for a
-- retry before the eighth attempt and within 24 hours, and dead-lettered otherwise. It has
-- no claim or lease, is due when the attempt says, and the attempt stands in its table behind the
-- others: if the attempt passes the checks of its columns and has a new identifier, the claim's identifier
-- is new, and the recording's statements are answered.
pub run_once-Records :
    {s : System} {hour : ℕ} (meeting : Meeting) (lease now : ℕ) (c : ClaimedEvent)
    → Reach (migrated hour) s
    → ((claim_id : Bytes) → new_uuid meeting.random ≡ ok claim_id → IsFresh claim_id s.issued)
    → meeting.replies ≡ all_fine
    → (claim meeting.claim_reply meeting.random meeting.locked now lease s.db).0 ≡ ok (some c)
    → attempt_checks (attempt_row c (meeting.sends c)) ≡ true
    → exists
        (λ b. bytes_eq b.id (meeting.sends c).id)
        (claim meeting.claim_reply meeting.random meeting.locked now lease s.db).1.attempts
      ≡ false
    → let attempt = meeting.sends c in
      let before = (claim meeting.claim_reply meeting.random meeting.locked now lease s.db).1 in
      let (outcome, after) = run_once (tables_worker meeting lease) now s.db in
      (outcome ≡ ok true)
      × ((r : EventRow) × (find event_key c.id after.events ≡ some r) × IsSettled c attempt r)
      × (after.attempts ≡ before.attempts ++ attempt_row c attempt ∷ [])
run_once-Records {s} {hour} meeting lease now c reach fresh answered handed checks new =
    let usable =
      claim-IsUsable meeting.claim_reply meeting.random meeting.locked now lease c reach handed in
    let (r, found, held) = usable.held in
    let step = claims meeting.claim_reply meeting.random meeting.locked now lease fresh in
    let stored =
      record_attempt-stored c (meeting.sends c) r (next reach step)
        (issued_head _ c s.issued handed) found held checks new in
    let stored' =
      subst
        (λ replies.
          record_attempt replies c (meeting.sends c)
            (claim meeting.claim_reply meeting.random meeting.locked now lease s.db).1
          ≡ (
            ok tt,
            recorded c (meeting.sends c)
                (claim meeting.claim_reply meeting.random meeting.locked now lease s.db).1,
          ))
        (sym answered) stored in
    let run = run_once-claimed meeting lease now s.db c handed stored' in
    let consistent = Reach-IsConsistent (next reach step) (migrated-IsConsistent hour) in
    let current = All-mem _ c _ consistent.current (issued_head _ c s.issued handed) in
    let agrees = subst (OnRow (Agrees c) Unit) found current in
    let (numbered, _) = agrees.numbers (holds_claim-row c r held).2 in
    rw run (
      refl,
      (
        completed (record_state c (meeting.sends c)) (meeting.sends c) r,
        recorded_row c (meeting.sends c) _ r found held,
        completed-IsSettled c (meeting.sends c) r numbered,
      ),
      unfold recorded in refl,
    )
