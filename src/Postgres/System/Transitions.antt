-- ===== src/Postgres/System/Transitions.antt =====
-- The state contract (docs/delivery-contract.md): how one step may move an event.
use mathlib.Core.Option
use p3_relay.Prelude.{
  ℕ, ◌+◌, ◌≤◌, ◌<◌, ◌≡◌, refl, ◌⊎◌, inl, inr, Bool, true, ◌&&◌, ◌||◌, not, some, List, [], ◌∷◌,
  ◌++◌, Bytes, arith, subst, sym, ap, ◌∙◌, Bool-cases, if◌then◌else◌,
}
use p3_relay.Errors.{Result, ok, err, Reply, fine, refused, lost}
use p3_relay.Delivery.{ClaimedEvent, Attempt}
use p3_relay.Table.{find, update, Unique}
use p3_relay.Table.Laws.{find-update, find-append}
use p3_relay.Table.Rows.{find-IsFound}
use p3_relay.Postgres.{
  Db, EventRow, EventState, pending, delivering, delivered, retry_scheduled, dead_lettered,
  event_key, state_eq, SessionRow, timestamptz,
}
use p3_relay.Postgres.Queue.{
  is_waiting, is_expired, is_eligible, holds_claim, completed, record_state, claim_identified,
  after_claim,
}
use p3_relay.Postgres.Queue.Claimed.{RowClaimed, retires, leases, leaves, row_claimed, row_after}
use p3_relay.Postgres.System.Invariant.{holds_claim-row}
use p3_relay.Postgres.System.Lookups.{find-after_claim}

-- The contract's transitions, with the step that leaves the state alone (a claim that replaces an
-- expired lease among them).
pub data Moves : EventState → EventState → Type 0 where
  stays : {a : EventState} → Moves a a
  starts : Moves pending delivering
  expires : Moves pending dead_lettered
  delivers : Moves delivering delivered
  schedules : Moves delivering retry_scheduled
  restarts : Moves retry_scheduled delivering
  gives_up : Moves delivering dead_lettered
  retry_expires : Moves retry_scheduled dead_lettered
  replayed_again : Moves dead_lettered pending

-- How many attempts a change of state starts.
abbrev pub started : EventState → EventState → ℕ
started before after =
    if state_eq after delivering && not (state_eq before delivering) then 1 else 0

-- One step of an event's row. An attempt that it starts is counted, unless it begins a replay.
pub record Follows (r x : EventRow) : Type 0 where
  pub moves : Moves r.state x.state
  pub replays_grow : r.replay_count ≤ x.replay_count
  pub owner_kept : x.sandbox_id ≡ r.sandbox_id
  pub attempts_counted :
      ((r.replay_count < x.replay_count) × (started r.state x.state ≡ 0))
      ⊎ ((x.replay_count ≡ r.replay_count)
          × (r.attempt_count + started r.state x.state ≤ x.attempt_count))

started_same : (s : EventState) → started s s ≡ 0
started_same s = ground arith

pub Follows-refl : (r : EventRow) → Follows r r
Follows-refl r = record {
  moves = stays;
  replays_grow = omega arith;
  owner_kept = refl;
  attempts_counted = inr (refl, omega (arith, started_same r.state));
}

claimable : EventState → Bool
claimable s = is_waiting s || state_eq s delivering

claimable-starts : (s : EventState) → claimable s ≡ true → Moves s delivering
unfolding claimable
claimable-starts pending h = starts
claimable-starts delivering h = stays
claimable-starts delivered h = cc
claimable-starts retry_scheduled h = restarts
claimable-starts dead_lettered h = cc

claimable-ends : (s : EventState) → claimable s ≡ true → Moves s dead_lettered
unfolding claimable
claimable-ends pending h = expires
claimable-ends delivering h = gives_up
claimable-ends delivered h = cc
claimable-ends retry_scheduled h = retry_expires
claimable-ends dead_lettered h = cc

pub dead-replays : (s : EventState) → state_eq s dead_lettered ≡ true → Moves s pending
dead-replays pending h = cc
dead-replays delivering h = cc
dead-replays delivered h = cc
dead-replays retry_scheduled h = cc
dead-replays dead_lettered h = replayed_again

-- How a claim can end.
ruleset endings = (arith, delivers, schedules, gives_up)

delivering-ends : (c : ClaimedEvent) (attempt : Attempt) → Moves delivering (record_state c attempt)
unfolding record_state
delivering-ends c attempt = grind endings

Claimed-Follows :
    (locked : Bytes → Bool) (now : ℕ) (sessions : List SessionRow) (events : List EventRow)
    (claim_id : Bytes) (lease_end : ℕ) (r x : EventRow)
    → RowClaimed locked now sessions events claim_id lease_end r x
    → Follows r x
unfolding is_expired is_eligible claimable
Claimed-Follows locked now sessions events claim_id lease_end r x (retires old e) =
    subst (Follows r) (sym e) (record {
      moves = claimable-ends r.state (ground arith);
      replays_grow = omega arith;
      owner_kept = refl;
      attempts_counted = inr (refl, omega arith);
    })
Claimed-Follows locked now sessions events claim_id lease_end r x (leases fit e f) =
    subst (Follows r) (sym f) (record {
      moves = claimable-starts r.state (ground arith);
      replays_grow = omega arith;
      owner_kept = refl;
      attempts_counted = inr (refl, ground arith);
    })
Claimed-Follows locked now sessions events claim_id lease_end r x (leaves e f) =
    subst (Follows r) (sym f) (Follows-refl r)

-- The event behind a key after a step.
abbrev pub IsNext : List EventRow → Bytes → EventRow → Type 0
IsNext events k r = (x : EventRow) × (find event_key k events ≡ some x) × Follows r x

module _ (k : Bytes) (r : EventRow) (events : List EventRow)
    (found : find event_key k events ≡ some r) where
  pub update-IsNext :
      (where_ : EventRow → Bool) (set : EventRow → EventRow)
      → ((x : EventRow) → (set x).id ≡ x.id)
      → (where_ r ≡ true → Follows r (set r))
      → IsNext (update where_ set events) k r
  update-IsNext where_ set id follows = (
    if where_ r then set r else r,
    find-update event_key k where_ set events id ∙ ap (Option.map _) found,
    cases,
  )
    where
      cases : Follows r (if where_ r then set r else r)
      cases = elim (Bool-cases (where_ r)) [
        | inl hit ↦ rw hit (follows hit)
        | inr miss ↦ rw miss (Follows-refl r)
      ]

  pub append-IsNext : (x : EventRow) → IsNext (events ++ x ∷ []) k r
  append-IsNext x = (r, find-append event_key k events x ∙ ground arith, Follows-refl r)

claimed-IsNext :
    (db : Db) (claim_id : Bytes) (locked : Bytes → Bool) (now lease_end : ℕ) (k : Bytes)
    (r : EventRow)
    → Unique event_key db.events
    → find event_key k db.events ≡ some r
    → IsNext (after_claim locked claim_id now lease_end db).events k r
claimed-IsNext db claim_id locked now lease_end k r u found =
    let g = row_after locked now db.sessions db.events claim_id lease_end in
    (
      g r,
      find-after_claim locked claim_id now lease_end db k ∙ ap (Option.map g) found,
      Claimed-Follows locked now db.sessions db.events claim_id lease_end r (g r) (
          row_claimed locked now db.sessions db.events claim_id lease_end r u
            (find-IsFound event_key k db.events r found)),
    )

pub completed-Follows :
    (c : ClaimedEvent) (attempt : Attempt) (r : EventRow)
    → holds_claim c r ≡ true
    → Follows r (completed (record_state c attempt) attempt r)
completed-Follows c attempt r held =
    let (_, state, _) = holds_claim-row c r held in
    record {
      moves =
          subst (λ st. Moves st (record_state c attempt)) (sym state) (delivering-ends c attempt);
      replays_grow = omega arith;
      owner_kept = refl;
      attempts_counted = inr (refl, rw state (ground arith));
    }

pub identified-IsNext :
    (db : Db) (made : Result Bytes) (reply : Reply) (locked : Bytes → Bool) (now lease : ℕ)
    (k : Bytes) (r : EventRow)
    → Unique event_key db.events
    → find event_key k db.events ≡ some r
    → IsNext (claim_identified made reply locked now lease db).1.events k r
identified-IsNext db (err e) reply locked now lease k r u found = (r, found, Follows-refl r)
identified-IsNext db (ok id) refused locked now lease k r u found = (r, found, Follows-refl r)
identified-IsNext db (ok id) fine locked now lease k r u found =
    claimed-IsNext db id locked (timestamptz now) (timestamptz (now + lease)) k r u found
identified-IsNext db (ok id) lost locked now lease k r u found =
    claimed-IsNext db id locked (timestamptz now) (timestamptz (now + lease)) k r u found
