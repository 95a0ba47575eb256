-- ===== src/Sandbox/Store/Shares/Calls.antt =====
-- internal/sandbox/store.go and cleanup.go: the calls, against the quotas.
use p3_relay.Prelude.{
  ℕ, ◌≤◌, ◌≡◌, refl, inl, inr, Bytes, Bool, true, false, arith, subst, some, Option,
}
use p3_relay.Errors.{Reply}
use p3_relay.Table.{is_there}
use p3_relay.Postgres.{Db}
use p3_relay.Postgres.Store.{Publisher}
use p3_relay.Sandbox.{Budget, Tables}
use p3_relay.Sandbox.Store.{create, rolled, hour_of, session_fits, session_key}
use p3_relay.Sandbox.Store.Submission.{submit}
use p3_relay.Sandbox.Store.Replay.{sandbox_replay, is_own, sandbox_replayed}
use p3_relay.Sandbox.Store.Cleanup.{cleanup}
use p3_relay.Sandbox.Store.Outcomes.{
  create-tables, submit-tables, admits, sandbox_replay-tables, cleanup-tables, charged_budget,
}
use p3_relay.Sandbox.Store.Shares.{IsWithin, events_updated, session_created, recharged}
use p3_relay.Sandbox.Store.Shares.Submitted.{event_submitted}
use p3_relay.Sandbox.Store.Shares.Cleaned.{tables_cleaned}

-- The budget, rolled to the hour.
rolled-bounds :
    (hour : ℕ) (b : Budget)
    → (b.sessions ≤ 100) × (b.admissions ≤ 1000)
    → ((rolled hour b).sessions ≤ 100) × ((rolled hour b).admissions ≤ 1000)
rolled-bounds hour b h = ground arith

fits_fresh :
    (db : Db) (id : Bytes) → session_fits db id ≡ true → is_there session_key id db.sessions ≡ false
unfolding session_fits
fits_fresh db id h = ground arith

rolled_of :
    (t : Tables) (hour : ℕ) (b : Budget)
    → IsWithin t
    → t.budget ≡ some b
    → ((rolled hour b).sessions ≤ 100) × ((rolled hour b).admissions ≤ 1000)
rolled_of t hour b h found =
    let (x, there, few, spent) = h.charged in
    let same : x ≡ b = cc in
    rolled-bounds hour b
      (subst (λ (y : Budget). (y.sessions ≤ 100) × (y.admissions ≤ 1000)) same (few, spent))

pub create-IsWithin :
    (replies : ℕ → Reply) (times : ℕ → ℕ) (id : Bytes) (expiry : ℕ) (t : Tables)
    → IsWithin t
    → IsWithin (create replies times id expiry t).tables
create-IsWithin replies times id expiry t h = elim (create-tables replies times id expiry t) [
  | inl same ↦ rw same h
  | inr (b, there, few, room, fits, new) ↦ rw new (
      session_created t id expiry (rolled (hour_of (times 0)) b) few
        (rolled_of t (hour_of (times 0)) b h there).1 room (fits_fresh t.db id fits) h)
]

pub submit-IsWithin :
    (sha256 : Bytes → Bytes) (replies : ℕ → Reply) (times : ℕ → ℕ) (random : Option Bytes)
    (publisher : Publisher) (owner scenario : Bytes) (t : Tables)
    → IsWithin t
    → IsWithin (submit sha256 replies times random publisher owner scenario t).tables
submit-IsWithin sha256 replies times random publisher owner scenario t h =
    elim (submit-tables sha256 times owner scenario t replies random publisher) [
      | inl same ↦ rw same h
      | inr (id, admits b there one spent _ new) ↦ rw new (
          event_submitted sha256 times owner scenario id
            (charged_budget (rolled (hour_of (times 0)) b)) t one
            (rolled_of t (hour_of (times 0)) b h there).0 (omega arith) h)
    ]

pub sandbox_replay-IsWithin :
    (replies : ℕ → Reply) (times : ℕ → ℕ) (publisher : Publisher) (owner id : Bytes) (t : Tables)
    → IsWithin t
    → IsWithin (sandbox_replay replies times publisher owner id t).tables
sandbox_replay-IsWithin replies times publisher owner id t h =
    elim (sandbox_replay-tables replies times publisher owner id t) [
      | inl same ↦ rw same h
      | inr (b, r, there, _, _, _, spent, new) ↦ rw new (
          let (few, _) = rolled_of t (hour_of (times 0)) b h there in
          let charged = charged_budget (rolled (hour_of (times 0)) b) in
          events_updated (record t { budget = some charged }) (is_own owner id)
            (sandbox_replayed (times 2)) (λ r. refl) (recharged t charged few (omega arith) h))
    ]

pub cleanup-IsWithin :
    (replies : ℕ → Reply) (times : ℕ → ℕ) (locked : Bytes → Bool) (t : Tables)
    → IsWithin t
    → IsWithin (cleanup replies times locked t).tables
cleanup-IsWithin replies times locked t h = elim (cleanup-tables replies times locked t) [
  | inl same ↦ rw same h
  | inr (b, there, new) ↦ rw new (
      let (few, spent) = rolled_of t (hour_of (times 0)) b h there in
      tables_cleaned locked times (rolled (hour_of (times 0)) b) t few spent h)
]
