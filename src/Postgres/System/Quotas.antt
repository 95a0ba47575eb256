-- ===== src/Postgres/System/Quotas.antt =====
-- The visitors' quotas over every history (docs/sandbox-contract.md).
use p3_relay.Prelude.{ℕ, ◌+◌, refl, inl, inr, Bytes, Bool, arith}
use p3_relay.Errors.{Result, ok, err, Reply, fine, refused, lost}
use p3_relay.Identifier.{new_uuid}
use p3_relay.Postgres.{timestamptz}
use p3_relay.Postgres.Store.{new_event}
use p3_relay.Postgres.Replay.{can_replay, replayed}
use p3_relay.Postgres.Queue.{
  holds_claim, completed, record_state, claim, claim_identified, after_claim, recorded, retired,
  leased,
}
use p3_relay.Sandbox.Store.Shares.{IsWithin, events_updated, event_accepted, recorded-IsWithin}
use p3_relay.Sandbox.Store.Shares.Calls.{
  create-IsWithin, submit-IsWithin, sandbox_replay-IsWithin, cleanup-IsWithin,
}
use p3_relay.Postgres.System.{
  System, Step, Reach, here, next, accepts, replays, claims, records, creates, submits, repeats,
  cleans, tables_of, migrated,
}
use p3_relay.Postgres.System.Accepts.{accept-db, replay-db}
use p3_relay.Postgres.System.Records.{record_attempt-db}

claimed-IsWithin :
    (s : System) (made : Result Bytes) (reply : Reply) (locked : Bytes → Bool) (now lease : ℕ)
    → IsWithin (tables_of s)
    → IsWithin
        (record { db = (claim_identified made reply locked now lease s.db).1; budget = s.budget })
unfolding after_claim
claimed-IsWithin s (err e) reply locked now lease h = h
claimed-IsWithin s (ok id) refused locked now lease h = h
claimed-IsWithin s (ok id) fine locked now lease h =
    events_updated _ _ (leased id (timestamptz (now + lease))) (λ r. refl)
      (events_updated (tables_of s) _ retired (λ r. refl) h)
claimed-IsWithin s (ok id) lost locked now lease h =
    events_updated _ _ (leased id (timestamptz (now + lease))) (λ r. refl)
      (events_updated (tables_of s) _ retired (λ r. refl) h)

Step-IsWithin : {s t : System} → Step s t → IsWithin (tables_of s) → IsWithin (tables_of t)
Step-IsWithin {s} (accepts r₁ r₂ publisher clock receipt) h =
    elim (accept-db r₁ r₂ publisher clock s.db receipt) [
      | inl same ↦ rw same h
      | inr (_, new) ↦ rw new (event_accepted (tables_of s) (new_event receipt clock) refl h)
    ]
Step-IsWithin {s} (replays r₁ r₂ publisher clock event_id source_key) h =
    elim (replay-db r₁ r₂ publisher clock s.db event_id source_key) [
      | inl same ↦ rw same h
      | inr new ↦ rw new (
          events_updated (tables_of s) (can_replay event_id source_key) (replayed clock) (λ r. refl)
            h)
    ]
Step-IsWithin {s} (claims reply random locked now lease fresh) h =
    unfold claim in claimed-IsWithin s (new_uuid random) reply locked now lease h
Step-IsWithin {s} (records replies c attempt issued) h =
    elim (record_attempt-db replies c attempt s.db) [
      | inl same ↦ rw same h
      | inr (_, _, new) ↦ rw new (
          unfold recorded in
          recorded-IsWithin _ _ (
            events_updated (tables_of s) (holds_claim c)
              (completed (record_state c attempt) attempt) (λ r. refl) h))
    ]
Step-IsWithin {s} (creates replies times id expiry) h =
    create-IsWithin replies times id expiry (tables_of s) h
Step-IsWithin {s} (submits sha256 replies times random publisher owner scenario) h =
    submit-IsWithin sha256 replies times random publisher owner scenario (tables_of s) h
Step-IsWithin {s} (repeats replies times publisher owner id) h =
    sandbox_replay-IsWithin replies times publisher owner id (tables_of s) h
Step-IsWithin {s} (cleans replies times locked) h =
    cleanup-IsWithin replies times locked (tables_of s) h

migrated-IsWithin : (hour : ℕ) → IsWithin (tables_of (migrated hour))
migrated-IsWithin hour = record {
  charged = (_, refl, omega arith, omega arith);
  retained = omega arith;
  unique = tt;
  shares = tt;
  known = tt;
}

-- Over every history of API, worker and visitor calls, with every reply of the database, the hour
-- counts at most 100 new sessions and 1000 admissions, at most 1000 sessions are retained, each
-- was charged at most 20 events and owns no more than it was charged, and each visitor's event
-- belongs to a session that is still there.
pub Reach-IsWithin : (hour : ℕ) {s : System} → Reach (migrated hour) s → IsWithin (tables_of s)
Reach-IsWithin hour here = migrated-IsWithin hour
Reach-IsWithin hour (next history step) = Step-IsWithin step (Reach-IsWithin hour history)
