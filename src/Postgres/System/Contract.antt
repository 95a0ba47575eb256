-- ===== src/Postgres/System/Contract.antt =====
-- Every step against the delivery contract's transitions (docs/delivery-contract.md).
use p3_relay.Prelude.{ℕ, ◌≡◌, refl, inl, inr, none, some, Bytes, arith}
use p3_relay.Identifier.{new_uuid}
use p3_relay.Table.{find}
use p3_relay.Postgres.{event_key, EventRow, dead_lettered}
use p3_relay.Postgres.Store.{new_event}
use p3_relay.Postgres.Replay.{can_replay, replayed}
use p3_relay.Postgres.Queue.{holds_claim, completed, record_state, claim, recorded}
use p3_relay.Sandbox.Store.Submission.{simulated_event}
use p3_relay.Sandbox.Store.Replay.{is_own, sandbox_replayed}
use p3_relay.Sandbox.Store.Outcomes.{
  create-tables, submit-tables, admits, sandbox_replay-tables, cleanup-tables,
}
use p3_relay.Sandbox.Store.Removal.{IsLeftover, cleaned_exact}
use p3_relay.Postgres.System.{
  System, Step, accepts, replays, claims, records, creates, submits, repeats, cleans, tables_of,
}
use p3_relay.Postgres.System.Invariant.{IsConsistent}
use p3_relay.Postgres.System.Accepts.{accept-db, replay-db}
use p3_relay.Postgres.System.Records.{record_attempt-db}
use p3_relay.Postgres.System.Repeats.{same_own, owned_row-eq}
use p3_relay.Table.Rows.{find-IsFound}
use p3_relay.Postgres.System.Transitions.{
  Follows, Follows-refl, IsNext, update-IsNext, append-IsNext, identified-IsNext, completed-Follows,
  dead-replays,
}

-- What a step does to an event: a move of the contract, or the removal of a visitor's event that
-- its expired session left behind.
pub data Fate (s t : System) (k : Bytes) (r : EventRow) : Type 0 where
  follows : IsNext t.db.events k r → Fate s t k r
  is_removed :
      (clock : ℕ)
      → IsLeftover clock s.db.sessions r
      → find event_key k t.db.events ≡ none
      → Fate s t k r

repeated-Follows :
    (clock : ℕ) (chosen r : EventRow)
    → chosen.state ≡ dead_lettered
    → r ≡ chosen
    → Follows r (sandbox_replayed clock r)
repeated-Follows clock chosen r dead same = record {
  moves = dead-replays r.state (ground arith);
  replays_grow = omega arith;
  owner_kept = refl;
  attempts_counted = inl (omega arith, refl);
}

-- A step keeps every event with its owner and moves its state along the contract's transitions
-- only, never lowering its replay count and counting each attempt that it starts; or it removes a
-- visitor's event whose session has expired and that no running lease holds.
pub Step-Follows :
    {s t : System} (k : Bytes) (r : EventRow)
    → IsConsistent s
    → Step s t
    → find event_key k s.db.events ≡ some r
    → Fate s t k r
Step-Follows {s} k r h (accepts r₁ r₂ publisher clock receipt) found =
    elim (accept-db r₁ r₂ publisher clock s.db receipt) [
      | inl same ↦ follows (rw same (r, found, Follows-refl r))
      | inr (_, new) ↦
          follows (rw new (append-IsNext k r s.db.events found (new_event receipt clock)))
    ]
Step-Follows {s} k r h (replays r₁ r₂ publisher clock event_id source_key) found =
    elim (replay-db r₁ r₂ publisher clock s.db event_id source_key) [
      | inl same ↦ follows (rw same (r, found, Follows-refl r))
      | inr new ↦ follows (
          rw new (
            update-IsNext k r s.db.events found (can_replay event_id source_key) (replayed clock)
              (λ x. refl)
              (λ hit. record {
                moves = dead-replays r.state (ground arith);
                replays_grow = omega arith;
                owner_kept = refl;
                attempts_counted = inl (omega arith, refl);
              })))
    ]
Step-Follows {s} k r h (claims reply random locked now lease fresh) found = follows (
    unfold claim in
    identified-IsNext s.db (new_uuid random) reply locked now lease k r h.unique found)
Step-Follows {s} k r h (records replies c attempt issued) found =
    elim (record_attempt-db replies c attempt s.db) [
      | inl same ↦ follows (rw same (r, found, Follows-refl r))
      | inr (_, _, new) ↦ follows (
          rw new (
            unfold recorded in
            update-IsNext k r s.db.events found (holds_claim c)
              (completed (record_state c attempt) attempt) (λ x. refl)
              (λ hit. completed-Follows c attempt r hit)))
    ]
Step-Follows {s} k r h (creates replies times id expiry) found =
    elim (create-tables replies times id expiry (tables_of s)) [
      | inl same ↦ follows (rw same (r, found, Follows-refl r))
      | inr (b, _, _, _, _, new) ↦ follows (rw new (r, found, Follows-refl r))
    ]
Step-Follows {s} k r h (submits sha256 replies times random publisher owner scenario) found =
    elim (submit-tables sha256 times owner scenario (tables_of s) replies random publisher) [
      | inl same ↦ follows (rw same (r, found, Follows-refl r))
      | inr (id, admits b _ _ _ _ new) ↦ follows (
          rw new (
            append-IsNext k r s.db.events found
              (simulated_event sha256 owner scenario id (times 3))))
    ]
Step-Follows {s} k r h (repeats replies times publisher owner id) found =
    elim (sandbox_replay-tables replies times publisher owner id (tables_of s)) [
      | inl same ↦ follows (rw same (r, found, Follows-refl r))
      | inr (b, chosen, _, owned, dead, _, _, new) ↦ follows (
          rw new (
            update-IsNext k r s.db.events found (is_own owner id) (sandbox_replayed (times 2))
              (λ x. refl)
              (λ hit. repeated-Follows (times 2) chosen r dead (
                same_own s h owner id chosen r (owned_row-eq owner id (times 1) s.db chosen owned)
                  (find-IsFound event_key k s.db.events r found) hit))))
    ]
Step-Follows {s} k r h (cleans replies times locked) found =
    elim (cleanup-tables replies times locked (tables_of s)) [
      | inl same ↦ follows (rw same (r, found, Follows-refl r))
      | inr (b, _, new) ↦ elim (cleaned_exact locked times s.db k r h.unique found) [
        | inl (kept, _) ↦ follows (rw new (r, kept, Follows-refl r))
        | inr (due, gone, _) ↦ is_removed (times 1) due (rw new gone)
      ]
    ]
