-- ===== src/Postgres/System/Isolation.antt =====
-- docs/sandbox-contract.md: visitors' events among the operator's, over every history.
use p3_relay.Prelude.{
  ℕ, ◌+◌, ◌≡◌, refl, inl, inr, Bool, Option, none, some, List, Bytes, All, All-mono, All-append,
  Bool-cases,
}
use p3_relay.Errors.{Result, ok, err, Reply, fine, refused, lost}
use p3_relay.Identifier.{new_uuid}
use p3_relay.Table.{update}
use p3_relay.Table.Rows.{All-update, All-filter}
use p3_relay.Postgres.{Db, EventRow, timestamptz}
use p3_relay.Postgres.Replay.{can_replay, replayed}
use p3_relay.Postgres.Queue.{
  holds_claim, completed, record_state, claim, claim_identified, after_claim, recorded, retired,
  leased,
}
use p3_relay.Sandbox.Store.Submission.{sandbox_source}
use p3_relay.Sandbox.Store.Replay.{is_own, sandbox_replayed}
use p3_relay.Sandbox.Store.Cleanup.{cleaned}
use p3_relay.Sandbox.Store.Outcomes.{
  create-tables, submit-tables, admits, sandbox_replay-tables, cleanup-tables,
}
use p3_relay.Postgres.System.{
  System, Step, Reach, here, next, accepts, replays, claims, records, creates, submits, repeats,
  cleans, tables_of,
}
use p3_relay.Postgres.System.Accepts.{accept-db, replay-db}
use p3_relay.Postgres.System.Records.{record_attempt-db}

-- The source key of a visitor's event is its session's.
abbrev pub IsOwnedBy : Bytes → Option Bytes → Type 0
IsOwnedBy source_key none = Unit {0}
IsOwnedBy source_key (some owner) = source_key ≡ sandbox_source owner

abbrev pub IsLabelled : EventRow → Type 0
IsLabelled r = IsOwnedBy r.source_key r.sandbox_id

abbrev pub AllLabelled : Db → Type 0
AllLabelled db = All IsLabelled db.events

updated-AllLabelled :
    (where_ : EventRow → Bool) (set : EventRow → EventRow) (events : List EventRow)
    → ((r : EventRow) → IsLabelled r → IsLabelled (set r))
    → All IsLabelled events
    → All IsLabelled (update where_ set events)
updated-AllLabelled where_ set events keep h =
    All-update IsLabelled IsLabelled where_ set events
      (λ r p. elim (Bool-cases (where_ r)) [ inl hit ↦ rw hit (keep r p) | inr miss ↦ rw miss p ]) h

after_claim-AllLabelled :
    (locked : Bytes → Bool) (claim_id : Bytes) (now lease_end : ℕ) (db : Db)
    → AllLabelled db
    → AllLabelled (after_claim locked claim_id now lease_end db)
unfolding after_claim
after_claim-AllLabelled locked claim_id now lease_end db h =
    updated-AllLabelled _ (leased claim_id lease_end) _ (λ r p. p)
      (updated-AllLabelled _ retired db.events (λ r p. p) h)

claimed-AllLabelled :
    (db : Db) (made : Result Bytes) (reply : Reply) (locked : Bytes → Bool) (now lease : ℕ)
    → AllLabelled db
    → AllLabelled (claim_identified made reply locked now lease db).1
claimed-AllLabelled db (err e) reply locked now lease h = h
claimed-AllLabelled db (ok id) refused locked now lease h = h
claimed-AllLabelled db (ok id) fine locked now lease h =
    after_claim-AllLabelled locked id (timestamptz now) (timestamptz (now + lease)) db h
claimed-AllLabelled db (ok id) lost locked now lease h =
    after_claim-AllLabelled locked id (timestamptz now) (timestamptz (now + lease)) db h

cleaned-AllLabelled :
    (locked : Bytes → Bool) (clock : ℕ → ℕ) (db : Db)
    → AllLabelled db
    → AllLabelled (cleaned locked clock db)
unfolding cleaned
cleaned-AllLabelled locked clock db h =
    All-mono _ IsLabelled _ (λ r p. p.0) (All-filter IsLabelled _ db.events h)

Step-AllLabelled : {s t : System} → Step s t → AllLabelled s.db → AllLabelled t.db
Step-AllLabelled {s} (accepts r₁ r₂ publisher clock receipt) h =
    elim (accept-db r₁ r₂ publisher clock s.db receipt) [
      | inl same ↦ rw same h
      | inr (_, new) ↦ rw new (All-append IsLabelled s.db.events _ h (tt, tt))
    ]
Step-AllLabelled {s} (replays r₁ r₂ publisher clock event_id source_key) h =
    elim (replay-db r₁ r₂ publisher clock s.db event_id source_key) [
      | inl same ↦ rw same h
      | inr new ↦ rw new (
          updated-AllLabelled (can_replay event_id source_key) (replayed clock) s.db.events
            (λ r p. p) h)
    ]
Step-AllLabelled {s} (claims reply random locked now lease fresh) h =
    unfold claim in claimed-AllLabelled s.db (new_uuid random) reply locked now lease h
Step-AllLabelled {s} (records replies c attempt issued) h =
    elim (record_attempt-db replies c attempt s.db) [
      | inl same ↦ rw same h
      | inr (_, _, new) ↦ rw new (
          unfold recorded in
          updated-AllLabelled (holds_claim c) (completed (record_state c attempt) attempt)
            s.db.events (λ r p. p) h)
    ]
Step-AllLabelled {s} (creates replies times id expiry) h =
    elim (create-tables replies times id expiry (tables_of s)) [
      | inl same ↦ rw same h
      | inr (b, _, _, _, _, new) ↦ rw new h
    ]
Step-AllLabelled {s} (submits sha256 replies times random publisher owner scenario) h =
    elim (submit-tables sha256 times owner scenario (tables_of s) replies random publisher) [
      | inl same ↦ rw same h
      | inr (id, admits b _ _ _ _ new) ↦ rw new (All-append IsLabelled s.db.events _ h (refl, tt))
    ]
Step-AllLabelled {s} (repeats replies times publisher owner id) h =
    elim (sandbox_replay-tables replies times publisher owner id (tables_of s)) [
      | inl same ↦ rw same h
      | inr (b, chosen, _, _, _, _, _, new) ↦ rw new (
          updated-AllLabelled (is_own owner id) (sandbox_replayed (times 2)) s.db.events (λ r p. p)
            h)
    ]
Step-AllLabelled {s} (cleans replies times locked) h =
    elim (cleanup-tables replies times locked (tables_of s)) [
      | inl same ↦ rw same h
      | inr (b, _, new) ↦ rw new (cleaned-AllLabelled locked times s.db h)
    ]

-- Over every history of calls, each visitor's event has the source key of its session.
pub Reach-AllLabelled : {s t : System} → Reach s t → AllLabelled s.db → AllLabelled t.db
Reach-AllLabelled here h = h
Reach-AllLabelled (next r step) h = Step-AllLabelled step (Reach-AllLabelled r h)
