-- ===== src/Postgres/System/Columns.antt =====
-- migrations/001_initial.sql: the columns of an event that no call changes, and what every call keeps
-- because of it.
pub mod Constraints
use p3_relay.Prelude.{
  ℕ, ◌+◌, ◌≡◌, refl, ◌⊎◌, inl, inr, Bool, true, false, not, List, [], ◌∷◌, ◌++◌, Bytes, arith,
  bytes_eq, filter, ◌==◌, if◌then◌else◌,
}
use p3_relay.Errors.{Result, ok, err, Reply, fine, refused, lost}
use p3_relay.Identifier.{new_uuid}
use p3_relay.Delivery.{ClaimedEvent, Attempt}
use p3_relay.Table.{update, exists}
use p3_relay.Postgres.{
  Db, EventRow, AttemptRow, timestamptz, event_checks, attempt_checks, attempt_fits, same_attempt,
}
use p3_relay.Postgres.Store.{Receipt, Publisher, accept, same_key, new_event}
use p3_relay.Postgres.Replay.{can_replay, replayed}
use p3_relay.Postgres.Queue.{
  holds_claim, completed, record_state, claim, claim_identified, after_claim, recorded, retired,
  leased, attempt_row,
}
use p3_relay.Sandbox.Store.Submission.{event_fits, simulated_event}
use p3_relay.Sandbox.Store.Replay.{is_own, sandbox_replayed}
use p3_relay.Sandbox.Store.Cleanup.{cleaned}
use p3_relay.Sandbox.Store.Outcomes.{
  create-tables, submit-tables, admits, sandbox_replay-tables, cleanup-tables,
}
use p3_relay.Postgres.System.{
  System, Step, Reach, here, next, accepts, replays, claims, records, creates, submits, repeats,
  cleans, tables_of,
}
use p3_relay.Postgres.System.Accepts.{replay-db}
use p3_relay.Postgres.System.Records.{record_attempt-db}

-- The columns that are written once.
abbrev pub Fixed : EventRow → EventRow → Type 0
Fixed r x =
    (x.source_key ≡ r.source_key)
    × (x.external_event_id ≡ r.external_event_id)
    × (x.body ≡ r.body)
    × (x.body_sha256 ≡ r.body_sha256)
    × (x.destination_url ≡ r.destination_url)

-- What of the two tables every statement of the program keeps.
pub record IsKept (P : List EventRow → List AttemptRow → Type 0) : Type 0 where
  pub added :
      (events : List EventRow) (attempts : List AttemptRow) (row : EventRow)
      → event_checks row ≡ true
      → exists (same_key row.source_key row.external_event_id) events ≡ false
      → P events attempts
      → P (events ++ row ∷ []) attempts
  pub updated :
      (events : List EventRow) (attempts : List AttemptRow) (where_ : EventRow → Bool)
      (set : EventRow → EventRow)
      → ((r : EventRow) → Fixed r (set r))
      → P events attempts
      → P (update where_ set events) attempts
  pub noted :
      (events : List EventRow) (attempts : List AttemptRow) (a : AttemptRow)
      → attempt_checks a ≡ true
      → exists (λ b. bytes_eq b.id a.id) attempts ≡ false
      → exists (same_attempt a) attempts ≡ false
      → P events attempts
      → P events (attempts ++ a ∷ [])
  pub removed :
      (events : List EventRow) (attempts : List AttemptRow) (keep : EventRow → Bool)
      (keep_attempt : AttemptRow → Bool)
      → P events attempts
      → P (filter keep events) (filter keep_attempt attempts)

accept-added :
    (r₁ r₂ : Reply) (publisher : Publisher) (clock : ℕ) (db : Db) (receipt : Receipt)
    → let after = (accept r₁ r₂ publisher clock db receipt).db in
      (after ≡ db)
      ⊎ ((event_checks (new_event receipt clock) ≡ true)
          × (exists (same_key receipt.source_key receipt.external_event_id) db.events ≡ false)
          × (after ≡ record db { events = db.events ++ new_event receipt clock ∷ [] }))
unfolding accept
accept-added fine r₂ publisher clock db receipt = ground arith
accept-added refused r₂ publisher clock db receipt = inl refl
accept-added lost r₂ publisher clock db receipt = ground arith

module _ (P : List EventRow → List AttemptRow → Type 0) (keeps : IsKept P) where
  abbrev OnDb : Db → Type 0
  OnDb db = P db.events db.attempts

  after_claim-kept :
      (locked : Bytes → Bool) (claim_id : Bytes) (now lease_end : ℕ) (db : Db)
      → OnDb db
      → OnDb (after_claim locked claim_id now lease_end db)
  unfolding after_claim
  after_claim-kept locked claim_id now lease_end db h =
      keeps.updated _ db.attempts _ (leased claim_id lease_end)
        (λ r. (refl, refl, refl, refl, refl))
        (keeps.updated db.events db.attempts _ retired (λ r. (refl, refl, refl, refl, refl)) h)

  claimed-kept :
      (db : Db) (made : Result Bytes) (reply : Reply) (locked : Bytes → Bool) (now lease : ℕ)
      → OnDb db
      → OnDb (claim_identified made reply locked now lease db).1
  claimed-kept db (err e) reply locked now lease h = h
  claimed-kept db (ok id) refused locked now lease h = h
  claimed-kept db (ok id) fine locked now lease h =
      after_claim-kept locked id (timestamptz now) (timestamptz (now + lease)) db h
  claimed-kept db (ok id) lost locked now lease h =
      after_claim-kept locked id (timestamptz now) (timestamptz (now + lease)) db h

  recorded-kept :
      (db : Db) (c : ClaimedEvent) (attempt : Attempt)
      → attempt_fits db (attempt_row c attempt) ≡ true
      → OnDb db
      → OnDb (recorded c attempt db)
  unfolding recorded attempt_fits
  recorded-kept db c attempt fits h =
      keeps.noted _ db.attempts (attempt_row c attempt) (ground arith) (ground arith) (ground arith)
        (keeps.updated db.events db.attempts (holds_claim c)
          (completed (record_state c attempt) attempt) (λ r. (refl, refl, refl, refl, refl)) h)

  submitted-kept :
      (sha256 : Bytes → Bytes) (owner scenario id : Bytes) (clock : ℕ) (db : Db)
      → event_fits sha256 db (simulated_event sha256 owner scenario id clock) ≡ true
      → OnDb db
      → P (db.events ++ simulated_event sha256 owner scenario id clock ∷ []) db.attempts
  unfolding event_fits
  submitted-kept sha256 owner scenario id clock db fits h =
      keeps.added db.events db.attempts (simulated_event sha256 owner scenario id clock)
        (ground arith) (ground arith) h

  cleaned-kept :
      (locked : Bytes → Bool) (times : ℕ → ℕ) (db : Db) → OnDb db → OnDb (cleaned locked times db)
  unfolding cleaned
  cleaned-kept locked times db h = keeps.removed db.events db.attempts _ _ h

  Step-kept : {s t : System} → Step s t → OnDb s.db → OnDb t.db
  Step-kept {s} (accepts r₁ r₂ publisher clock receipt) h =
      elim (accept-added r₁ r₂ publisher clock s.db receipt) [
        | inl same ↦ rw same h
        | inr (checks, new_key, new) ↦
            rw new
              (keeps.added s.db.events s.db.attempts (new_event receipt clock) checks new_key h)
      ]
  Step-kept {s} (replays r₁ r₂ publisher clock event_id source_key) h =
      elim (replay-db r₁ r₂ publisher clock s.db event_id source_key) [
        | inl same ↦ rw same h
        | inr new ↦ rw new (
            keeps.updated s.db.events s.db.attempts (can_replay event_id source_key)
              (replayed clock) (λ r. (refl, refl, refl, refl, refl)) h)
      ]
  Step-kept {s} (claims reply random locked now lease fresh) h =
      unfold claim in claimed-kept s.db (new_uuid random) reply locked now lease h
  Step-kept {s} (records replies c attempt issued) h =
      elim (record_attempt-db replies c attempt s.db) [
        | inl same ↦ rw same h
        | inr (_, fits, new) ↦ rw new (recorded-kept s.db c attempt fits h)
      ]
  Step-kept {s} (creates replies times id expiry) h =
      elim (create-tables replies times id expiry (tables_of s)) [
        | inl same ↦ rw same h
        | inr (b, _, _, _, _, new) ↦ rw new h
      ]
  Step-kept {s} (submits sha256 replies times random publisher owner scenario) h =
      elim (submit-tables sha256 times owner scenario (tables_of s) replies random publisher) [
        | inl same ↦ rw same h
        | inr (id, admits b _ _ _ fits new) ↦
            rw new (submitted-kept sha256 owner scenario id (times 3) s.db fits h)
      ]
  Step-kept {s} (repeats replies times publisher owner id) h =
      elim (sandbox_replay-tables replies times publisher owner id (tables_of s)) [
        | inl same ↦ rw same h
        | inr (b, chosen, _, _, _, _, _, new) ↦ rw new (
            keeps.updated s.db.events s.db.attempts (is_own owner id) (sandbox_replayed (times 2))
              (λ r. (refl, refl, refl, refl, refl)) h)
      ]
  Step-kept {s} (cleans replies times locked) h =
      elim (cleanup-tables replies times locked (tables_of s)) [
        | inl same ↦ rw same h
        | inr (b, _, new) ↦ rw new (cleaned-kept locked times s.db h)
      ]

  pub Reach-kept :
      {s t : System} → Reach s t → P s.db.events s.db.attempts → P t.db.events t.db.attempts
  Reach-kept here h = h
  Reach-kept (next r step) h = Step-kept step (Reach-kept r h)
