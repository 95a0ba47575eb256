-- ===== src/Postgres/System.antt =====
-- The database and the claims handed out, as any number of API processes and workers change them:
-- one step for each call of internal/postgres and internal/sandbox that writes, with every reply of the database, and in any order.
pub mod Invariant
pub mod Lookups
pub mod Accepts
pub mod Visits
pub mod Repeats
pub mod Cleaning
pub mod Transitions
pub mod Contract
pub mod Quotas
pub mod Once
pub mod Guarantees
pub mod Reachable
pub mod Records
pub mod Claims
pub mod Isolation
pub mod Leases
pub mod Entries
pub mod Working
pub mod Attempts
pub mod Exclusive
pub mod Unrepeated
pub mod Columns
pub mod Strangers
use mathlib.Core.List.{Memᴰ}
use p3_relay.Prelude.{ℕ, ◌≡◌, ◌≢◌, Bool, Option, none, some, List, [], ◌∷◌, Bytes, All}
use p3_relay.Errors.{Result, ok, err, Reply}
use p3_relay.Delivery.{ClaimedEvent, Attempt}
use p3_relay.Identifier.{new_uuid}
use p3_relay.Postgres.{Db}
use p3_relay.Postgres.Store.{Receipt, Publisher, accept}
use p3_relay.Postgres.Replay.{replay}
use p3_relay.Postgres.Queue.{claim, Replies, record_attempt}
use p3_relay.Sandbox.{Budget, Tables}
use p3_relay.Sandbox.Store.{create}
use p3_relay.Sandbox.Store.Submission.{submit}
use p3_relay.Sandbox.Store.Replay.{sandbox_replay}
use p3_relay.Sandbox.Store.Cleanup.{cleanup}

-- `issued` holds every claim that a worker was given, also one whose lease has run out.
pub record System : Type 0 where
  pub db : Db
  pub budget : Option Budget
  pub issued : List ClaimedEvent

abbrev pub hand_out : Result (Option ClaimedEvent) → List ClaimedEvent → List ClaimedEvent
hand_out (ok (some claimed)) issued = claimed ∷ issued
hand_out _ issued = issued

-- What version 4 identifiers are relied on for: a new one differs from those handed out.
abbrev pub IsFresh : Bytes → List ClaimedEvent → Type 0
IsFresh claim_id issued = All (λ (c : ClaimedEvent). c.claim_id ≢ claim_id) issued

-- The tables of a visitor's transaction, and the system after it.
abbrev pub tables_of : System → Tables
tables_of s = record { db = s.db; budget = s.budget }

abbrev pub with_tables : System → Tables → System
with_tables s t = record s { db = t.db; budget = t.budget }

pub data Step (s : System) : System → Type 0 where
  accepts :
      (r₁ r₂ : Reply) (publisher : Publisher) (clock : ℕ) (receipt : Receipt)
      → Step s (record s { db = (accept r₁ r₂ publisher clock s.db receipt).db })
  replays :
      (r₁ r₂ : Reply) (publisher : Publisher) (clock : ℕ) (event_id source_key : Bytes)
      → Step s (record s { db = (replay r₁ r₂ publisher clock s.db event_id source_key).db })
  claims :
      (reply : Reply) (random : Option Bytes) (locked : Bytes → Bool) (now lease : ℕ)
      → ((claim_id : Bytes) → new_uuid random ≡ ok claim_id → IsFresh claim_id s.issued)
      → Step s (record s {
        db = (claim reply random locked now lease s.db).1;
        issued = hand_out (claim reply random locked now lease s.db).0 s.issued;
      })
  records :
      (replies : Replies) (claimed : ClaimedEvent) (attempt : Attempt)
      → Memᴰ claimed s.issued
      → Step s (record s { db = (record_attempt replies claimed attempt s.db).1 })
  creates :
      (replies : ℕ → Reply) (times : ℕ → ℕ) (id : Bytes) (expiry : ℕ)
      → Step s (with_tables s (create replies times id expiry (tables_of s)).tables)
  submits :
      (sha256 : Bytes → Bytes) (replies : ℕ → Reply) (times : ℕ → ℕ) (random : Option Bytes)
      (publisher : Publisher) (owner scenario : Bytes)
      → Step s (
          with_tables s
            (submit sha256 replies times random publisher owner scenario (tables_of s)).tables)
  repeats :
      (replies : ℕ → Reply) (times : ℕ → ℕ) (publisher : Publisher) (owner id : Bytes)
      → Step s
          (with_tables s (sandbox_replay replies times publisher owner id (tables_of s)).tables)
  cleans :
      (replies : ℕ → Reply) (times : ℕ → ℕ) (locked : Bytes → Bool)
      → Step s (with_tables s (cleanup replies times locked (tables_of s)).tables)

pub data Reach (s : System) : System → Type 0 where
  here : Reach s s
  next : {t u : System} → Reach s t → Step t u → Reach s u

-- The tables as the migrations leave them, in a given hour.
abbrev pub migrated : ℕ → System
migrated hour = record {
  db = record { events = []; attempts = []; sessions = [] };
  budget = some (record { window_start = hour; sessions = 0; admissions = 0 });
  issued = [];
}
