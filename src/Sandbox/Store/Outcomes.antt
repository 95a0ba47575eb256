-- ===== src/Sandbox/Store/Outcomes.antt =====
-- internal/sandbox/store.go: the tables behind each of the visitors' transactions.
use p3_relay.Prelude.{
  ℕ, ◌+◌, ◌<◌, ◌≡◌, refl, ◌⊎◌, inl, inr, Bool, true, Option, some, Bytes, arith, count, length,
  Option-cases, Bool-cases,
}
use p3_relay.Errors.{Result, ok, err, Reply, fine, refused, lost, state, ensure, ◌>>=◌, ◌>>◌}
use p3_relay.Identifier.{new_uuid}
use p3_relay.Postgres.{EventRow, dead_lettered}
use p3_relay.Postgres.Store.{Publisher}
use p3_relay.Sandbox.{Budget, Tables, valid_scenario}
use p3_relay.Sandbox.Store.{rolled, hour_of, create, created, session_fits, finish}
use p3_relay.Sandbox.Store.Submission.{
  submit, submitted, has_room, event_fits, simulated_event, admitted,
}
use p3_relay.Sandbox.Store.Replay.{sandbox_replay, repeated, owned_row}
use p3_relay.Sandbox.Store.Cleanup.{cleanup, cleaned}

-- What the budget is charged by one admission.
abbrev pub charged_budget : Budget → Budget
charged_budget b = record b { admissions = b.admissions + 1 }

-- The creation of a session leaves the tables as they were; or the budget row was there, the hour had
-- fewer than 100 sessions and fewer than 1000 were retained, the identifier is new and of 32
-- lowercase hexadecimal digits, and the session was added and counted.
pub create-tables :
    (replies : ℕ → Reply) (clock : ℕ → ℕ) (id : Bytes) (expiry : ℕ) (t : Tables)
    → let after = (create replies clock id expiry t).tables in
      (after ≡ t)
      ⊎ ((b : Budget) × (t.budget ≡ some b)
          × ((rolled (hour_of (clock 0)) b).sessions < 100)
          × (length t.db.sessions < 1000)
          × (session_fits t.db id ≡ true)
          × (after ≡ created id expiry (rolled (hour_of (clock 0)) b) t))
unfolding create
create-tables replies clock id expiry t = ground arith

module _ (sha256 : Bytes → Bytes) (clock : ℕ → ℕ) (owner scenario : Bytes) (t : Tables) where
  -- A submission that its transaction admitted, with the tables that it made.
  pub data Admitted (id : Bytes) (after : Tables) : Type 0 where
    admits :
        (b : Budget)
        → t.budget ≡ some b
        → count (has_room owner (clock 1)) t.db.sessions ≡ 1
        → (rolled (hour_of (clock 0)) b).admissions < 1000
        → event_fits sha256 t.db (simulated_event sha256 owner scenario id (clock 3)) ≡ true
        → after
          ≡ submitted sha256 clock owner scenario id
              (charged_budget (rolled (hour_of (clock 0)) b))
              t
        → Admitted id after

  admitted-Admitted :
      (replies : ℕ → Reply) (id id' : Bytes) (after : Tables) (named : Option Bytes)
      → admitted sha256 replies clock owner scenario id t ≡ ok (id', after, named)
      → Admitted id after
  admitted-Admitted replies id id' after named h = elim (Option-cases t.budget) [
    | inl absent ↦ absurd (ground arith)
    | inr (b, there) ↦ admits b there (ground arith) (ground arith) (ground arith) (ground arith)
  ]

  finish-Admitted :
      (reply : Reply) (publisher : Publisher) (made : Result (Bytes × Tables × Option Bytes))
      → ((id : Bytes) (after : Tables) (named : Option Bytes)
          → made ≡ ok (id, after, named)
          → (fresh : Bytes) × Admitted fresh after)
      → let left = (finish reply t made publisher).tables in
        (left ≡ t) ⊎ ((id : Bytes) × Admitted id left)
  finish-Admitted reply publisher (err e) keep = inl refl
  finish-Admitted fine publisher (ok (id, after, named)) keep = inr (keep id after named refl)
  finish-Admitted refused publisher (ok (id, after, named)) keep = inl refl
  finish-Admitted lost publisher (ok (id, after, named)) keep = inr (keep id after named refl)

  made-Admitted :
      (replies : ℕ → Reply) (identified : Result Bytes) (id : Bytes) (after : Tables)
      (named : Option Bytes)
      → (ensure (valid_scenario scenario) state
          >> (identified >>= λ id. admitted sha256 replies clock owner scenario id t))
        ≡ ok (id, after, named)
      → (fresh : Bytes) × Admitted fresh after
  made-Admitted replies (err e) id after named h = absurd (ground arith)
  made-Admitted replies (ok fresh) id after named h = elim (Bool-cases (valid_scenario scenario)) [
    | inl valid ↦ (fresh, admitted-Admitted replies fresh id after named (rw (← e valid) h))
    | inr other ↦ absurd (ground arith)
  ]
    where
      e :
          valid_scenario scenario ≡ true
          → (ensure (valid_scenario scenario) state
              >> admitted sha256 replies clock owner scenario fresh t)
            ≡ admitted sha256 replies clock owner scenario fresh t
      e valid = rw valid

  -- A submission leaves the tables as they were; or exactly one live session of the visitor had room,
  -- the hour had fewer than 1000 admissions, the event's row fits its table, and the tables are those
  -- with the session and the hour charged and the event added.
  pub submit-tables :
      (replies : ℕ → Reply) (random : Option Bytes) (publisher : Publisher)
      → let after = (submit sha256 replies clock random publisher owner scenario t).tables in
        (after ≡ t) ⊎ ((id : Bytes) × Admitted id after)
  unfolding submit
  submit-tables replies random publisher =
      finish-Admitted (replies 7) publisher _ (made-Admitted replies (new_uuid random))

-- A visitor's replay leaves the tables as they were; or the event was the visitor's own under a live
-- session, dead-lettered and replayed fewer than two times, the hour had fewer than 1000 admissions,
-- and the tables are those with the hour charged and the event pending again.
pub sandbox_replay-tables :
    (replies : ℕ → Reply) (clock : ℕ → ℕ) (publisher : Publisher) (owner id : Bytes) (t : Tables)
    → let after = (sandbox_replay replies clock publisher owner id t).tables in
      (after ≡ t)
      ⊎ ((b : Budget) × (r : EventRow) × (t.budget ≡ some b)
          × (owned_row owner id (clock 1) t.db ≡ some r)
          × (r.state ≡ dead_lettered)
          × (r.replay_count < 2)
          × ((rolled (hour_of (clock 0)) b).admissions < 1000)
          × (after ≡ repeated clock owner id (charged_budget (rolled (hour_of (clock 0)) b)) t))
unfolding sandbox_replay
sandbox_replay-tables replies clock publisher owner id t = ground arith

pub cleanup-tables :
    (replies : ℕ → Reply) (clock : ℕ → ℕ) (locked : Bytes → Bool) (t : Tables)
    → let after = (cleanup replies clock locked t).tables in
      (after ≡ t)
      ⊎ ((b : Budget) × (t.budget ≡ some b)
          × (after ≡ record {
            db = cleaned locked clock t.db;
            budget = some (rolled (hour_of (clock 0)) b);
          }))
unfolding cleanup
cleanup-tables replies clock locked t = ground arith
