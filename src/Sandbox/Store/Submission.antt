-- ===== src/Sandbox/Store/Submission.antt =====
-- internal/sandbox/store.go: `Submit`, one simulated event of a visitor.
use p3_relay.Prelude.{
  ℕ, ◌+◌, Bool, true, false, ◌&&◌, not, Option, none, some, [], ◌∷◌, ◌++◌, Bytes, codes, bytes_eq,
  count, ltb, ◌==◌,
}
use p3_relay.Errors.{
  Error, Result, ok, failed, session, quota, state, Reply, fine, ensure, ◌>>=◌, ◌>>◌,
}
use p3_relay.Identifier.{new_uuid}
use p3_relay.Table.{update, exists, is_there}
use p3_relay.Postgres.{Db, EventRow, SessionRow, pending, event_key, event_checks}
use p3_relay.Postgres.Queue.{is_fine}
use p3_relay.Postgres.Store.{Publisher, same_key}
use p3_relay.Sandbox.{Budget, Tables, valid_scenario}
use p3_relay.Sandbox.Store.{admission, finish, is_live, Finished, charge}

abbrev pub has_room : Bytes → ℕ → SessionRow → Bool
has_room id clock s = bytes_eq s.id id && (ltb clock s.expires_at && ltb s.event_count 20)

abbrev pub one_more : SessionRow → SessionRow
one_more s = record s { event_count = s.event_count + 1 }

-- Why no session was charged.
abbrev pub uncharged : Reply → Bool → Error
uncharged fine true = quota
uncharged fine false = session
uncharged _ _ = failed "read session"

-- `{"simulated":true,"scenario":%q}` of a scenario that needs no escape.
unfoldable pub simulated_body : Bytes → Bytes
simulated_body scenario =
    b'{'
    ∷ b'"'
    ∷ (codes "simulated"
        ++ b'"'
          ∷ b':'
          ∷ (codes "true,"
              ++ b'"' ∷ (codes "scenario" ++ b'"' ∷ b':' ∷ b'"' ∷ (scenario ++ b'"' ∷ b'}' ∷ []))))

abbrev pub sandbox_source : Bytes → Bytes
sandbox_source owner = codes "sandbox:" ++ owner

module _ (sha256 : Bytes → Bytes) where
  abbrev pub simulated_event : Bytes → Bytes → Bytes → ℕ → EventRow
  simulated_event owner scenario id clock = record {
    id = id;
    source_key = sandbox_source owner;
    external_event_id = codes "simulated-" ++ (scenario ++ b'-' ∷ id);
    body = simulated_body scenario;
    body_sha256 = sha256 (simulated_body scenario);
    destination_url = codes "relay-simulator://" ++ scenario;
    state = pending;
    attempt_count = 0;
    replay_count = 0;
    next_attempt_at = clock;
    lease_expires_at = none;
    claim_id = none;
    created_at = clock;
    delivered_at = none;
    sandbox_id = some owner;
  }

  -- Whether `events` takes the row: its checks, its unique pair and its primary key.
  unfoldable pub event_fits : Db → EventRow → Bool
  event_fits db r =
      event_checks r
      && (not (exists (same_key r.source_key r.external_event_id) db.events)
          && not (is_there event_key r.id db.events))

  -- The tables after the charges and the insertion.
  abbrev pub submitted : (ℕ → ℕ) → Bytes → Bytes → Bytes → Budget → Tables → Tables
  submitted clock owner scenario id charged t = record {
    db = record (t.db) {
      events = t.db.events ++ simulated_event owner scenario id (clock 3) ∷ [];
      sessions = update (has_room owner (clock 1)) one_more t.db.sessions;
    };
    budget = some charged;
  }

  -- `Submit` behind its identifier.
  abbrev pub admitted :
      (ℕ → Reply)
      → (ℕ → ℕ)
      → Bytes
      → Bytes
      → Bytes
      → Tables
      → Result (Bytes × Tables × Option Bytes)
  admitted replies clock owner scenario id t = do
    b ← admission replies clock t.budget
    ensure (is_fine (replies 3)) (failed "charge session")
    ensure (count (has_room owner (clock 1)) t.db.sessions == 1)
        (uncharged (replies 4) (exists (is_live owner (clock 2)) t.db.sessions))
    charged ← charge (replies 5) b
    ensure (is_fine (replies 6) && event_fits t.db (simulated_event owner scenario id (clock 3)))
        (failed "insert event")
    ok (id, submitted clock owner scenario id charged t, some id)

  abbrev pub submission :
      (ℕ → Reply)
      → (ℕ → ℕ)
      → Option Bytes
      → Bytes
      → Bytes
      → Tables
      → Result (Bytes × Tables × Option Bytes)
  submission replies clock random owner scenario t = do
    ensure (valid_scenario scenario) state
    id ← new_uuid random
    admitted replies clock owner scenario id t

  -- `Submit`: one simulated event, charged to its session and to the hour's admissions.
  unfoldable pub submit :
      (ℕ → Reply) → (ℕ → ℕ) → Option Bytes → Publisher → Bytes → Bytes → Tables → Finished Bytes
  submit replies clock random publisher owner scenario t =
      finish (replies 7) t (submission replies clock random owner scenario t) publisher
