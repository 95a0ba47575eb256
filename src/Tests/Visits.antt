-- ===== src/Tests/Visits.antt =====
-- A visitor's session, submissions, replays, and the cleanup behind them.
use p3_relay.Prelude.{
  ℕ, ◌+◌, ◌*◌, ◌≡◌, refl, ◌⊎◌, Bool, true, false, none, some, [], ◌∷◌, Bytes, codes, bytes_eq,
}
use p3_relay.Errors.{ok, err, session, not_found, Reply, fine}
use p3_relay.Table.{find}
use p3_relay.Delivery.{second}
use p3_relay.Postgres.{EventRow, SessionRow, event_key, dead_lettered}
use p3_relay.Sandbox.{Budget, Tables}
use p3_relay.Sandbox.Store.{create}
use p3_relay.Sandbox.Store.Submission.{submit}
use p3_relay.Sandbox.Store.Cleanup.{cleaned}
use p3_relay.Sandbox.Store.Shares.{IsWithin}
use p3_relay.Sandbox.Store.Removal.{IsLeftover, attempts_of, cleaned_exact}
use p3_relay.Sandbox.Handlers
use p3_relay.Sandbox.Handlers.{Backend, Handler, Request, session_path, serve, valid_handler}
use p3_relay.Sandbox.Session.{issue}
use p3_relay.Sandbox.Handlers.Gates.{Effect}
use p3_relay.Sandbox.Handlers.Gates.Serving.{serve-Effect}
use p3_relay.Sandbox.Handlers.Served.{Database, tables_store, serve-IsWithin}
use p3_relay.Postgres.System.{
  System, Reach, here, next, creates, submits, tables_of, with_tables, migrated,
}
use p3_relay.Postgres.System.Quotas.{Reach-IsWithin}
use p3_relay.Tests.{zeros, constant_hmac, constant_sha256, event_id}

abbrev pub all_answer : ℕ → Reply
all_answer n = fine

abbrev pub clock : ℕ → ℕ
clock n = 7200000000 + n

abbrev visitor : Bytes
visitor = codes "0123456789abcdef0123456789abcdef"

abbrev visitor_session : SessionRow
visitor_session = record { id = visitor; expires_at = 7200000002; event_count = 3 }

-- The visitor's event, given up after eight attempts.
abbrev given_up : EventRow
given_up = record {
  id = event_id;
  source_key = codes "sandbox:0123456789abcdef0123456789abcdef";
  external_event_id = codes "simulated-permanent_failure-1";
  body = [];
  body_sha256 = zeros 32;
  destination_url = codes "relay-simulator://permanent_failure";
  state = dead_lettered;
  attempt_count = 8;
  replay_count = 1;
  next_attempt_at = 5;
  lease_expires_at = none;
  claim_id = none;
  created_at = 5;
  delivered_at = none;
  sandbox_id = some visitor;
}

abbrev busy_hour : Budget
busy_hour = record { window_start = 7200000000; sessions = 99; admissions = 999 }

abbrev visited : Tables
visited = record {
  db = record { events = given_up ∷ []; attempts = []; sessions = visitor_session ∷ [] };
  budget = some busy_hour;
}

abbrev pub newcomer : Bytes
newcomer = codes "fedcba9876543210fedcba9876543210"

abbrev unlocked : Bytes → Bool
unlocked id = false

-- An hour later the session has expired.
abbrev late : ℕ → ℕ
late n = 10800000000 + n

cleaned_exact_example :
    let after = cleaned unlocked late visited.db in
    ((find event_key event_id after.events ≡ some given_up)
      × (attempts_of event_id after.attempts ≡ attempts_of event_id visited.db.attempts))
    ⊎ (IsLeftover (late 1) visited.db.sessions given_up
        × (find event_key event_id after.events ≡ none)
        × (attempts_of event_id after.attempts ≡ []))
unfolding find bytes_eq
cleaned_exact_example = cleaned_exact unlocked late visited.db event_id given_up (refl, tt) refl

-- A store that counts its changes.
abbrev counting : Backend ℕ ℕ
counting = record {
  active = λ id n. err session;
  cleanup = λ n. (ok tt, n + 1);
  create = λ id expires n. (ok tt, n + 1);
  submit = λ id scenario n. (ok event_id, n + 1);
  replay = λ id event_id n. (ok tt, n + 1);
  list = λ source_key state limit n. ok [];
  detail = λ event_id source_key n. err not_found;
}

abbrev demo_handler : Handler
demo_handler = record {
  key = zeros 32;
  origin = codes "https://relay.test";
  parse_url = λ url. some (record {
    scheme = codes "https";
    host = codes "relay.test";
    has_user = false;
    path = [];
    raw_query = [];
    fragment = [];
  });
  hmac = constant_hmac;
  now = 1700000000 * second;
  random = some (zeros 16);
  decode_empty = λ content. true;
  decode_scenario = λ content. none;
}

abbrev session_request : Request
session_request = record {
  method = codes "POST";
  path = session_path;
  authorization = [];
  origin = codes "https://relay.test";
  content_type = codes "application/json";
  cookies = [];
  content = codes "{}";
  fails = false;
}

serve-Effect_example :
    Effect counting demo_handler session_request 0 (serve counting demo_handler session_request 0)
serve-Effect_example = serve-Effect counting demo_handler session_request 0

-- The request is served: a session is created, after a cleanup.
serve_session : (serve counting demo_handler session_request 0).1 ≡ 2
unfolding serve bytes_eq valid_handler Handlers.create issue
serve_session = refl

-- A session is created, and its visitor submits an event.
abbrev pub begun : System
begun =
    with_tables (migrated 0)
      (create all_answer clock newcomer 9000000000000 (tables_of (migrated 0))).tables

abbrev pub submitted_one : System
submitted_one =
    with_tables begun
      (submit constant_sha256 all_answer clock (some (zeros 16)) none newcomer (codes "success")
        (tables_of begun)).tables

pub submitted-Reach : Reach (migrated 0) submitted_one
submitted-Reach =
    next (next here (creates all_answer clock newcomer 9000000000000))
      (submits constant_sha256 all_answer clock (some (zeros 16)) none newcomer (codes "success"))

Reach-IsWithin_example : IsWithin (tables_of submitted_one)
Reach-IsWithin_example = Reach-IsWithin 0 submitted-Reach

abbrev demo_database : Database
demo_database = record {
  sha256 = constant_sha256;
  to_valid_utf8 = λ text. text;
  replies = λ call statement. fine;
  times = λ call statement. clock statement;
  locked = unlocked;
  random = some (zeros 16);
  publisher = none;
}

migrated-IsWithin : IsWithin (tables_of (migrated 0))
migrated-IsWithin = Reach-IsWithin 0 here

serve-IsWithin_example :
    IsWithin
      (serve (tables_store demo_database) demo_handler session_request (tables_of (migrated 0))).1
serve-IsWithin_example =
    serve-IsWithin demo_database demo_handler session_request (tables_of (migrated 0))
      migrated-IsWithin
