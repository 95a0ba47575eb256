-- ===== src/Sandbox/Handlers/Served.antt =====
-- internal/sandbox/http.go over internal/sandbox/store.go: the handlers on the tables themselves.
use p3_relay.Prelude.{ℕ, Bool, Option, Bytes, subst, ap}
use p3_relay.Errors.{Reply}
use p3_relay.Postgres.Store.{Publisher}
use p3_relay.Postgres.Read
use p3_relay.Postgres.Read.{Detail}
use p3_relay.Sandbox.{Tables}
use p3_relay.Sandbox.Store
use p3_relay.Sandbox.Store.Submission
use p3_relay.Sandbox.Store.{Finished, active}
use p3_relay.Sandbox.Store.Replay.{sandbox_replay}
use p3_relay.Sandbox.Store.Cleanup.{cleanup}
use p3_relay.Sandbox.Store.Shares.{IsWithin}
use p3_relay.Sandbox.Store.Shares.Calls.{
  create-IsWithin, submit-IsWithin, sandbox_replay-IsWithin, cleanup-IsWithin,
}
use p3_relay.Sandbox.Handlers.{Backend, Handler, Request, Response, serve}
use p3_relay.Sandbox.Handlers.Gates.{Effect, nothing, cleaned, created, submits, replays}
use p3_relay.Sandbox.Handlers.Gates.Serving.{serve-Effect}

-- What one request meets in the database: by the call (0 for the check of the session, 1 for the
-- cleanup, 2 for the creation, 3 for what a visitor asks for) and its statement, the replies and
-- the clock's readings.
pub record Database : Type 0 where
  pub sha256 : Bytes → Bytes
  pub to_valid_utf8 : Bytes → Bytes
  pub replies : ℕ → ℕ → Reply
  pub times : ℕ → ℕ → ℕ
  pub locked : Bytes → Bool
  pub random : Option Bytes
  pub publisher : Publisher

abbrev pub tables_store : Database → Backend Tables Detail
tables_store d = record {
  active = λ id t. active (d.replies 0 0) (d.times 0 0) t.db id;
  cleanup =
      λ t. let done = cleanup (d.replies 1) (d.times 1) d.locked t in (done.result, done.tables);
  create = λ id expires t.
      let done = Store.create (d.replies 2) (d.times 2) id expires t in (done.result, done.tables);
  submit = λ id scenario t.
      let done =
        Submission.submit d.sha256 (d.replies 3) (d.times 3) d.random d.publisher id scenario t in
      (done.result, done.tables);
  replay = λ id event_id t.
      let done = sandbox_replay (d.replies 3) (d.times 3) d.publisher id event_id t in
      (done.result, done.tables);
  list = λ source_key state limit t. Read.list (d.replies 3 0) t.db source_key state limit;
  detail = λ event_id source_key t.
      Read.detail d.to_valid_utf8 (d.replies 3 0) (d.replies 3 1) t.db event_id source_key;
}

Effect-IsWithin :
    (d : Database) (h : Handler) (r : Request) (t : Tables) (served : Response Detail × Tables)
    → Effect (tables_store d) h r t served
    → IsWithin t
    → IsWithin served.1
Effect-IsWithin d h r t served (nothing response none_) w = w
Effect-IsWithin d h r t served (cleaned response s' g e none_) w =
    subst IsWithin e (cleanup-IsWithin (d.replies 1) (d.times 1) d.locked t w)
Effect-IsWithin d h r t served (created response s' s'' cookie id outcome g clean issued made set)
      w =
    let before =
      subst IsWithin (ap (λ m. m.1) clean)
        (cleanup-IsWithin (d.replies 1) (d.times 1) d.locked t w) in
    subst IsWithin (ap (λ m. m.1) made)
      (create-IsWithin (d.replies 2) (d.times 2) id cookie.expires s' before)
Effect-IsWithin d h r t served (submits response id scenario g visitor fits none_) w =
    submit-IsWithin d.sha256 (d.replies 3) (d.times 3) d.random d.publisher id scenario t w
Effect-IsWithin d h r t served (replays response id event_id g visitor good none_) w =
    sandbox_replay-IsWithin (d.replies 3) (d.times 3) d.publisher id event_id t w

-- Whatever a visitor requests, and whatever the database replies, the quotas hold of the tables
-- behind the request if they held before it.
pub serve-IsWithin :
    (d : Database) (h : Handler) (r : Request) (t : Tables)
    → IsWithin t
    → IsWithin (serve (tables_store d) h r t).1
serve-IsWithin d h r t w = Effect-IsWithin d h r t _ (serve-Effect (tables_store d) h r t) w
