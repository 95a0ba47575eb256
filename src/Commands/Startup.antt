-- ===== src/Commands/Startup.antt =====
-- The start of the processes: what cmd/api/main.go, cmd/worker/main.go and cmd/migrate/main.go read
-- from the environment and open. `os.Getenv`, pgx's parsing and its pool, and the libraries of the
-- packages that are opened are parameters. A process that exits, or panics, ends with the error that
-- made it do so.
use p3_relay.Prelude.{ℕ, Bool, Option, none, some, String, Bytes, codes}
use p3_relay.Errors.{Error, Result, ok, err, failed, ◌>>=◌}
use p3_relay.Postgres.Tls.{Decoders, ConnConfig, configure_tls}
use p3_relay.Notification.Config.Open.{Aws, Queue, open_queue}
use p3_relay.WebUi.{Site}
use p3_relay.Sandbox.Handlers.{Url}

-- A process's environment and libraries. `parse_connection` is that of pgx, `pools` tells whether a
-- pool is created.
pub record Process : Type 0 where
  pub getenv : Bytes → Bytes
  pub now : ℕ
  pub parse_connection : Bytes → Option ConnConfig
  pub decoders : Decoders
  pub pools : ConnConfig → Bool
  pub aws : Aws
  pub parse_url : Bytes → Option Url
  pub open_root : Bytes → Option Site

abbrev pub variable : Process → String → Bytes
variable process name = process.getenv (codes name)

abbrev pub found_or {ℓ} : {A : Type ℓ} → Option A → Error → Result A
found_or none e = err e
found_or (some a) e = ok a

abbrev pub trusted : Result (Unit {0}) × ConnConfig → Result ConnConfig
trusted (err e, connection) = err e
trusted (ok _, connection) = ok connection

-- The connection's configuration, with its trust anchors.
unfoldable pub database : Process → Bytes → Result ConnConfig
database process url = do
  parsed ← found_or (process.parse_connection url) (failed "parse PostgreSQL configuration")
  trusted (
      configure_tls process.decoders process.now parsed (record {
        ca_pem = variable process "RELAY_DATABASE_CA";
        required = variable process "RELAY_DATABASE_CA_REQUIRED";
      }))

-- A pool's connection and bounds; a lifetime that is not set is the library's.
pub record Pool : Type 0 where
  pub connection : ConnConfig
  pub max_connections : ℕ
  pub min_connections : ℕ
  pub max_lifetime : Option ℕ
  pub max_idle_time : Option ℕ

-- A panic ends the process.
abbrev pub unless_panic : {A : Type 0} → Option (Result A) → Result A
unless_panic none = err (failed "panic")
unless_panic (some result) = result

unfoldable pub opened_queue : Process → Result (Option Queue)
opened_queue process = unless_panic (
    open_queue process.aws (variable process "RELAY_SQS_QUEUE_URL")
      (variable process "RELAY_SQS_REGION"))
