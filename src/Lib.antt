-- ===== src/Lib.antt =====
-- Relay: signed events are accepted over HTTP, kept in PostgreSQL, and delivered to one endpoint with
-- retries. This library models the Go program's packages; its results are listed at the end.
--
-- The parts, and where they are modelled:
-- - internal/identifier/identifier.go in Identifier: `NewUUID`, `ValidUUID`.
-- - internal/signature/signature.go in Signature: `Create`, `Valid`; encoding/hex in Hex.
-- - strconv, as far as it is used, in Decimal.
-- - migrations/*.sql in Postgres: the rows, their checks and keys; tables with a primary key in Table.
-- - internal/postgres/store.go, replay.go, queue.go, read.go in Postgres.Store, .Replay, .Queue, .Read:
--   each call on the tables, with all replies that the database can give to its statements.
-- - internal/postgres/tls.go in Postgres.Tls: `ConfigureTLS`, `databaseCARoots`.
-- - internal/sandbox/store.go and cleanup.go in Sandbox.Store: the visitors' transactions;
--   session.go in Sandbox.Session; http.go in Sandbox.Handlers.
-- - internal/delivery/policy.go, sender.go, sandbox.go, worker.go in Delivery.Policy, .Sender, .Worker.
-- - internal/netguard/dialer.go in Netguard: the dialer that the sender's client uses.
-- - internal/notification/publish.go in Postgres.Store, queue.go in Notification, cycle.go in
--   Notification.Cycle: hints over SQS, and the worker's cycle.
-- - internal/httpapi/api.go in HttpApi: the source's and the operator's handlers over the interface
--   `Store` of internal/event/event.go; the errors of both are in Errors.
-- - internal/demoreceiver/receiver.go in DemoReceiver: the receiver of deliveries.
-- - internal/notification/config.go in Notification.Config: `Open` and the checks of a queue.
-- - internal/webui/site.go in WebUi: the dashboard's files.
-- - gateway/config.go in Gateway: the checks of the connection gateway's configuration; main.go in
--   Gateway.Launch: its private files and the start of the pooler.
-- - cmd/api/main.go in Commands.Api, cmd/worker/main.go in Commands.Worker, cmd/migrate/main.go in
--   Commands.Migrate, with what their starts share in Commands.Startup; cmd/receiver/main.go in
--   Commands.
-- HttpApi.Served and Sandbox.Handlers.Served put the handlers on the tables, Postgres.System.Working a
-- worker's run. Postgres.Store.Ledger says what acceptance promises, without rows.
-- Postgres.System puts the calls that write together: API processes, workers and visitors take steps on
-- the same tables in any order, with any replies and clocks, and the claims that were handed out are
-- kept. Tests evaluates the definitions and applies the theorems at concrete inputs.
--
-- How the code is read:
-- - A Go string or byte slice is a list of byte values. Instants are natural numbers: nanoseconds in
--   the program, microseconds in the tables (`timestamptz`); times before 1970 are left out.
-- - A statement runs and is answered, does not run, or runs and its answer is lost (`Reply`). A
--   transaction that fails before its commit leaves the tables as they were.
-- - The insertion of a receipt and the selection behind a conflict run as one step. Other calls may run
--   between the two statements; Postgres.System.Entries.Selected is about a selection that runs later.
-- - `Send` and `Publish` also keep what they handed to their clients: requests, and bodies of hints.
-- - A statement reads the clock once, where PostgreSQL may read `clock_timestamp()` per row. Rows stand
--   in storage order; `ORDER BY` is a stable sort, and a `LIMIT` without an order takes storage order.
--   Rows that other transactions hold are a parameter (`SKIP LOCKED`).
-- - The standard library and pgx, the AWS client, JSON, PEM, X.509, URL parsing, SHA-256, HMAC, the
--   resolver, the clock and the random bytes are parameters. The HMAC is assumed to give 32 bytes.
--   New claim identifiers are assumed to differ from those handed out before, where a step says so.
-- - Decimal.digits has fuel for 20 digits, enough for every uint64. The other loops are recursions on
--   their lists, or on the rounds that the code itself bounds. The worker's endless loop is taken up to
--   the process's end, on the instants that its rounds read.
--
-- Not modelled: net/http's choice among the registered patterns and its serving, signals and the
-- timeouts of contexts, the web interface, the infrastructure, and logging. HTTP responses keep their
-- status, code and content, and of their headers only the credential's cookie and whether a file may
-- be cached. Of the schema that the migrations make, Commands.Migrate keeps the versions alone.
mod Prelude
mod Tests
pub mod Errors
pub mod Hex
pub mod Identifier
pub mod Signature
pub mod Table
pub mod Decimal
pub mod Delivery
pub mod Postgres
pub mod Notification
pub mod HttpApi
pub mod Sandbox
pub mod Netguard
pub mod DemoReceiver
pub mod WebUi
pub mod Gateway
pub mod Commands
