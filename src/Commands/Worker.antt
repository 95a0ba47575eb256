-- ===== src/Commands/Worker.antt =====
-- cmd/worker/main.go: the worker process and its endless loop.
pub mod Rounds
use p3_relay.Prelude.{
  ℕ, ◌+◌, ◌*◌, Bool, true, false, ◌||◌, not, Option, none, some, List, [], ◌∷◌, Bytes, codes,
  bytes_eq, length, ltb, leb, ◌==◌, if◌then◌else◌,
}
use p3_relay.Errors.{Error, Result, ok, err, failed, ensure, ◌>>=◌, ◌>>◌}
use p3_relay.Delivery.{ClaimedEvent, Attempt, second, minute}
use p3_relay.Delivery.Sender.{HttpSender, new_http_sender}
use p3_relay.Delivery.Worker.{QueueStore, Worker, new_worker}
use p3_relay.Postgres.Tls.{ConnConfig}
use p3_relay.Notification.Cycle.{Runner, Consumer, cycle}
use p3_relay.Notification.Config.Open.{Queue}
use p3_relay.Commands.Startup.{Process, Pool, variable, database, opened_queue, found_or}

-- `new_http_client`, with its guarded dialer.
pub record HttpClient : Type 0 where
  pub allow_private : Bool
  pub dial_timeout : ℕ
  pub max_idle_connections : ℕ
  pub max_idle_per_host : ℕ
  pub idle_timeout : ℕ
  pub tls_handshake_timeout : ℕ
  pub response_header_timeout : ℕ
  pub expect_continue_timeout : ℕ
  pub timeout : ℕ
  pub uses_proxy : Bool
  pub follows_redirects : Bool

abbrev pub new_http_client : Bool → HttpClient
new_http_client allow_private = record {
  allow_private = allow_private;
  dial_timeout = 3 * second;
  max_idle_connections = 16;
  max_idle_per_host = 4;
  idle_timeout = 60 * second;
  tls_handshake_timeout = 3 * second;
  response_header_timeout = 7 * second;
  expect_continue_timeout = second;
  timeout = 10 * second;
  uses_proxy = false;
  follows_redirects = false;
}

abbrev pub lease_length : ℕ
lease_length = 30 * second

abbrev pub worker_pool : ConnConfig → Pool
worker_pool connection = record {
  connection = connection;
  max_connections = 4;
  min_connections = 1;
  max_lifetime = none;
  max_idle_time = none;
}

abbrev pub allow_private : Process → Bool
allow_private process =
    bytes_eq (variable process "RELAY_ALLOW_PRIVATE_DESTINATIONS") (codes "true")

-- What `main` makes before its loop.
pub record Started (S : Type 0) : Type 0 where
  pub pool : Pool
  pub notifications : Option Queue
  pub client : HttpClient
  pub worker : Worker S

-- `main`, up to the loop: the store is that of the pool, and `send` is `Send` over the client.
unfoldable pub start :
    {S : Type 0}
    → (Pool → QueueStore S)
    → (HttpClient → HttpSender → ClaimedEvent → S → Attempt × S)
    → Process
    → Result (Started S)
start stores send process = do
  ensure
      (not (
        length (variable process "RELAY_DATABASE_URL") == 0
        || ltb (length (variable process "RELAY_DELIVERY_SECRET")) 16))
      (failed "RELAY_DATABASE_URL and RELAY_DELIVERY_SECRET are required")
  connection ← database process (variable process "RELAY_DATABASE_URL")
  ensure (process.pools connection) (failed "create PostgreSQL pool")
  queue ← opened_queue process
  let pool = worker_pool connection
  let client = new_http_client (allow_private process)
  sender ←
      found_or (new_http_sender (variable process "RELAY_DELIVERY_SECRET") (allow_private process))
        (failed "panic")
  worker ← found_or (new_worker (stores pool) (send client sender) lease_length) (failed "panic")
  ok (record { pool = pool; notifications = queue; client = client; worker = worker })

module _ {S : Type 0} (runner : Runner S) (consumer : Option (Consumer S))
    (cleanup : S → Option Error × S) where
  -- The housekeeping of a round, if it is due; its error is logged.
  abbrev pub housekeep : ℕ → ℕ → S → S
  housekeep due now s = if leb due now then (cleanup s).1 else s

  -- When the next housekeeping is due.
  abbrev pub next_due : ℕ → ℕ → ℕ
  next_due due now = if leb due now then now + minute else due

  -- `main_cycles`, at the instants that its rounds read, up to the process's end. A cycle's error is
  -- logged.
  unfoldable pub main_cycles : ℕ → List ℕ → S → S
  main_cycles due [] s = s
  main_cycles due (now ∷ rounds) s =
      main_cycles (next_due due now) rounds (cycle runner consumer (housekeep due now s)).1
