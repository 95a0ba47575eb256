-- ===== src/Commands/Api.antt =====
-- cmd/api/main.go: the API process up to the point where it serves. The multiplexer's choice among
-- the patterns is net/http's.
pub mod Fit
pub mod Guarded
use p3_relay.Prelude.{
  ℕ, ◌+◌, ◌*◌, Bool, true, false, ◌||◌, not, Option, none, some, List, [], ◌∷◌, ◌++◌, Bytes, codes,
  length, ltb, has_prefix, ◌==◌, ◌&&◌, if◌then◌else◌,
}
use p3_relay.Errors.{Error, Result, ok, err, failed, ensure, ◌>>=◌, ◌>>◌}
use p3_relay.Hex.{hex_decode}
use p3_relay.Delivery.{second, minute}
use p3_relay.DemoReceiver
use p3_relay.HttpApi
use p3_relay.HttpApi.Routes
use p3_relay.Sandbox.Handlers.{Url, is_origin}
use p3_relay.Notification.Config.Open.{Queue}
use p3_relay.WebUi.{Site, open_site}
use p3_relay.Commands.Startup.{Process, Pool, variable, found_or, database, opened_queue}

pub record Configuration : Type 0 where
  pub address : Bytes
  pub database_url : Bytes
  pub source_key : Bytes
  pub ingress_secret : Bytes
  pub destination_url : Bytes
  pub operator_token : Bytes

abbrev pub is_empty : Bytes → Bool
is_empty s = length s == 0

unfoldable pub load_configuration : Process → Result Configuration
load_configuration process = do
  ensure (not (has_prefix (variable process "RELAY_SOURCE_KEY") (codes "sandbox:")))
      (failed "reserved source key namespace")
  ensure
      (not (
        is_empty (variable process "RELAY_DATABASE_URL")
        || is_empty (variable process "RELAY_SOURCE_KEY")))
      (failed "RELAY_DATABASE_URL and RELAY_SOURCE_KEY are required")
  ensure (not (ltb (length (variable process "RELAY_INGRESS_SECRET")) 16))
      (failed "RELAY_INGRESS_SECRET must contain at least 16 bytes")
  ensure (not (ltb (length (variable process "RELAY_OPERATOR_TOKEN")) 16))
      (failed "RELAY_OPERATOR_TOKEN must contain at least 16 bytes")
  ok (record {
    address =
        if is_empty (variable process "RELAY_HTTP_ADDRESS")
        then codes ":8080"
        else variable process "RELAY_HTTP_ADDRESS";
    database_url = variable process "RELAY_DATABASE_URL";
    source_key = variable process "RELAY_SOURCE_KEY";
    ingress_secret = variable process "RELAY_INGRESS_SECRET";
    destination_url = variable process "RELAY_DESTINATION_URL";
    operator_token = variable process "RELAY_OPERATOR_TOKEN";
  })

-- What is registered behind a pattern: the source's and the operator's interface, the receiver with
-- its secret, the visitors' handler with its key and origin, the health check, and the dashboard.
pub data Route : Type 0 where
  events : HttpApi.Api → Route
  demo_receiver : Bytes → Route
  visitors : Bytes → Bytes → Route
  health : Route
  dashboard : Site → Route

abbrev pub RouteTable : Type 0
RouteTable = List (Bytes × Route)

unfoldable pub receiver_route : Process → Result RouteTable
receiver_route process =
    if is_empty (variable process "RELAY_DEMO_RECEIVER_SECRET")
    then ok []
    else DemoReceiver.new (variable process "RELAY_DEMO_RECEIVER_SECRET") >>= λ secret.
        ok ((codes "/v1/demo-receiver", demo_receiver secret) ∷ [])

-- The handler's `Valid`, of its key and origin.
abbrev pub visitor_of : Process → Option Bytes → Bytes → Result RouteTable
visitor_of process none origin = err (failed "invalid sandbox configuration")
visitor_of process (some key) origin =
    if is_origin (process.parse_url origin) && length key == 32
    then ok ((codes "/v1/sandbox/", visitors key origin) ∷ [])
    else err (failed "invalid sandbox configuration")

unfoldable pub sandbox_route : Process → Result RouteTable
sandbox_route process =
    if is_empty (variable process "RELAY_SANDBOX_ORIGIN")
    then ok []
    else visitor_of process (hex_decode (variable process "RELAY_SANDBOX_KEY"))
        (variable process "RELAY_SANDBOX_ORIGIN")

-- `main_routes`.
unfoldable pub main_routes : Process → Configuration → Result RouteTable
unfolding receiver_route sandbox_route
main_routes process value = do
  api ←
      found_or
        (Routes.new value.source_key value.ingress_secret value.destination_url
          value.operator_token)
        (failed "panic")
  receiver ← receiver_route process
  visitor ← sandbox_route process
  ok ((codes "/v1/", events api) ∷ (receiver ++ visitor))

-- The site of `RELAY_WEB_DIRECTORY`, if that is set.
unfoldable pub site_route : Process → Result RouteTable
site_route process =
    if is_empty (variable process "RELAY_WEB_DIRECTORY")
    then ok []
    else open_site (process.open_root (variable process "RELAY_WEB_DIRECTORY")) >>= λ site.
        ok ((codes "/", dashboard site) ∷ [])

-- `new_server`. `routes` are those of `main_routes`, behind `/v1/`.
pub record Server : Type 0 where
  pub address : Bytes
  pub handler : RouteTable
  pub routes : RouteTable
  pub read_header_timeout : ℕ
  pub read_timeout : ℕ
  pub write_timeout : ℕ
  pub idle_timeout : ℕ
  pub max_header_bytes : ℕ

-- `new_handler` registers the health check beside the routes.
abbrev pub new_server : Bytes → RouteTable → RouteTable → Server
new_server address routes site = record {
  address = address;
  handler = (codes "GET /health", health) ∷ site;
  routes = routes;
  read_header_timeout = 5 * second;
  read_timeout = 15 * second;
  write_timeout = 15 * second;
  idle_timeout = 60 * second;
  max_header_bytes = 16 * 1024;
}

-- `health_get`.
abbrev pub health_get : ℕ × Bytes × Bytes
health_get = (
  200,
  codes "application/json",
  b'{' ∷ b'"' ∷ (codes "status" ++ b'"' ∷ b':' ∷ b'"' ∷ b'o' ∷ b'k' ∷ b'"' ∷ b'}' ∷ 10 ∷ []),
)

pub record Started : Type 0 where
  pub pool : Pool
  pub notifications : Option Queue
  pub server : Server

-- `main`, up to `ListenAndServe`.
unfoldable pub start : Process → Result Started
start process = do
  value ← load_configuration process
  connection ← database process value.database_url
  ensure (process.pools connection) (failed "create PostgreSQL pool")
  queue ← opened_queue process
  routes ← main_routes process value
  site ← site_route process
  ok (record {
    pool = record {
      connection = connection;
      max_connections = 8;
      min_connections = 1;
      max_lifetime = some (30 * minute);
      max_idle_time = some (5 * minute);
    };
    notifications = queue;
    server = new_server value.address routes site;
  })

-- `main` behind it: a server that was closed ends well, any other error is an exit status of 1.
pub data ListenError : Type 0 where
  server_closed other_error : ListenError

abbrev pub exit_status : Option ListenError → ℕ
exit_status (some other_error) = 1
exit_status _ = 0
