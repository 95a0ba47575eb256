-- ===== src/Notification/Config/Open.antt =====
-- internal/notification/config.go: `Open`, and `New` of queue.go. The URL parser, the AWS
-- configuration and the queue's attributes are parameters.
use p3_relay.Prelude.{
  ℕ, ◌*◌, Bool, false, ◌&&◌, not, Option, none, some, ◌++◌, Bytes, codes, length, ◌==◌,
  if◌then◌else◌,
}
use p3_relay.Errors.{Result, ok, err, queue}
use p3_relay.Delivery.{second}
use p3_relay.Notification.Config.{Url, Attributes, valid_url, check}

-- The settings of the HTTP client that `Open` makes.
pub record Transport : Type 0 where
  pub timeout : ℕ
  pub dial_timeout : ℕ
  pub keep_alive : ℕ
  pub tls_handshake_timeout : ℕ
  pub response_header_timeout : ℕ
  pub idle_timeout : ℕ
  pub max_connections : ℕ
  pub min_tls_version : ℕ
  pub uses_proxy : Bool
  pub follows_redirects : Bool

abbrev pub transport : Transport
transport = record {
  timeout = 15 * second;
  dial_timeout = 3 * second;
  keep_alive = 30 * second;
  tls_handshake_timeout = 3 * second;
  response_header_timeout = 12 * second;
  idle_timeout = 60 * second;
  max_connections = 4;
  min_tls_version = 0x0303;
  uses_proxy = false;
  follows_redirects = false;
}

-- A queue, with the endpoint that its client is pinned to.
pub record Queue : Type 0 where
  pub url : Bytes
  pub endpoint : Bytes
  pub client : Transport

-- `loads` tells whether the AWS configuration of a region is found; `attributes` asks a queue.
pub record Aws : Type 0 where
  pub parse_url : Bytes → Option Url
  pub loads : Bytes → Transport → Bool
  pub attributes : Queue → Option Attributes

abbrev pub endpoint_of : Bytes → Bytes
endpoint_of region = codes "https://sqs." ++ (region ++ codes ".amazonaws.com")

-- `New` of a client that is there; `none` is its panic.
unfoldable pub new : Bytes → Bytes → Option Queue
new endpoint queue_url =
    if length queue_url == 0
    then none
    else some (record { url = queue_url; endpoint = endpoint; client = transport })

abbrev pub if_checked : Queue → Option (Result (Unit {0})) → Option (Result (Option Queue))
if_checked made none = none
if_checked made (some (err e)) = some (err e)
if_checked made (some (ok _)) = some (ok (some made))

abbrev pub with_queue : Aws → Option Queue → Option (Result (Option Queue))
with_queue aws none = none
with_queue aws (some made) = if_checked made (check (aws.parse_url made.url) (aws.attributes made))

-- `Open`: no queue where neither setting is given. `none` is a panic.
unfoldable pub open_queue : Aws → Bytes → Bytes → Option (Result (Option Queue))
open_queue aws queue_url region =
    if length queue_url == 0 && length region == 0
    then some (ok none)
    else if not (valid_url (aws.parse_url queue_url) region)
    then some (err queue)
    else if not (aws.loads region transport)
    then some (err queue)
    else with_queue aws (new (endpoint_of region) queue_url)
