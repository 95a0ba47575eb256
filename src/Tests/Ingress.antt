-- ===== src/Tests/Ingress.antt =====
-- A trusted receipt and a refused one, over a store that counts its calls.
use p3_relay.Prelude.{
  ℕ, ◌+◌, ◌≡◌, true, false, none, some, [], Bytes, codes, refl, bytes_eq, has_prefix,
}
use p3_relay.Errors.{ok, err, not_found, fine}
use p3_relay.HttpApi.{Store, Api, Request}
use p3_relay.HttpApi.Handlers.{Setting, accept, signed, with_body, events_post}
use p3_relay.HttpApi.Routes.{posts_event, handle}
use p3_relay.HttpApi.Changes.{Effect, handle-Effect}
use p3_relay.HttpApi.Served.{Database}
use p3_relay.HttpApi.Acknowledged.{posted, acknowledged-Stays}
use p3_relay.Delivery.{minute}
use p3_relay.Postgres.Queue.{claim}
use p3_relay.Postgres.System.{here, next, claims, migrated}
use p3_relay.HttpApi.Auth.{
  read_body, valid_timestamp, valid_event_id, printable, parse_int, parse_digits, in_window,
}
use p3_relay.Decimal.{digits_value}
use p3_relay.Hex.{hex_decode, hex_encode, hex_digit, unhex}
use p3_relay.Signature.{valid, create}
use p3_relay.Identifier.{new_uuid, format_uuid}
use p3_relay.Table.{exists, find}
use p3_relay.Postgres.{event_checks}
use p3_relay.Postgres.Store as Stored
use p3_relay.Postgres.Store.Ledger.{ledger}
use p3_relay.HttpApi.Handlers.Receipts.{IsTrusted}
use p3_relay.Tests.{zeros, constant_hmac, constant_sha256, event_id}

abbrev pub counting_store : Store ℕ ℕ
counting_store = record {
  accept = λ receipt n. (ok (record { id = receipt.id; duplicate = false }), n + 1);
  replay = λ event_id source_key n. (ok tt, n + 1);
  overview = λ source_key n. err not_found;
  list = λ source_key state limit n. ok [];
  detail = λ event_id source_key n. ok n;
}

abbrev pub demo_setting : Setting
demo_setting = record {
  now = 1000000000000;
  random = some (zeros 16);
  json_valid = λ content. true;
  sha256 = constant_sha256;
  hmac = constant_hmac;
}

abbrev pub demo_api : Api
demo_api = record {
  source_key = codes "demo";
  ingress_secret = codes "secret";
  destination_url = codes "https://receiver.test/hook";
  operator_token = codes "token";
}

abbrev pub demo_request : Request
demo_request = record {
  source_key = codes "demo";
  event_id = event_id;
  state = [];
  content_type = codes "application/json";
  timestamp = codes "1000";
  signature = codes "v1=0000000000000000000000000000000000000000000000000000000000000000";
  relay_event_id = codes "order-1";
  authorization = [];
  content = codes "[]";
  fails = false;
}

handle-Effect_example :
    Effect counting_store demo_setting demo_api demo_request 0 posts_event
      (handle counting_store demo_setting demo_api posts_event demo_request 0)
handle-Effect_example =
    handle-Effect counting_store demo_setting demo_api demo_request 0 posts_event

-- The same request, on the tables.
abbrev demo_database : Database
demo_database = record {
  to_valid_utf8 = λ text. text;
  replies = λ statement. fine;
  clock = 5;
  publisher = none;
}

abbrev receipt_id : Bytes
receipt_id = format_uuid (zeros 16)

-- A worker claims the posted event.
acknowledged-Stays_example :
    let later =
      (claim fine
        (some (zeros 16))
        (λ id. false)
        9000
        minute
        (posted demo_database demo_setting demo_api demo_request (migrated 0)).db).1 in
    IsTrusted demo_setting demo_api demo_request
    × (ledger later (codes "demo") (codes "order-1")
        ≡ some (record { id = receipt_id; body_sha256 = zeros 32 }))
unfolding events_post with_body signed accept read_body valid_timestamp valid_event_id printable
    parse_int parse_digits in_window digits_value valid hex_decode hex_encode hex_digit unhex create
    bytes_eq has_prefix new_uuid Stored.accept event_checks exists find
acknowledged-Stays_example =
    acknowledged-Stays demo_database demo_setting demo_api {hour = 0} demo_request receipt_id false
      here refl refl
      (next here (claims fine (some (zeros 16)) (λ id. false) 9000 minute (λ claim_id made. tt)))
