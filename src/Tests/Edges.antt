-- ===== src/Tests/Edges.antt =====
-- The dialer, the receiver, the database's trust anchors, and the visitors' credentials.
use p3_relay.Prelude.{
  ℕ, ◌+◌, ◌*◌, ◌≤◌, ◌≡◌, refl, ◌↔◌, ◌⊎◌, inr, true, false, Option, none, some, List, [], ◌∷◌, Bytes,
  codes, All, arith, length, leb, if◌then◌else◌,
}
use p3_relay.Errors.{Error, ok, err}
use p3_relay.Identifier.{valid_uuid}
use p3_relay.Delivery.{ClaimedEvent, second}
use p3_relay.Delivery.Sender.{HttpSender, Surroundings}
use p3_relay.Decimal.{format_uint}
use p3_relay.Netguard.{Addr, ipv4, allowed, dial_context}
use p3_relay.Netguard.Ranges.{octets, Refused, mapped, allowed_exact, allowed-mapped}
use p3_relay.Netguard.Dialed.{IsGuarded, dial_context-IsGuarded}
use p3_relay.DemoReceiver.{Request, enter, screen, serve, scenario_status}
use p3_relay.DemoReceiver.Slots.{idle, next, arrives, IsBounded, Reach-IsBounded}
use p3_relay.DemoReceiver.Acceptance.{arrived, serve-delivery_request}
use p3_relay.Postgres.Tls.{Certificate, Block, Decoders, ConnConfig, TlsOptions, configure_tls}
use p3_relay.Postgres.Tls.Anchors.{Configured, configure_tls-Configured}
use p3_relay.Sandbox.Session.{session_cookie, issue, validate}
use p3_relay.Sandbox.Session.Lifetime.{IsCredential, validate-issue, validate-IsCredential}
use p3_relay.Hex.{hex_encode}
use p3_relay.Tests.{zeros, zeros-IsByte, constant_hmac, constant_sha256, event_id, other_id}

allowed_exact_example :
    (allowed false (ipv4 (octets 192 168 1 1)) ≡ false) ↔ Refused (octets 192 168 1 1)
allowed_exact_example = allowed_exact (octets 192 168 1 1) (omega arith)

allowed-mapped_example :
    (allowed false (ipv4 (octets 198 18 0 1)) ≡ false)
    × (allowed false (mapped (octets 198 18 0 1)) ≡ true)
allowed-mapped_example = allowed-mapped (octets 198 18 0 1) (inr (omega arith, omega arith))

abbrev public_lookup : Bytes → Option (List Addr)
public_lookup host = some (ipv4 (octets 8 8 8 8) ∷ ipv4 (octets 8 8 4 4) ∷ [])

abbrev second_answers : Bytes → Addr → Option Bytes
second_answers port (ipv4 n) = if leb n (octets 8 8 4 4) then some port else none
second_answers port _ = none

abbrev demo_target : Option (Bytes × Bytes)
demo_target = some (codes "receiver.test", codes "443")

dial_context-IsGuarded_example :
    let dialed = (dial_context false second_answers public_lookup demo_target).dialed in
    (dialed ≡ [])
    ⊎ ((host port : Bytes) × (addresses : List Addr) × (demo_target ≡ some (host, port))
        × (public_lookup host ≡ some addresses)
        × (length addresses ≤ 16)
        × All (λ a. allowed false a ≡ true) addresses
        × IsGuarded false addresses dialed)
dial_context-IsGuarded_example =
    dial_context-IsGuarded false second_answers public_lookup demo_target

abbrev demo_secret : Bytes
demo_secret = codes "sixteen-byte-key"

abbrev signing_sender : HttpSender
signing_sender = record { secret = demo_secret; allow_insecure_http = true }

abbrev quiet_world : Surroundings
quiet_world = record {
  now = λ n. (1000 + n) * second;
  first_random = some (zeros 16);
  second_random = none;
  url_scheme = λ url. some (codes "http");
  client_do = λ request. none;
}

abbrev second_try : ClaimedEvent
second_try = record {
  sandbox = false;
  id = event_id;
  claim_id = other_id;
  body = codes "[]";
  destination_url = codes "http://receiver.test/hook";
  replay_number = 0;
  attempt_number = 2;
  created_at = 0;
}

abbrev temporary : Bytes → Option Bytes
temporary body = some (codes "temporary_failure")

abbrev delivery : Request
delivery = arrived constant_hmac constant_sha256 signing_sender quiet_world second_try

serve-delivery_request_example :
    (screen (1100 * second) delivery ≡ none)
    × (serve constant_hmac temporary demo_secret delivery
        ≡ some (scenario_status (temporary (codes "[]")) (format_uint 2)))
unfolding valid_uuid
serve-delivery_request_example =
    serve-delivery_request constant_hmac constant_sha256 signing_sender quiet_world second_try
      (1100 * second) temporary (omega arith) (omega arith) (omega arith) refl (omega arith)
      (omega arith) (omega arith)

Reach-IsBounded_example : IsBounded (enter (1100 * second) delivery []).1
Reach-IsBounded_example = Reach-IsBounded (next idle (arrives (1100 * second) delivery))

abbrev demo_certificate : Certificate
demo_certificate = record { is_ca = true; signs = none; not_before = 0; not_after = 100 }

abbrev one_block : Bytes → Option Block
one_block text = some (record { kind = codes "CERTIFICATE"; headers = 0; content = []; rest = [] })

abbrev demo_decoders : Decoders
demo_decoders = record {
  trim_space = λ text. text;
  pem_decode = one_block;
  parse_certificate = λ content. some demo_certificate;
}

abbrev demo_connection : ConnConfig
demo_connection = record {
  tls_config = some (record {
    insecure_skip_verify = false;
    server_name = codes "database.test";
    min_version = 0;
    max_version = 0;
    root_cas = none;
  });
  fallbacks = 0;
}

abbrev demo_options : TlsOptions
demo_options = record { ca_pem = codes "-----BEGIN CERTIFICATE-----"; required = codes "true" }

configure_tls-Configured_example :
    let (outcome, after) = configure_tls demo_decoders 50 demo_connection demo_options in
    ((e : Error) × (outcome ≡ err e) × (after ≡ demo_connection))
    ⊎ ((outcome ≡ ok tt) × Configured demo_decoders 50 demo_connection demo_options after)
configure_tls-Configured_example =
    configure_tls-Configured demo_decoders 50 demo_connection demo_options

abbrev issued_at : ℕ
issued_at = 1700000000 * second

validate-issue_example :
    validate constant_hmac
      (zeros 32)
      (session_cookie constant_hmac (zeros 32) (hex_encode (zeros 16)) issued_at).value
      (issued_at + 1799 * second)
    ≡ ok (hex_encode (zeros 16))
unfolding issue
validate-issue_example =
    validate-issue constant_hmac (zeros 32) issued_at (issued_at + 1799 * second) (zeros 16)
      (session_cookie constant_hmac (zeros 32) (hex_encode (zeros 16)) issued_at)
      (hex_encode (zeros 16)) refl (zeros-IsByte 16) refl (omega arith) (omega arith)

issued_again :
    validate constant_hmac
      (zeros 32)
      (session_cookie constant_hmac (zeros 32) (hex_encode (zeros 16)) issued_at).value
      (issued_at + 60 * second)
    ≡ ok (hex_encode (zeros 16))
unfolding issue
issued_again =
    validate-issue constant_hmac (zeros 32) issued_at (issued_at + 60 * second) (zeros 16)
      (session_cookie constant_hmac (zeros 32) (hex_encode (zeros 16)) issued_at)
      (hex_encode (zeros 16)) refl (zeros-IsByte 16) refl (omega arith) (omega arith)

validate-IsCredential_example :
    IsCredential constant_hmac
      (zeros 32)
      (session_cookie constant_hmac (zeros 32) (hex_encode (zeros 16)) issued_at).value
      (issued_at + 60 * second)
      (hex_encode (zeros 16))
validate-IsCredential_example =
    validate-IsCredential constant_hmac (zeros 32)
      (session_cookie constant_hmac (zeros 32) (hex_encode (zeros 16)) issued_at).value
      (issued_at + 60 * second) (hex_encode (zeros 16)) issued_again
