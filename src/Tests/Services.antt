-- ===== src/Tests/Services.antt =====
-- The dashboard's files, the queue's checks, the gateway's configuration and the worker's cleanups.
use p3_relay.Prelude.{
  ◌*◌, ◌≡◌, refl, ◌⊎◌, true, false, none, some, [], ◌∷◌, Bytes, codes, All, arith, bytes_eq,
  has_prefix, if◌then◌else◌, split,
}
use p3_relay.Errors.{ok, err, failed}
use p3_relay.Delivery.{second}
use p3_relay.WebUi.{Site, index, serve, site_filename, has_character}
use p3_relay.WebUi.Names.{IsAsset, serve-exact}
use p3_relay.Notification.Config.{
  Url, Attributes, path_parts, each_character, check, distinct_target,
}
use p3_relay.Decimal.{parse_uint, digits_value}
use p3_relay.Gateway.{
  Libraries, Configuration, validate, validate_server, hostname_matches, password_matches,
  each_label, is_label, label_end, each_hex,
}
use p3_relay.Commands.{cleanups, pending_paths, simulated_post}
use p3_relay.Commands.Cycles.{Spaced, IsRecent, cleanups-Paced}

abbrev pub built : Site
built = record { valid_path = λ name. true; regular = λ name. some true }

abbrev script : Bytes
script = codes "assets/app.js"

serve-exact_example :
    ((script ≡ index) ⊎ IsAsset script)
    × (built.regular script ≡ some true)
    × (false ≡ bytes_eq script index)
    × ((codes "GET" ≡ codes "GET") ⊎ (codes "GET" ≡ codes "HEAD"))
unfolding serve bytes_eq has_prefix site_filename has_character
serve-exact_example = serve-exact built (codes "GET") (codes "/assets/app.js") script false refl

abbrev pub queue_url : Url
queue_url = record {
  scheme = codes "https";
  host = codes "sqs.eu-west-1.amazonaws.com";
  has_user = false;
  raw_query = [];
  fragment = [];
  raw_path = [];
  path = codes "/123456789012/relay";
}

abbrev fitting : Bytes → Bytes
fitting name =
    if bytes_eq name (codes "VisibilityTimeout")
    then codes "300"
    else if bytes_eq name (codes "MaximumMessageSize")
    then codes "1024"
    else if bytes_eq name (codes "ReceiveMessageWaitTimeSeconds")
    then codes "10"
    else if bytes_eq name (codes "MessageRetentionPeriod")
    then codes "86400"
    else if bytes_eq name (codes "SqsManagedSseEnabled")
    then codes "true"
    else []

abbrev pub demo_attributes : Attributes
demo_attributes = record {
  get = fitting;
  redrive = some (codes "arn:aws:sqs:eu-west-1:123456789012:relay-dead", codes "5");
}

queue_passes : check (some queue_url) (some demo_attributes) ≡ some (ok tt)
unfolding check bytes_eq has_prefix path_parts each_character split distinct_target
queue_passes = refl

cleanups-Paced_example :
    Spaced 0 (cleanups 0 (0 ∷ 59 * second ∷ 61 * second ∷ []))
    × All
        (λ r. IsRecent r (cleanups 0 (0 ∷ 59 * second ∷ 61 * second ∷ [])))
        (0 ∷ 59 * second ∷ 61 * second ∷ [])
cleanups-Paced_example =
    cleanups-Paced 0 (0 ∷ 59 * second ∷ 61 * second ∷ [])
      ((omega arith, (omega arith, tt)), ((omega arith, tt), (tt, tt)))
      (omega arith, (omega arith, (omega arith, tt)))

abbrev pub demo_libraries : Libraries
demo_libraries = record {
  trim_space = λ text. text;
  pem_decode = λ text. some (record { kind = text; headers = 0; content = text; rest = [] });
  parse_certificate =
      λ content. some (record { is_ca = true; signs = none; not_before = 0; not_after = 100 });
  key_pair = λ certificate key. true;
  self_signed = λ certificate. true;
  verifies = λ certificate hostname now. true;
}

abbrev demo_configuration : Configuration
demo_configuration = record {
  certificate = codes "CERTIFICATE";
  private_key = codes "PRIVATE KEY";
  backend_ca = codes "CERTIFICATE";
  hostname = codes "gateway-1.relay.test";
  runtime_password = codes "0123456789abcdef0123456789abcdef0123456789abcdef0123456789abcdef";
  migration_password = codes "fedcba9876543210fedcba9876543210fedcba9876543210fedcba9876543210";
}

gateway_starts : validate demo_libraries demo_configuration 50 ≡ ok tt
unfolding validate hostname_matches password_matches split each_label is_label label_end each_hex
    validate_server bytes_eq
gateway_starts = refl

dash_refused :
    validate demo_libraries
      (record demo_configuration { hostname = codes "gateway-.relay.test" })
      50
    ≡ err (failed "invalid gateway hostname")
unfolding validate hostname_matches password_matches split each_label is_label label_end each_hex
    validate_server bytes_eq
dash_refused = refl

-- The migrations that a new and a current database still need.
fresh_database : pending_paths none ≡ ok (1 ∷ 2 ∷ [])
unfolding pending_paths
fresh_database = refl

current_database : pending_paths (some 2) ≡ ok []
unfolding pending_paths
current_database = refl

second_attempt : simulated_post (codes "temporary_failure") [] false (codes "2") ≡ 503
unfolding simulated_post parse_uint digits_value bytes_eq
second_attempt = refl
