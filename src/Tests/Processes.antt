-- ===== src/Tests/Processes.antt =====
-- The start of the API process, the migrations, the gateway's launch and the worker's rounds.
use p3_relay.Prelude.{
  ℕ, ◌+◌, ◌*◌, ◌≡◌, refl, ◌==◌, true, false, Option, none, some, [], ◌∷◌, Bytes, codes, bytes_eq,
  has_prefix, if◌then◌else◌,
}
use p3_relay.Errors.{Error, err, fine, failed}
use p3_relay.Delivery.{minute, second}
use p3_relay.DemoReceiver
use p3_relay.HttpApi.Routes
use p3_relay.Notification.Cycle.{Runner, cycle, run_batch}
use p3_relay.Commands.{pending_paths}
use p3_relay.Commands.Worker.{main_cycles}
use p3_relay.Postgres.Tls.{configure_tls}
use p3_relay.Notification.Config.{Url}
use p3_relay.Notification.Config.Open.{Aws, open_queue}
use p3_relay.Notification.Config.Opened.{ParsesEmpty}
use p3_relay.Gateway.{validate}
use p3_relay.Gateway.Launch.{Os, private_files, configuration_of, launch}
use p3_relay.Gateway.Files
use p3_relay.Gateway.Files.{launch-Ends, all_written}
use p3_relay.Commands.Startup.{Process, database, opened_queue}
use p3_relay.Commands.Api.{
  Started, new_server, events, demo_receiver, start, load_configuration, main_routes,
  receiver_route, sandbox_route, site_route,
}
use p3_relay.Commands.Api.Guarded.{IsGuarded, start-IsGuarded}
use p3_relay.Commands.Migrate.{
  Run, migrate, open_connection, transaction, run_files, run_file, latest, has_version,
}
use p3_relay.Commands.Migrate.Stages
use p3_relay.Commands.Migrate.Stages.{IsStage, nothing, is_smooth, migrate-Ends}
use p3_relay.Tests.Services.{queue_url, demo_attributes, demo_libraries, built}

-- A parser that knows the queue's URL and finds nothing else.
abbrev demo_parse : Bytes → Option Url
demo_parse [] = none
demo_parse (c ∷ s) = some queue_url

abbrev demo_aws : Aws
demo_aws = record {
  parse_url = demo_parse;
  loads = λ region transport. true;
  attributes = λ queue. some demo_attributes;
}

demo-ParsesEmpty : ParsesEmpty demo_aws
demo-ParsesEmpty u h = cc

abbrev demo_environment : Bytes → Bytes
demo_environment name =
    if bytes_eq name (codes "RELAY_DATABASE_URL")
    then codes "postgres://relay.test/relay"
    else if bytes_eq name (codes "RELAY_SOURCE_KEY")
    then codes "demo"
    else if bytes_eq name (codes "RELAY_INGRESS_SECRET")
    then codes "0123456789abcdef"
    else if bytes_eq name (codes "RELAY_OPERATOR_TOKEN")
    then codes "fedcba9876543210"
    else if bytes_eq name (codes "RELAY_DEMO_RECEIVER_SECRET")
    then codes "0123456789abcdef"
    else []

abbrev demo_process : Process
demo_process = record {
  getenv = demo_environment;
  now = 5;
  parse_connection = λ url. some (record { tls_config = none; fallbacks = 0 });
  decoders = record {
    trim_space = λ text. text;
    pem_decode = λ text. none;
    parse_certificate = λ content. none;
  };
  pools = λ connection. true;
  aws = demo_aws;
  parse_url = λ url. none;
  open_root = λ directory. some built;
}

abbrev demo_started : Started
demo_started = record {
  pool = record {
    connection = record { tls_config = none; fallbacks = 0 };
    max_connections = 8;
    min_connections = 1;
    max_lifetime = some (30 * minute);
    max_idle_time = some (5 * minute);
  };
  notifications = none;
  server =
      new_server (codes ":8080")
        ((
          codes "/v1/",
          events (record {
            source_key = codes "demo";
            ingress_secret = codes "0123456789abcdef";
            destination_url = [];
            operator_token = codes "fedcba9876543210";
          }),
        )
          ∷ (codes "/v1/demo-receiver", demo_receiver (codes "0123456789abcdef"))
          ∷ [])
        [];
}

start-IsGuarded_example : IsGuarded demo_process demo_started
unfolding start load_configuration database configure_tls opened_queue open_queue main_routes
    receiver_route sandbox_route site_route Routes.new DemoReceiver.new bytes_eq has_prefix
start-IsGuarded_example = start-IsGuarded demo_process demo_started demo-ParsesEmpty refl

reserved_source :
    load_configuration (record demo_process { getenv = λ name. codes "sandbox:demo" })
    ≡ err (failed "reserved source key namespace")
unfolding load_configuration has_prefix
reserved_source = refl

-- A second statement of the transaction fails on a new database.
abbrev broken_run : Run
broken_run = record {
  connects = true;
  begins = true;
  locks = true;
  finds_table = true;
  reads_version = true;
  reads_file = λ version. true;
  runs_file = λ version. version == 1;
  commit = fine;
}

migrate-Ends_example :
    Stages.Ends (is_smooth demo_process broken_run) none (migrate demo_process broken_run none)
migrate-Ends_example = migrate-Ends demo_process broken_run none nothing

fresh_schema :
    (migrate demo_process (record broken_run { runs_file = λ version. true }) none).1
    ≡ some (1 ∷ 2 ∷ [])
unfolding migrate open_connection transaction configure_tls run_files run_file pending_paths latest
    has_version bytes_eq
fresh_schema = refl

abbrev demo_os : Os
demo_os = record {
  makes_directory = true;
  writes = λ name. true;
  leaves = λ name. none;
  removes = true;
  enters = true;
  executes = false;
}

launch-Ends_example :
    Files.Ends demo_os
      (private_files [] (configuration_of demo_environment))
      (validate demo_libraries (configuration_of demo_environment) 50)
      (launch demo_libraries demo_os [] demo_environment 50)
launch-Ends_example = launch-Ends demo_libraries demo_os [] demo_environment 50

-- A worker whose cycles and cleanups are counted, and whose cycles all fail.
abbrev failing_runner : Runner (ℕ × ℕ)
failing_runner = record {
  interrupted = λ s. none;
  run_once = λ s. (err (failed "claim event"), (s.0, s.1 + 1));
}

abbrev counted_cleanup : ℕ × ℕ → Option Error × (ℕ × ℕ)
counted_cleanup s = (some (failed "begin"), (s.0 + 1, s.1))

three_rounds :
    main_cycles failing_runner none counted_cleanup 0 (0 ∷ 59 * second ∷ 61 * second ∷ []) (0, 0)
    ≡ (2, 3)
unfolding main_cycles cycle run_batch
three_rounds = refl
