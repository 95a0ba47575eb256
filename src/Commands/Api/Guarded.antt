-- ===== src/Commands/Api/Guarded.antt =====
-- cmd/api/main.go: what a configuration must satisfy before the process serves.
use p3_relay.Prelude.{◌≡◌, inl, inr, Option, none, some, Bytes, subst}
use p3_relay.Errors.{Error, Result, ok, err, bind-ok, ok-injective, ensure}
use p3_relay.Postgres.Tls.{ConnConfig, TlsOptions}
use p3_relay.Postgres.Tls.Anchors.{Configured, configure_tls-Configured}
use p3_relay.Notification.Config.Open.{Queue}
use p3_relay.Notification.Config.Opened.{IsOpened, ParsesEmpty, open_queue-Opens}
use p3_relay.Commands.Startup.{Process, variable, found_or, database, trusted, opened_queue}
use p3_relay.Commands.Api.{load_configuration, main_routes, site_route, start, Started}
use p3_relay.Commands.Api.Fit.{
  AllFit, IsHeaded, asked, load_configuration-IsLoaded, made-AllFit, site-EachFit,
  main_routes-EachFit, main_routes-IsHeaded,
}

abbrev pub options : Process → TlsOptions
options process = record {
  ca_pem = variable process "RELAY_DATABASE_CA";
  required = variable process "RELAY_DATABASE_CA_REQUIRED";
}

-- The connection of a started process: its trust anchors are those of the environment.
pub record IsConnected (process : Process) (url : Bytes) (connection : ConnConfig) : Type 0 where
  pub parsed : ConnConfig
  pub parses : process.parse_connection url ≡ some parsed
  pub configured : Configured process.decoders process.now parsed (options process) connection

abbrev pub IsNotified : Process → Option Queue → Type 0
IsNotified process none = Unit {0}
IsNotified process (some q) =
    IsOpened process.aws (variable process "RELAY_SQS_QUEUE_URL")
      (variable process "RELAY_SQS_REGION") q

found_or-some : {A : Type 0} (o : Option A) (e : Error) (a : A) → found_or o e ≡ ok a → o ≡ some a
found_or-some none e a h = cc
found_or-some (some x) e a h = cc

trusted-IsConnected :
    (process : Process) (url : Bytes) (connection : ConnConfig)
    → database process url ≡ ok connection
    → IsConnected process url connection
unfolding database
trusted-IsConnected process url connection h =
    let (parsed, found, h') = bind-ok (found_or (process.parse_connection url) _) _ connection h in
    let parses = found_or-some (process.parse_connection url) _ parsed found in
    elim (configure_tls-Configured process.decoders process.now parsed (options process)) [
      | inl (e, failure, same) ↦ absurd (refused_ _ e connection failure h')
      | inr (success, good) ↦ record {
        parsed = parsed;
        parses = parses;
        configured =
            subst (Configured process.decoders process.now parsed (options process))
              (taken _ connection success h') good;
      }
    ]
  where
    refused_ :
        (outcome : Result (Unit {0}) × ConnConfig) (e : Error) (c : ConnConfig)
        → outcome.0 ≡ err e
        → trusted outcome ≡ ok c
        → ⊥
    refused_ (ok tt, left) e c h k = cc
    refused_ (err x, left) e c h k = cc

    taken :
        (outcome : Result (Unit {0}) × ConnConfig) (c : ConnConfig)
        → outcome.0 ≡ ok tt
        → trusted outcome ≡ ok c
        → outcome.1 ≡ c
    taken (ok tt, left) c h k = cc
    taken (err x, left) c h k = cc

queue-IsNotified :
    (process : Process) (notifications : Option Queue)
    → ParsesEmpty process.aws
    → opened_queue process ≡ ok notifications
    → IsNotified process notifications
unfolding opened_queue
queue-IsNotified process notifications empty h =
    elim (open_queue-Opens process.aws (variable process "RELAY_SQS_QUEUE_URL")
      (variable process "RELAY_SQS_REGION") empty) [
        | inl bad ↦ let h' = rw (opened_queue, bad) at h in absurd (cc)
        | inr (inl (unset, _, _)) ↦
            let h' = rw (opened_queue, unset) at h in
            let same : none ≡ notifications = cc in subst (IsNotified process) same tt
        | inr (inr (q, opened, good)) ↦
            let h' = rw (opened_queue, opened) at h in
            let same : some q ≡ notifications = cc in subst (IsNotified process) same good
      ]

-- What holds of a process that serves.
pub record IsGuarded (process : Process) (started : Started) : Type 0 where
  pub connected :
      IsConnected process (variable process "RELAY_DATABASE_URL") started.pool.connection
  pub notified : IsNotified process started.notifications
  pub headed : IsHeaded (asked process) started.server.routes
  pub handler_fit : AllFit process started.server.handler
  pub routes_fit : AllFit process started.server.routes

-- The API process serves only with the interface first that its environment asks for, whose source
-- key is outside the visitors' namespace and whose ingress secret and operator token have at least
-- 16 bytes, with a connection to the environment's database that has the environment's trust
-- anchors, no queue or one that was checked, any receiver's secret of 16 to 256 bytes, any visitors'
-- key of 32 bytes with an https origin, and any dashboard's index there; if an empty text parses to
-- a URL without a scheme.
pub start-IsGuarded :
    (process : Process) (started : Started)
    → ParsesEmpty process.aws
    → start process ≡ ok started
    → IsGuarded process started
unfolding start
start-IsGuarded process started empty h =
    let (value, loaded, h₁) = bind-ok (load_configuration process) _ started h in
    let (connection, opened, h₂) = bind-ok (database process value.database_url) _ started h₁ in
    let (_, _, h₃) = bind-ok (ensure (process.pools connection) _) _ started h₂ in
    let (queue, notified, h₄) = bind-ok (opened_queue process) _ started h₃ in
    let (routes, made, h₅) = bind-ok (main_routes process value) _ started h₄ in
    let (site, found, h₆) = bind-ok (site_route process) _ started h₅ in
    let accepted = load_configuration-IsLoaded process value loaded in
    let connected = trusted-IsConnected process value.database_url connection opened in
    subst (IsGuarded process) (ok-injective h₆) (record {
      connected = subst (λ url. IsConnected process url connection) accepted.database connected;
      notified = queue-IsNotified process queue empty notified;
      headed = main_routes-IsHeaded process value routes accepted made;
      handler_fit =
          (tt, made-AllFit process (site_route process) site (site-EachFit process) found);
      routes_fit =
          made-AllFit process (main_routes process value) routes
            (main_routes-EachFit process value accepted) made;
    })
