-- ===== src/Commands/Api/Fit.antt =====
-- cmd/api/main.go: what the routes must satisfy before the process serves them.
use p3_relay.Prelude.{
  ◌≤◌, ◌≡◌, refl, inl, inr, Bool, true, false, Option, none, some, [], ◌∷◌, ◌++◌, Bytes, codes,
  length, ltb, has_prefix, All, All-append, arith, Bool-cases, ◌==◌, ◌||◌, ◌&&◌, subst,
}
use p3_relay.Errors.{Result, ok, err, ◌>>=◌}
use p3_relay.Hex.{hex_decode}
use p3_relay.DemoReceiver
use p3_relay.HttpApi
use p3_relay.HttpApi.Routes
use p3_relay.Sandbox.Handlers.{is_origin}
use p3_relay.WebUi.{Site, open_site, index}
use p3_relay.Commands.Startup.{Process, variable}
use p3_relay.Commands.Api.{
  Configuration, load_configuration, Route, events, demo_receiver, visitors, health, dashboard,
  RouteTable, receiver_route, sandbox_route, visitor_of, main_routes, site_route, is_empty,
}

-- A route that may be served: its secrets have their lengths, its source key is not a visitor's,
-- its origin is one, its files are there.
abbrev pub IsFit : Process → Route → Type 0
IsFit process (events api) =
    (has_prefix api.source_key (codes "sandbox:") ≡ false)
    × (1 ≤ length api.source_key)
    × (16 ≤ length api.ingress_secret)
    × (16 ≤ length api.operator_token)
IsFit process (demo_receiver secret) = (16 ≤ length secret) × (length secret ≤ 256)
IsFit process (visitors key origin) =
    (length key ≡ 32) × (is_origin (process.parse_url origin) ≡ true)
IsFit process health = Unit {0}
IsFit process (dashboard site) = site.regular index ≡ some true

abbrev pub AllFit : Process → RouteTable → Type 0
AllFit process = All (λ (entry : Bytes × Route). IsFit process entry.1)

-- What `load_configuration` lets through, and where it comes from.
pub record IsLoaded (process : Process) (value : Configuration) : Type 0 where
  pub database : value.database_url ≡ variable process "RELAY_DATABASE_URL"
  pub source : value.source_key ≡ variable process "RELAY_SOURCE_KEY"
  pub ingress_secret : value.ingress_secret ≡ variable process "RELAY_INGRESS_SECRET"
  pub destination : value.destination_url ≡ variable process "RELAY_DESTINATION_URL"
  pub operator_token : value.operator_token ≡ variable process "RELAY_OPERATOR_TOKEN"
  pub outside : has_prefix value.source_key (codes "sandbox:") ≡ false
  pub keyed : 1 ≤ length value.source_key
  pub ingress : 16 ≤ length value.ingress_secret
  pub operator : 16 ≤ length value.operator_token

pub load_configuration-IsLoaded :
    (process : Process) (value : Configuration)
    → load_configuration process ≡ ok value
    → IsLoaded process value
unfolding load_configuration
load_configuration-IsLoaded process value h = ground arith

-- Of routes that were made, if they were.
abbrev pub EachFit : Process → Result RouteTable → Type 0
EachFit process (err e) = Unit {0}
EachFit process (ok routes) = AllFit process routes

pub made-AllFit :
    (process : Process) (made : Result RouteTable) (routes : RouteTable)
    → EachFit process made
    → made ≡ ok routes
    → AllFit process routes
made-AllFit process made routes fit same = subst (EachFit process) same fit

receiver-EachFit : (process : Process) → EachFit process (receiver_route process)
unfolding receiver_route DemoReceiver.new
receiver-EachFit process =
    let secret = variable process "RELAY_DEMO_RECEIVER_SECRET" in
    elim (Bool-cases (is_empty secret)) [
      | inl absent ↦ rw absent tt
      | inr given ↦ elim (Bool-cases (ltb (length secret) 16 || ltb 256 (length secret))) [
        | inl bad ↦ rw (given, bad) tt
        | inr good ↦ rw (given, good) ((ground arith, ground arith), tt)
      ]
    ]

visitor_of-EachFit :
    (process : Process) (key : Option Bytes) (origin : Bytes)
    → EachFit process (visitor_of process key origin)
visitor_of-EachFit process none origin = tt
visitor_of-EachFit process (some key) origin =
    elim (Bool-cases (is_origin (process.parse_url origin) && length key == 32)) [
      | inl good ↦ rw good ((ground arith, ground arith), tt)
      | inr bad ↦ rw bad tt
    ]

sandbox-EachFit : (process : Process) → EachFit process (sandbox_route process)
unfolding sandbox_route
sandbox-EachFit process = elim (Bool-cases (is_empty (variable process "RELAY_SANDBOX_ORIGIN"))) [
  | inl absent ↦ rw absent tt
  | inr given ↦ rw given (
      visitor_of-EachFit process (hex_decode (variable process "RELAY_SANDBOX_KEY"))
        (variable process "RELAY_SANDBOX_ORIGIN"))
]

opened-EachFit :
    (process : Process) (root : Option Site)
    → EachFit process (open_site root >>= λ site. ok ((codes "/", dashboard site) ∷ []))
unfolding open_site
opened-EachFit process none = tt
opened-EachFit process (some site) = regular_index (site.regular index) refl
  where
    regular_index :
        (found : Option Bool)
        → site.regular index ≡ found
        → EachFit process (open_site (some site) >>= λ site. ok ((codes "/", dashboard site) ∷ []))
    regular_index none e = rw e tt
    regular_index (some false) e = rw e tt
    regular_index (some true) e = rw e (e, tt)

pub site-EachFit : (process : Process) → EachFit process (site_route process)
unfolding site_route
site-EachFit process = elim (Bool-cases (is_empty (variable process "RELAY_WEB_DIRECTORY"))) [
  | inl absent ↦ rw absent tt
  | inr given ↦
      rw given (opened-EachFit process (process.open_root (variable process "RELAY_WEB_DIRECTORY")))
]

joined-EachFit :
    (process : Process) (api : HttpApi.Api) (receiver visitor : Result RouteTable)
    → IsFit process (events api)
    → EachFit process receiver
    → EachFit process visitor
    → EachFit process
        (receiver >>= λ r. visitor >>= λ v. ok ((codes "/v1/", events api) ∷ (r ++ v)))
joined-EachFit process api (err e) visitor fit f g = tt
joined-EachFit process api (ok r) (err e) fit f g = tt
joined-EachFit process api (ok r) (ok v) fit f g =
    (fit, All-append (λ (entry : Bytes × Route). IsFit process entry.1) r v f g)

loaded-accepted :
    (process : Process) (value : Configuration)
    → IsLoaded process value
    → (length value.source_key == 0
        || ltb (length value.ingress_secret) 16
        || ltb (length value.operator_token) 16)
      ≡ false
loaded-accepted process value loaded = ground (arith, loaded.keyed, loaded.ingress, loaded.operator)

-- A loaded configuration makes no panic.
pub main_routes-EachFit :
    (process : Process) (value : Configuration)
    → IsLoaded process value
    → EachFit process (main_routes process value)
unfolding main_routes Routes.new
main_routes-EachFit process value loaded = rw (loaded-accepted process value loaded) (
    joined-EachFit process _ (receiver_route process) (sandbox_route process)
      (loaded.outside, loaded.keyed, loaded.ingress, loaded.operator) (receiver-EachFit process)
      (sandbox-EachFit process))

-- The interface that the environment asks for.
abbrev pub asked : Process → HttpApi.Api
asked process = record {
  source_key = variable process "RELAY_SOURCE_KEY";
  ingress_secret = variable process "RELAY_INGRESS_SECRET";
  destination_url = variable process "RELAY_DESTINATION_URL";
  operator_token = variable process "RELAY_OPERATOR_TOKEN";
}

abbrev pub IsHeaded : HttpApi.Api → RouteTable → Type 0
IsHeaded api routes = (rest : RouteTable) × (routes ≡ (codes "/v1/", events api) ∷ rest)

joined-IsHeaded :
    (api : HttpApi.Api) (receiver visitor : Result RouteTable) (routes : RouteTable)
    → (receiver >>= λ r. visitor >>= λ v. ok ((codes "/v1/", events api) ∷ (r ++ v))) ≡ ok routes
    → IsHeaded api routes
joined-IsHeaded api (err e) visitor routes h = absurd (cc)
joined-IsHeaded api (ok r) (err e) routes h = absurd (cc)
joined-IsHeaded api (ok r) (ok v) routes h = (r ++ v, cc)

pub main_routes-IsHeaded :
    (process : Process) (value : Configuration) (routes : RouteTable)
    → IsLoaded process value
    → main_routes process value ≡ ok routes
    → IsHeaded (asked process) routes
unfolding main_routes Routes.new
main_routes-IsHeaded process value routes loaded h =
    let accepted = loaded-accepted process value loaded in
    let h' = rw accepted at h in
    let same : record {
      source_key = value.source_key;
      ingress_secret = value.ingress_secret;
      destination_url = value.destination_url;
      operator_token = value.operator_token;
    }
        ≡ asked process =
      rw (loaded.source, loaded.ingress_secret, loaded.destination, loaded.operator_token) refl in
    subst (λ api. IsHeaded api routes) same
      (joined-IsHeaded _ (receiver_route process) (sandbox_route process) routes h')
