-- ===== src/DemoReceiver.antt =====
-- internal/demoreceiver/receiver.go: the stateless receiver of signed deliveries, and the requests
-- that it serves at once. The JSON decoder, the HMAC and the clock are parameters.
pub mod Slots
pub mod Acceptance
use p3_relay.Prelude.{
  ℕ, ◌+◌, ◌-◌, Bool, true, false, ◌&&◌, ◌||◌, not, Option, none, some, List, [], ◌∷◌, map, Bytes,
  String, codes, bytes_eq, length, filter, ltb, leb, ◌==◌, if◌then◌else◌,
}
use p3_relay.Errors.{Result, ok, err, failed}
use p3_relay.Decimal.{parse_uint, format_uint}
use p3_relay.Identifier.{valid_uuid}
use p3_relay.Signature.{Hmac, valid}
use p3_relay.HttpApi.Auth.{valid_timestamp}

abbrev pub body_bytes_max : ℕ
body_bytes_max = 262144

-- `bodyBytesInFlightMax / bodyBytesMax`: 1 MiB in bodies of 256 KiB.
abbrev pub slots_max : ℕ
slots_max = 4

-- A request: its body yields `content`, and then ends or fails.
pub record Request : Type 0 where
  pub method : Bytes
  pub raw_query : Bytes
  pub headers : List (Bytes × Bytes)
  pub content : Bytes
  pub fails : Bool

-- `Header.Values` and `Header.Get` of a canonical name.
abbrev pub values : Bytes → List (Bytes × Bytes) → List Bytes
values name headers = map (λ h. h.1) (filter (λ h. bytes_eq h.0 name) headers)

abbrev pub first_value : List Bytes → Bytes
first_value [] = []
first_value (v ∷ rest) = v

abbrev pub get : String → Request → Bytes
get name request = first_value (values (codes name) request.headers)

abbrev pub has_one : String → Request → Bool
has_one name request = length (values (codes name) request.headers) == 1

-- `New`: the handler's secret.
unfoldable pub new : Bytes → Result Bytes
new secret =
    if ltb (length secret) 16 || ltb 256 (length secret)
    then err (failed "invalid demo receiver key length")
    else ok secret

-- `ParseUint(raw, 10, 8)`, its range, and its canonical form.
abbrev pub canonical : Bytes → Option ℕ → Bool
canonical raw none = false
canonical raw (some attempt) =
    leb 1 attempt && (leb attempt 8 && bytes_eq (format_uint attempt) raw)

unfoldable pub valid_attempt : Bytes → Bool
valid_attempt raw = canonical raw (parse_uint 256 raw)

-- `validHeaders`; the timestamp's window is that of internal/httpapi, 300 seconds either way.
unfoldable pub valid_headers : ℕ → Request → Bool
valid_headers now request =
    (has_one "X-Relay-Timestamp" request
      && (has_one "X-Relay-Signature" request
          && (has_one "X-Relay-Attempt" request && has_one "X-Relay-Event-Id" request)))
    && (valid_timestamp now (get "X-Relay-Timestamp" request)
        && (valid_attempt (get "X-Relay-Attempt" request)
            && valid_uuid (get "X-Relay-Event-Id" request)))

-- The status of a decoded scenario; `none` is a body that does not decode.
unfoldable pub scenario_status : Option Bytes → Bytes → ℕ
scenario_status none attempt = 400
scenario_status (some scenario) attempt =
    if bytes_eq scenario (codes "success")
    then 204
    else if bytes_eq scenario (codes "temporary_failure")
    then (if bytes_eq attempt (codes "1") || bytes_eq attempt (codes "2") then 503 else 204)
    else if bytes_eq scenario (codes "permanent_failure")
    then 422
    else 400

-- The checks before a slot is taken: a status that refuses the request, or none.
unfoldable pub screen : ℕ → Request → Option ℕ
screen now request =
    if not (bytes_eq request.method (codes "POST"))
    then some 405
    else if not (length request.raw_query == 0)
        || not (bytes_eq (get "Content-Type" request) (codes "application/json"))
    then some 400
    else if not (valid_headers now request)
    then some 401
    else none

-- `none` is the panic of a failed signature invariant.
abbrev pub verified : Option Bytes → Bytes → Option Bool → Option ℕ
verified scenario attempt none = none
verified scenario attempt (some false) = some 401
verified scenario attempt (some true) = some (scenario_status scenario attempt)

module _ (hmac : Hmac) (scenario_of : Bytes → Option Bytes) (secret : Bytes) where
  -- What a request that holds a slot is answered.
  unfoldable pub serve : Request → Option ℕ
  serve request =
      if request.fails && leb (length request.content) body_bytes_max
      then some 400
      else if ltb body_bytes_max (length request.content)
      then some 413
      else verified (scenario_of request.content) (get "X-Relay-Attempt" request) (
          valid hmac secret (get "X-Relay-Timestamp" request) request.content
            (get "X-Relay-Signature" request))

-- The handler's channel: the requests that hold a slot.
abbrev pub Slots : Type 0
Slots = List Request

abbrev pub entered : Request → Slots → Option ℕ → Option ℕ × Slots
entered request held (some status) = (some status, held)
entered request held none =
    if ltb (length held) slots_max then (none, request ∷ held) else (some 503, held)

-- `ServeHTTP` up to the slot: a request is answered at once, or it takes a slot.
unfoldable pub enter : ℕ → Request → Slots → Option ℕ × Slots
enter now request held = entered request held (screen now request)
