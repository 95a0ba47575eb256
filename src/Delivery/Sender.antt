-- ===== src/Delivery/Sender.antt =====
-- internal/delivery/sender.go and sandbox.go: one attempt to deliver a claimed event.
-- The network client, the URL parser, SHA-256, the clock and the random bytes are parameters.
pub mod Schedule
pub mod Attempts
use p3_relay.Prelude.{
  ℕ, suc, ◌+◌, ◌-◌, ◌*◌, ◌/◌, ◌%◌, Bool, true, false, ◌&&◌, ◌||◌, not, Option, none, some, List, [],
  ◌∷◌, ◌++◌, String, Bytes, codes, length, take, ltb, leb, bytes_eq, if◌then◌else◌,
}
use p3_relay.Errors.{Result, ok, err}
use p3_relay.Decimal.{format_uint}
use p3_relay.Identifier.{new_uuid}
use p3_relay.Signature.{Hmac, create}
use p3_relay.Delivery.{
  ClaimedEvent, Attempt, Outcome, delivered, terminal_http, retryable_http, network_error, second,
  minute, hour,
}
use p3_relay.Delivery.Policy.{http_outcome}

-- The array `delays`, from its first element on; an index past its end stays at the last one.
unfoldable pub delay : ℕ → ℕ
delay ℕ.zero = 0
delay (suc ℕ.zero) = 5 * second
delay (suc (suc ℕ.zero)) = 30 * second
delay (suc (suc (suc ℕ.zero))) = 2 * minute
delay (suc (suc (suc (suc ℕ.zero)))) = 10 * minute
delay (suc (suc (suc (suc (suc ℕ.zero))))) = 30 * minute
delay (suc (suc (suc (suc (suc (suc ℕ.zero)))))) = 2 * hour
delay (suc (suc (suc (suc (suc (suc (suc n))))))) = 6 * hour

abbrev pub delay_index : ℕ → ℕ
delay_index attempt_number = if leb 8 attempt_number then 7 else attempt_number

-- `BigEndian.Uint16(digest[:2]) % 401`; a digest has at least two bytes.
unfoldable pub jitter : Bytes → ℕ
jitter (high ∷ low ∷ rest) = (high * 256 + low) % 401
jitter _ = 0

-- `delay + offset` for `per_mille = jitter - 200`. The division cuts towards zero.
unfoldable pub jittered : ℕ → ℕ → ℕ
jittered wait j =
    if leb 200 j then wait + wait * (j - 200) / 1000 else wait - wait * (200 - j) / 1000

abbrev pub is_final : Outcome → Bool
is_final delivered = true
is_final terminal_http = true
is_final _ = false

module _ (sha256 : Bytes → Bytes) where
  unfoldable pub next_attempt_at : ClaimedEvent → ℕ → Outcome → ℕ
  next_attempt_at claimed now outcome =
      let index = delay_index claimed.attempt_number in
      if is_final outcome
      then now
      else now + jittered (delay index) (jitter (sha256 (claimed.id ++ b':' ∷ format_uint index)))

  unfoldable pub sandbox_status : Bytes → ℕ → ℕ
  sandbox_status url attempt_number =
      if bytes_eq url (codes "relay-simulator://success")
      then 204
      else if bytes_eq url (codes "relay-simulator://temporary_failure")
      then (if ltb attempt_number 3 then 503 else 204)
      else 422

  unfoldable pub sandbox_attempt : ClaimedEvent → ℕ → Attempt
  sandbox_attempt claimed now =
      let status = sandbox_status claimed.destination_url claimed.attempt_number in
      record {
        id = claimed.claim_id;
        started_at = now;
        finished_at = now;
        outcome = http_outcome status;
        status_code = some status;
        response_excerpt = codes "Simulated receiver response; no network request.";
        error_code = none;
        next_attempt_at = next_attempt_at claimed now (http_outcome status);
      }

  abbrev pub id_or : Result Bytes → Bytes → Bytes
  id_or (ok id) other = id
  id_or (err e) other = other

  -- `random` is what the system's randomness gives to this call of `NewUUID`.
  unfoldable pub network_attempt : String → ℕ → ℕ → ClaimedEvent → Option Bytes → Attempt
  network_attempt code started_at finished_at claimed random = record {
    id = id_or (new_uuid random) claimed.claim_id;
    started_at = started_at;
    finished_at = finished_at;
    outcome = network_error;
    status_code = none;
    response_excerpt = [];
    error_code = some (codes code);
    next_attempt_at = next_attempt_at claimed finished_at network_error;
  }

pub record Request : Type 0 where
  pub method : Bytes
  pub url : Bytes
  pub body : Bytes
  pub headers : List (String × Bytes)

-- A response's body yields `content`, and then ends or fails.
pub record Response : Type 0 where
  pub status_code : ℕ
  pub content : Bytes
  pub fails : Bool

-- What one call of `Send` meets: the clock's readings in their order, the random bytes of its
-- first and second identifier, the scheme of a URL that parses, and the client's answer.
pub record Surroundings : Type 0 where
  pub now : ℕ → ℕ
  pub first_random : Option Bytes
  pub second_random : Option Bytes
  pub url_scheme : Bytes → Option Bytes
  pub client_do : Request → Option Response

abbrev pub maximum_response_bytes : ℕ
maximum_response_bytes = 4096

pub record HttpSender : Type 0 where
  pub secret : Bytes
  pub allow_insecure_http : Bool

-- `NewHTTPSender` of a client that is there; `none` is its panic.
unfoldable pub new_http_sender : Bytes → Bool → Option HttpSender
new_http_sender secret allow_insecure_http =
    if ltb (length secret) 16
    then none
    else some (record { secret = secret; allow_insecure_http = allow_insecure_http })

-- What `Send` leaves: the attempt that it returns, and the requests that it gave to the client, in
-- their order.
pub record Sent : Type 0 where
  pub attempt : Attempt
  pub requests : List Request

abbrev pub unsent : Attempt → Sent
unsent attempt = record { attempt = attempt; requests = [] }

module _ (hmac : Hmac) (sha256 : Bytes → Bytes) (sender : HttpSender) (world : Surroundings) where
  unfoldable pub delivery_request : ClaimedEvent → Request
  delivery_request claimed =
      let timestamp = format_uint (world.now 0 / second) in
      record {
        method = codes "POST";
        url = claimed.destination_url;
        body = claimed.body;
        headers =
            ("Content-Type", codes "application/json")
            ∷ ("User-Agent", codes "Relay/1")
            ∷ ("X-Relay-Event-Id", claimed.id)
            ∷ ("X-Relay-Attempt", format_uint claimed.attempt_number)
            ∷ ("X-Relay-Timestamp", timestamp)
            ∷ ("X-Relay-Signature", create hmac sender.secret timestamp claimed.body)
            ∷ [];
      }

  unfoldable pub failed_attempt : String → ClaimedEvent → Attempt
  failed_attempt code claimed =
      network_attempt sha256 code (world.now 0) (world.now 1) claimed world.second_random

  unfoldable pub answered : Bytes → ClaimedEvent → Response → Attempt
  answered attempt_id claimed response =
      let status_code = response.status_code % 65536 in
      let outcome = http_outcome status_code in
      if response.fails && ltb (length response.content) maximum_response_bytes
      then failed_attempt "response_read_failed" claimed
      else record {
        id = attempt_id;
        started_at = world.now 0;
        finished_at = world.now 1;
        outcome = outcome;
        status_code = some status_code;
        response_excerpt = take maximum_response_bytes response.content;
        error_code = none;
        next_attempt_at = next_attempt_at sha256 claimed (world.now 2) outcome;
      }

  unfoldable pub received : Bytes → ClaimedEvent → Option Response → Attempt
  received attempt_id claimed none = failed_attempt "request_failed" claimed
  received attempt_id claimed (some response) = answered attempt_id claimed response

  -- `sender.client.Do`, and what becomes of its answer.
  abbrev pub exchanged : Bytes → ClaimedEvent → Request → Sent
  exchanged attempt_id claimed request = record {
    attempt = received attempt_id claimed (world.client_do request);
    requests = request ∷ [];
  }

  unfoldable pub requested : Bytes → ClaimedEvent → Option Bytes → Sent
  requested attempt_id claimed none = unsent (failed_attempt "invalid_destination" claimed)
  requested attempt_id claimed (some scheme) =
      if not (bytes_eq scheme (codes "https")) && not sender.allow_insecure_http
      then unsent (failed_attempt "insecure_destination" claimed)
      else exchanged attempt_id claimed (delivery_request claimed)

  unfoldable pub identified : Result Bytes → ClaimedEvent → Sent
  identified (err e) claimed = unsent (failed_attempt "identifier_unavailable" claimed)
  identified (ok attempt_id) claimed =
      requested attempt_id claimed (world.url_scheme claimed.destination_url)

  unfoldable pub send : ClaimedEvent → Sent
  send claimed =
      if claimed.sandbox
      then unsent (sandbox_attempt sha256 claimed (world.now 0))
      else identified (new_uuid world.first_random) claimed
