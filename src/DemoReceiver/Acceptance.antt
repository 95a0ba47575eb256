-- ===== src/DemoReceiver/Acceptance.antt =====
-- The sender (internal/delivery/sender.go) and the receiver (internal/demoreceiver/receiver.go) together.
use p3_relay.Prelude.{
  ℕ, ◌+◌, ◌*◌, ◌/◌, ◌^◌, ◌≤◌, ◌<◌, ◌≡◌, refl, true, false, none, some, Option, [], Bytes, codes,
  map, length, arith, bytes_eq, bytes_eq_refl,
}
use p3_relay.Decimal.{format_uint}
use p3_relay.Decimal.RoundTrip.{parse_uint-format_uint}
use p3_relay.Identifier.{valid_uuid}
use p3_relay.Signature.{Hmac}
use p3_relay.Signature.Exact.{valid-create}
use p3_relay.Delivery.{ClaimedEvent, second}
use p3_relay.Delivery.Sender.{HttpSender, Surroundings, delivery_request}
use p3_relay.HttpApi.Auth.{valid_timestamp, in_window}
use p3_relay.HttpApi.Timestamps.{parse_int-format_uint}
use p3_relay.DemoReceiver.{Request, screen, serve, valid_headers, valid_attempt, scenario_status}

valid_attempt-format_uint :
    (attempt : ℕ) → 1 ≤ attempt → attempt ≤ 8 → valid_attempt (format_uint attempt) ≡ true
unfolding valid_attempt
valid_attempt-format_uint attempt low high =
    rw (parse_uint-format_uint 256 attempt (omega arith) (omega arith))
      (ground (arith, bytes_eq_refl (format_uint attempt)))

valid_timestamp-format_uint :
    (sent now : ℕ)
    → sent / second < 2 ^ 63
    → sent ≤ now + 300 * second
    → now ≤ sent + 299 * second
    → valid_timestamp now (format_uint (sent / second)) ≡ true
unfolding valid_timestamp in_window
valid_timestamp-format_uint sent now word early late =
    rw (parse_int-format_uint (sent / second) word) (ground arith)

-- A request of the sender, as it reaches the receiver.
abbrev pub arrived : Hmac → (Bytes → Bytes) → HttpSender → Surroundings → ClaimedEvent → Request
arrived hmac sha256 sender world claimed =
    let sent = delivery_request hmac sha256 sender world claimed in
    record {
      method = sent.method;
      raw_query = [];
      headers = map (λ h. (codes h.0, h.1)) sent.headers;
      content = sent.body;
      fails = false;
    }

module _ (hmac : Hmac) (sha256 : Bytes → Bytes) (sender : HttpSender) (world : Surroundings)
    (claimed : ClaimedEvent) where
  screen-arrived :
      (now : ℕ)
      → 1 ≤ claimed.attempt_number
      → claimed.attempt_number ≤ 8
      → valid_uuid claimed.id ≡ true
      → world.now 0 / second < 2 ^ 63
      → world.now 0 ≤ now + 300 * second
      → now ≤ world.now 0 + 299 * second
      → screen now (arrived hmac sha256 sender world claimed) ≡ none
  unfolding screen valid_headers delivery_request bytes_eq
  screen-arrived now low high named word early late =
      rw
        (
          valid_timestamp-format_uint (world.now 0) now word early late,
          valid_attempt-format_uint claimed.attempt_number low high,
          named,
        )
        refl

  serve-arrived :
      (scenario_of : Bytes → Option Bytes)
      → length claimed.body ≤ 262144
      → serve hmac scenario_of sender.secret (arrived hmac sha256 sender world claimed)
        ≡ some (scenario_status (scenario_of claimed.body) (format_uint claimed.attempt_number))
  unfolding serve delivery_request bytes_eq
  serve-arrived scenario_of small =
      rw (valid-create hmac sender.secret (format_uint (world.now 0 / second)) claimed.body)
        (ground arith)

  -- A delivery that the sender makes with the receiver's secret, of a body of at most 256 KiB and
  -- an attempt from 1 to 8, passes every check if it arrives within the window; what it is answered
  -- depends only on its scenario and its attempt.
  pub serve-delivery_request :
      (now : ℕ) (scenario_of : Bytes → Option Bytes)
      → length claimed.body ≤ 262144
      → 1 ≤ claimed.attempt_number
      → claimed.attempt_number ≤ 8
      → valid_uuid claimed.id ≡ true
      → world.now 0 / second < 2 ^ 63
      → world.now 0 ≤ now + 300 * second
      → now ≤ world.now 0 + 299 * second
      → let request = arrived hmac sha256 sender world claimed in
        (screen now request ≡ none)
        × (serve hmac scenario_of sender.secret request
            ≡ some
                (scenario_status (scenario_of claimed.body) (format_uint claimed.attempt_number)))
  serve-delivery_request now scenario_of small low high named word early late =
      (screen-arrived now low high named word early late, serve-arrived scenario_of small)
