-- ===== src/Tests/Sending.antt =====
-- Attempts, their schedule, and a worker's cycle.
use p3_relay.Prelude.{
  ℕ, ◌+◌, ◌*◌, ◌≤◌, ◌≡◌, refl, inl, Bool, true, false, none, some, [], ◌∷◌, codes, arith,
}
use p3_relay.Errors.{Result, ok, queue}
use p3_relay.Prelude.{bytes_eq}
use p3_relay.Identifier.{new_uuid}
use p3_relay.Delivery.{ClaimedEvent, retryable_http, second}
use p3_relay.Delivery.Sender.{
  HttpSender, Surroundings, Response, send, next_attempt_at, delivery_request, identified,
  requested,
}
use p3_relay.Delivery.Sender.Attempts.{IsWellMade, send-IsWellMade, StaysInside, send-StaysInside}
use p3_relay.Delivery.Sender.Schedule.{after_second, next_attempt_at_window}
use p3_relay.Notification.Cycle.{Runner, Consumer, cycle}
use p3_relay.Notification.Cycle.Laws.{Ends, cycle-Ends}
use p3_relay.Tests.{constant_hmac, constant_sha256, zeros, event_id, other_id}

abbrev demo_claim : ClaimedEvent
demo_claim = record {
  sandbox = false;
  id = event_id;
  claim_id = other_id;
  body = codes "[]";
  destination_url = codes "http://receiver.test/hook";
  replay_number = 0;
  attempt_number = 2;
  created_at = 0;
}

abbrev demo_sender : HttpSender
demo_sender = record { secret = codes "secret"; allow_insecure_http = false }

abbrev demo_response : Response
demo_response = record { status_code = 503; content = codes "busy"; fails = false }

abbrev demo_world : Surroundings
demo_world = record {
  now = λ n. n * second;
  first_random = some (zeros 16);
  second_random = none;
  url_scheme = λ url. some (codes "http");
  client_do = λ request. some demo_response;
}

send-IsWellMade_example :
    IsWellMade
      (send constant_hmac constant_sha256
        (record demo_sender { allow_insecure_http = true })
        demo_world
        demo_claim).attempt
send-IsWellMade_example =
    send-IsWellMade constant_hmac constant_sha256
      (record demo_sender { allow_insecure_http = true }) demo_world (λ i j le. omega (arith, le))
      demo_claim

send-StaysInside_example :
    StaysInside constant_hmac constant_sha256 demo_sender demo_world demo_claim
      (send constant_hmac constant_sha256 demo_sender demo_world demo_claim)
send-StaysInside_example =
    send-StaysInside constant_hmac constant_sha256 demo_sender demo_world demo_claim

-- The receiver's answer is asked for exactly once where plain HTTP is allowed.
asks_once :
    (send constant_hmac constant_sha256
      (record demo_sender { allow_insecure_http = true })
      demo_world
      demo_claim).requests
    ≡ delivery_request constant_hmac constant_sha256
        (record demo_sender { allow_insecure_http = true })
        demo_world
        demo_claim
      ∷ []
unfolding send identified requested new_uuid bytes_eq
asks_once = refl

abbrev request_timeout : ℕ
request_timeout = 408

next_attempt_at_window_example :
    let next = next_attempt_at constant_sha256 demo_claim 1000 retryable_http in
    (1000 * 5 + 30000000000 * 4 ≤ next * 5) × (next * 5 ≤ 1000 * 5 + 30000000000 * 6)
next_attempt_at_window_example =
    next_attempt_at_window constant_sha256 demo_claim 1000 30000000000 retryable_http after_second
      (inl refl)

-- A worker over a count of waiting events, whose queue receives nothing.
abbrev count_down : ℕ → Result Bool × ℕ
count_down ℕ.zero = (ok false, 0)
count_down (ℕ.suc n) = (ok true, n)

abbrev demo_runner : Runner ℕ
demo_runner = record { interrupted = λ n. none; run_once = count_down }

abbrev demo_consumer : Consumer ℕ
demo_consumer = record {
  receive = λ n. (ok (record { handles = codes "handle" ∷ [] }), n + 1);
  acknowledge = λ batch n. (some queue, n);
}

cycle-Ends_example :
    Ends demo_runner demo_consumer
      (ok (record { handles = codes "handle" ∷ [] }))
      3
      (cycle demo_runner (some demo_consumer) 2)
cycle-Ends_example = cycle-Ends demo_runner demo_consumer 2
