-- ===== src/Delivery/Policy.antt =====
-- internal/delivery/policy.go: the class of a response's status, and the bound on attempts.
use p3_relay.Prelude.{ℕ, ◌≤◌, ◌≡◌, ◌↔◌, ◌⊎◌, Bool, ◌&&◌, arith, ltb, leb, ◌==◌, if◌then◌else◌}
use p3_relay.Delivery.{Outcome, delivered, retryable_http, terminal_http, network_error}

abbrev pub maximum_attempts : ℕ
maximum_attempts = 8

unfoldable pub http_outcome : ℕ → Outcome
http_outcome status_code =
    if leb 200 status_code && leb status_code 299
    then delivered
    else if status_code == 408
    then retryable_http
    else if status_code == 429
    then retryable_http
    else if leb 500 status_code && leb status_code 599
    then retryable_http
    else terminal_http

unfoldable pub can_retry : ℕ → Bool
can_retry attempt_count = ltb attempt_count maximum_attempts

-- The delivery contract's classes, each exactly: 200 to 299 is delivered; 408, 429 and 500 to 599
-- are retried; no status is a network error; every other status is terminal.
pub http_outcome_exact :
    (status : ℕ)
    → ((http_outcome status ≡ delivered) ↔ ((200 ≤ status) × (status ≤ 299)))
      × ((http_outcome status ≡ retryable_http)
          ↔ ((status ≡ 408) ⊎ (status ≡ 429) ⊎ ((500 ≤ status) × (status ≤ 599))))
      × (¬ (http_outcome status ≡ network_error))
unfolding http_outcome
http_outcome_exact status = ground arith
