-- ===== src/Delivery.antt =====
-- internal/delivery: what a worker claims and what it records. Instants and durations are
-- nanoseconds since the Unix epoch; the outcomes are the source's four texts.
pub mod Policy
pub mod Sender
pub mod Worker
use p3_relay.Prelude.{ℕ, ◌*◌, Bool, Option, Bytes}

pub record ClaimedEvent : Type 0 where
  pub sandbox : Bool
  pub id : Bytes
  pub claim_id : Bytes
  pub body : Bytes
  pub destination_url : Bytes
  pub replay_number : ℕ
  pub attempt_number : ℕ
  pub created_at : ℕ

pub data Outcome : Type 0 where
  delivered retryable_http terminal_http network_error : Outcome

pub record Attempt : Type 0 where
  pub id : Bytes
  pub started_at : ℕ
  pub finished_at : ℕ
  pub outcome : Outcome
  pub status_code : Option ℕ
  pub response_excerpt : Bytes
  pub error_code : Option Bytes
  pub next_attempt_at : ℕ

-- time.Second, and the other durations of the source.
abbrev pub second : ℕ
second = 1000000000

abbrev pub minute : ℕ
minute = 60 * second

abbrev pub hour : ℕ
hour = 60 * minute
