-- ===== src/Notification/Cycle.antt =====
-- internal/notification/cycle.go: one cycle of a worker process. The runner and the consumer are
-- the source's interfaces over a state `S`; `interrupted` is `ctx.Err()`.
pub mod Laws
use p3_relay.Prelude.{ℕ, zero, suc, Bool, true, false, Option, none, some}
use p3_relay.Errors.{Error, Result, ok, err}
use p3_relay.Notification.{Batch, batch_size}

pub record Consumer (S : Type 0) : Type 0 where
  pub receive : S → Result Batch × S
  pub acknowledge : Batch → S → Option Error × S

pub record Runner (S : Type 0) : Type 0 where
  pub interrupted : S → Option Error
  pub run_once : S → Result Bool × S

module _ {S : Type 0} where
  -- What a run's result makes of the rest of the loop.
  abbrev pub go_on : Result Bool × S → (S → Option Error × S) → Option Error × S
  go_on (err e, s) rest = (some e, s)
  go_on (ok false, s) rest = (none, s)
  go_on (ok true, s) rest = rest s

  abbrev pub unless_interrupted : Option Error → S → Option Error × S → Option Error × S
  unless_interrupted (some e) s rest = (some e, s)
  unless_interrupted none s rest = rest

  -- The loop, with the rounds that are left.
  unfoldable pub run_batch : Runner S → ℕ → S → Option Error × S
  run_batch runner zero s = (none, s)
  run_batch runner (suc rounds) s =
      unless_interrupted (runner.interrupted s) s
        (go_on (runner.run_once s) (λ s'. run_batch runner rounds s'))

  abbrev pub finish : Consumer S → Result Batch → Option Error × S → Option Error × S
  finish consumer received (some e, s) = (some e, s)
  finish consumer (err e) (none, s) = (some e, s)
  finish consumer (ok batch) (none, s) = consumer.acknowledge batch s

  abbrev pub with_queue : Runner S → Consumer S → Result Batch × S → Option Error × S
  with_queue runner consumer (received, s) =
      finish consumer received (run_batch runner batch_size s)

  -- A nil queue selects polling.
  unfoldable pub cycle : Runner S → Option (Consumer S) → S → Option Error × S
  cycle runner none s = run_batch runner batch_size s
  cycle runner (some consumer) s = with_queue runner consumer (consumer.receive s)
