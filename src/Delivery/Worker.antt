-- ===== src/Delivery/Worker.antt =====
-- internal/delivery/worker.go: claim one event, send it, record the attempt. The store and the
-- sender are the source's interfaces, over a state `S` that their calls pass on.
use p3_relay.Prelude.{ℕ, Bool, true, false, Option, none, some, ◌==◌, if◌then◌else◌}
use p3_relay.Errors.{Result, ok, err, failed}
use p3_relay.Delivery.{ClaimedEvent, Attempt}

pub record QueueStore (S : Type 0) : Type 0 where
  pub claim : ℕ → ℕ → S → Result (Option ClaimedEvent) × S
  pub record_attempt : ClaimedEvent → Attempt → S → Result (Unit {0}) × S

pub record Worker (S : Type 0) : Type 0 where
  pub store : QueueStore S
  pub send : ClaimedEvent → S → Attempt × S
  pub lease_length : ℕ

module _ {S : Type 0} where
  -- `NewWorker` of a store and a sender that are there; `none` is its panic.
  unfoldable pub new_worker :
      QueueStore S → (ClaimedEvent → S → Attempt × S) → ℕ → Option (Worker S)
  new_worker store send lease_length =
      if lease_length == 0
      then none
      else some (record { store = store; send = send; lease_length = lease_length })

  abbrev pub after_record : Result (Unit {0}) × S → Result Bool × S
  after_record (ok _, s) = (ok true, s)
  after_record (err e, s) = (err (failed "record attempt"), s)

  abbrev pub after_claim : Worker S → Result (Option ClaimedEvent) × S → Result Bool × S
  after_claim worker (err e, s) = (err (failed "claim event"), s)
  after_claim worker (ok none, s) = (ok false, s)
  after_claim worker (ok (some claimed), s) =
      let (attempt, s') = worker.send claimed s in
      after_record (worker.store.record_attempt claimed attempt s')

  unfoldable pub run_once : Worker S → ℕ → S → Result Bool × S
  run_once worker now s = after_claim worker (worker.store.claim now worker.lease_length s)
