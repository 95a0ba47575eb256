-- ===== src/Notification/Cycle/Laws.antt =====
-- What a cycle does to the queue and how often it runs the worker.
use p3_relay.Prelude.{
  ℕ, zero, suc, ◌<◌, ◌≡◌, refl, Bool, true, false, Option, none, some, arith, ◌∙◌, ap, subst,
}
use p3_relay.Errors.{Error, Result, ok, err}
use p3_relay.Notification.{Batch, batch_size}
use p3_relay.Notification.Cycle.{
  Consumer, Runner, run_batch, cycle, finish, go_on, unless_interrupted,
}

-- `n` runs in a row that each processed an event.
pub data Runs {S : Type 0} (runner : Runner S) : ℕ → S → S → Type 0 where
  stop : {s : S} → Runs runner zero s s
  more :
      {n : ℕ} {s t u : S}
      → runner.run_once s ≡ (ok true, t)
      → Runs runner n t u
      → Runs runner (suc n) s u

-- A state in which a loop of some rounds ends well: after that many processed events, or after
-- fewer and a run that found nothing to do.
pub data Settles {S : Type 0} (runner : Runner S) (rounds : ℕ) (s t : S) : Type 0 where
  full : Runs runner rounds s t → Settles runner rounds s t
  idle :
      (n : ℕ) (u : S)
      → n < rounds
      → Runs runner n s u
      → runner.run_once u ≡ (ok false, t)
      → Settles runner rounds s t

module _ {S : Type 0} (runner : Runner S) where
  one_more :
      (rounds : ℕ) (s s' t : S)
      → runner.run_once s ≡ (ok true, s')
      → Settles runner rounds s' t
      → Settles runner (suc rounds) s t
  one_more rounds s s' t e (full r) = full (more e r)
  one_more rounds s s' t e (idle n u below r last) = idle (suc n) u (omega arith) (more e r) last

  go_on-Settles :
      (rounds : ℕ) (s t : S) (ran : Result Bool × S)
      → runner.run_once s ≡ ran
      → ((s' : S) → run_batch runner rounds s' ≡ (none, t) → Settles runner rounds s' t)
      → go_on ran (λ s'. run_batch runner rounds s') ≡ (none, t)
      → Settles runner (suc rounds) s t
  go_on-Settles rounds s t (err e, s') ran ih h =
      let bad = ap (λ (p : Option Error × S). p.0) h in cc
  go_on-Settles rounds s t (ok false, s') ran ih h =
      idle zero s (omega arith) stop
        (ran ∙ ap (λ (x : S). (ok false, x)) (ap (λ (p : Option Error × S). p.1) h))
  go_on-Settles rounds s t (ok true, s') ran ih h = one_more rounds s s' t ran (ih s' h)

  ready-Settles :
      (rounds : ℕ) (s t : S) (interrupted : Option Error)
      → ((s' : S) → run_batch runner rounds s' ≡ (none, t) → Settles runner rounds s' t)
      → unless_interrupted interrupted s
          (go_on (runner.run_once s) (λ s'. run_batch runner rounds s'))
        ≡ (none, t)
      → Settles runner (suc rounds) s t
  ready-Settles rounds s t (some e) ih h = let bad = ap (λ (p : Option Error × S). p.0) h in cc
  ready-Settles rounds s t none ih h = go_on-Settles rounds s t (runner.run_once s) refl ih h

  -- A loop that returns no error has settled.
  pub run_batch-Settles :
      (rounds : ℕ) (s t : S) → run_batch runner rounds s ≡ (none, t) → Settles runner rounds s t
  unfolding run_batch
  run_batch-Settles zero s t h =
      subst (Settles runner zero s) (ap (λ (p : Option Error × S). p.1) h) (full stop)
  run_batch-Settles (suc rounds) s t h =
      ready-Settles rounds s t (runner.interrupted s) (λ s' e. run_batch-Settles rounds s' t e) h

-- How a cycle with a queue ends: with the error of its loop and nothing acknowledged; with the
-- error of its reception, once the loop has settled all the same; or with the acknowledgement of
-- what was received, made in a state in which the loop has settled.
pub data Ends {S : Type 0} (runner : Runner S) (consumer : Consumer S) (received : Result Batch)
    (s : S) (end : Option Error × S) : Type 0 where
  loop_failed :
      (e : Error) (t : S)
      → run_batch runner batch_size s ≡ (some e, t)
      → end ≡ (some e, t)
      → Ends runner consumer received s end
  receive_failed :
      (e : Error) (t : S)
      → received ≡ err e
      → Settles runner batch_size s t
      → end ≡ (some e, t)
      → Ends runner consumer received s end
  acknowledged :
      (batch : Batch) (t : S)
      → received ≡ ok batch
      → Settles runner batch_size s t
      → end ≡ consumer.acknowledge batch t
      → Ends runner consumer received s end

finish-Ends :
    {S : Type 0} (runner : Runner S) (consumer : Consumer S) (received : Result Batch) (s : S)
    (loop : Option Error × S)
    → run_batch runner batch_size s ≡ loop
    → Ends runner consumer received s (finish consumer received loop)
finish-Ends runner consumer received s (some e, t) ran = loop_failed e t ran refl
finish-Ends runner consumer (err e) s (none, t) ran =
    receive_failed e t refl (run_batch-Settles runner batch_size s t ran) refl
finish-Ends runner consumer (ok batch) s (none, t) ran =
    acknowledged batch t refl (run_batch-Settles runner batch_size s t ran) refl

-- Every cycle with a queue ends in one of these ways: hints are acknowledged only after ten
-- processed events or a run that found nothing to do, and a failed reception does not keep the
-- worker from the database.
pub cycle-Ends :
    {S : Type 0} (runner : Runner S) (consumer : Consumer S) (s : S)
    → Ends runner consumer
        (consumer.receive s).0
        (consumer.receive s).1
        (cycle runner (some consumer) s)
unfolding cycle
cycle-Ends runner consumer s =
    let (received, s') = consumer.receive s in
    finish-Ends runner consumer received s' (run_batch runner batch_size s') refl
