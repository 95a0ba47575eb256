-- ===== src/Commands/Worker/Rounds.antt =====
-- cmd/worker/main.go: the rounds of the loop.
use p3_relay.Prelude.{ℕ, suc, ◌+◌, ◌≡◌, Option, List, [], ◌∷◌, length, arith, ap, ◌∙◌}
use p3_relay.Errors.{Error}
use p3_relay.Notification.Cycle.{Runner, Consumer, cycle}
use p3_relay.Commands.{cleanups}
use p3_relay.Commands.Worker.{main_cycles, housekeep, next_due}

module _ {S : Type 0} (runner : Runner S) (consumer : Option (Consumer S))
    (cleanup : S → Option Error × S) where
  -- Two counters of the state: of the cleanups, which a cycle leaves alone, and of the cycles,
  -- which a cleanup leaves alone.
  pub record Counts (cleaned cycled : S → ℕ) : Type 0 where
    pub cleanup_counts : (s : S) → cleaned (cleanup s).1 ≡ suc (cleaned s)
    pub cleanup_keeps : (s : S) → cycled (cleanup s).1 ≡ cycled s
    pub cycle_counts : (s : S) → cycled (cycle runner consumer s).1 ≡ suc (cycled s)
    pub cycle_keeps : (s : S) → cleaned (cycle runner consumer s).1 ≡ cleaned s

  module _ (cleaned cycled : S → ℕ) (counts : Counts cleaned cycled) where
    housekeep-cycled :
        (due now : ℕ) (s : S) → cycled (housekeep runner consumer cleanup due now s) ≡ cycled s
    housekeep-cycled due now s = ground (arith, counts.cleanup_keeps s)

    housekeep-cleaned :
        (due now : ℕ) (rounds : List ℕ) (s : S)
        → cleaned (housekeep runner consumer cleanup due now s)
            + length (cleanups (next_due runner consumer cleanup due now) rounds)
          ≡ cleaned s + length (cleanups due (now ∷ rounds))
    unfolding cleanups
    housekeep-cleaned due now rounds s = ground (arith, counts.cleanup_counts s)

    -- Whatever fails in a round, the worker goes on: each round runs exactly one cycle, and the
    -- cleanups that take place are those of the schedule.
    pub main_cycles-Counted :
        (due : ℕ) (rounds : List ℕ) (s : S)
        → (cycled (main_cycles runner consumer cleanup due rounds s) ≡ cycled s + length rounds)
          × (cleaned (main_cycles runner consumer cleanup due rounds s)
              ≡ cleaned s + length (cleanups due rounds))
    unfolding main_cycles cleanups
    main_cycles-Counted due [] s = (omega arith, omega arith)
    main_cycles-Counted due (now ∷ rounds) s =
        let kept = housekeep runner consumer cleanup due now s in
        let next = (cycle runner consumer kept).1 in
        let (cycles, cleans) =
          main_cycles-Counted (next_due runner consumer cleanup due now) rounds next in
        (
          omega (arith, cycles, counts.cycle_counts kept, housekeep-cycled due now s),
          cleans
              ∙ ap (λ n. n + length (cleanups (next_due runner consumer cleanup due now) rounds))
                  (counts.cycle_keeps kept)
              ∙ housekeep-cleaned due now rounds s,
        )
