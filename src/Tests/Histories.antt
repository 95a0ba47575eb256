-- ===== src/Tests/Histories.antt =====
-- Histories of an operator's and a visitor's event, and a receipt of the API on the tables.
use p3_relay.Prelude.{
  ◌+◌, ◌*◌, ◌≤◌, ◌≡◌, ◌≢◌, refl, true, none, some, codes, arith, bytes_eq, has_prefix,
}
use p3_relay.Hex.{hex_digit}
use p3_relay.Errors.{ok, fine}
use p3_relay.Delivery.{minute}
use p3_relay.Delivery.Worker.{run_once}
use p3_relay.Identifier.{new_uuid, format_uuid}
use p3_relay.Table.{find, exists, update, order_by}
use p3_relay.Postgres.{EventRow, event_key, event_checks, attempt_checks}
use p3_relay.Postgres.Store.{Receipt, accept}
use p3_relay.Postgres.Queue.{attempt_row}
use p3_relay.Postgres.System.{tables_of}
use p3_relay.Prelude.{◌++◌, [], ◌∷◌}
use p3_relay.Postgres.Store.Ledger.{ledger}
use p3_relay.Postgres.Store.Ledger.Refinement.{Refines, is_troubled, hints, accept-Refines}
use p3_relay.Postgres.Queue.{claim, holds_claim}
use p3_relay.Postgres.System.{accepts, claims, Reach, here, next, migrated}
use p3_relay.Postgres.System.Reachable.{Reach-IsConsistent, migrated-IsConsistent, all_fine}
use p3_relay.Postgres.System.Attempts.{starts, starts-le}
use p3_relay.Postgres.System.Exclusive.{begins, continues, claim-IsExclusive}
use p3_relay.Postgres.System.Strangers.{operator, IsHidden, stranger-IsHidden}
use p3_relay.Postgres.System.Unrepeated.{IsUnrepeatable}
use p3_relay.Postgres.System.Working.{Meeting, tables_worker, IsSettled, run_once-Records}
use p3_relay.Sandbox.{valid_scenario}
use p3_relay.Sandbox.Store.{create, session_fits}
use p3_relay.Sandbox.Store.Submission.{submit, simulated_event, simulated_body, event_fits}
use p3_relay.Tests.{zeros, constant_sha256, event_id, other_id, demo_receipt}
use p3_relay.Tests.Systems.{
  unlocked, accepted, new_row, first_claim, claimed, accepted-Reach, first_handed, busy_attempt,
  second_random, second_claim,
}
use p3_relay.Tests.Visits.{clock, newcomer, submitted_one, submitted-Reach}

accept-Refines_example :
    let o = accept fine fine none 5 (migrated 0).db demo_receipt in
    Refines
      (is_troubled fine fine 5 (migrated 0).db demo_receipt)
      demo_receipt
      (ledger (migrated 0).db)
      (ledger o.db)
      o.result
    × (o.published ≡ hints none o.result)
accept-Refines_example = accept-Refines none 5 (migrated 0).db demo_receipt fine fine

abbrev first_delivery : Reach accepted claimed
first_delivery =
    next here (claims fine (some (zeros 16)) unlocked 9000 minute (λ claim_id made. tt))

starts-le_example : starts event_id first_delivery + (0 * 8 + 0) ≤ 136
unfolding accept event_checks exists find bytes_eq
starts-le_example =
    starts-le event_id new_row (Reach-IsConsistent accepted-Reach (migrated-IsConsistent 0)) refl
      refl first_delivery

-- Another worker asks for work while the first one's lease runs, after a second receipt.
abbrev other_receipt : Receipt
other_receipt = record demo_receipt { id = other_id; external_event_id = codes "order-2" }

claim-IsExclusive_example :
    let later = record claimed { db = (accept fine fine none 20 claimed.db other_receipt).db } in
    ((r : EventRow) × (find event_key event_id later.db.events ≡ some r)
      × (holds_claim first_claim r ≡ true))
    × ((claim fine (some second_random) unlocked 59000000000 minute later.db).0
        ≢ ok (some second_claim))
claim-IsExclusive_example =
    claim-IsExclusive fine (some (zeros 16)) unlocked 9000 minute first_claim accepted-Reach
      (λ claim_id made. tt) first_handed fine (some second_random) unlocked 59000000000 minute
      second_claim (continues begins (accepts fine fine none 20 other_receipt) tt) (omega arith)
      refl

abbrev demo_meeting : Meeting
demo_meeting = record {
  claim_reply = fine;
  random = some (zeros 16);
  locked = unlocked;
  sends = λ c. busy_attempt;
  replies = all_fine;
}

run_once-Records_example :
    let (outcome, after) = run_once (tables_worker demo_meeting minute) 9000 accepted.db in
    (outcome ≡ ok true)
    × ((r : EventRow) × (find event_key event_id after.events ≡ some r)
        × IsSettled first_claim busy_attempt r)
    × (after.attempts ≡ claimed.db.attempts ++ attempt_row first_claim busy_attempt ∷ [])
unfolding attempt_checks claim accept event_checks new_uuid order_by exists find
run_once-Records_example =
    run_once-Records demo_meeting minute 9000 first_claim accepted-Reach (λ claim_id made. tt) refl
      first_handed refl refl

abbrev simulated_row : EventRow
simulated_row =
    simulated_event constant_sha256 newcomer (codes "success") (format_uuid (zeros 16)) (clock 3)

stranger-IsHidden_example :
    IsHidden (λ text. text) submitted_one.db (format_uuid (zeros 16)) (codes "demo")
    × IsUnrepeatable (tables_of submitted_one) (format_uuid (zeros 16)) (codes "other")
unfolding create submit event_fits session_fits valid_scenario new_uuid event_checks exists find
    update bytes_eq simulated_body has_prefix format_uuid hex_digit
stranger-IsHidden_example =
    stranger-IsHidden {hour = 0} (λ text. text) (format_uuid (zeros 16)) newcomer (codes "demo")
      (codes "other") simulated_row submitted-Reach refl refl (operator refl) (λ h. cc)
