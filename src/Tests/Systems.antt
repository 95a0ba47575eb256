-- ===== src/Tests/Systems.antt =====
-- One event's way through the database: accepted, claimed, abandoned, claimed again, recorded.
use mathlib.Core.List.{Memᴰ}
use p3_relay.Prelude.{
  ◌≡◌, ◌≢◌, refl, inr, Bool, true, false, none, some, [], ◌∷◌, Bytes, arith, bytes_eq, subst, sym,
  ap,
}
use p3_relay.Hex.{hex_digit}
use p3_relay.Errors.{Result, ok, ok-injective, fine}
use p3_relay.Delivery.{ClaimedEvent, Attempt, retryable_http, minute}
use p3_relay.Identifier.{new_uuid, format_uuid}
use p3_relay.Table.{find, exists, update, order_by}
use p3_relay.Postgres.{Db, EventRow, event_key, event_checks, attempt_checks, timestamptz}
use p3_relay.Postgres.Store.{accept, new_event}
use p3_relay.Postgres.Queue.{claim, record_attempt, recorded, holds_claim, leased, claimed_event}
use p3_relay.Postgres.System.{
  System, accepts, claims, Reach, here, next, hand_out, migrated, IsFresh,
}
use p3_relay.Postgres.System.Columns.Constraints.{
  IsWellFormed, Reach-IsWellFormed, migrated-IsWellFormed,
}
use p3_relay.Postgres.System.Reachable.{
  Reach-IsConsistent, migrated-IsConsistent, all_fine, record_attempt-stored,
}
use p3_relay.Postgres.System.Guarantees.{IsUsable, claim-IsUsable}
use p3_relay.Postgres.System.Once.{
  IsRefused, record_attempt-once, claim-supersedes, record_attempt-unstorable,
}
use p3_relay.Postgres.System.Contract.{Step-Follows, Fate}
use p3_relay.Tests.{zeros, event_id, other_id, demo_receipt}

abbrev pub unlocked : Bytes → Bool
unlocked id = false

abbrev pub accepted : System
accepted = record (migrated 0) { db = (accept fine fine none 5 (migrated 0).db demo_receipt).db }

-- The row as the acceptance leaves it, and as the two claims do.
abbrev pub new_row : EventRow
new_row = new_event demo_receipt 5

abbrev first_id : Bytes
first_id = format_uuid (zeros 16)

abbrev pub first_row : EventRow
first_row = leased first_id 60000009 new_row

abbrev pub first_claim : ClaimedEvent
first_claim = claimed_event first_id first_row

abbrev pub claimed : System
claimed = record accepted {
  db = (claim fine (some (zeros 16)) unlocked 9000 minute accepted.db).1;
  issued =
      hand_out (claim fine (some (zeros 16)) unlocked 9000 minute accepted.db).0 accepted.issued;
}

pub accepted-Reach : Reach (migrated 0) accepted
accepted-Reach = next here (accepts fine fine none 5 demo_receipt)

pub claimed-Reach : Reach (migrated 0) claimed
claimed-Reach =
    next accepted-Reach (claims fine (some (zeros 16)) unlocked 9000 minute (λ claim_id made. tt))

Reach-IsWellFormed_example : IsWellFormed claimed
Reach-IsWellFormed_example = Reach-IsWellFormed claimed-Reach (migrated-IsWellFormed 0)

pub first_handed :
    (claim fine (some (zeros 16)) unlocked 9000 minute accepted.db).0 ≡ ok (some first_claim)
unfolding claim accept event_checks new_uuid order_by exists find
first_handed = refl

first_found : find event_key event_id claimed.db.events ≡ some first_row
unfolding claim accept event_checks new_uuid order_by exists find update bytes_eq
first_found = refl

first_held : holds_claim first_claim first_row ≡ true
unfolding bytes_eq format_uuid hex_digit
first_held = refl

first_issued : Memᴰ first_claim claimed.issued
first_issued =
    subst (λ handed. Memᴰ first_claim (hand_out handed accepted.issued)) (sym first_handed)
      (Memᴰ.head refl)

abbrev pub busy_attempt : Attempt
busy_attempt = record {
  id = other_id;
  started_at = 10000;
  finished_at = 12000;
  outcome = retryable_http;
  status_code = some 503;
  response_excerpt = [];
  error_code = none;
  next_attempt_at = 5000012000;
}

claim-IsUsable_example :
    IsUsable
      (claim fine (some (zeros 16)) unlocked 9000 minute accepted.db).1
      (timestamptz 9000)
      first_claim
claim-IsUsable_example =
    claim-IsUsable fine (some (zeros 16)) unlocked 9000 minute first_claim accepted-Reach
      first_handed

record_attempt-stored_example :
    record_attempt all_fine first_claim busy_attempt claimed.db
    ≡ (ok tt, recorded first_claim busy_attempt claimed.db)
unfolding attempt_checks claim accept event_checks new_uuid order_by exists find
record_attempt-stored_example =
    record_attempt-stored first_claim busy_attempt first_row claimed-Reach first_issued first_found
      first_held refl refl

first_stored :
    record_attempt all_fine first_claim busy_attempt claimed.db
    ≡ (ok tt, recorded first_claim busy_attempt claimed.db)
unfolding attempt_checks claim accept event_checks new_uuid order_by exists find
first_stored =
    record_attempt-stored first_claim busy_attempt first_row claimed-Reach first_issued first_found
      first_held refl refl

record_attempt-once_example :
    IsRefused
      (record_attempt all_fine first_claim busy_attempt
        (record_attempt all_fine first_claim busy_attempt claimed.db).1)
      (record_attempt all_fine first_claim busy_attempt claimed.db).1
record_attempt-once_example =
    record_attempt-once all_fine all_fine first_claim busy_attempt busy_attempt claimed.db
      (ap (λ (o : Result (Unit {0}) × Db). o.0) first_stored)

-- The lease runs out after a minute, and another worker claims the event.
abbrev pub second_random : Bytes
second_random = 1 ∷ zeros 15

abbrev pub second_claim : ClaimedEvent
second_claim =
    claimed_event (format_uuid second_random)
      (leased (format_uuid second_random) 121000000 first_row)

ids_differ : first_id ≢ format_uuid second_random
unfolding format_uuid hex_digit bytes_eq
ids_differ h = let apart : true ≡ false = ap (bytes_eq first_id) h in cc

second-IsFresh :
    (claim_id : Bytes)
    → new_uuid (some second_random) ≡ ok claim_id
    → IsFresh claim_id claimed.issued
unfolding new_uuid
second-IsFresh claim_id made =
    subst (λ handed. IsFresh claim_id (hand_out handed accepted.issued)) (sym first_handed)
      (subst (λ id. first_id ≢ id) (ok-injective made) ids_differ, tt)

second_handed :
    (claim fine (some second_random) unlocked 61000000000 minute claimed.db).0
    ≡ ok (some second_claim)
unfolding claim accept event_checks new_uuid order_by exists find update bytes_eq
second_handed = refl

claim-supersedes_example :
    IsRefused
      (record_attempt all_fine first_claim busy_attempt
        (claim fine (some second_random) unlocked 61000000000 minute claimed.db).1)
      (claim fine (some second_random) unlocked 61000000000 minute claimed.db).1
claim-supersedes_example =
    claim-supersedes fine (some second_random) unlocked 61000000000 minute all_fine first_claim
      second_claim busy_attempt claimed-Reach second-IsFresh first_issued second_handed refl

record_attempt-unstorable_example :
    IsRefused
      (record_attempt all_fine first_claim
        (record busy_attempt { status_code = some 999 })
        claimed.db)
      claimed.db
record_attempt-unstorable_example =
    record_attempt-unstorable all_fine first_claim (record busy_attempt { status_code = some 999 })
      claimed.db 999 refl (inr (omega arith))

Step-Follows_example : Fate accepted claimed event_id new_row
unfolding accept event_checks exists find bytes_eq
Step-Follows_example =
    Step-Follows event_id new_row (Reach-IsConsistent accepted-Reach (migrated-IsConsistent 0))
      (claims fine (some (zeros 16)) unlocked 9000 minute (λ claim_id made. tt)) refl
