-- ===== src/Tests/Stores.antt =====
-- Acceptance, replays and the dashboard's queries.
use p3_relay.Prelude.{◌≡◌, refl, ◌↔◌, none, [], ◌∷◌, codes, bytes_eq}
use p3_relay.Errors.{ok, fine}
use p3_relay.Table.{find}
use p3_relay.Postgres.{Db, EventRow, dead_lettered, event_checks}
use p3_relay.Postgres.Store.{Receipt, accept}
use p3_relay.Postgres.Store.Idempotency.{IsRepeat}
use p3_relay.Postgres.Replay.{replay}
use p3_relay.Postgres.Replay.Exact.{MayReplay, replay_exact}
use p3_relay.Postgres.System.{migrated}
use p3_relay.Tests.{zeros, event_id, other_id, demo_receipt}

abbrev again : Receipt
again = record demo_receipt { id = other_id }

abbrev changed : Receipt
changed = record demo_receipt { id = other_id; body_sha256 = 1 ∷ zeros 31 }

abbrev first_db : Db
first_db = (accept fine fine none 5 (migrated 0).db demo_receipt).db

again-IsRepeat : IsRepeat demo_receipt again
unfolding event_checks
again-IsRepeat = record { source = refl; event = refl; storable = λ clock. refl }

changed-IsRepeat : IsRepeat demo_receipt changed
unfolding event_checks
changed-IsRepeat = record { source = refl; event = refl; storable = λ clock. refl }

abbrev dead_row : EventRow
dead_row = record {
  id = event_id;
  source_key = codes "demo";
  external_event_id = codes "order-1";
  body = codes "[]";
  body_sha256 = zeros 32;
  destination_url = codes "https://receiver.test/hook";
  state = dead_lettered;
  attempt_count = 8;
  replay_count = 3;
  next_attempt_at = 5;
  lease_expires_at = none;
  claim_id = none;
  created_at = 5;
  delivered_at = none;
  sandbox_id = none;
}

abbrev dead_db : Db
dead_db = record { events = dead_row ∷ []; attempts = []; sessions = [] }

replay_exact_example :
    ((replay fine fine none 7 dead_db event_id (codes "demo")).result ≡ ok tt)
    ↔ MayReplay (codes "demo") dead_row
unfolding find bytes_eq
replay_exact_example = replay_exact none 7 dead_db event_id (codes "demo") dead_row (refl, tt) refl
