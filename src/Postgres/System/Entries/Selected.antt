-- ===== src/Postgres/System/Entries/Selected.antt =====
-- internal/postgres/store.go: the selection behind a conflict, when other calls ran since the insertion.
use p3_relay.Prelude.{
  ℕ, ◌≡◌, ◌∙◌, refl, sym, true, false, some, codes, has_prefix, bytes_eq, if◌then◌else◌,
}
use p3_relay.Errors.{Result, ok, err, conflict, fine}
use p3_relay.Postgres.{Db}
use p3_relay.Postgres.Store.{Receipt, Accepted, accept_existing}
use p3_relay.Postgres.Store.Ledger.{Entry, ledger}
use p3_relay.Postgres.System.{Reach, System, migrated}
use p3_relay.Postgres.System.Entries.{HasEntry}
use p3_relay.Postgres.System.Entries.Kept.{Reach-HasEntry, ledger-HasEntry}
use p3_relay.Postgres.System.Isolation.{Reach-AllLabelled}
use p3_relay.Postgres.System.Reachable.{Reach-IsConsistent, migrated-IsConsistent}

-- The answer to a receipt whose key has an entry.
abbrev pub answer_of : Receipt → Entry → Result Accepted
answer_of receipt entry =
    if bytes_eq entry.body_sha256 receipt.body_sha256
    then ok (record { id = entry.id; duplicate = true })
    else err conflict

accept_existing-answer_of :
    (receipt : Receipt) (entry : Entry) (db : Db)
    → HasEntry receipt.source_key receipt.external_event_id entry db.events
    → accept_existing fine db receipt ≡ answer_of receipt entry
unfolding accept_existing
accept_existing-answer_of receipt entry db h = rw (h.found, h.id, h.digest) refl

-- Under a key of the operator's that has an entry, the selection gives the same answer after any
-- further calls of other processes as at once.
pub accept_existing-later :
    {s t : System} {hour : ℕ} (receipt : Receipt) (entry : Entry)
    → Reach (migrated hour) s
    → Reach s t
    → has_prefix receipt.source_key (codes "sandbox:") ≡ false
    → ledger s.db receipt.source_key receipt.external_event_id ≡ some entry
    → accept_existing fine t.db receipt ≡ accept_existing fine s.db receipt
accept_existing-later {s} {t} {hour} receipt entry before since outside there =
    let safe = Reach-IsConsistent before (migrated-IsConsistent hour) in
    let now =
      ledger-HasEntry receipt.source_key receipt.external_event_id entry s.db
        (Reach-AllLabelled before tt) outside there in
    let later = Reach-HasEntry receipt.source_key receipt.external_event_id entry safe now since in
    accept_existing-answer_of receipt entry t.db later
    ∙ sym (accept_existing-answer_of receipt entry s.db now)
