-- ===== src/Postgres/System/Reachable.antt =====
-- The invariant over every history, and what follows for claims and for recording.
use mathlib.Core.List.{Memᴰ}
use p3_relay.Prelude.{
  ℕ, ◌≡◌, inl, inr, true, false, some, List, [], ◌∷◌, bytes_eq, bytes_eq→eq, All, arith, subst, sym,
  ap, ◌∙◌, Bool-cases, count,
}
use p3_relay.Errors.{ok, fine}
use p3_relay.Delivery.{ClaimedEvent, Attempt}
use p3_relay.Table.{find, Unique, exists}
use p3_relay.Table.Laws.{hits, count-key}
use p3_relay.Table.Rows.{exists-All}
use p3_relay.Postgres.{EventRow, event_key, attempt_fits, attempt_checks, same_attempt}
use p3_relay.Postgres.Queue.{record_attempt, recorded, holds_claim, attempt_row, Replies}
use p3_relay.Postgres.System.{
  System, Step, accepts, replays, claims, records, creates, submits, repeats, cleans, Reach, here,
  next, migrated,
}
use p3_relay.Postgres.System.Invariant.{
  OnRow, IsBehind, Agrees, IsCounted, IsCurrent, IsConsistent, holds_claim-row,
}
use p3_relay.Postgres.System.Accepts.{accept-IsConsistent, replay-IsConsistent}
use p3_relay.Postgres.System.Claims.{claim-IsConsistent}
use p3_relay.Postgres.System.Visits.{create-IsConsistent, submit-IsConsistent}
use p3_relay.Postgres.System.Repeats.{sandbox_replay-IsConsistent}
use p3_relay.Postgres.System.Cleaning.{cleanup-IsConsistent}
use p3_relay.Postgres.System.Records.{record_attempt-db, recorded-IsConsistent, holds}

pub All-mem : {A : Type 0} (P : A → Type 0) (x : A) (xs : List A) → All P xs → Memᴰ x xs → P x
All-mem P x [] h m = elim m [ ]
All-mem P x (y ∷ xs) h (Memᴰ.head e) = subst P (sym e) h.0
All-mem P x (y ∷ xs) h (Memᴰ.tail m) = All-mem P x xs h.1 m

Step-IsConsistent : {s t : System} → Step s t → IsConsistent s → IsConsistent t
Step-IsConsistent {s} (accepts r₁ r₂ publisher clock receipt) h =
    accept-IsConsistent s r₁ r₂ publisher clock receipt h
Step-IsConsistent {s} (replays r₁ r₂ publisher clock event_id source_key) h =
    replay-IsConsistent s r₁ r₂ publisher clock event_id source_key h
Step-IsConsistent {s} (claims reply random locked now lease fresh) h =
    claim-IsConsistent s reply random locked now lease fresh h
Step-IsConsistent {s} (records replies claimed attempt issued) h =
    elim (record_attempt-db replies claimed attempt s.db) [
      | inl same ↦ subst (λ db. IsConsistent (record s { db = db })) (sym same) h
      | inr (one, fits, new) ↦
          subst (λ db. IsConsistent (record s { db = db })) (sym new)
            (recorded-IsConsistent s claimed attempt h (All-mem _ claimed s.issued h.current issued)
              one)
    ]
Step-IsConsistent {s} (creates replies times id expiry) h =
    create-IsConsistent s replies times id expiry h
Step-IsConsistent {s} (submits sha256 replies times random publisher owner scenario) h =
    submit-IsConsistent s sha256 replies times random publisher owner scenario h
Step-IsConsistent {s} (repeats replies times publisher owner id) h =
    sandbox_replay-IsConsistent s replies times publisher owner id h
Step-IsConsistent {s} (cleans replies times locked) h =
    cleanup-IsConsistent s replies times locked h

-- Whatever calls the processes make, in whatever order and with whatever replies of the database:
-- every event row passes the table's checks and has at most eight attempts and sixteen replays, no
-- two share an identifier, every recorded attempt lies behind its event's row, and a row that
-- holds a claim still has the numbers of that claim.
pub Reach-IsConsistent : {s t : System} → Reach s t → IsConsistent s → IsConsistent t
Reach-IsConsistent here h = h
Reach-IsConsistent (next r step) h = Step-IsConsistent step (Reach-IsConsistent r h)

pub migrated-IsConsistent : (hour : ℕ) → IsConsistent (migrated hour)
migrated-IsConsistent hour = record { sound = tt; unique = tt; counted = tt; current = tt }

abbrev pub all_fine : Replies
all_fine = record { begin = fine; update = fine; insert = fine; commit = fine }

pub count_held :
    (c : ClaimedEvent) (r : EventRow) (events : List EventRow)
    → Unique event_key events
    → find event_key c.id events ≡ some r
    → holds_claim c r ≡ true
    → count (holds_claim c) events ≡ 1
count_held c r events u found held =
    count-key event_key c.id (holds c) events u ∙ ap (hits (holds c)) found ∙ ground arith

-- No recorded attempt has the numbers of a claim that its event's row still holds.
no_duplicate :
    (s : System) (c : ClaimedEvent) (attempt : Attempt) (r : EventRow)
    → IsConsistent s
    → IsCurrent s.db.events c
    → find event_key c.id s.db.events ≡ some r
    → holds_claim c r ≡ true
    → exists (same_attempt (attempt_row c attempt)) s.db.attempts ≡ false
no_duplicate s c attempt r h now found held =
    elim (Bool-cases (exists (same_attempt (attempt_row c attempt)) s.db.attempts)) [
      | inr fresh ↦ fresh
      | inl twice ↦
          let (b, same, counted) =
            exists-All (IsCounted s.db.events) _ s.db.attempts h.counted twice in
          let agrees = subst (OnRow (Agrees c) Unit) found now in
          let event : b.event_id ≡ c.id = bytes_eq→eq b.event_id c.id (ground arith) in
          let behind =
            subst (OnRow (IsBehind b) ⊥) (ap (λ k. find event_key k s.db.events) event ∙ found)
              counted in
          absurd (ground (arith, holds_claim-row c r held))
    ]

-- While its event's row holds a claim, an attempt under that claim is recorded: if it passes the
-- checks of its own columns, has a new identifier, and every statement is answered, the
-- transaction commits. The unique triple of event, replay and attempt never stands in the way.
pub record_attempt-stored :
    {s : System} {hour : ℕ} (c : ClaimedEvent) (attempt : Attempt) (r : EventRow)
    → Reach (migrated hour) s
    → Memᴰ c s.issued
    → find event_key c.id s.db.events ≡ some r
    → holds_claim c r ≡ true
    → attempt_checks (attempt_row c attempt) ≡ true
    → exists (λ b. bytes_eq b.id attempt.id) s.db.attempts ≡ false
    → record_attempt all_fine c attempt s.db ≡ (ok tt, recorded c attempt s.db)
unfolding record_attempt attempt_fits
record_attempt-stored {s} {hour} c attempt r reach issued found held checks new =
    let h = Reach-IsConsistent reach (migrated-IsConsistent hour) in
    let one = count_held c r s.db.events h.unique found held in
    let single = no_duplicate s c attempt r h (All-mem _ c s.issued h.current issued) found held in
    rw one (rw (checks, new, single, found))
