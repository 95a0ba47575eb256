-- ===== src/Postgres/System/Once.antt =====
-- internal/postgres/queue.go: recordings under claims that are stale or used up.
use mathlib.Core.List.{Memᴰ}
use p3_relay.Prelude.{
  ℕ, ◌+◌, ◌<◌, ◌≡◌, ◌≢◌, refl, ◌⊎◌, inl, inr, Bool, true, false, Option, none, some, List, [], ◌∷◌,
  Bytes, bytes_eq_iff, arith, ap, ◌∙◌, Bool-cases, count,
}
use p3_relay.Errors.{Result, ok, err, Reply, fine, refused, lost}
use p3_relay.Identifier.{new_uuid}
use p3_relay.Delivery.{ClaimedEvent, Attempt}
use p3_relay.Table.{find, update, Unique}
use p3_relay.Table.Laws.{hits, count-key, find-key}
use p3_relay.Postgres.{Db, EventRow, event_key, timestamptz, attempt_checks, attempt_fits}
use p3_relay.Postgres.Queue.{
  record_attempt, recorded, holds_claim, completed, record_state, Replies, claim, claim_identified,
  claimed_event, returned, leased, candidate,
}
use p3_relay.Postgres.System.{System, Reach, next, claims, IsFresh, migrated}
use p3_relay.Postgres.System.Invariant.{holds_claim-row}
use p3_relay.Postgres.System.Records.{holds}
use p3_relay.Postgres.System.Reachable.{Reach-IsConsistent, migrated-IsConsistent, All-mem}
use p3_relay.Postgres.System.Guarantees.{claim-IsUsable}

-- A recording that fails and leaves no trace.
abbrev pub IsRefused : Result (Unit {0}) × Db → Db → Type 0
IsRefused outcome db = (outcome.0 ≢ ok tt) × (outcome.1 ≡ db)

count-update_none :
    {A : Type 0} (p : A → Bool) (set : A → A) (rows : List A)
    → ((r : A) → p (set r) ≡ false)
    → count p (update p set rows) ≡ 0
unfolding update
count-update_none p set [] h = refl
count-update_none p set (r ∷ rows) h = elim (Bool-cases (p r)) [
  | inl hit ↦ rw hit (rw (h r) (count-update_none p set rows h))
  | inr miss ↦ rw miss (rw miss (count-update_none p set rows h))
]

unmatched :
    (replies : Replies) (c : ClaimedEvent) (attempt : Attempt) (db : Db)
    → count (holds_claim c) db.events ≡ 0
    → IsRefused (record_attempt replies c attempt db) db
unfolding record_attempt
unmatched replies c attempt db h = ground arith

completed-not-held :
    (c : ClaimedEvent) (attempt : Attempt) (r : EventRow)
    → holds_claim c (completed (record_state c attempt) attempt r) ≡ false
unfolding record_state
completed-not-held c attempt r = ground arith

success-db :
    (replies : Replies) (c : ClaimedEvent) (attempt : Attempt) (db : Db)
    → (record_attempt replies c attempt db).0 ≡ ok tt
    → (record_attempt replies c attempt db).1 ≡ recorded c attempt db
unfolding record_attempt
success-db replies c attempt db h = ground arith

recorded-not-held :
    (c : ClaimedEvent) (attempt : Attempt) (db : Db)
    → count (holds_claim c) (recorded c attempt db).events ≡ 0
unfolding recorded
recorded-not-held c attempt db =
    count-update_none (holds_claim c) _ db.events (completed-not-held c attempt)

-- A successful recording uses the claim up: every later recording under the same claim, with any
-- attempt and any replies, fails and leaves the database as it was.
pub record_attempt-once :
    (replies again : Replies) (c : ClaimedEvent) (attempt second : Attempt) (db : Db)
    → (record_attempt replies c attempt db).0 ≡ ok tt
    → IsRefused
        (record_attempt again c second (record_attempt replies c attempt db).1)
        (record_attempt replies c attempt db).1
record_attempt-once replies again c attempt second db h = unmatched again c second _ (
    ap (λ (d : Db). count (holds_claim c) d.events) (success-db replies c attempt db h)
    ∙ recorded-not-held c attempt db)

count-not_held :
    (c : ClaimedEvent) (r : EventRow) (events : List EventRow)
    → Unique event_key events
    → find event_key c.id events ≡ some r
    → holds_claim c r ≡ false
    → count (holds_claim c) events ≡ 0
count-not_held c r events u found free =
    count-key event_key c.id (holds c) events u
    ∙ ap (hits (holds c)) found
    ∙ ground (arith, bytes_eq_iff r.id c.id, find-key event_key c.id events r found)

-- A worker whose claim the event's row no longer holds cannot record: the call fails and leaves
-- the database as it was.
pub record_attempt-stale :
    {s : System} {hour : ℕ} (replies : Replies) (c : ClaimedEvent) (attempt : Attempt)
    (r : EventRow)
    → Reach (migrated hour) s
    → find event_key c.id s.db.events ≡ some r
    → holds_claim c r ≡ false
    → IsRefused (record_attempt replies c attempt s.db) s.db
record_attempt-stale {s} {hour} replies c attempt r reach found lost_it =
    unmatched replies c attempt s.db (
      count-not_held c r s.db.events (Reach-IsConsistent reach (migrated-IsConsistent hour)).unique
        found lost_it)

other_claim :
    (old new : ClaimedEvent) (r : EventRow)
    → holds_claim new r ≡ true
    → old.claim_id ≢ new.claim_id
    → holds_claim old r ≡ false
other_claim old new r held differ = elim (Bool-cases (holds_claim old r)) [
  | inr free ↦ free
  | inl both ↦
      let (_, _, first) = holds_claim-row old r both in
      let (_, _, second) = holds_claim-row new r held in
      let same : old.claim_id ≡ new.claim_id = cc in absurd (differ same)
]

identified-claim_id :
    (db : Db) (made : Result Bytes) (reply : Reply) (locked : Bytes → Bool) (now lease : ℕ)
    (c : ClaimedEvent)
    → (claim_identified made reply locked now lease db).0 ≡ ok (some c)
    → made ≡ ok c.claim_id
identified-claim_id db (err e) reply locked now lease c h = cc
identified-claim_id db (ok id) refused locked now lease c h = cc
identified-claim_id db (ok id) lost locked now lease c h = cc
identified-claim_id db (ok id) fine locked now lease c h =
    returned_id (candidate locked (timestamptz now) db.sessions db.events) h
  where
    returned_id :
        (found : Option EventRow)
        → ok (returned id (timestamptz (now + lease)) found) ≡ ok (some c)
        → ok id ≡ ok c.claim_id
    returned_id none e = cc
    returned_id (some r) e =
        let same : claimed_event id (leased id (timestamptz (now + lease)) r) ≡ c = cc in
        ap (λ (x : ClaimedEvent). ok x.claim_id) same

claim-claim_id :
    (db : Db) (reply : Reply) (random : Option Bytes) (locked : Bytes → Bool) (now lease : ℕ)
    (c : ClaimedEvent)
    → (claim reply random locked now lease db).0 ≡ ok (some c)
    → new_uuid random ≡ ok c.claim_id
unfolding claim
claim-claim_id db reply random locked now lease c h =
    identified-claim_id db (new_uuid random) reply locked now lease c h

-- Once an event was handed out anew, a worker with an earlier claim of it cannot record: the call
-- fails and leaves the database as it was. The new claim's identifier is one not handed out before.
pub claim-supersedes :
    {s : System} {hour : ℕ} (reply : Reply) (random : Option Bytes) (locked : Bytes → Bool)
    (now lease : ℕ) (replies : Replies) (old new : ClaimedEvent) (attempt : Attempt)
    → Reach (migrated hour) s
    → ((claim_id : Bytes) → new_uuid random ≡ ok claim_id → IsFresh claim_id s.issued)
    → Memᴰ old s.issued
    → (claim reply random locked now lease s.db).0 ≡ ok (some new)
    → old.id ≡ new.id
    → let db = (claim reply random locked now lease s.db).1 in
      IsRefused (record_attempt replies old attempt db) db
claim-supersedes {s} {hour} reply random locked now lease replies old new attempt reach fresh issued
      handed same =
    let usable = claim-IsUsable reply random locked now lease new reach handed in
    let (r, found, held) = usable.held in
    let id = claim-claim_id s.db reply random locked now lease new handed in
    let differ = All-mem _ old s.issued (fresh new.claim_id id) issued in
    let step = claims reply random locked now lease fresh in
    record_attempt-stale replies old attempt r (next reach step)
      (ap (λ k. find event_key k (claim reply random locked now lease s.db).1.events) same ∙ found)
      (other_claim old new r held differ)

-- The table of attempts takes no status outside 100 to 599: such an attempt is not recorded, and
-- the event keeps its claim.
pub record_attempt-unstorable :
    (replies : Replies) (c : ClaimedEvent) (attempt : Attempt) (db : Db) (status : ℕ)
    → attempt.status_code ≡ some status
    → (status < 100) ⊎ (599 < status)
    → IsRefused (record_attempt replies c attempt db) db
unfolding record_attempt attempt_fits attempt_checks
record_attempt-unstorable replies c attempt db status code out = ground arith
