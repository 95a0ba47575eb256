-- ===== src/Postgres/System/Guarantees.antt =====
-- internal/postgres/queue.go: what a worker learns from a claim that it is handed.
use p3_relay.Prelude.{
  ℕ, ◌+◌, ◌*◌, ◌≤◌, ◌<◌, ◌≡◌, refl, Bool, true, Option, none, some, Bytes, bytes_eq_refl, All,
  arith, subst,
}
use p3_relay.Errors.{Result, ok, err, Reply, fine, refused, lost}
use p3_relay.Identifier.{new_uuid}
use p3_relay.Delivery.{ClaimedEvent}
use p3_relay.Table.{find, Unique}
use p3_relay.Table.Rows.{find-All}
use p3_relay.Postgres.{Db, EventRow, event_key, day, timestamptz}
use p3_relay.Postgres.Queue.{
  holds_claim, claim, claim_identified, claimed_event, returned, leased, candidate, after_claim,
  is_eligible,
}
use p3_relay.Postgres.Queue.Claimed.{candidate_sound}
use p3_relay.Postgres.System.{System, Reach, migrated}
use p3_relay.Postgres.System.Invariant.{IsSound, leased-IsSound}
use p3_relay.Postgres.System.Claims.{find-leased}
use p3_relay.Postgres.System.Reachable.{Reach-IsConsistent, migrated-IsConsistent}

-- What a worker learns from the claim that it is handed.
pub record IsUsable (db : Db) (now : ℕ) (c : ClaimedEvent) : Type 0 where
  pub attempt_pos : 1 ≤ c.attempt_number
  pub attempt_le : c.attempt_number ≤ 8
  pub replay_le : c.replay_number ≤ 16
  pub young : now * 1000 < c.created_at + day * 1000
  pub held : (r : EventRow) × (find event_key c.id db.events ≡ some r) × (holds_claim c r ≡ true)

leased_holds :
    (claim_id : Bytes) (lease_end : ℕ) (r : EventRow)
    → holds_claim
        (claimed_event claim_id (leased claim_id lease_end r))
        (leased claim_id lease_end r)
      ≡ true
leased_holds claim_id lease_end r = ground (arith, bytes_eq_refl r.id, bytes_eq_refl claim_id)

leased-young :
    (now : ℕ) (db : Db) (r : EventRow)
    → is_eligible now db.sessions r ≡ true
    → now < r.created_at + day
unfolding is_eligible
leased-young now db r fit = ground arith

leased-attempt_pos :
    (claim_id : Bytes) (now lease_end : ℕ) (db : Db) (r : EventRow)
    → IsSound r
    → is_eligible now db.sessions r ≡ true
    → 1 ≤ (leased claim_id lease_end r).attempt_count
unfolding is_eligible
leased-attempt_pos claim_id now lease_end db r h fit = ground arith

identified-IsUsable :
    (db : Db) (made : Result Bytes) (reply : Reply) (locked : Bytes → Bool) (now lease : ℕ)
    (c : ClaimedEvent)
    → All IsSound db.events
    → Unique event_key db.events
    → (claim_identified made reply locked now lease db).0 ≡ ok (some c)
    → IsUsable (claim_identified made reply locked now lease db).1 (timestamptz now) c
identified-IsUsable db (err e) reply locked now lease c sound u h = cc
identified-IsUsable db (ok id) refused locked now lease c sound u h = cc
identified-IsUsable db (ok id) lost locked now lease c sound u h = cc
identified-IsUsable db (ok id) fine locked now lease c sound u h =
    usable (candidate locked (timestamptz now) db.sessions db.events) refl h
  where
    usable :
        (found : Option EventRow)
        → candidate locked (timestamptz now) db.sessions db.events ≡ found
        → ok (returned id (timestamptz (now + lease)) found) ≡ ok (some c)
        → IsUsable
            (after_claim locked id (timestamptz now) (timestamptz (now + lease)) db)
            (timestamptz now)
            c
    usable none e h = cc
    usable (some r) e h =
        let (found, fit, _) =
          candidate_sound locked (timestamptz now) db.sessions db.events r u e in
        let good = find-All IsSound event_key r.id db.events r sound found in
        let row =
          leased-IsSound id (timestamptz now) (timestamptz (now + lease)) db.sessions r fit good in
        let same : claimed_event id (leased id (timestamptz (now + lease)) r) ≡ c = cc in
        let young = leased-young (timestamptz now) db r fit in
        subst (IsUsable _ (timestamptz now)) same (record {
          attempt_pos =
              leased-attempt_pos id (timestamptz now) (timestamptz (now + lease)) db r good fit;
          attempt_le = row.attempts_bounded;
          replay_le = row.replays_bounded;
          young = omega arith;
          held = (
            leased id (timestamptz (now + lease)) r,
            find-leased locked id (timestamptz now) (timestamptz (now + lease)) db r u e,
            leased_holds id (timestamptz (now + lease)) r,
          );
        })

-- A claim that a worker is handed has an attempt number from 1 to 8 and a replay number up to 16,
-- is of an event younger than 24 hours, and is held by the event's row when the call returns.
pub claim-IsUsable :
    {s : System} {hour : ℕ} (reply : Reply) (random : Option Bytes) (locked : Bytes → Bool)
    (now lease : ℕ) (c : ClaimedEvent)
    → Reach (migrated hour) s
    → (claim reply random locked now lease s.db).0 ≡ ok (some c)
    → IsUsable (claim reply random locked now lease s.db).1 (timestamptz now) c
unfolding claim
claim-IsUsable {s} {hour} reply random locked now lease c reach h =
    let safe = Reach-IsConsistent reach (migrated-IsConsistent hour) in
    identified-IsUsable s.db (new_uuid random) reply locked now lease c safe.sound safe.unique h
