-- ===== src/Postgres/System/Exclusive.antt =====
-- internal/postgres/queue.go: what a worker may rely on until its lease ends.
use p3_relay.Prelude.{
  ℕ, ◌+◌, ◌<◌, ◌≡◌, ◌≢◌, refl, true, Bool, Option, none, some, Bytes, bytes_eq_refl, subst, sym, ap,
  ◌∙◌, arith,
}
use p3_relay.Errors.{Result, ok, err, Reply, fine, refused, lost}
use p3_relay.Identifier.{new_uuid}
use p3_relay.Delivery.{ClaimedEvent}
use p3_relay.Table.{find, Unique}
use p3_relay.Postgres.{Db, EventRow, event_key, timestamptz}
use p3_relay.Postgres.Queue.{
  holds_claim, claim, claim_identified, claimed_event, returned, leased, candidate, after_claim,
  is_eligible,
}
use p3_relay.Postgres.Queue.Claimed.{candidate_sound}
use p3_relay.Postgres.System.{System, Step, Reach, next, claims, IsFresh, hand_out, migrated}
use p3_relay.Postgres.System.Claims.{find-leased}
use p3_relay.Postgres.System.Reachable.{Reach-IsConsistent, migrated-IsConsistent}
use p3_relay.Postgres.System.Leases.{IsLeased, IsOthers, Step-keeps, not-eligible}

-- The calls of other processes before the end of a lease, in any order.
pub data During (holder : Bytes) (until : ℕ) (s : System) : System → Type 0 where
  begins : During holder until s s
  continues :
      {t u : System}
      → During holder until s t
      → (step : Step t u) → IsOthers holder until step
      → During holder until s u

pub During-Reach :
    (origin : System) (holder : Bytes) (until : ℕ) {s t : System}
    → Reach origin s
    → During holder until s t
    → Reach origin t
During-Reach origin holder until r begins = r
During-Reach origin holder until r (continues d step others) =
    next (During-Reach origin holder until r d) step

During-keeps :
    (k holder : Bytes) (until : ℕ) (r : EventRow) {hour : ℕ} {s t : System}
    → Reach (migrated hour) s
    → find event_key k s.db.events ≡ some r
    → IsLeased holder until r
    → During holder until s t
    → find event_key k t.db.events ≡ some r
During-keeps k holder until r reach found held begins = found
During-keeps k holder until r {hour} reach found held (continues d step others) =
    Step-keeps k holder until r
      (Reach-IsConsistent (During-Reach (migrated hour) holder until reach d)
        (migrated-IsConsistent hour))
      (During-keeps k holder until r reach found held d) held step others

-- What a claim that is handed out leaves behind its event.
record IsHeld (db : Db) (c : ClaimedEvent) (until : ℕ) : Type 0 where
  row : EventRow
  found : find event_key c.id db.events ≡ some row
  leased : IsLeased c.claim_id until row
  holds : holds_claim c row ≡ true

identified-IsHeld :
    (db : Db) (made : Result Bytes) (reply : Reply) (locked : Bytes → Bool) (now lease : ℕ)
    (c : ClaimedEvent)
    → Unique event_key db.events
    → (claim_identified made reply locked now lease db).0 ≡ ok (some c)
    → IsHeld (claim_identified made reply locked now lease db).1 c (timestamptz (now + lease))
identified-IsHeld db (err e) reply locked now lease c u h = cc
identified-IsHeld db (ok id) refused locked now lease c u h = cc
identified-IsHeld db (ok id) lost locked now lease c u h = cc
identified-IsHeld db (ok id) fine locked now lease c u h =
    held (candidate locked (timestamptz now) db.sessions db.events) refl h
  where
    held :
        (found : Option EventRow)
        → candidate locked (timestamptz now) db.sessions db.events ≡ found
        → ok (returned id (timestamptz (now + lease)) found) ≡ ok (some c)
        → IsHeld
            (after_claim locked id (timestamptz now) (timestamptz (now + lease)) db)
            c
            (timestamptz (now + lease))
    held none e h = cc
    held (some r) e h =
        let same : claimed_event id (leased id (timestamptz (now + lease)) r) ≡ c = cc in
        subst
          (λ x.
            IsHeld (after_claim locked id (timestamptz now) (timestamptz (now + lease)) db) x
              (timestamptz (now + lease)))
          same
          (record {
            row = leased id (timestamptz (now + lease)) r;
            found = find-leased locked id (timestamptz now) (timestamptz (now + lease)) db r u e;
            leased = record { working = refl; claimed = refl; leased_until = refl };
            holds = ground (arith, bytes_eq_refl r.id, bytes_eq_refl id);
          })

claim-IsHeld :
    (db : Db) (reply : Reply) (random : Option Bytes) (locked : Bytes → Bool) (now lease : ℕ)
    (c : ClaimedEvent)
    → Unique event_key db.events
    → (claim reply random locked now lease db).0 ≡ ok (some c)
    → IsHeld (claim reply random locked now lease db).1 c (timestamptz (now + lease))
unfolding claim
claim-IsHeld db reply random locked now lease c u h =
    identified-IsHeld db (new_uuid random) reply locked now lease c u h

-- A claim of another event than one that is leased.
identified-other :
    (k holder : Bytes) (until : ℕ) (r : EventRow) (db : Db) (made : Result Bytes) (reply : Reply)
    (locked : Bytes → Bool) (now lease : ℕ) (c : ClaimedEvent)
    → Unique event_key db.events
    → find event_key k db.events ≡ some r
    → IsLeased holder until r
    → timestamptz now < until
    → c.id ≡ k
    → (claim_identified made reply locked now lease db).0 ≢ ok (some c)
identified-other k holder until r db (err e) reply locked now lease c u found held early same h = cc
identified-other k holder until r db (ok id) refused locked now lease c u found held early same h =
    cc
identified-other k holder until r db (ok id) lost locked now lease c u found held early same h = cc
identified-other k holder until r db (ok id) fine locked now lease c u found held early same h =
    other (candidate locked (timestamptz now) db.sessions db.events) refl h
  where
    other :
        (chosen : Option EventRow)
        → candidate locked (timestamptz now) db.sessions db.events ≡ chosen
        → ok (returned id (timestamptz (now + lease)) chosen) ≡ ok (some c)
        → ⊥
    other none e h = cc
    other (some x) e h =
        let (at, fit, _) = candidate_sound locked (timestamptz now) db.sessions db.events x u e in
        let chosen : claimed_event id (leased id (timestamptz (now + lease)) x) ≡ c = cc in
        let named : x.id ≡ k = ap (λ (d : ClaimedEvent). d.id) chosen ∙ same in
        let rows : some x ≡ some r = sym at ∙ ap (λ j. find event_key j db.events) named ∙ found in
        let row : x ≡ r = cc in
        let unfit = not-eligible holder until r held (timestamptz now) db.sessions early in
        let fit' = ap (λ y. is_eligible (timestamptz now) db.sessions y) row in cc

module _ {s : System} {hour : ℕ} (reply : Reply) (random : Option Bytes) (locked : Bytes → Bool)
    (now lease : ℕ) (c : ClaimedEvent) (reach : Reach (migrated hour) s)
    (fresh : (claim_id : Bytes) → new_uuid random ≡ ok claim_id → IsFresh claim_id s.issued)
    (handed : (claim reply random locked now lease s.db).0 ≡ ok (some c)) where
  abbrev claimed_system : System
  claimed_system = record s {
    db = (claim reply random locked now lease s.db).1;
    issued = hand_out (claim reply random locked now lease s.db).0 s.issued;
  }

  reach_claimed : Reach (migrated hour) claimed_system
  reach_claimed = next reach (claims reply random locked now lease fresh)

  held : IsHeld (claim reply random locked now lease s.db).1 c (timestamptz (now + lease))
  held =
      claim-IsHeld s.db reply random locked now lease c
        (Reach-IsConsistent reach (migrated-IsConsistent hour)).unique handed

  -- From a claim to the end of its lease, whatever calls other processes make in between, the
  -- event's row holds the claim, and no call that reads a clock before the lease's end hands the
  -- event out again, under whatever claim.
  pub claim-IsExclusive :
      {u : System} (again : Reply) (other_random : Option Bytes) (other_locked : Bytes → Bool)
      (later other_lease : ℕ) (other : ClaimedEvent)
      → During c.claim_id (timestamptz (now + lease)) claimed_system u
      → timestamptz later < timestamptz (now + lease)
      → other.id ≡ c.id
      → ((r : EventRow) × (find event_key c.id u.db.events ≡ some r) × (holds_claim c r ≡ true))
        × ((claim again other_random other_locked later other_lease u.db).0 ≢ ok (some other))
  unfolding claim
  claim-IsExclusive {u} again other_random other_locked later other_lease other during early same =
      let until = timestamptz (now + lease) in
      let kept =
        During-keeps c.id c.claim_id until held.row reach_claimed held.found held.leased during in
      let safe =
        Reach-IsConsistent (During-Reach (migrated hour) c.claim_id until reach_claimed during)
          (migrated-IsConsistent hour) in
      (
        (held.row, kept, held.holds),
        identified-other c.id c.claim_id until held.row u.db (new_uuid other_random) again
            other_locked later other_lease other safe.unique kept held.leased early same,
      )
