-- ===== src/Postgres/System/Claims.antt =====
-- A claim, against the invariant.
use mathlib.Core.Option
use p3_relay.Prelude.{
  ℕ, ◌≡◌, ◌≢◌, refl, Bool, true, Option, none, some, List, Bytes, bytes_eq_refl, All, All-mono,
  All-zip, subst, sym, ap, ◌∙◌,
}
use p3_relay.Errors.{Result, ok, err, Reply, fine, refused, lost}
use p3_relay.Delivery.{ClaimedEvent}
use p3_relay.Identifier.{new_uuid}
use p3_relay.Table.{find, Unique}
use p3_relay.Table.Rows.{IsFound, Unique-IsFound, find-IsFound, All-update}
use p3_relay.Postgres.{Db, EventRow, AttemptRow, event_key}
use p3_relay.Postgres.Queue.{
  claim, after_claim, candidate, retired, leased, is_candidate, claimed_event, returned,
  claim_identified, is_eligible,
}
use p3_relay.Postgres.Queue.Claimed.{
  RowClaimed, retires, leases, leaves, row_claimed, row_after, candidate_sound,
  expired-not-eligible,
}
use p3_relay.Sandbox.{Budget}
use p3_relay.Postgres.System.{System, IsFresh, hand_out}
use p3_relay.Postgres.System.Invariant.{
  OnRow, IsSound, IsBehind, Agrees, IsCounted, IsCurrent, IsConsistent, retired-IsSound,
  leased-IsSound, retired-IsBehind, leased-IsBehind, leased-Agrees, unclaimed-Agrees,
}
use p3_relay.Postgres.System.Lookups.{OnRow-map, find-after_claim, Unique-after_claim}

module _ (locked : Bytes → Bool) (claim_id : Bytes) (now lease_end : ℕ) (db : Db) where
  abbrev after : EventRow → EventRow
  after = row_after locked now db.sessions db.events claim_id lease_end

  abbrev Claimed : EventRow → EventRow → Type 0
  Claimed = RowClaimed locked now db.sessions db.events claim_id lease_end

  abbrev later : Db
  later = after_claim locked claim_id now lease_end db

  Claimed-IsSound : (r x : EventRow) → Claimed r x → IsSound r → IsSound x
  Claimed-IsSound r x (retires old e) h = subst IsSound (sym e) (retired-IsSound r h)
  Claimed-IsSound r x (leases fit e f) h =
      subst IsSound (sym f) (leased-IsSound claim_id now lease_end db.sessions r fit h)
  Claimed-IsSound r x (leaves e f) h = subst IsSound (sym f) h

  Claimed-IsBehind : (a : AttemptRow) (r x : EventRow) → Claimed r x → IsBehind a r → IsBehind a x
  Claimed-IsBehind a r x (retires old e) h = subst (IsBehind a) (sym e) (retired-IsBehind a r h)
  Claimed-IsBehind a r x (leases fit e f) h =
      subst (IsBehind a) (sym f) (leased-IsBehind claim_id lease_end a r h)
  Claimed-IsBehind a r x (leaves e f) h = subst (IsBehind a) (sym f) h

  Claimed-Agrees :
      (c : ClaimedEvent) (r x : EventRow)
      → Claimed r x
      → c.claim_id ≢ claim_id
      → Agrees c r
      → Agrees c x
  Claimed-Agrees c r x (retires old e) fresh h =
      subst (Agrees c) (sym e) (unclaimed-Agrees c (retired r) refl)
  Claimed-Agrees c r x (leases fit e f) fresh h =
      subst (Agrees c) (sym f) (leased-Agrees claim_id lease_end c r fresh)
  Claimed-Agrees c r x (leaves e f) fresh h = subst (Agrees c) (sym f) h

  Claimed-row_after :
      (k : Bytes) (r : EventRow)
      → Unique event_key db.events
      → find event_key k db.events ≡ some r
      → Claimed r (after r)
  Claimed-row_after k r u e =
      row_claimed locked now db.sessions db.events claim_id lease_end r u
        (find-IsFound event_key k db.events r e)

  -- A predicate on the row behind a key that every change of a claim keeps.
  OnRow-claim :
      (P : EventRow → Type 0) (missing : Type 0) (k : Bytes)
      → Unique event_key db.events
      → ((r x : EventRow) → Claimed r x → P r → P x)
      → OnRow P missing (find event_key k db.events)
      → OnRow P missing (find event_key k later.events)
  OnRow-claim P missing k u keep h =
      subst (OnRow P missing) (sym (find-after_claim locked claim_id now lease_end db k)) (
        OnRow-map P P missing after (find event_key k db.events)
          (λ r e. keep r (after r) (Claimed-row_after k r u e)) h)

  IsSound-row_after : Unique event_key db.events → All IsSound db.events → All IsSound later.events
  unfolding after_claim
  IsSound-row_after u h =
      All-update _ IsSound (is_candidate _) (leased claim_id lease_end) _ (λ r p. p)
        (All-update (λ r. IsFound event_key db.events r × IsSound r) _ _ retired db.events
          (λ r p.
            Claimed-IsSound r (after r)
              (row_claimed locked now db.sessions db.events claim_id lease_end r u p.0) p.1)
          (All-zip _ _ db.events (Unique-IsFound event_key db.events u) h))

  -- The chosen row is leased.
  chosen_leased :
      (c x : EventRow)
      → Claimed c x
      → candidate locked now db.sessions db.events ≡ some c
      → is_eligible now db.sessions c ≡ true
      → x ≡ leased claim_id lease_end c
  chosen_leased c x (retires old e) chosen fit =
      absurd (expired-not-eligible now db.sessions c old fit)
  chosen_leased c x (leases _ e f) chosen fit = f
  chosen_leased c x (leaves none_of e) chosen fit =
      let hit = ap (λ o. is_candidate o c) chosen ∙ bytes_eq_refl c.id in cc

  pub find-leased :
      (c : EventRow)
      → Unique event_key db.events
      → candidate locked now db.sessions db.events ≡ some c
      → find event_key c.id later.events ≡ some (leased claim_id lease_end c)
  find-leased c u chosen =
      let (found, fit, free) = candidate_sound locked now db.sessions db.events c u chosen in
      find-after_claim locked claim_id now lease_end db c.id
      ∙ ap (Option.map after) found
      ∙ ap some (
          chosen_leased c (after c)
            (row_claimed locked now db.sessions db.events claim_id lease_end c u found) chosen fit)

  handed_out-IsCurrent :
      (c : EventRow)
      → Unique event_key db.events
      → candidate locked now db.sessions db.events ≡ some c
      → IsCurrent later.events (claimed_event claim_id (leased claim_id lease_end c))
  handed_out-IsCurrent c u chosen =
      subst (OnRow (Agrees (claimed_event claim_id (leased claim_id lease_end c))) Unit)
        (sym (find-leased c u chosen)) (record { numbers = λ _. (refl, refl) })

  later-IsConsistent :
      (budget : Option Budget) (issued : List ClaimedEvent)
      → IsFresh claim_id issued
      → IsConsistent (record { db = db; budget = budget; issued = issued })
      → IsConsistent (record { db = later; budget = budget; issued = issued })
  unfolding after_claim
  later-IsConsistent budget issued fresh h = record {
    sound = IsSound-row_after h.unique h.sound;
    unique = Unique-after_claim locked claim_id now lease_end db h.unique;
    counted =
        All-mono (IsCounted db.events) (IsCounted later.events) db.attempts
          (λ a. OnRow-claim (IsBehind a) ⊥ a.event_id h.unique (Claimed-IsBehind a)) h.counted;
    current =
        All-mono _ (IsCurrent later.events) issued
          (λ c old.
            OnRow-claim (Agrees c) Unit c.id h.unique (λ r x step. Claimed-Agrees c r x step old.0)
              old.1)
          (All-zip _ (IsCurrent db.events) issued fresh h.current);
  }

  returned-IsConsistent :
      (budget : Option Budget) (issued : List ClaimedEvent) (found : Option EventRow)
      → candidate locked now db.sessions db.events ≡ found
      → Unique event_key db.events
      → IsConsistent (record { db = later; budget = budget; issued = issued })
      → IsConsistent (record {
        db = later;
        budget = budget;
        issued = hand_out (ok (returned claim_id lease_end found)) issued;
      })
  returned-IsConsistent budget issued none e u h = h
  returned-IsConsistent budget issued (some c) e u h = record {
    sound = h.sound;
    unique = h.unique;
    counted = h.counted;
    current = (handed_out-IsCurrent c u e, h.current);
  }

claim_identified-IsConsistent :
    (s : System) (made : Result Bytes) (reply : Reply) (locked : Bytes → Bool) (now lease : ℕ)
    → ((claim_id : Bytes) → made ≡ ok claim_id → IsFresh claim_id s.issued)
    → IsConsistent s
    → IsConsistent (record s {
      db = (claim_identified made reply locked now lease s.db).1;
      issued = hand_out (claim_identified made reply locked now lease s.db).0 s.issued;
    })
claim_identified-IsConsistent s (err e) reply locked now lease fresh h = h
claim_identified-IsConsistent s (ok claim_id) refused locked now lease fresh h = h
claim_identified-IsConsistent s (ok claim_id) lost locked now lease fresh h =
    later-IsConsistent locked claim_id _ _ s.db s.budget s.issued (fresh claim_id refl) h
claim_identified-IsConsistent s (ok claim_id) fine locked now lease fresh h =
    returned-IsConsistent locked claim_id _ _ s.db s.budget s.issued _ refl h.unique
      (later-IsConsistent locked claim_id _ _ s.db s.budget s.issued (fresh claim_id refl) h)

pub claim-IsConsistent :
    (s : System) (reply : Reply) (random : Option Bytes) (locked : Bytes → Bool) (now lease : ℕ)
    → ((claim_id : Bytes) → new_uuid random ≡ ok claim_id → IsFresh claim_id s.issued)
    → IsConsistent s
    → IsConsistent (record s {
      db = (claim reply random locked now lease s.db).1;
      issued = hand_out (claim reply random locked now lease s.db).0 s.issued;
    })
unfolding claim
claim-IsConsistent s reply random locked now lease fresh h =
    claim_identified-IsConsistent s (new_uuid random) reply locked now lease fresh h
