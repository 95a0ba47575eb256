-- ===== src/Sandbox/Store/Removal.antt =====
-- Which events a cleanup removes, and what goes with them.
use p3_relay.Prelude.{
  ℕ, ◌≤◌, ◌≡◌, refl, ◌⊎◌, inl, inr, Bool, true, not, Option, none, some, List, [], ◌∷◌, Bytes,
  bytes_eq, bytes_eq→eq, ◌&&◌, leb, All, All-mono, All-take, length, length-take-le, filter, arith,
  subst, sym, ap, ◌∙◌, Bool-cases, if◌then◌else◌,
}
use p3_relay.Table.{find, exists, Unique}
use p3_relay.Table.Laws.{find-key}
use p3_relay.Table.Rows.{IsFound, Unique-IsFound, All-filter, All-order_by, exists-All}
use p3_relay.Table.Deletion.{retain, find-filter}
use p3_relay.Postgres.{Db, EventRow, AttemptRow, SessionRow, event_key}
use p3_relay.Sandbox.Store.Cleanup.{
  is_leftover, leftovers, by_id, has_id, cleaned, no_lease, owner_expired,
}

-- A visitor's event whose session has expired, and that no worker holds under a running lease.
pub record IsLeftover (clock : ℕ) (sessions : List SessionRow) (r : EventRow) : Type 0 where
  pub owner : Bytes
  pub owned : r.sandbox_id ≡ some owner
  pub expired : exists (λ s. bytes_eq s.id owner && leb s.expires_at clock) sessions ≡ true
  pub unleased :
      (r.lease_expires_at ≡ none) ⊎ ((t : ℕ) × (r.lease_expires_at ≡ some t) × (t ≤ clock))

expired_owner :
    (clock : ℕ) (sessions : List SessionRow) (id : Option Bytes)
    → owner_expired clock sessions id ≡ true
    → (owner : Bytes) × (id ≡ some owner)
      × (exists (λ s. bytes_eq s.id owner && leb s.expires_at clock) sessions ≡ true)
expired_owner clock sessions none h = cc
expired_owner clock sessions (some owner) h = (owner, refl, h)

lease_ended :
    (clock : ℕ) (lease : Option ℕ)
    → no_lease clock lease ≡ true
    → (lease ≡ none) ⊎ ((t : ℕ) × (lease ≡ some t) × (t ≤ clock))
lease_ended clock none h = inl refl
lease_ended clock (some t) h = inr (t, refl, ground arith)

is_leftover-IsLeftover :
    (clock : ℕ) (sessions : List SessionRow) (r : EventRow)
    → is_leftover clock sessions r ≡ true
    → IsLeftover clock sessions r
unfolding is_leftover
is_leftover-IsLeftover clock sessions r h =
    let (owner, owned, over) = expired_owner clock sessions r.sandbox_id (ground arith) in
    record {
      owner = owner;
      owned = owned;
      expired = over;
      unleased = lease_ended clock r.lease_expires_at (ground arith);
    }

module _ (locked : Bytes → Bool) (clock : ℕ) (db : Db) (u : Unique event_key db.events) where
  leftovers-All :
      All
        (λ r. IsFound event_key db.events r × (is_leftover clock db.sessions r ≡ true))
        (leftovers locked clock db)
  unfolding leftovers
  leftovers-All = All-take _ 100 _ (
      All-mono _ _ _ (λ r h. h.0)
        (All-filter (λ r. IsFound event_key db.events r × (is_leftover clock db.sessions r ≡ true))
          _ _
          (All-order_by _ by_id _ (
            All-filter (IsFound event_key db.events) (is_leftover clock db.sessions) db.events
              (Unique-IsFound event_key db.events u)))))

  pub removed-IsLeftover :
      (k : Bytes) (r : EventRow)
      → find event_key k db.events ≡ some r
      → has_id (leftovers locked clock db) k ≡ true
      → IsLeftover clock db.sessions r
  removed-IsLeftover k r found old =
      let (e, same, (known, due)) = exists-All _ (λ e. bytes_eq e.id k) _ leftovers-All old in
      let rows : some e ≡ some r =
        sym known ∙ ap (λ k. find event_key k db.events) (bytes_eq→eq e.id k same) ∙ found in
      let one : e ≡ r = cc in
      is_leftover-IsLeftover clock db.sessions r
        (subst (λ x. is_leftover clock db.sessions x ≡ true) one due)

-- The attempts that were recorded for an event.
abbrev pub attempts_of : Bytes → List AttemptRow → List AttemptRow
attempts_of k attempts = filter (λ a. bytes_eq a.event_id k) attempts

attempts_of-kept :
    (keep : Bytes → Bool) (k : Bytes) (attempts : List AttemptRow)
    → attempts_of k (filter (λ a. keep a.event_id) attempts)
      ≡ (if keep k then attempts_of k attempts else [])
attempts_of-kept keep k [] = ground arith
attempts_of-kept keep k (a ∷ attempts) = elim (Bool-cases (bytes_eq a.event_id k)) [
  | inl hit ↦
      let same : a.event_id ≡ k = bytes_eq→eq a.event_id k hit in
      let kept : keep a.event_id ≡ keep k = ap keep same in
      ground (arith, attempts_of-kept keep k attempts)
  | inr miss ↦ ground (arith, attempts_of-kept keep k attempts)
]

module _ (locked : Bytes → Bool) (times : ℕ → ℕ) (db : Db) where
  abbrev keeps : Bytes → Bool
  keeps id = not (has_id (leftovers locked (times 1) db) id)

  find-keeps :
      (k : Bytes) (r : EventRow)
      → Unique event_key db.events
      → find event_key k db.events ≡ some r
      → find event_key k (cleaned locked times db).events ≡ (if keeps k then some r else none)
  unfolding cleaned
  find-keeps k r u found =
      find-filter event_key (λ x. keeps x.id) k db.events u
      ∙ ap (retain (λ x. keeps x.id)) found
      ∙ ap (λ i. if keeps i then some r else none) (find-key event_key k db.events r found)

  -- With unique identifiers, a cleanup leaves an event and its attempts as they were, or it takes
  -- both away; and then the
  -- event is a visitor's, its session has expired, and no running lease holds it.
  pub cleaned_exact :
      (k : Bytes) (r : EventRow)
      → Unique event_key db.events
      → find event_key k db.events ≡ some r
      → let after = cleaned locked times db in
        ((find event_key k after.events ≡ some r)
          × (attempts_of k after.attempts ≡ attempts_of k db.attempts))
        ⊎ (IsLeftover (times 1) db.sessions r
            × (find event_key k after.events ≡ none)
            × (attempts_of k after.attempts ≡ []))
  cleaned_exact k r u found =
      let attempts = attempts_of-kept keeps k db.attempts in
      elim (Bool-cases (has_id (leftovers locked (times 1) db) k)) [
        | inl old ↦ inr (
          removed-IsLeftover locked (times 1) db u k r found old,
          find-keeps k r u found ∙ rw old,
          unfold cleaned in attempts ∙ rw old,
        )
        | inr kept ↦ inl (find-keeps k r u found ∙ rw kept, unfold cleaned in attempts ∙ rw kept)
      ]

  -- One call removes at most a hundred events.
  pub length-leftovers-le : length (leftovers locked (times 1) db) ≤ 100
  unfolding leftovers
  length-leftovers-le = length-take-le 100 _
