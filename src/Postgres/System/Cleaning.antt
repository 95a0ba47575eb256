-- ===== src/Postgres/System/Cleaning.antt =====
-- The removal of expired sandbox events, against the invariant.
use p3_relay.Prelude.{
  ℕ, ◌≡◌, refl, inl, inr, Bool, true, not, Option, none, some, Bytes, All-mono, filter, arith, ◌∙◌,
  Bool-cases, if◌then◌else◌,
}
use p3_relay.Errors.{Reply}
use p3_relay.Delivery.{ClaimedEvent}
use p3_relay.Table.{find}
use p3_relay.Table.Laws.{find-key}
use p3_relay.Table.Deletion.{retain, find-filter, Unique-filter, All-filter_weak}
use p3_relay.Table.Rows.{All-filter}
use p3_relay.Postgres.{EventRow, AttemptRow, event_key}
use p3_relay.Sandbox.Store.Cleanup.{cleanup, cleaned, leftovers, has_id}
use p3_relay.Sandbox.Store.Outcomes.{cleanup-tables}
use p3_relay.Postgres.System.{System, tables_of, with_tables}
use p3_relay.Postgres.System.Invariant.{IsSound, IsCounted, IsCurrent, IsConsistent}
use p3_relay.Postgres.System.Visits.{same_rows, with_same}

-- Cleaning up: an attempt stays exactly if its event does.
module _ (s : System) (h : IsConsistent s) (times : ℕ → ℕ) (locked : Bytes → Bool) where
  abbrev is_kept : Bytes → Bool
  is_kept id = not (has_id (leftovers locked (times 1) s.db) id)

  find-kept :
      (k : Bytes)
      → find event_key k (filter (λ r. is_kept r.id) s.db.events)
        ≡ (if is_kept k then find event_key k s.db.events else none)
  find-kept k =
      find-filter event_key (λ r. is_kept r.id) k s.db.events h.unique
      ∙ settle (find event_key k s.db.events) (λ r e. find-key event_key k s.db.events r e)
    where
      settle :
          (found : Option EventRow)
          → ((r : EventRow) → found ≡ some r → r.id ≡ k)
          → retain (λ r. is_kept r.id) found ≡ (if is_kept k then found else none)
      settle none keyed = ground arith
      settle (some r) keyed = rw (keyed r refl)

  kept-IsCounted :
      (a : AttemptRow)
      → IsCounted s.db.events a × (is_kept a.event_id ≡ true)
      → IsCounted (filter (λ r. is_kept r.id) s.db.events) a
  kept-IsCounted a (old, kept) = rw (find-kept a.event_id, kept) old

  kept-IsCurrent :
      (c : ClaimedEvent)
      → IsCurrent s.db.events c
      → IsCurrent (filter (λ r. is_kept r.id) s.db.events) c
  kept-IsCurrent c old = elim (Bool-cases (is_kept c.id)) [
    | inl kept ↦ rw (find-kept c.id, kept) old
    | inr gone ↦ rw (find-kept c.id, gone) tt
  ]

  cleaned-IsConsistent : IsConsistent (record s { db = cleaned locked times s.db })
  cleaned-IsConsistent =
      unfold cleaned in
      record {
        sound = All-filter_weak (λ r. is_kept r.id) IsSound s.db.events h.sound;
        unique = Unique-filter event_key (λ r. is_kept r.id) s.db.events h.unique;
        counted =
            All-mono _ _ _ kept-IsCounted (
              All-filter (IsCounted s.db.events) (λ a. is_kept a.event_id) s.db.attempts h.counted);
        current = All-mono (IsCurrent s.db.events) _ s.issued kept-IsCurrent h.current;
      }

pub cleanup-IsConsistent :
    (s : System) (replies : ℕ → Reply) (times : ℕ → ℕ) (locked : Bytes → Bool)
    → IsConsistent s
    → IsConsistent (with_tables s (cleanup replies times locked (tables_of s)).tables)
cleanup-IsConsistent s replies times locked h =
    elim (cleanup-tables replies times locked (tables_of s)) [
      | inl same ↦ with_same s h _ same
      | inr (b, _, new) ↦
          same_rows (record s { db = cleaned locked times s.db }) _ (rw new) (rw new)
            (cleaned-IsConsistent s h times locked)
    ]
