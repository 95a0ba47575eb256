-- ===== src/Postgres/System/Visits.antt =====
-- The visitors' creations and submissions (internal/sandbox/store.go), against the invariant.
use p3_relay.Prelude.{ℕ, ◌≡◌, refl, inl, inr, Option, [], ◌∷◌, ◌++◌, Bytes, All, arith, subst, sym}
use p3_relay.Errors.{Reply}
use p3_relay.Table.{Unique}
use p3_relay.Postgres.{event_key}
use p3_relay.Postgres.Store.{Publisher}
use p3_relay.Sandbox.{Tables}
use p3_relay.Sandbox.Store.{create}
use p3_relay.Sandbox.Store.Submission.{submit, event_fits, simulated_event}
use p3_relay.Sandbox.Store.Outcomes.{create-tables, submit-tables, admits}
use p3_relay.Postgres.System.{System, tables_of, with_tables}
use p3_relay.Postgres.System.Invariant.{IsSound, IsConsistent}
use p3_relay.Postgres.System.Accepts.{append-IsConsistent}

-- Only the events and the attempts of the database matter.
pub same_rows :
    (s : System) (t : Tables)
    → t.db.events ≡ s.db.events
    → t.db.attempts ≡ s.db.attempts
    → IsConsistent s
    → IsConsistent (with_tables s t)
same_rows s t events attempts h = record {
  sound = subst (All IsSound) (sym events) h.sound;
  unique = subst (Unique event_key) (sym events) h.unique;
  counted = rw (events, attempts) h.counted;
  current = rw events h.current;
}

module _ (s : System) (h : IsConsistent s) where
  pub with_same : (t : Tables) → t ≡ tables_of s → IsConsistent (with_tables s t)
  with_same t e = same_rows s t (rw e) (rw e) h

pub create-IsConsistent :
    (s : System) (replies : ℕ → Reply) (times : ℕ → ℕ) (id : Bytes) (expiry : ℕ)
    → IsConsistent s
    → IsConsistent (with_tables s (create replies times id expiry (tables_of s)).tables)
create-IsConsistent s replies times id expiry h =
    elim (create-tables replies times id expiry (tables_of s)) [
      | inl same ↦ with_same s h _ same
      | inr (b, _, _, _, _, new) ↦ same_rows s _ (rw new) (rw new) h
    ]

simulated-IsSound :
    (sha256 : Bytes → Bytes) (owner scenario id : Bytes) (clock : ℕ)
    → IsSound (simulated_event sha256 owner scenario id clock)
simulated-IsSound sha256 owner scenario id clock = ground arith

pub submit-IsConsistent :
    (s : System) (sha256 : Bytes → Bytes) (replies : ℕ → Reply) (times : ℕ → ℕ)
    (random : Option Bytes) (publisher : Publisher) (owner scenario : Bytes)
    → IsConsistent s
    → IsConsistent (
        with_tables s
          (submit sha256 replies times random publisher owner scenario (tables_of s)).tables)
unfolding event_fits
submit-IsConsistent s sha256 replies times random publisher owner scenario h =
    elim (submit-tables sha256 times owner scenario (tables_of s) replies random publisher) [
      | inl same ↦ with_same s h _ same
      | inr (id, admits b _ _ _ fits new) ↦
          let row = simulated_event sha256 owner scenario id (times 3) in
          let more =
            append-IsConsistent s h row (simulated-IsSound sha256 owner scenario id (times 3)) refl
              (ground arith) in
          same_rows (record s { db = record (s.db) { events = s.db.events ++ row ∷ [] } }) _
            (rw new) (rw new) more
    ]
