-- ===== src/Postgres/System/Repeats.antt =====
-- A visitor's replay, against the invariant.
use p3_relay.Prelude.{
  ℕ, ◌<◌, ◌≡◌, refl, inl, inr, Bool, true, some, List, [], ◌∷◌, Bytes, All, arith, subst, sym, ap,
  ◌∙◌, Bool-cases, if◌then◌else◌, bytes_eq_iff,
}
use p3_relay.Errors.{Reply}
use p3_relay.Table.{find, update}
use p3_relay.Table.Rows.{IsFound, Unique-IsFound}
use p3_relay.Postgres.{Db, EventRow, AttemptRow, event_key}
use p3_relay.Postgres.Store.{Publisher, select_one}
use p3_relay.Sandbox.Store.Replay.{sandbox_replay, sandbox_replayed, is_own, owned_row}
use p3_relay.Sandbox.Store.Outcomes.{sandbox_replay-tables}
use p3_relay.Postgres.System.{System, tables_of, with_tables}
use p3_relay.Postgres.System.Invariant.{IsSound, IsBehind, IsConsistent, unclaimed-Agrees}
use p3_relay.Postgres.System.Accepts.{update-IsConsistent}
use p3_relay.Postgres.System.Visits.{same_rows, with_same}

-- The row that a visitor's replay found is the only one that its update matches.
pub select_one-holds :
    (where_ : EventRow → Bool) (rows : List EventRow) (r : EventRow)
    → select_one where_ rows ≡ some r
    → where_ r ≡ true
unfolding select_one
select_one-holds where_ [] r h = cc
select_one-holds where_ (x ∷ rows) r h = ground (arith, select_one-holds where_ rows r)

pub select_one-IsFound :
    (table : List EventRow) (where_ : EventRow → Bool) (rows : List EventRow) (r : EventRow)
    → All (IsFound event_key table) rows
    → select_one where_ rows ≡ some r
    → IsFound event_key table r
unfolding select_one
select_one-IsFound table where_ [] r known h = cc
select_one-IsFound table where_ (x ∷ rows) r known h = elim (Bool-cases (where_ x)) [
  | inl hit ↦
      let first : some x ≡ some r = rw (hit, select_one) at h in
      let same : x ≡ r = cc in subst (IsFound event_key table) same known.0
  | inr miss ↦ select_one-IsFound table where_ rows r known.1 (rw (miss, select_one) at h)
]

replayed_again-IsSound :
    (clock : ℕ) (r : EventRow) → r.replay_count < 2 → IsSound r → IsSound (sandbox_replayed clock r)
replayed_again-IsSound clock r few h = ground arith

replayed_again-IsBehind :
    (clock : ℕ) (a : AttemptRow) (r : EventRow)
    → IsBehind a r
    → IsBehind a (sandbox_replayed clock r)
replayed_again-IsBehind clock a r h = ground arith

own_id : (owner id : Bytes) (r : EventRow) → is_own owner id r ≡ true → r.id ≡ id
own_id owner id r h = ground (arith, bytes_eq_iff r.id id)

pub owned_row-eq :
    (owner id : Bytes) (clock : ℕ) (db : Db) (r : EventRow)
    → owned_row owner id clock db ≡ some r
    → select_one (is_own owner id) db.events ≡ some r
owned_row-eq owner id clock db r h = ground arith

module _ (s : System) (h : IsConsistent s) (owner id : Bytes) where
  -- Among the rows of the table, the one that the visitor owns under an identifier is unique.
  pub same_own :
      (r x : EventRow)
      → select_one (is_own owner id) s.db.events ≡ some r
      → IsFound event_key s.db.events x
      → is_own owner id x ≡ true
      → x ≡ r
  same_own r x chosen found mine =
      let known =
        select_one-IsFound s.db.events (is_own owner id) s.db.events r
          (Unique-IsFound event_key s.db.events h.unique) chosen in
      let same : x.id ≡ r.id =
        own_id owner id x mine
        ∙ sym (own_id owner id r (select_one-holds (is_own owner id) s.db.events r chosen)) in
      let rows : some x ≡ some r =
        sym found ∙ ap (λ k. find event_key k s.db.events) same ∙ known in
      cc

  repeated_row-IsSound :
      (clock : ℕ) (r x : EventRow)
      → select_one (is_own owner id) s.db.events ≡ some r
      → r.replay_count < 2
      → IsFound event_key s.db.events x × IsSound x
      → IsSound (if is_own owner id x then sandbox_replayed clock x else x)
  repeated_row-IsSound clock r x chosen few (found, good) = elim (Bool-cases (is_own owner id x)) [
    | inr other ↦ rw other good
    | inl mine ↦
        let room =
          subst (λ (y : EventRow). y.replay_count < 2) (sym (same_own r x chosen found mine)) few in
        rw mine (replayed_again-IsSound clock x room good)
  ]

pub sandbox_replay-IsConsistent :
    (s : System) (replies : ℕ → Reply) (times : ℕ → ℕ) (publisher : Publisher) (owner id : Bytes)
    → IsConsistent s
    → IsConsistent
        (with_tables s (sandbox_replay replies times publisher owner id (tables_of s)).tables)
sandbox_replay-IsConsistent s replies times publisher owner id h =
    elim (sandbox_replay-tables replies times publisher owner id (tables_of s)) [
      | inl same ↦ with_same s h _ same
      | inr (b, r, _, owned, dead, few, _, new) ↦
          let chosen = owned_row-eq owner id (times 1) s.db r owned in
          let set = sandbox_replayed (times 2) in
          let more =
            update-IsConsistent s h (is_own owner id) set (λ x. refl)
              (λ x. repeated_row-IsSound s h owner id (times 2) r x chosen few)
              (λ a x old. ground (arith, replayed_again-IsBehind (times 2) a x old))
              (λ c x old. ground (arith, unclaimed-Agrees c (set x))) in
          same_rows
            (record s { db = record (s.db) { events = update (is_own owner id) set s.db.events } })
            _ (rw new) (rw new) more
    ]
