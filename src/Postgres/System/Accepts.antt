-- ===== src/Postgres/System/Accepts.antt =====
-- An acceptance and an operator's replay, against the invariant.
use p3_relay.Prelude.{
  ℕ, ◌≡◌, refl, ◌⊎◌, inl, inr, Bool, false, none, [], ◌∷◌, ◌++◌, Bytes, All-append, All-mono,
  All-zip, arith, subst, sym, count, ◌==◌, Bool-cases, if◌then◌else◌,
}
use p3_relay.Errors.{Reply, fine, refused, lost}
use p3_relay.Delivery.{ClaimedEvent}
use p3_relay.Table.{update, is_there}
use p3_relay.Table.Laws.{Unique-append, Unique-update}
use p3_relay.Table.Rows.{All-update, IsFound, Unique-IsFound}
use p3_relay.Postgres.{Db, EventRow, AttemptRow, event_key}
use p3_relay.Postgres.Store.{Receipt, Publisher, accept, new_event}
use p3_relay.Postgres.Replay.{replay, can_replay, replayed}
use p3_relay.Postgres.System.{System}
use p3_relay.Postgres.System.Invariant.{
  IsSound, IsBehind, Agrees, IsCounted, IsCurrent, IsConsistent, replayed-IsBehind,
  unclaimed-Agrees,
}
use p3_relay.Postgres.System.Lookups.{OnRow-append, OnRow-update}

pub accept-db :
    (r₁ r₂ : Reply) (publisher : Publisher) (clock : ℕ) (db : Db) (receipt : Receipt)
    → let after = (accept r₁ r₂ publisher clock db receipt).db in
      (after ≡ db)
      ⊎ ((is_there event_key receipt.id db.events ≡ false)
          × (after ≡ record db { events = db.events ++ new_event receipt clock ∷ [] }))
unfolding accept
accept-db fine r₂ publisher clock db receipt = ground arith
accept-db refused r₂ publisher clock db receipt = inl refl
accept-db lost r₂ publisher clock db receipt = ground arith

module _ (s : System) (h : IsConsistent s) where
  -- A new row that holds no claim.
  pub append-IsConsistent :
      (row : EventRow)
      → IsSound row
      → row.claim_id ≡ none
      → is_there event_key row.id s.db.events ≡ false
      → IsConsistent (record s { db = record s.db { events = s.db.events ++ row ∷ [] } })
  append-IsConsistent row good free fresh = record {
    sound = All-append IsSound s.db.events (row ∷ []) h.sound (good, tt);
    unique = Unique-append event_key s.db.events row h.unique fresh;
    counted =
        All-mono (IsCounted s.db.events) _ s.db.attempts
          (λ a old.
            OnRow-append (IsBehind a) ⊥ a.event_id s.db.events row (λ none. absurd none) old)
          h.counted;
    current =
        All-mono (IsCurrent s.db.events) _ s.issued
          (λ c old.
            OnRow-append (Agrees c) Unit c.id s.db.events row (λ _. unclaimed-Agrees c row free)
              old)
          h.current;
  }

  -- An update of single rows keeps the system consistent if it keeps what each row promises.
  pub update-IsConsistent :
      (where_ : EventRow → Bool) (set : EventRow → EventRow)
      → ((r : EventRow) → (set r).id ≡ r.id)
      → ((r : EventRow)
          → IsFound event_key s.db.events r × IsSound r
          → IsSound (if where_ r then set r else r))
      → ((a : AttemptRow) (r : EventRow)
          → IsBehind a r
          → IsBehind a (if where_ r then set r else r))
      → ((c : ClaimedEvent) (r : EventRow) → Agrees c r → Agrees c (if where_ r then set r else r))
      → IsConsistent (record s { db = record s.db { events = update where_ set s.db.events } })
  update-IsConsistent where_ set id sound behind agrees = record {
    sound =
        All-update _ IsSound where_ set s.db.events sound
          (All-zip _ _ s.db.events (Unique-IsFound event_key s.db.events h.unique) h.sound);
    unique = Unique-update event_key where_ set s.db.events id h.unique;
    counted =
        All-mono (IsCounted s.db.events) _ s.db.attempts
          (λ a.
            OnRow-update (IsBehind a) (IsBehind a) ⊥ a.event_id where_ set s.db.events id
              (λ r _. behind a r))
          h.counted;
    current =
        All-mono (IsCurrent s.db.events) _ s.issued
          (λ c.
            OnRow-update (Agrees c) (Agrees c) Unit c.id where_ set s.db.events id
              (λ r _. agrees c r))
          h.current;
  }

replayed_row-IsSound :
    (event_id source_key : Bytes) (clock : ℕ) (r : EventRow)
    → IsSound r
    → IsSound (if can_replay event_id source_key r then replayed clock r else r)
replayed_row-IsSound event_id source_key clock r sound = ground arith

pub replay-db :
    (r₁ r₂ : Reply) (publisher : Publisher) (clock : ℕ) (db : Db) (event_id source_key : Bytes)
    → let after = (replay r₁ r₂ publisher clock db event_id source_key).db in
      (after ≡ db)
      ⊎ (after ≡ record db {
        events = update (can_replay event_id source_key) (replayed clock) db.events;
      })
unfolding replay
replay-db fine r₂ publisher clock db event_id source_key =
    elim (Bool-cases (count (can_replay event_id source_key) db.events == 1)) [
      | inl one ↦ inr (rw one)
      | inr other ↦ inr (rw other)
    ]
replay-db refused r₂ publisher clock db event_id source_key = inl refl
replay-db lost r₂ publisher clock db event_id source_key = inr refl

pub accept-IsConsistent :
    (s : System) (r₁ r₂ : Reply) (publisher : Publisher) (clock : ℕ) (receipt : Receipt)
    → IsConsistent s
    → IsConsistent (record s { db = (accept r₁ r₂ publisher clock s.db receipt).db })
accept-IsConsistent s r₁ r₂ publisher clock receipt h =
    elim (accept-db r₁ r₂ publisher clock s.db receipt) [
      | inl same ↦ subst (λ db. IsConsistent (record s { db = db })) (sym same) h
      | inr (fresh, new) ↦
          subst (λ db. IsConsistent (record s { db = db })) (sym new)
            (append-IsConsistent s h (new_event receipt clock) (ground arith) refl fresh)
    ]

pub replay-IsConsistent :
    (s : System) (r₁ r₂ : Reply) (publisher : Publisher) (clock : ℕ) (event_id source_key : Bytes)
    → IsConsistent s
    → IsConsistent (record s { db = (replay r₁ r₂ publisher clock s.db event_id source_key).db })
replay-IsConsistent s r₁ r₂ publisher clock event_id source_key h =
    elim (replay-db r₁ r₂ publisher clock s.db event_id source_key) [
      | inl same ↦ subst (λ db. IsConsistent (record s { db = db })) (sym same) h
      | inr new ↦
          subst (λ db. IsConsistent (record s { db = db })) (sym new)
            (update-IsConsistent s h (can_replay event_id source_key) (replayed clock) (λ r. refl)
              (λ r known. replayed_row-IsSound event_id source_key clock r known.1)
              (λ a r old. ground (arith, replayed-IsBehind clock a r old))
              (λ c r old. ground (arith, unclaimed-Agrees c (replayed clock r))))
    ]
