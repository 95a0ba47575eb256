-- ===== src/Postgres/Replay/Exact.antt =====
-- Which events an operator's replay sends again, and what the answer says.
use p3_relay.Prelude.{
  ℕ, ◌<◌, ◌≡◌, ◌≢◌, refl, ◌↔◌, inl, inr, Bool, true, ◌&&◌, some, Bytes, bytes_eq, bytes_eq_iff,
  arith, ap, ◌∙◌, Bool-cases, count, ltb,
}
use p3_relay.Errors.{ok, fine}
use p3_relay.Table.{find, update, Unique}
use p3_relay.Table.Laws.{hits, count-key}
use p3_relay.Postgres.{Db, EventRow, event_key, dead_lettered, state_eq}
use p3_relay.Postgres.Store.{Publisher}
use p3_relay.Postgres.Replay.{replay, can_replay, replayed, explain}

-- What an operator may ask for: an event of the source that is dead-lettered and was replayed
-- fewer than sixteen times.
pub record MayReplay (source_key : Bytes) (r : EventRow) : Type 0 where
  pub own : r.source_key ≡ source_key
  pub dead : r.state ≡ dead_lettered
  pub room : r.replay_count < 16

abbrev can : Bytes → EventRow → Bool
can source_key r =
    bytes_eq r.source_key source_key && state_eq r.state dead_lettered && ltb r.replay_count 16

can_exact : (source_key : Bytes) (r : EventRow) → (can source_key r ≡ true) ↔ MayReplay source_key r
can_exact source_key r = ground (arith, bytes_eq_iff r.source_key source_key)

replay-one :
    (publisher : Publisher) (clock : ℕ) (db : Db) (event_id source_key : Bytes)
    → count (can_replay event_id source_key) db.events ≡ 1
    → ((replay fine fine publisher clock db event_id source_key).result ≡ ok tt)
unfolding replay
replay-one publisher clock db event_id source_key one = rw one refl

explain-ne : (event_id source_key : Bytes) (db : Db) → explain fine event_id source_key db ≢ ok tt
explain-ne event_id source_key db h = ground arith

replay-none :
    (publisher : Publisher) (clock : ℕ) (db : Db) (event_id source_key : Bytes)
    → count (can_replay event_id source_key) db.events ≡ 0
    → ((replay fine fine publisher clock db event_id source_key).result ≢ ok tt)
unfolding replay
replay-none publisher clock db event_id source_key zero = rw zero (
    explain-ne event_id source_key
      (record db { events = update (can_replay event_id source_key) (replayed clock) db.events }))

-- With an answering database, a replay of an event succeeds exactly when the operator may ask for
-- it: the event is the source's own, dead-lettered, and was replayed fewer than sixteen times.
pub replay_exact :
    (publisher : Publisher) (clock : ℕ) (db : Db) (event_id source_key : Bytes) (r : EventRow)
    → Unique event_key db.events
    → find event_key event_id db.events ≡ some r
    → ((replay fine fine publisher clock db event_id source_key).result ≡ ok tt)
      ↔ MayReplay source_key r
replay_exact publisher clock db event_id source_key r u found =
    elim (Bool-cases (can source_key r)) [
      | inl may ↦ (
        λ _. (can_exact source_key r).0 may,
        λ _. replay-one publisher clock db event_id source_key (number ∙ ground arith),
      )
      | inr not_so ↦ (
        λ h. absurd (replay-none publisher clock db event_id source_key (number ∙ ground arith) h),
        λ h. let e = (can_exact source_key r).1 h in cc,
      )
    ]
  where
    number : count (can_replay event_id source_key) db.events ≡ hits (can source_key) (some r)
    number =
        count-key event_key event_id (can source_key) db.events u ∙ ap (hits (can source_key)) found
