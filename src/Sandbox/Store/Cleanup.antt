-- ===== src/Sandbox/Store/Cleanup.antt =====
-- internal/sandbox/cleanup.go: the removal of expired sessions and of their events.
use p3_relay.Prelude.{
  ℕ, Bool, ◌&&◌, not, Option, none, some, List, Bytes, bytes_eq, leb, filter, take, true, false,
}
use p3_relay.Errors.{Result, ok, failed, Reply, ensure, ◌>>=◌, ◌>>◌}
use p3_relay.Table.{exists, order_by}
use p3_relay.Postgres.{Db, EventRow, SessionRow}
use p3_relay.Postgres.Queue.{is_fine}
use p3_relay.Postgres.Read.{bytes_leb}
use p3_relay.Sandbox.{Tables}
use p3_relay.Sandbox.Store.{Finished, finish, admission}
use p3_relay.Sandbox.Store.Replay.{is_owner}

-- `e.lease_expires_at IS NULL OR e.lease_expires_at <= clock_timestamp()`.
abbrev pub no_lease : ℕ → Option ℕ → Bool
no_lease clock none = true
no_lease clock (some t) = leb t clock

abbrev pub owner_expired : ℕ → List SessionRow → Option Bytes → Bool
owner_expired clock sessions none = false
owner_expired clock sessions (some owner) =
    exists (λ s. bytes_eq s.id owner && leb s.expires_at clock) sessions

unfoldable pub is_leftover : ℕ → List SessionRow → EventRow → Bool
is_leftover clock sessions r =
    owner_expired clock sessions r.sandbox_id && no_lease clock r.lease_expires_at

abbrev pub by_id : EventRow → EventRow → Bool
by_id a b = bytes_leb a.id b.id

-- `locked` tells the rows that other transactions hold.
unfoldable pub leftovers : (Bytes → Bool) → ℕ → Db → List EventRow
leftovers locked clock db = take 100 (
    filter (λ r. not (locked r.id))
      (order_by by_id (filter (is_leftover clock db.sessions) db.events)))

abbrev pub has_id : List EventRow → Bytes → Bool
has_id rows id = exists (λ r. bytes_eq r.id id) rows

abbrev pub has_events : List EventRow → SessionRow → Bool
has_events events s = exists (λ r. is_owner s.id r.sandbox_id) events

-- Expired sessions that own no event; a `LIMIT` with no order takes the first in storage order.
unfoldable pub empty_sessions : ℕ → List EventRow → List SessionRow → List SessionRow
empty_sessions clock events sessions =
    take 100 (filter (λ s. leb s.expires_at clock && not (has_events events s)) sessions)

-- The tables after the three deletions.
unfoldable pub cleaned : (Bytes → Bool) → (ℕ → ℕ) → Db → Db
cleaned locked clock db =
    let old = leftovers locked (clock 1) db in
    let events = filter (λ r. not (has_id old r.id)) db.events in
    let gone = empty_sessions (clock 2) events db.sessions in
    record {
      events = events;
      attempts = filter (λ a. not (has_id old a.event_id)) db.attempts;
      sessions = filter (λ s. not (exists (λ g. bytes_eq g.id s.id) gone)) db.sessions;
    }

abbrev pub removal :
    (ℕ → Reply) → (ℕ → ℕ) → (Bytes → Bool) → Tables → Result (Unit {0} × Tables × Option Bytes)
removal replies clock locked t = do
  b ← admission replies clock t.budget
  ensure (is_fine (replies 3)) (failed "list expired events")
  ensure (is_fine (replies 4)) (failed "delete attempts")
  ensure (is_fine (replies 5)) (failed "delete events")
  ensure (is_fine (replies 6)) (failed "delete sessions")
  ok (tt, record { db = cleaned locked clock t.db; budget = some b }, none)

unfoldable pub cleanup : (ℕ → Reply) → (ℕ → ℕ) → (Bytes → Bool) → Tables → Finished (Unit {0})
cleanup replies clock locked t = finish (replies 7) t (removal replies clock locked t) none
