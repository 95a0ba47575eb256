-- ===== src/Postgres/System/Attempts.antt =====
-- internal/postgres/queue.go and replay.go: how many attempts of one event are ever started.
use p3_relay.Prelude.{ℕ, ◌+◌, ◌*◌, ◌≤◌, ◌≡◌, inl, inr, Option, none, some, Bytes, arith, sym, ◌∙◌}
use p3_relay.Table.{find}
use p3_relay.Table.Rows.{find-All}
use p3_relay.Postgres.{EventRow, event_key}
use p3_relay.Postgres.System.{System, Reach, here, next}
use p3_relay.Postgres.System.Invariant.{IsSound, IsConsistent}
use p3_relay.Postgres.System.Transitions.{Follows, started}
use p3_relay.Postgres.System.Contract.{Step-Follows, follows, is_removed}
use p3_relay.Postgres.System.Reachable.{Reach-IsConsistent}

abbrev pub started_between : Option EventRow → Option EventRow → ℕ
started_between (some r) (some x) = started r.state x.state
started_between _ _ = 0

-- The steps of a history at which an event begins to be delivered.
unfoldable pub starts : Bytes → {s t : System} → Reach s t → ℕ
starts k here = 0
starts k (next {t} {u} history step) =
    starts k history + started_between (find event_key k t.db.events) (find event_key k u.db.events)

-- The attempts behind an event: eight for each replay, and those since the last.
abbrev rank : EventRow → ℕ
rank r = r.replay_count * 8 + r.attempt_count

rank-step : (r x : EventRow) → IsSound r → Follows r x → rank r + started r.state x.state ≤ rank x
rank-step r x sound f = elim f.attempts_counted [
  | inl (more, none_) ↦ omega (arith, sound.attempts_bounded)
  | inr (same, counted) ↦ omega arith
]

rank-le : (r : EventRow) → IsSound r → rank r ≤ 136
rank-le r sound = omega (arith, sound.attempts_bounded, sound.replays_bounded)

-- An operator's event after a history.
record IsAfter (k : Bytes) (t : System) (least : ℕ) : Type 0 where
  row : EventRow
  found : find event_key k t.db.events ≡ some row
  owner : row.sandbox_id ≡ none
  ranked : least ≤ rank row

module _ (k : Bytes) {s : System} (r : EventRow) (h : IsConsistent s)
    (found : find event_key k s.db.events ≡ some r) (owner : r.sandbox_id ≡ none) where
  starts-IsAfter : {t : System} (history : Reach s t) → IsAfter k t (starts k history + rank r)
  unfolding starts
  starts-IsAfter here = record { row = r; found = found; owner = owner; ranked = omega arith }
  starts-IsAfter (next {t} {u} history step) =
      let before = starts-IsAfter history in
      let safe = Reach-IsConsistent history h in
      elim (Step-Follows k before.row safe step before.found) [
        | is_removed clock left gone ↦
            let owned : none ≡ some left.owner = sym before.owner ∙ left.owned in absurd (cc)
        | follows (x, found', f) ↦
            let sound =
              find-All IsSound event_key k t.db.events before.row safe.sound before.found in
            record {
              row = x;
              found = found';
              owner = f.owner_kept ∙ before.owner;
              ranked =
                  rw (before.found, found')
                    (omega (arith, rank-step before.row x sound f, before.ranked));
            }
      ]

  -- However often its leases run out, its attempts fail and it is replayed, attempts of an
  -- operator's event are started a bounded number of times: over every history together with the
  -- attempts behind it at the start, at most 136 times, eight for the event and eight for each of
  -- sixteen replays.
  pub starts-le :
      {t : System} (history : Reach s t)
      → starts k history + (r.replay_count * 8 + r.attempt_count) ≤ 136
  starts-le {t} history =
      let after = starts-IsAfter history in
      let safe = Reach-IsConsistent history h in
      let sound = find-All IsSound event_key k t.db.events after.row safe.sound after.found in
      omega (arith, after.ranked, rank-le after.row sound)
