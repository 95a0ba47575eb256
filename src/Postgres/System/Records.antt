-- ===== src/Postgres/System/Records.antt =====
-- Recording an attempt: the update, the insertion and their transaction, against the invariant.
use mathlib.Core.Option
use p3_relay.Prelude.{
  ◌≡◌, refl, ◌⊎◌, inl, inr, Bool, true, ◌&&◌, Option, none, some, List, bytes_eq_iff, All-mono,
  All-zip, All-append, arith, subst, sym, ap, ◌∙◌, Bool-cases, count, if◌then◌else◌, &&-intro,
}
use p3_relay.Delivery.{ClaimedEvent, Attempt}
use p3_relay.Table.{find, Unique}
use p3_relay.Table.Laws.{find-key, find-update, hits, count-key, Unique-update}
use p3_relay.Table.Rows.{IsFound, Unique-IsFound, find-IsFound, All-update}
use p3_relay.Postgres.{Db, EventRow, event_key, attempt_fits, delivering, state_eq}
use p3_relay.Postgres.Queue.{
  record_attempt, recorded, holds_claim, completed, record_state, attempt_row, Replies, is_claim,
}
use p3_relay.Postgres.System.{System}
use p3_relay.Postgres.System.Invariant.{
  OnRow, IsSound, IsBehind, Agrees, IsCounted, IsCurrent, IsConsistent, completed-IsSound,
  completed-IsBehind, attempt_row-IsBehind, unclaimed-Agrees, holds_claim-row,
}
use p3_relay.Postgres.System.Lookups.{OnRow-update}

-- With unique keys, the update that matches one row has found the claim's row.
matched :
    (q : EventRow → Bool) (found : Option EventRow)
    → hits q found ≡ 1
    → (r : EventRow) × (found ≡ some r) × (q r ≡ true)
matched q none h = absurd (omega arith)
matched q (some r) h = (r, refl, ground arith)

abbrev pub holds : ClaimedEvent → EventRow → Bool
holds c r = state_eq r.state delivering && is_claim r.claim_id c.claim_id

pub held_row :
    (c : ClaimedEvent) (events : List EventRow)
    → Unique event_key events
    → count (holds_claim c) events ≡ 1
    → (r : EventRow) × (find event_key c.id events ≡ some r) × (holds_claim c r ≡ true)
held_row c events u one =
    let (r, found, held) =
      matched (holds c) (find event_key c.id events)
        (sym (count-key event_key c.id (holds c) events u) ∙ one) in
    (r, found, &&-intro ((bytes_eq_iff r.id c.id).1 (find-key event_key c.id events r found)) held)

pub record_attempt-db :
    (replies : Replies) (c : ClaimedEvent) (attempt : Attempt) (db : Db)
    → let after = (record_attempt replies c attempt db).1 in
      (after ≡ db)
      ⊎ ((count (holds_claim c) db.events ≡ 1)
          × (attempt_fits db (attempt_row c attempt) ≡ true)
          × (after ≡ recorded c attempt db))
unfolding record_attempt
record_attempt-db replies c attempt db = ground arith

module _ (s : System) (c : ClaimedEvent) (attempt : Attempt) (h : IsConsistent s)
    (now : IsCurrent s.db.events c) where
  Agrees-held :
      (r : EventRow) → IsFound event_key s.db.events r → holds_claim c r ≡ true → Agrees c r
  Agrees-held r found held =
      let (same, _, _) = holds_claim-row c r held in
      subst (OnRow (Agrees c) Unit) (ap (λ k. find event_key k s.db.events) (sym same) ∙ found) now

  completed_row-IsSound :
      (r : EventRow)
      → IsFound event_key s.db.events r × IsSound r
      → IsSound (if holds_claim c r then completed (record_state c attempt) attempt r else r)
  completed_row-IsSound r (found, sound) = elim (Bool-cases (holds_claim c r)) [
    | inl held ↦ rw held (completed-IsSound c attempt r held (Agrees-held r found held) sound)
    | inr other ↦ rw other sound
  ]

  new-IsCounted :
      count (holds_claim c) s.db.events ≡ 1
      → IsCounted (recorded c attempt s.db).events (attempt_row c attempt)
  unfolding recorded
  new-IsCounted one =
      let (r, found, held) = held_row c s.db.events h.unique one in
      let set = completed (record_state c attempt) attempt in
      let behind =
        attempt_row-IsBehind c attempt r held
          (Agrees-held r (find-IsFound event_key c.id s.db.events r found) held) in
      subst (OnRow (IsBehind (attempt_row c attempt)) ⊥)
        (sym (
          find-update event_key c.id (holds_claim c) set s.db.events (λ r. refl)
          ∙ ap (Option.map (λ x. if holds_claim c x then set x else x)) found))
        (rw held behind)

  pub recorded-IsConsistent :
      count (holds_claim c) s.db.events ≡ 1
      → IsConsistent (record s { db = recorded c attempt s.db })
  recorded-IsConsistent one =
      unfold recorded in
      record {
        sound =
            All-update _ IsSound (holds_claim c) _ s.db.events completed_row-IsSound
              (All-zip _ _ s.db.events (Unique-IsFound event_key s.db.events h.unique) h.sound);
        unique = Unique-update event_key (holds_claim c) _ s.db.events (λ r. refl) h.unique;
        counted =
            All-append (IsCounted (recorded c attempt s.db).events) s.db.attempts _
              (All-mono (IsCounted s.db.events) _ s.db.attempts
                (λ a.
                  OnRow-update (IsBehind a) (IsBehind a) ⊥ a.event_id (holds_claim c) _ s.db.events
                    (λ r. refl) (λ r _ old. ground (arith, completed-IsBehind c attempt a r old)))
                h.counted)
              (new-IsCounted one, tt);
        current =
            All-mono (IsCurrent s.db.events) _ s.issued
              (λ d.
                OnRow-update (Agrees d) (Agrees d) Unit d.id (holds_claim c) _ s.db.events
                  (λ r. refl)
                  (λ r _ old.
                    ground
                      (arith, unclaimed-Agrees d (completed (record_state c attempt) attempt r))))
              h.current;
      }
