-- ===== src/Postgres/System/Columns/Constraints.antt =====
-- migrations/001_initial.sql: the checks and the unique keys of both tables, over every history.
use p3_relay.Prelude.{
  ℕ, ◌≤◌, length, if_either, ◌≡◌, ◌∙◌, refl, sym, inl, inr, Bool, true, false, List, [], ◌∷◌, Bytes,
  bytes_eq, bytes_eq_iff, All, All-append, arith, Bool-cases, ◌==◌, if◌then◌else◌,
}
use p3_relay.Table.{update}
use p3_relay.Table.Rows.{All-update}
use p3_relay.Table.Deletion.{All-filter_weak}
use p3_relay.Postgres.{
  EventRow, AttemptRow, event_checks, attempt_checks, same_attempt, char_length, status_or_error,
}
use p3_relay.Postgres.Store.{same_key}
use p3_relay.Postgres.System.{System, Reach}
use p3_relay.Postgres.System.Invariant.{IsConsistent}
use p3_relay.Postgres.System.Reachable.{Reach-IsConsistent, migrated-IsConsistent}
use p3_relay.Postgres.System.{migrated}
use p3_relay.Postgres.System.Columns.{Fixed, IsKept, Reach-kept}
use p3_relay.Table.Apart.{Apart, exists-none, append-Apart, filter-Apart}

-- UNIQUE (source_key, external_event_id).
abbrev pub same_event : EventRow → EventRow → Bool
same_event r x = same_key r.source_key r.external_event_id x

bytes_eq-sym : (a b : Bytes) → bytes_eq a b ≡ bytes_eq b a
bytes_eq-sym a b = elim (Bool-cases (bytes_eq a b)) [
  | inl same ↦ same ∙ sym ((bytes_eq_iff b a).1 (sym ((bytes_eq_iff a b).0 same)))
  | inr differ ↦ elim (Bool-cases (bytes_eq b a)) [
    | inl same ↦ (bytes_eq_iff a b).1 (sym ((bytes_eq_iff b a).0 same)) ∙ sym same
    | inr other ↦ differ ∙ sym other
  ]
]

same_event-sym : (r x : EventRow) → same_event r x ≡ same_event x r
same_event-sym r x =
    rw
      (bytes_eq-sym x.source_key r.source_key, bytes_eq-sym x.external_event_id r.external_event_id)
      refl

-- The primary key, and UNIQUE (event_id, replay_number, attempt_number), of attempts.
abbrev pub same_id : AttemptRow → AttemptRow → Bool
same_id a b = bytes_eq b.id a.id

same_id-sym : (a b : AttemptRow) → same_id a b ≡ same_id b a
same_id-sym a b = bytes_eq-sym b.id a.id

eq-sym : (m n : ℕ) → (m == n) ≡ (n == m)
eq-sym m n = elim (Bool-cases (m == n)) [
  | inl same ↦ let e : m ≡ n = ground arith in rw e refl
  | inr differ ↦ elim (Bool-cases (n == m)) [
    | inl same ↦ let e : m ≡ n = ground arith in rw e refl
    | inr other ↦ differ ∙ sym other
  ]
]

same_attempt-sym : (a b : AttemptRow) → same_attempt a b ≡ same_attempt b a
same_attempt-sym a b =
    rw
      (
        bytes_eq-sym b.event_id a.event_id,
        eq-sym b.replay_number a.replay_number,
        eq-sym b.attempt_number a.attempt_number,
      )
      refl

-- The checks on the columns of `events` that a receipt fills.
pub record IsChecked (r : EventRow) : Type 0 where
  pub source_pos : 1 ≤ char_length r.source_key
  pub source_le : char_length r.source_key ≤ 128
  pub external_pos : 1 ≤ char_length r.external_event_id
  pub external_le : char_length r.external_event_id ≤ 128
  pub body_pos : 1 ≤ length r.body
  pub body_le : length r.body ≤ 262144
  pub digest : length r.body_sha256 ≡ 32
  pub url_pos : 1 ≤ char_length r.destination_url
  pub url_le : char_length r.destination_url ≤ 2048

-- The checks of `delivery_attempts`.
pub record IsCheckedAttempt (a : AttemptRow) : Type 0 where
  pub replay_le : a.replay_number ≤ 16
  pub attempt_pos : 1 ≤ a.attempt_number
  pub attempt_le : a.attempt_number ≤ 8
  pub ordered : a.started_at ≤ a.finished_at
  pub excerpt_le : length a.response_excerpt ≤ 4096
  pub either : status_or_error a.status_code a.error_code ≡ true

-- What the migration demands of the rows, beside the primary key of events.
pub record IsConstrained (events : List EventRow) (attempts : List AttemptRow) : Type 0 where
  pub checked : All IsChecked events
  pub receipts_apart : Apart same_event events
  pub attempts_checked : All IsCheckedAttempt attempts
  pub ids_apart : Apart same_id attempts
  pub numbers_apart : Apart same_attempt attempts

row-IsChecked : (r : EventRow) → event_checks r ≡ true → IsChecked r
unfolding event_checks
row-IsChecked r h = ground arith

attempt-IsChecked : (a : AttemptRow) → attempt_checks a ≡ true → IsCheckedAttempt a
unfolding attempt_checks
attempt-IsChecked a h = ground arith

Fixed-IsChecked : (r x : EventRow) → Fixed r x → IsChecked r → IsChecked x
Fixed-IsChecked r x (source, external, body, digest, url) h = record {
  source_pos = rw source h.source_pos;
  source_le = rw source h.source_le;
  external_pos = rw external h.external_pos;
  external_le = rw external h.external_le;
  body_pos = rw body h.body_pos;
  body_le = rw body h.body_le;
  digest = rw digest h.digest;
  url_pos = rw url h.url_pos;
  url_le = rw url h.url_le;
}

-- A statement's row is fixed where the columns that it sets are others.
settled-Fixed :
    (where_ : EventRow → Bool) (set : EventRow → EventRow) (r : EventRow)
    → Fixed r (set r)
    → Fixed r (if where_ r then set r else r)
settled-Fixed where_ set r fixed =
    if_either (Fixed r) (where_ r) (set r) r fixed (refl, refl, refl, refl, refl)

update-Apart :
    (where_ : EventRow → Bool) (set : EventRow → EventRow) (rows : List EventRow)
    → ((r : EventRow) → Fixed r (set r))
    → Apart same_event rows
    → Apart same_event (update where_ set rows)
unfolding update
update-Apart where_ set [] fixed h = tt
update-Apart where_ set (r ∷ rows) fixed h =
    let (source, external, _, _, _) = settled-Fixed where_ set r (fixed r) in
    (
      All-update (λ x. same_event r x ≡ false)
          (λ x. same_event (if where_ r then set r else r) x ≡ false) where_ set rows
          (λ x free.
            let (s, e, _, _, _) = settled-Fixed where_ set x (fixed x) in
            rw (source, external, s, e) free)
          h.0,
      update-Apart where_ set rows fixed h.1,
    )

Constrained-IsKept : IsKept IsConstrained
Constrained-IsKept = record {
  added = λ events attempts row checks free h. record {
    checked = All-append IsChecked events (row ∷ []) h.checked (row-IsChecked row checks, tt);
    receipts_apart =
        append-Apart same_event events row same_event-sym (exists-none same_event row events free)
          h.receipts_apart;
    attempts_checked = h.attempts_checked;
    ids_apart = h.ids_apart;
    numbers_apart = h.numbers_apart;
  };
  updated = λ events attempts where_ set fixed h. record {
    checked =
        All-update IsChecked IsChecked where_ set events
          (λ r. Fixed-IsChecked r _ (settled-Fixed where_ set r (fixed r))) h.checked;
    receipts_apart = update-Apart where_ set events fixed h.receipts_apart;
    attempts_checked = h.attempts_checked;
    ids_apart = h.ids_apart;
    numbers_apart = h.numbers_apart;
  };
  noted = λ events attempts a checks new_id new_numbers h. record {
    checked = h.checked;
    receipts_apart = h.receipts_apart;
    attempts_checked =
        All-append IsCheckedAttempt attempts (a ∷ []) h.attempts_checked
          (attempt-IsChecked a checks, tt);
    ids_apart =
        append-Apart same_id attempts a same_id-sym (exists-none same_id a attempts new_id)
          h.ids_apart;
    numbers_apart =
        append-Apart same_attempt attempts a same_attempt-sym
          (exists-none same_attempt a attempts new_numbers) h.numbers_apart;
  };
  removed = λ events attempts keep keep_attempt h. record {
    checked = All-filter_weak keep IsChecked events h.checked;
    receipts_apart = filter-Apart same_event keep events h.receipts_apart;
    attempts_checked = All-filter_weak keep_attempt IsCheckedAttempt attempts h.attempts_checked;
    ids_apart = filter-Apart same_id keep_attempt attempts h.ids_apart;
    numbers_apart = filter-Apart same_attempt keep_attempt attempts h.numbers_apart;
  };
}

-- A system whose rows pass the migration's checks and keys, and agree with each other and the claims
-- handed out.
pub record IsWellFormed (s : System) : Type 0 where
  pub constrained : IsConstrained s.db.events s.db.attempts
  pub consistent : IsConsistent s

-- Whatever calls the processes make, in whatever order and with whatever replies of the database:
-- every event row keeps the checks on its columns, with at most eight attempts and sixteen replays;
-- no two share an identifier, nor a source key and an event identifier; every attempt row keeps its
-- checks, no two share an identifier, nor an event, a replay and a number; each lies behind its
-- event's row; and a row that holds a claim still has the numbers of that claim.
pub Reach-IsWellFormed : {s t : System} → Reach s t → IsWellFormed s → IsWellFormed t
Reach-IsWellFormed reach h = record {
  constrained = Reach-kept IsConstrained Constrained-IsKept reach h.constrained;
  consistent = Reach-IsConsistent reach h.consistent;
}

pub migrated-IsWellFormed : (hour : ℕ) → IsWellFormed (migrated hour)
migrated-IsWellFormed hour = record {
  constrained = record {
    checked = tt;
    receipts_apart = tt;
    attempts_checked = tt;
    ids_apart = tt;
    numbers_apart = tt;
  };
  consistent = migrated-IsConsistent hour;
}
