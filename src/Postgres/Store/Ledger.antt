-- ===== src/Postgres/Store/Ledger.antt =====
-- internal/postgres/store.go: the contract of acceptance, with the table seen as a function from
-- source and event identifier to what was accepted under them.
pub mod Refinement
use mathlib.Core.Path.{fun_ext}
use p3_relay.Prelude.{
  ℕ, String, ◌≡◌, refl, subst, sym, ap, ◌∙◌, inl, inr, Bool, true, false, ◌&&◌, Option, none, some,
  List, [], ◌∷◌, ◌++◌, Bytes, bytes_eq, not, ◌||◌, bytes_eq→eq, arith, Bool-cases, if◌then◌else◌,
}
use p3_relay.Errors.{Result, ok, err, conflict, Reply, fine, refused, lost, failed}
use p3_relay.Table.{exists, is_there}
use p3_relay.Postgres.{Db, EventRow, event_key, event_checks}
use p3_relay.Postgres.Store.{
  Receipt, Accepted, Publisher, same_key, new_event, select_one, accept, after_commit,
  accept_existing, keep_existing, inserted, insert_event,
}
use p3_relay.Postgres.Queue.{is_fine}

-- What was accepted first: its identifier and the digest of its body.
pub record Entry : Type 0 where
  pub id : Bytes
  pub body_sha256 : Bytes

abbrev pub Ledger : Type 0
Ledger = Bytes → Bytes → Option Entry

abbrev pub entry_of : Option EventRow → Option Entry
entry_of none = none
entry_of (some r) = some (record { id = r.id; body_sha256 = r.body_sha256 })

-- The contents of the table.
unfoldable pub ledger : Db → Ledger
unfolding select_one
ledger db source_key external_event_id =
    entry_of (select_one (same_key source_key external_event_id) db.events)

-- The contract: the first receipt of a key is entered, and no later one changes the entry.
abbrev pub answer_to : Receipt → Option Entry → Result Accepted
answer_to receipt none = ok (record { id = receipt.id; duplicate = false })
answer_to receipt (some entry) =
    if bytes_eq entry.body_sha256 receipt.body_sha256
    then ok (record { id = entry.id; duplicate = true })
    else err conflict

abbrev pub entered : Receipt → Option Entry → Option Entry
entered receipt none = some (record { id = receipt.id; body_sha256 = receipt.body_sha256 })
entered receipt (some entry) = some entry

abbrev pub is_key : Receipt → Bytes → Bytes → Bool
is_key receipt source_key external_event_id =
    bytes_eq receipt.source_key source_key && bytes_eq receipt.external_event_id external_event_id

-- `admit`, its answer and the ledger after it.
unfoldable pub admit : Ledger → Receipt → Result Accepted
admit before receipt = answer_to receipt (before receipt.source_key receipt.external_event_id)

unfoldable pub admitted : Ledger → Receipt → Ledger
admitted before receipt source_key external_event_id =
    let entry = before source_key external_event_id in
    if is_key receipt source_key external_event_id then entered receipt entry else entry

select_one-absent :
    (p : EventRow → Bool) (rows : List EventRow) → exists p rows ≡ false → select_one p rows ≡ none
unfolding exists select_one
select_one-absent p [] h = refl
select_one-absent p (r ∷ rows) h = ground (arith, select_one-absent p rows)

pub select_one-present :
    (p : EventRow → Bool) (rows : List EventRow)
    → exists p rows ≡ true
    → (r : EventRow) × (select_one p rows ≡ some r)
unfolding exists select_one
select_one-present p [] h = cc
select_one-present p (r ∷ rows) h = elim (Bool-cases (p r)) [
  | inl hit ↦ (r, rw hit refl)
  | inr miss ↦
      let (found, e) = select_one-present p rows (rw (miss, exists) at h) in (found, rw miss e)
]

select_one-last :
    (p : EventRow → Bool) (rows : List EventRow) (x : EventRow)
    → exists p rows ≡ false
    → select_one p (rows ++ x ∷ []) ≡ (if p x then some x else none)
unfolding exists select_one
select_one-last p [] x h = refl
select_one-last p (r ∷ rows) x h = ground (arith, select_one-last p rows x)

select_one-skip :
    (p : EventRow → Bool) (rows : List EventRow) (x : EventRow)
    → p x ≡ false
    → select_one p (rows ++ x ∷ []) ≡ select_one p rows
unfolding select_one
select_one-skip p [] x h = rw h refl
select_one-skip p (r ∷ rows) x h = ground (arith, select_one-skip p rows x)

module _ (receipt : Receipt) (clock : ℕ) (db : Db) where
  abbrev own : EventRow → Bool
  own = same_key receipt.source_key receipt.external_event_id

  abbrev appended : Db
  appended = record db { events = db.events ++ new_event receipt clock ∷ [] }

  own_absent :
      (source_key external_event_id : Bytes)
      → exists own db.events ≡ false
      → is_key receipt source_key external_event_id ≡ true
      → exists (same_key source_key external_event_id) db.events ≡ false
  own_absent source_key external_event_id absent hit =
      let at_source : receipt.source_key ≡ source_key = bytes_eq→eq _ _ (ground arith) in
      let at_event : receipt.external_event_id ≡ external_event_id =
        bytes_eq→eq _ _ (ground arith) in
      subst (λ s. exists (same_key s external_event_id) db.events ≡ false) at_source
        (subst (λ e. exists (same_key receipt.source_key e) db.events ≡ false) at_event absent)

  entered_at :
      (source_key external_event_id : Bytes)
      → exists own db.events ≡ false
      → ledger appended source_key external_event_id
        ≡ admitted (ledger db) receipt source_key external_event_id
  unfolding ledger admitted
  entered_at source_key external_event_id absent =
      elim (Bool-cases (is_key receipt source_key external_event_id)) [
        | inl hit ↦
            let here = own_absent source_key external_event_id absent hit in
            let p = same_key source_key external_event_id in
            rw
              (
                hit,
                select_one-last p db.events (new_event receipt clock) here,
                hit,
                select_one-absent p db.events here,
              )
              refl
        | inr miss ↦
            rw
              (
                miss,
                select_one-skip (same_key source_key external_event_id) db.events
                    (new_event receipt clock) miss,
              )
              refl
      ]

  -- The insertion enters the receipt.
  pub ledger-appended :
      exists own db.events ≡ false → ledger appended ≡ admitted (ledger db) receipt
  ledger-appended absent =
      fun_ext (λ source_key.
        fun_ext (λ external_event_id. entered_at source_key external_event_id absent))

  present_at :
      (source_key external_event_id : Bytes)
      → exists own db.events ≡ true
      → admitted (ledger db) receipt source_key external_event_id
        ≡ ledger db source_key external_event_id
  unfolding ledger admitted
  present_at source_key external_event_id there =
      elim (Bool-cases (is_key receipt source_key external_event_id)) [
        | inl hit ↦
            let (r, found) = select_one-present own db.events there in
            let at_source : receipt.source_key ≡ source_key = bytes_eq→eq _ _ (ground arith) in
            let at_event : receipt.external_event_id ≡ external_event_id =
              bytes_eq→eq _ _ (ground arith) in
            let same : select_one (same_key source_key external_event_id) db.events ≡ some r =
              subst (λ s. select_one (same_key s external_event_id) db.events ≡ some r) at_source
                (subst (λ e. select_one (same_key receipt.source_key e) db.events ≡ some r) at_event
                  found) in
            rw (hit, same) refl
        | inr miss ↦ rw miss refl
      ]

  -- A receipt of a known key enters nothing.
  pub ledger-present : exists own db.events ≡ true → admitted (ledger db) receipt ≡ ledger db
  ledger-present there =
      fun_ext
        (λ source_key. fun_ext (λ external_event_id. present_at source_key external_event_id there))

  -- The answers of the two branches.
  pub admit-absent :
      exists own db.events ≡ false
      → admit (ledger db) receipt ≡ ok (record { id = receipt.id; duplicate = false })
  unfolding admit ledger
  admit-absent absent = rw (select_one-absent own db.events absent) refl

  pub admit-selected :
      admit (ledger db) receipt ≡ answer_to receipt (entry_of (select_one own db.events))
  unfolding admit ledger
  admit-selected = refl
