-- ===== src/Postgres/Store/Ledger/Refinement.antt =====
-- internal/postgres/store.go: acceptance against the ledger's contract.
use p3_relay.Prelude.{
  ℕ, String, ◌≡◌, refl, sym, ap, ◌∙◌, inl, inr, Bool, true, false, ◌&&◌, List, [], ◌∷◌, ◌++◌, Bytes,
  not, ◌||◌, arith, Bool-cases, if◌then◌else◌,
}
use p3_relay.Errors.{Result, ok, err, Reply, fine, refused, lost, failed}
use p3_relay.Table.{exists, is_there}
use p3_relay.Postgres.{Db, event_key, event_checks}
use p3_relay.Postgres.Store.{
  Receipt, Accepted, Publisher, same_key, new_event, accept, after_commit, accept_existing,
  keep_existing, inserted, insert_event,
}
use p3_relay.Postgres.Queue.{is_fine}
use p3_relay.Postgres.Store.Ledger.{
  Ledger, ledger, admit, admitted, answer_to, entry_of, select_one-present, ledger-appended,
  ledger-present, admit-absent, admit-selected,
}

-- A failure of the database, whose message is all that the program knows of it.
abbrev pub IsFailure : {A : Type 0} → Result A → Type 0
IsFailure r = (message : String) × (r ≡ err (failed message))

-- The hints that an answer asks for: one for each new event.
abbrev pub hints : Publisher → Result Accepted → List Bytes
hints publisher (ok accepted) =
    if accepted.duplicate then [] else after_commit publisher accepted.id
hints publisher (err e) = []

-- What keeps an acceptance from an answer: a statement that fails or whose answer is lost, a
-- column that the table does not take, or an identifier that another row has.
abbrev pub is_troubled : Reply → Reply → ℕ → Db → Receipt → Bool
is_troubled r₁ r₂ clock db receipt =
    not (is_fine r₁ && is_fine r₂)
    || not (event_checks (new_event receipt clock))
    || is_there event_key receipt.id db.events

-- What an acceptance may do to a ledger: what the contract says, with its answer; or, in trouble,
-- fail, and leave the ledger as it is or as the contract says.
pub data Refines (trouble : Bool) (receipt : Receipt) (before after : Ledger) (r : Result Accepted)
    : Type 0 where
  answered :
      r ≡ admit before receipt
      → after ≡ admitted before receipt
      → Refines trouble receipt before after r
  declined : trouble ≡ true → IsFailure r → after ≡ before → Refines trouble receipt before after r
  unheard :
      trouble ≡ true
      → IsFailure r
      → after ≡ admitted before receipt
      → Refines trouble receipt before after r

module _ (publisher : Publisher) (clock : ℕ) (db : Db) (receipt : Receipt) where
  abbrev known : Bool
  known = exists (same_key receipt.source_key receipt.external_event_id) db.events

  kept-Refines :
      (r₁ r₂ : Reply)
      → known ≡ true
      → let o = keep_existing r₁ r₂ db receipt in
        Refines (is_troubled r₁ r₂ clock db receipt) receipt (ledger db) (ledger o.db) o.result
  unfolding accept_existing
  kept-Refines fine fine there =
      let (r, found) =
        select_one-present (same_key receipt.source_key receipt.external_event_id) db.events
          there in
      let same = ap (λ o. answer_to receipt (entry_of o)) found in
      answered (rw found (sym (admit-selected receipt clock db ∙ same)))
        (sym (ledger-present receipt clock db there))
  kept-Refines fine refused there = declined refl (_, refl) refl
  kept-Refines fine lost there = declined refl (_, refl) refl
  kept-Refines refused r₂ there = declined refl (_, refl) refl
  kept-Refines lost r₂ there = declined refl (_, refl) refl

  inserted-Refines :
      (r₁ r₂ : Reply)
      → known ≡ false
      → let after = record db { events = db.events ++ new_event receipt clock ∷ [] } in
        let o = inserted r₁ publisher after receipt in
        Refines (is_troubled r₁ r₂ clock db receipt) receipt (ledger db) (ledger o.db) o.result
  inserted-Refines fine r₂ absent =
      answered (sym (admit-absent receipt clock db absent))
        (ledger-appended receipt clock db absent)
  inserted-Refines refused r₂ absent =
      unheard refl (_, refl) (ledger-appended receipt clock db absent)
  inserted-Refines lost r₂ absent = unheard refl (_, refl) (ledger-appended receipt clock db absent)

  insert_event-Refines :
      (r₁ r₂ : Reply)
      → let o = insert_event r₁ r₂ publisher clock db receipt in
        Refines (is_troubled r₁ r₂ clock db receipt) receipt (ledger db) (ledger o.db) o.result
  insert_event-Refines r₁ r₂ = elim (Bool-cases (event_checks (new_event receipt clock))) [
    | inr bad ↦ rw bad (declined (ground arith) (_, refl) refl)
    | inl fit ↦ elim (Bool-cases known) [
      | inl there ↦ rw (fit, there) (rw fit at (kept-Refines r₁ r₂ there))
      | inr absent ↦ elim (Bool-cases (is_there event_key receipt.id db.events)) [
        | inl taken ↦ rw (fit, absent, taken) (declined (ground arith) (_, refl) refl)
        | inr free ↦ rw (fit, absent, free) (rw (fit, free) at (inserted-Refines r₁ r₂ absent))
      ]
    ]
  ]

  accept_step :
      (r₁ r₂ : Reply)
      → let o = accept r₁ r₂ publisher clock db receipt in
        Refines (is_troubled r₁ r₂ clock db receipt) receipt (ledger db) (ledger o.db) o.result
  unfolding accept
  accept_step fine r₂ = insert_event-Refines fine r₂
  accept_step refused r₂ = declined refl (_, refl) refl
  accept_step lost r₂ = insert_event-Refines lost r₂

  accept-hints :
      (r₁ r₂ : Reply)
      → let o = accept r₁ r₂ publisher clock db receipt in o.published ≡ hints publisher o.result
  unfolding accept accept_existing
  accept-hints fine fine = ground arith
  accept-hints fine refused = ground arith
  accept-hints fine lost = ground arith
  accept-hints refused r₂ = refl
  accept-hints lost r₂ = ground arith

  -- Whatever the database replies, an acceptance does to the ledger of sources and event
  -- identifiers what the contract says and answers as the contract does; only where a statement
  -- fails or its answer is lost, a column does not fit, or the identifier is taken may it fail,
  -- and then the ledger is as before or as the contract says. It publishes the new event's
  -- identifier when it answers that there is a new event, and nothing otherwise.
  pub accept-Refines :
      (r₁ r₂ : Reply)
      → let o = accept r₁ r₂ publisher clock db receipt in
        Refines (is_troubled r₁ r₂ clock db receipt) receipt (ledger db) (ledger o.db) o.result
        × (o.published ≡ hints publisher o.result)
  accept-Refines r₁ r₂ = (accept_step r₁ r₂, accept-hints r₁ r₂)
