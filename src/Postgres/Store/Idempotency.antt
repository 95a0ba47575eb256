-- ===== src/Postgres/Store/Idempotency.antt =====
-- internal/postgres/store.go: what a second receipt of the same event meets.
use p3_relay.Prelude.{
  ℕ, ◌≡◌, ◌≢◌, inl, inr, Bool, true, false, Option, none, some, List, [], ◌∷◌, ◌++◌, Bytes,
  bytes_eq, bytes_eq_refl, bytes_eq_iff, arith, sym, ap, ◌∙◌, Bool-cases, if◌then◌else◌,
}
use p3_relay.Errors.{Result, ok, err, conflict, Reply, fine, refused, lost}
use p3_relay.Table.{exists}
use p3_relay.Postgres.{Db, EventRow, event_checks}
use p3_relay.Postgres.Store.{
  Receipt, Accepted, Publisher, quiet, same_key, new_event, select_one, accept, accept_existing,
  compare_digest,
}

-- The row that the selection finds behind the conflict.
existing_row :
    (p : EventRow → Bool) (rows : List EventRow)
    → exists p rows ≡ true
    → (r : EventRow) × (select_one p rows ≡ some r) × (p r ≡ true)
unfolding exists select_one
existing_row p [] h = cc
existing_row p (x ∷ rows) h = elim (Bool-cases (p x)) [
  | inl hit ↦ (x, rw hit, hit)
  | inr miss ↦
      let (r, found, holds) = existing_row p rows (rw (miss, exists) at h) in
      (r, rw miss found, holds)
]

pub exists-append :
    (p : EventRow → Bool) (rows : List EventRow) (x : EventRow)
    → exists p (rows ++ x ∷ []) ≡ (if exists p rows then true else p x)
unfolding exists
exists-append p [] x = ground arith
exists-append p (r ∷ rows) x = ground (arith, exists-append p rows x)

select_one-append :
    (p : EventRow → Bool) (rows : List EventRow) (x : EventRow)
    → exists p rows ≡ false
    → p x ≡ true
    → select_one p (rows ++ x ∷ []) ≡ some x
unfolding exists select_one
select_one-append p [] x h k = rw k
select_one-append p (r ∷ rows) x h k = ground (arith, select_one-append p rows x)

-- The receipt's key is that of its row.
pub own_key :
    (receipt : Receipt) (clock : ℕ)
    → same_key receipt.source_key receipt.external_event_id (new_event receipt clock) ≡ true
own_key receipt clock =
    ground (arith, bytes_eq_refl receipt.source_key, bytes_eq_refl receipt.external_event_id)

-- A second delivery under the same source and event identifier, with columns that the table takes.
pub record IsRepeat (first again : Receipt) : Type 0 where
  pub source : again.source_key ≡ first.source_key
  pub event : again.external_event_id ≡ first.external_event_id
  pub storable : (clock : ℕ) → event_checks (new_event again clock) ≡ true

abbrev first_answer : Bytes → Result Accepted
first_answer id = ok (record { id = id; duplicate = false })

abbrev repeat_answer : Bytes → Result Accepted
repeat_answer id = ok (record { id = id; duplicate = true })

compare_digest-ne :
    (receipt : Receipt) (o : Option EventRow) (id : Bytes)
    → compare_digest receipt o ≢ first_answer id
compare_digest-ne receipt none id h = cc
compare_digest-ne receipt (some r) id h =
    elim (Bool-cases (bytes_eq r.body_sha256 receipt.body_sha256)) [
      | inl same ↦ let e = rw same at h in cc
      | inr other ↦ let e = rw other at h in cc
    ]

accept_existing-ne :
    (reply : Reply) (db : Db) (receipt : Receipt) (id : Bytes)
    → accept_existing reply db receipt ≢ first_answer id
unfolding accept_existing
accept_existing-ne fine db receipt id h = compare_digest-ne receipt _ id h
accept_existing-ne refused db receipt id h = cc
accept_existing-ne lost db receipt id h = cc

accepted_new :
    (r₁ r₂ : Reply) (publisher : Publisher) (clock : ℕ) (db : Db) (receipt : Receipt) (id : Bytes)
    → (accept r₁ r₂ publisher clock db receipt).result ≡ first_answer id
    → (id ≡ receipt.id)
      × (exists (same_key receipt.source_key receipt.external_event_id) db.events ≡ false)
      × ((accept r₁ r₂ publisher clock db receipt).db
          ≡ record db { events = db.events ++ new_event receipt clock ∷ [] })
unfolding accept
accepted_new fine r₂ publisher clock db receipt id h =
    ground (arith, accept_existing-ne r₂ db receipt id)
accepted_new refused r₂ publisher clock db receipt id h = cc
accepted_new lost r₂ publisher clock db receipt id h = ground arith

-- The answer to a repeat, by the comparison of digests.
repeated :
    (publisher : Publisher) (clock clock' : ℕ) (db : Db) (first again : Receipt)
    → exists (same_key first.source_key first.external_event_id) db.events ≡ false
    → IsRepeat first again
    → let after = record db { events = db.events ++ new_event first clock ∷ [] } in
      accept fine fine publisher clock' after again
      ≡ quiet (compare_digest again (some (new_event first clock))) after
unfolding accept accept_existing
repeated publisher clock clock' db first again absent repeat =
    let row = new_event first clock in
    let there = exists-append (same_key first.source_key first.external_event_id) db.events row in
    let found =
      select_one-append (same_key first.source_key first.external_event_id) db.events row absent
        (own_key first clock) in
    rw (repeat.storable clock', repeat.source, repeat.event)
      (rw (there, absent, own_key first clock) (rw found))

module _ (r₁ r₂ : Reply) (publisher publisher' : Publisher) (clock clock' : ℕ) (db : Db)
    (first again : Receipt) (id : Bytes)
    (accepted : (accept r₁ r₂ publisher clock db first).result
      ≡ ok (record { id = id; duplicate = false }))
    (repeat : IsRepeat first again) where
  abbrev after : Db
  after = (accept r₁ r₂ publisher clock db first).db

  answer :
      accept fine fine publisher' clock' after again
      ≡ quiet (compare_digest again (some (new_event first clock))) after
  answer =
      let (_, absent, new) = accepted_new r₁ r₂ publisher clock db first id accepted in
      rw new (repeated publisher' clock clock' db first again absent repeat)

  -- After a first acceptance, a repeat with the same body digest is answered with the first one's
  -- identifier as a duplicate; it changes nothing in the database and publishes nothing.
  pub accept_repeat :
      again.body_sha256 ≡ first.body_sha256
      → accept fine fine publisher' clock' after again
        ≡ quiet (ok (record { id = id; duplicate = true })) after
  accept_repeat same =
      let (named, _, _) = accepted_new r₁ r₂ publisher clock db first id accepted in
      let digests = (bytes_eq_iff first.body_sha256 again.body_sha256).1 (sym same) in
      let named' = ap repeat_answer (sym named) in
      answer ∙ ap (λ (r : Result Accepted). quiet r after) (rw digests named')

  -- After a first acceptance, a repeat with another body digest is a conflict; it changes nothing
  -- in the database and publishes nothing.
  pub accept_conflict :
      again.body_sha256 ≢ first.body_sha256
      → accept fine fine publisher' clock' after again ≡ quiet (err conflict) after
  accept_conflict differ = elim (Bool-cases (bytes_eq first.body_sha256 again.body_sha256)) [
    | inl same ↦ absurd (differ (sym ((bytes_eq_iff _ _).0 same)))
    | inr other ↦ answer ∙ ap (λ (r : Result Accepted). quiet r after) (rw other)
  ]
