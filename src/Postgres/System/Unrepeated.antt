-- ===== src/Postgres/System/Unrepeated.antt =====
-- internal/sandbox/store.go: `Replay` of an event that is not the visitor's.
use p3_relay.Prelude.{
  ℕ, ◌≡◌, ◌≢◌, refl, inl, inr, Bool, false, Option, none, some, List, [], ◌∷◌, Bytes, bytes_eq→eq,
  sym, ap, ◌∙◌, All, All-mono, arith, Bool-cases,
}
use p3_relay.Errors.{ok, Reply}
use p3_relay.Table.{find, Unique}
use p3_relay.Table.Rows.{IsFound, Unique-IsFound}
use p3_relay.Postgres.{EventRow, event_key}
use p3_relay.Postgres.Store.{Publisher, select_one}
use p3_relay.Sandbox.{Tables}
use p3_relay.Sandbox.Store.Replay.{sandbox_replay, owned_row, is_own, is_owner}

pub select_one-none :
    (where_ : EventRow → Bool) (rows : List EventRow)
    → All (λ r. where_ r ≡ false) rows
    → select_one where_ rows ≡ none
unfolding select_one
select_one-none where_ [] h = refl
select_one-none where_ (r ∷ rows) h = ground (arith, select_one-none where_ rows)

-- A visitor's replay of the identifier changes no table and publishes nothing, it does not succeed,
-- and it is answered as for an identifier of no event.
pub record IsUnrepeatable (t : Tables) (id visitor : Bytes) : Type 0 where
  pub unchanged :
      (replies : ℕ → Reply) (times : ℕ → ℕ) (publisher : Publisher)
      → (sandbox_replay replies times publisher visitor id t).tables ≡ t
  pub silent :
      (replies : ℕ → Reply) (times : ℕ → ℕ) (publisher : Publisher)
      → (sandbox_replay replies times publisher visitor id t).published ≡ []
  pub failing :
      (replies : ℕ → Reply) (times : ℕ → ℕ) (publisher : Publisher)
      → (sandbox_replay replies times publisher visitor id t).result ≢ ok tt
  pub as_missing :
      (replies : ℕ → Reply) (times : ℕ → ℕ) (publisher : Publisher) (missing_id : Bytes)
      → find event_key missing_id t.db.events ≡ none
      → sandbox_replay replies times publisher visitor id t
        ≡ sandbox_replay replies times publisher visitor missing_id t

is_owner-false :
    (visitor owner : Bytes) (held : Option Bytes)
    → held ≡ some owner
    → visitor ≢ owner
    → is_owner visitor held ≡ false
is_owner-false visitor owner none h differs = cc
is_owner-false visitor owner (some s) h differs = elim (Bool-cases (is_owner visitor (some s))) [
  | inr no_ ↦ no_
  | inl hit ↦
      let same : s ≡ visitor = bytes_eq→eq s visitor hit in
      let mine : s ≡ owner = cc in absurd (differs (sym same ∙ mine))
]

module _ (t : Tables) (visitor : Bytes) (u : Unique event_key t.db.events) where
  -- No row under the identifier is the visitor's.
  abbrev Misses : Bytes → Type 0
  Misses id = All (λ (x : EventRow). is_own visitor id x ≡ false) t.db.events

  found-Misses :
      (id owner : Bytes) (r : EventRow)
      → find event_key id t.db.events ≡ some r
      → r.sandbox_id ≡ some owner
      → visitor ≢ owner
      → Misses id
  found-Misses id owner r found mine differs =
      All-mono (IsFound event_key t.db.events) _ t.db.events
        (λ x at. elim (Bool-cases (is_own visitor id x)) [
          | inr no_ ↦ no_
          | inl hit ↦
              let same_id : x.id ≡ id = bytes_eq→eq _ _ (ground arith) in
              let here : some x ≡ some r =
                sym at ∙ ap (λ j. find event_key j t.db.events) same_id ∙ found in
              let same : x ≡ r = cc in
              let owned = ap (λ (y : EventRow). y.sandbox_id) same ∙ mine in
              let not_owner = is_owner-false visitor owner x.sandbox_id owned differs in
              absurd (ground arith)
        ])
        (Unique-IsFound event_key t.db.events u)

  absent-Misses : (id : Bytes) → find event_key id t.db.events ≡ none → Misses id
  absent-Misses id absent =
      All-mono (IsFound event_key t.db.events) _ t.db.events
        (λ x at. elim (Bool-cases (is_own visitor id x)) [
          | inr no_ ↦ no_
          | inl hit ↦
              let same_id : x.id ≡ id = bytes_eq→eq _ _ (ground arith) in
              let here : some x ≡ none =
                sym at ∙ ap (λ j. find event_key j t.db.events) same_id ∙ absent in
              absurd (cc)
        ])
        (Unique-IsFound event_key t.db.events u)

  owned_row-none : (id : Bytes) (clock : ℕ) → Misses id → owned_row visitor id clock t.db ≡ none
  owned_row-none id clock misses =
      let none_ = select_one-none (is_own visitor id) t.db.events misses in ground arith

  pub other-IsUnrepeatable :
      (id owner : Bytes) (r : EventRow)
      → find event_key id t.db.events ≡ some r
      → r.sandbox_id ≡ some owner
      → visitor ≢ owner
      → IsUnrepeatable t id visitor
  unfolding sandbox_replay
  other-IsUnrepeatable id owner r found mine differs =
      let misses = found-Misses id owner r found mine differs in
      record {
        unchanged = λ replies times publisher.
            let none_ = owned_row-none id (times 1) misses in ground arith;
        silent = λ replies times publisher.
            let none_ = owned_row-none id (times 1) misses in ground arith;
        failing = λ replies times publisher.
            let none_ = owned_row-none id (times 1) misses in ground arith;
        as_missing = λ replies times publisher missing_id absent.
            rw
              (
                owned_row-none id (times 1) misses,
                owned_row-none missing_id (times 1) (absent-Misses missing_id absent),
              )
              refl;
      }
