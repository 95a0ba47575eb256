-- ===== src/Postgres/System/Strangers.antt =====
-- internal/postgres/read.go and replay.go, asked for another visitor's event or by the operator:
-- what the statements with a source key do to events of other sources.
use p3_relay.Prelude.{
  ℕ, ◌≡◌, ◌≢◌, refl, inl, inr, true, false, ◌&&◌, some, List, [], ◌∷◌, ◌++◌, map, Bytes, codes,
  bytes_eq, bytes_eq→eq, bytes_eq_iff, subst, sym, ap, ◌∙◌, All, All-mono, All-take, arith,
  Bool-cases, has_prefix, has_prefix-append,
}
use p3_relay.Errors.{ok, err, not_found, Reply, fine, refused, lost}
use p3_relay.Table.{find, Unique}
use p3_relay.Table.Misses.{update-none, count-none}
use p3_relay.Table.Rows.{IsFound, Unique-IsFound, All-filter, All-order_by, find-All}
use p3_relay.Postgres.{Db, EventRow, event_key}
use p3_relay.Postgres.Store.{Publisher, quiet}
use p3_relay.Postgres.Read.{Summary, detail, list, is_listed, newest_first, summary_of}
use p3_relay.Postgres.Replay.{replay, can_replay, explain}
use p3_relay.Sandbox.Store.Submission.{sandbox_source}
use p3_relay.Postgres.System.{System, Reach, migrated, tables_of}
use p3_relay.Postgres.System.Unrepeated.{select_one-none, IsUnrepeatable, other-IsUnrepeatable}
use p3_relay.Postgres.System.Reachable.{Reach-IsConsistent, migrated-IsConsistent}
use p3_relay.Postgres.System.Isolation.{IsOwnedBy, IsLabelled, Reach-AllLabelled}

-- Who has no right to a visitor's event: the operator, whose source key lies outside the visitors'
-- namespace, and every other visitor.
pub data IsStranger (owner source_key : Bytes) : Type 0 where
  operator : has_prefix source_key (codes "sandbox:") ≡ false → IsStranger owner source_key
  visitor :
      (other : Bytes)
      → other ≢ owner
      → source_key ≡ sandbox_source other
      → IsStranger owner source_key

append-injective : (p a b : Bytes) → p ++ a ≡ p ++ b → a ≡ b
append-injective [] a b h = h
append-injective (c ∷ p) a b h = append-injective p a b (cc)

other_source :
    (r : EventRow) (owner source_key : Bytes)
    → IsOwnedBy r.source_key r.sandbox_id
    → r.sandbox_id ≡ some owner
    → IsStranger owner source_key
    → r.source_key ≢ source_key
other_source r owner source_key labelled mine (operator outside) same =
    let own : r.source_key ≡ sandbox_source owner = subst (IsOwnedBy r.source_key) mine labelled in
    let inside : has_prefix source_key (codes "sandbox:") ≡ true =
      subst (λ k. has_prefix k (codes "sandbox:") ≡ true) (sym own ∙ same)
        (has_prefix-append (codes "sandbox:") owner) in
    cc
other_source r owner source_key labelled mine (visitor other differs named) same =
    let own : r.source_key ≡ sandbox_source owner = subst (IsOwnedBy r.source_key) mine labelled in
    differs (append-injective (codes "sandbox:") other owner (sym named ∙ sym same ∙ own))

module _ (k source_key : Bytes) (r : EventRow) (events : List EventRow)
    (u : Unique event_key events) (found : find event_key k events ≡ some r)
    (apart : r.source_key ≢ source_key) where
  -- No row has both the identifier and the source key.
  miss :
      (x : EventRow)
      → IsFound event_key events x
      → (bytes_eq x.id k && bytes_eq x.source_key source_key) ≡ false
  miss x at = elim (Bool-cases (bytes_eq x.id k && bytes_eq x.source_key source_key)) [
    | inr no_ ↦ no_
    | inl hit ↦
        let same_id : x.id ≡ k = bytes_eq→eq _ _ (ground arith) in
        let here : some x ≡ some r = sym at ∙ ap (λ j. find event_key j events) same_id ∙ found in
        let same : x ≡ r = cc in
        absurd
          (apart (subst (λ y. y.source_key ≡ source_key) same (bytes_eq→eq _ _ (ground arith))))
  ]

  pub All-miss :
      All (λ (x : EventRow). (bytes_eq x.id k && bytes_eq x.source_key source_key) ≡ false) events
  All-miss = All-mono (IsFound event_key events) _ events miss (Unique-IsFound event_key events u)

  pub listed-apart :
      (state : Bytes) (x : EventRow)
      → IsFound event_key events x
      → is_listed source_key state x ≡ true
      → x.id ≢ k
  listed-apart state x at hit same = let no_ = miss x at in ground (arith, bytes_eq_iff x.id k)

All-summary :
    (k : Bytes) (rows : List EventRow)
    → All (λ (r : EventRow). r.id ≢ k) rows
    → All (λ (s : Summary). s.id ≢ k) (map summary_of rows)
All-summary k [] h = tt
All-summary k (r ∷ rows) h = (h.0, All-summary k rows h.1)

-- What the caller with a source key learns of the event behind an identifier, and does to it:
-- nothing, and the calls answer as if it were not there.
pub record IsHidden (to_valid_utf8 : Bytes → Bytes) (db : Db) (k source_key : Bytes) : Type 0 where
  pub no_detail : (reply : Reply) → detail to_valid_utf8 fine reply db k source_key ≡ err not_found
  pub not_listed :
      (state : Bytes) (limit : ℕ)
      → (summaries : List Summary) × (list fine db source_key state limit ≡ ok summaries)
        × All (λ (s : Summary). s.id ≢ k) summaries
  pub no_replay :
      (publisher : Publisher) (clock : ℕ)
      → replay fine fine publisher clock db k source_key ≡ quiet (err not_found) db
  pub untouched :
      (r₁ r₂ : Reply) (publisher : Publisher) (clock : ℕ)
      → (replay r₁ r₂ publisher clock db k source_key).db ≡ db

module _ (to_valid_utf8 : Bytes → Bytes) (db : Db) (k source_key : Bytes) (r : EventRow)
    (u : Unique event_key db.events) (found : find event_key k db.events ≡ some r)
    (apart : r.source_key ≢ source_key) where
  all_miss :
      All
        (λ (x : EventRow). (bytes_eq x.id k && bytes_eq x.source_key source_key) ≡ false)
        db.events
  all_miss = All-miss k source_key r db.events u found apart

  cannot_replay : All (λ x. can_replay k source_key x ≡ false) db.events
  cannot_replay = All-mono _ _ db.events (λ x no_. ground arith) all_miss

  no_detail_lem : (reply : Reply) → detail to_valid_utf8 fine reply db k source_key ≡ err not_found
  unfolding detail
  no_detail_lem reply = rw (select_one-none _ db.events all_miss) refl

  not_listed_lem :
      (state : Bytes) (limit : ℕ)
      → (summaries : List Summary) × (list fine db source_key state limit ≡ ok summaries)
        × All (λ (s : Summary). s.id ≢ k) summaries
  unfolding list
  not_listed_lem state limit = (
    _,
    refl,
    All-summary k _ (
        All-take _ limit _ (
          All-order_by (λ (x : EventRow). x.id ≢ k) newest_first _
            (All-mono _ _ _
              (λ x p. listed-apart k source_key r db.events u found apart state x p.0 p.1)
              (All-filter (IsFound event_key db.events) (is_listed source_key state) db.events
                (Unique-IsFound event_key db.events u))))),
  )

  untouched_lem :
      (r₁ r₂ : Reply) (publisher : Publisher) (clock : ℕ)
      → (replay r₁ r₂ publisher clock db k source_key).db ≡ db
  unfolding replay
  untouched_lem fine r₂ publisher clock =
      rw
        (
          count-none (can_replay k source_key) db.events cannot_replay,
          update-none (can_replay k source_key) _ db.events cannot_replay,
        )
        refl
  untouched_lem refused r₂ publisher clock = refl
  untouched_lem lost r₂ publisher clock =
      rw (update-none (can_replay k source_key) _ db.events cannot_replay) refl

  explain_missing : explain fine k source_key db ≡ err not_found
  explain_missing = ground (
    arith,
    select_one-none (λ (x : EventRow). bytes_eq x.id k && bytes_eq x.source_key source_key)
        db.events all_miss,
  )

  no_replay_lem :
      (publisher : Publisher) (clock : ℕ)
      → replay fine fine publisher clock db k source_key ≡ quiet (err not_found) db
  unfolding replay
  no_replay_lem publisher clock =
      rw
        (
          count-none (can_replay k source_key) db.events cannot_replay,
          update-none (can_replay k source_key) _ db.events cannot_replay,
        )
        (ap (λ o. quiet o db) explain_missing)

  hidden : IsHidden to_valid_utf8 db k source_key
  hidden = record {
    no_detail = no_detail_lem;
    not_listed = not_listed_lem;
    no_replay = no_replay_lem;
    untouched = untouched_lem;
  }

-- Over every history of calls, a visitor's event is hidden from the operator, whose source key lies
-- outside the visitors' namespace, and from every other visitor: when the statements are answered
-- its detail and its replay under a source key are those of an event that is not there, no listing
-- names it, and a replay never changes a table. The visitors' own replay, by any other visitor,
-- never changes a table, publishes nothing and fails, with the answer that it gives for an
-- identifier of no event.
pub stranger-IsHidden :
    {s : System} {hour : ℕ} (to_valid_utf8 : Bytes → Bytes) (k owner source_key other : Bytes)
    (r : EventRow)
    → Reach (migrated hour) s
    → find event_key k s.db.events ≡ some r
    → r.sandbox_id ≡ some owner
    → IsStranger owner source_key
    → other ≢ owner
    → IsHidden to_valid_utf8 s.db k source_key × IsUnrepeatable (tables_of s) k other
stranger-IsHidden {s} {hour} to_valid_utf8 k owner source_key other r reach found mine stranger
      differs =
    let safe = Reach-IsConsistent reach (migrated-IsConsistent hour) in
    let labelled =
      find-All IsLabelled event_key k s.db.events r (Reach-AllLabelled reach tt) found in
    (
      hidden to_valid_utf8 s.db k source_key r safe.unique found
          (other_source r owner source_key labelled mine stranger),
      other-IsUnrepeatable (tables_of s) other safe.unique k owner r found mine differs,
    )
