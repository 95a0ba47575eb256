-- ===== src/Sandbox/Store/Shares/Cleaned.antt =====
-- internal/sandbox/cleanup.go: the sessions and the events that a cleanup leaves.
use p3_relay.Prelude.{
  ℕ, ◌≤◌, ◌≡◌, refl, inl, inr, Bool, true, false, not, Option, none, some, List, [], ◌∷◌, Bytes,
  bytes_eq, bytes_eq→eq, bytes_eq_refl, All, All-mono, All-take, All-zip, count, filter, length,
  arith, subst, sym, ap, ◌∙◌, Bool-cases, Option-cases, is_some, ◌&&◌, leb,
}
use p3_relay.Table.{find, exists, is_there, Unique}
use p3_relay.Table.Laws.{find-key}
use p3_relay.Table.Deletion.{find-filter, Unique-filter, All-filter_weak}
use p3_relay.Table.Rows.{All-filter, exists-All}
use p3_relay.Postgres.{EventRow, SessionRow}
use p3_relay.Sandbox.{Budget, Tables}
use p3_relay.Sandbox.Store.{session_key}
use p3_relay.Sandbox.Store.Replay.{is_owner}
use p3_relay.Sandbox.Store.Cleanup.{cleaned, empty_sessions, has_events, has_id, leftovers}
use p3_relay.Sandbox.Store.Shares.{IsWithin, IsShare, IsKnown, owner_known}

count-filter-le :
    {A : Type 0} (p keep : A → Bool) (xs : List A) → count p (filter keep xs) ≤ count p xs
count-filter-le p keep [] = omega arith
count-filter-le p keep (x ∷ xs) = ground (arith, count-filter-le p keep xs)

length-filter-le :
    {A : Type 0} (keep : A → Bool) (xs : List A) → length (filter keep xs) ≤ length xs
length-filter-le keep [] = omega arith
length-filter-le keep (x ∷ xs) = ground (arith, length-filter-le keep xs)

-- An event's owner has events.
abbrev HasOwner : List EventRow → EventRow → Type 0
HasOwner events r =
    (g : SessionRow) → is_owner g.id r.sandbox_id ≡ true → has_events events g ≡ true

owners_have : (events : List EventRow) → All (HasOwner events) events
unfolding exists
owners_have [] = tt
owners_have (r ∷ events) = (
  λ g mine. ground arith,
  All-mono (HasOwner events) (HasOwner (r ∷ events)) events
      (λ x old g mine. ground (arith, old g mine)) (owners_have events),
)

empty-All :
    (clock : ℕ) (events : List EventRow) (sessions : List SessionRow)
    → All (λ _. Unit {0}) sessions
    → All (λ g. has_events events g ≡ false) (empty_sessions clock events sessions)
unfolding empty_sessions
empty-All clock events sessions each = All-take _ 100 _ (
    All-mono _ _ _ (λ g h. ground (arith, h.1))
      (All-filter (λ _. Unit {0}) (λ g. leb g.expires_at clock && not (has_events events g))
        sessions each))

units : {A : Type 0} (xs : List A) → All (λ _. Unit {0}) xs
units [] = tt
units (x ∷ xs) = (tt, units xs)

module _ (clock : ℕ) (events : List EventRow) (sessions : List SessionRow)
    (u : Unique session_key sessions) where
  abbrev stays_on : SessionRow → Bool
  stays_on s = not (exists (λ g. bytes_eq g.id s.id) (empty_sessions clock events sessions))

  owner_stays :
      (s : SessionRow) (r : EventRow)
      → r.sandbox_id ≡ some (s.id)
      → HasOwner events r
      → stays_on s ≡ true
  owner_stays s r mine has =
      elim (Bool-cases (exists (λ g. bytes_eq g.id s.id) (empty_sessions clock events sessions))) [
        | inr none_ ↦ rw none_ refl
        | inl some_ ↦
            let (g, same, bare) =
              exists-All _ (λ g. bytes_eq g.id s.id) _
                (empty-All clock events sessions (units sessions)) some_ in
            let full = has g (rw (mine, bytes_eq→eq g.id s.id same) (bytes_eq_refl s.id)) in
            absurd (cc (bare, full))
      ]

  stays_there :
      (k : Bytes) (found : Option SessionRow)
      → find session_key k sessions ≡ found
      → is_some found ≡ true
      → ((s : SessionRow) → s.id ≡ k → stays_on s ≡ true)
      → is_there session_key k (filter stays_on sessions) ≡ true
  stays_there k none e h stays = cc
  stays_there k (some s) e h stays =
      let kept = stays s (find-key session_key k sessions s e) in
      rw (find-filter session_key stays_on k sessions u, e) (rw kept refl)

  IsKnown-stays :
      (r : EventRow) → IsKnown sessions r × HasOwner events r → IsKnown (filter stays_on sessions) r
  IsKnown-stays r (known, has) = elim (Option-cases r.sandbox_id) [
    | inl free ↦ rw free refl
    | inr (k, mine) ↦
        let there = subst (λ o. owner_known sessions o ≡ true) mine known in
        rw mine (
          stays_there k (find session_key k sessions) refl there
            (λ s same. owner_stays s r (mine ∙ ap some (sym same)) has))
  ]

pub tables_cleaned :
    (locked : Bytes → Bool) (clock : ℕ → ℕ) (b : Budget) (t : Tables)
    → b.sessions ≤ 100
    → b.admissions ≤ 1000
    → IsWithin t
    → IsWithin (record { db = cleaned locked clock t.db; budget = some b })
unfolding cleaned
tables_cleaned locked clock b t few spent h =
    let keep : EventRow → Bool = λ r. not (has_id (leftovers locked (clock 1) t.db) r.id) in
    let events = filter keep t.db.events in
    record {
      charged = (b, refl, few, spent);
      retained = omega (
        arith,
        h.retained,
        length-filter-le (stays_on (clock 2) events t.db.sessions h.unique) t.db.sessions,
      );
      unique =
          Unique-filter session_key (stays_on (clock 2) events t.db.sessions h.unique) t.db.sessions
            h.unique;
      shares =
          All-filter_weak (stays_on (clock 2) events t.db.sessions h.unique) (IsShare events)
            t.db.sessions
            (All-mono (IsShare t.db.events) _ t.db.sessions
              (λ s old. (
                omega (
                  arith,
                  old.0,
                  count-filter-le (λ r. is_owner s.id r.sandbox_id) keep t.db.events,
                ),
                old.1,
              ))
              h.shares);
      known = All-mono _ _ events (IsKnown-stays (clock 2) events t.db.sessions h.unique) (
          All-zip (IsKnown t.db.sessions) _ events
            (All-filter_weak keep (IsKnown t.db.sessions) t.db.events h.known)
            (owners_have events));
    }
