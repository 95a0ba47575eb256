-- ===== src/Sandbox/Store/Shares.antt =====
-- internal/sandbox/store.go: the quotas of the tables: the hour's budget, the retained sessions, and
-- each session's share of the events.
pub mod Cleaned
pub mod Submitted
pub mod Calls
use p3_relay.Prelude.{
  ℕ, suc, ◌+◌, ◌≤◌, ◌<◌, ◌≡◌, refl, inl, inr, Bool, true, false, ◌&&◌, Option, none, some, List, [],
  ◌∷◌, ◌++◌, Bytes, bytes_eq, bytes_eq→eq, bytes_eq_refl, All, All-mono, All-append, All-zip, count,
  length, length-append, arith, subst, sym, ap, ◌∙◌, Bool-cases, Option-cases, ltb, is_some,
  if◌then◌else◌, bytes_eq_iff,
}
use p3_relay.Table.{find, update, is_there, Unique}
use p3_relay.Table.Laws.{
  find-update, find-append, find-key, Unique-update, Unique-append, count-key, hits,
}
use p3_relay.Table.Rows.{IsFound, Unique-IsFound, All-update}
use p3_relay.Postgres.{AttemptRow, EventRow, SessionRow}
use p3_relay.Sandbox.{Budget, Tables}
use p3_relay.Sandbox.Store.{session_key, new_session, rolled, created}
use p3_relay.Sandbox.Store.Submission.{has_room, one_more}
use p3_relay.Sandbox.Store.Replay.{is_owner}

-- How many of the events are a session's.
abbrev pub owned : Bytes → List EventRow → ℕ
owned k events = count (λ r. is_owner k r.sandbox_id) events

-- At most twenty submissions of a session, and no more events than those.
abbrev pub IsShare : List EventRow → SessionRow → Type 0
IsShare events s = (owned s.id events ≤ s.event_count) × (s.event_count ≤ 20)

abbrev pub owner_known : List SessionRow → Option Bytes → Bool
owner_known sessions none = true
owner_known sessions (some k) = is_there session_key k sessions

abbrev pub IsKnown : List SessionRow → EventRow → Type 0
IsKnown sessions r = owner_known sessions r.sandbox_id ≡ true

pub record IsWithin (t : Tables) : Type 0 where
  pub charged : (b : Budget) × (t.budget ≡ some b) × (b.sessions ≤ 100) × (b.admissions ≤ 1000)
  pub retained : length t.db.sessions ≤ 1000
  pub unique : Unique session_key t.db.sessions
  pub shares : All (IsShare t.db.events) t.db.sessions
  pub known : All (IsKnown t.db.sessions) t.db.events

pub count-append :
    {A : Type 0} (p : A → Bool) (xs ys : List A) → count p (xs ++ ys) ≡ count p xs + count p ys
count-append p [] ys = omega arith
count-append p (x ∷ xs) ys = ground (arith, count-append p xs ys)

owned-update :
    (k : Bytes) (where_ : EventRow → Bool) (set : EventRow → EventRow) (events : List EventRow)
    → ((r : EventRow) → (set r).sandbox_id ≡ r.sandbox_id)
    → owned k (update where_ set events) ≡ owned k events
unfolding update
owned-update k where_ set [] same = refl
owned-update k where_ set (r ∷ events) same = elim (Bool-cases (where_ r)) [
  | inl hit ↦ rw (hit, same r, owned-update k where_ set events same) refl
  | inr miss ↦ rw (miss, owned-update k where_ set events same) refl
]

-- An update of events that leaves them to their sessions.
pub events_updated :
    (t : Tables) (where_ : EventRow → Bool) (set : EventRow → EventRow)
    → ((r : EventRow) → (set r).sandbox_id ≡ r.sandbox_id)
    → IsWithin t
    → IsWithin (record t { db = record (t.db) { events = update where_ set t.db.events } })
events_updated t where_ set same h = record {
  charged = h.charged;
  retained = h.retained;
  unique = h.unique;
  shares =
      All-mono (IsShare t.db.events) _ t.db.sessions
        (λ s old. (rw (owned-update s.id where_ set t.db.events same) old.0, old.1)) h.shares;
  known =
      All-update (IsKnown t.db.sessions) (IsKnown t.db.sessions) where_ set t.db.events
        (λ r old. keeps r old) h.known;
}
  where
    keeps :
        (r : EventRow)
        → IsKnown t.db.sessions r
        → IsKnown t.db.sessions (if where_ r then set r else r)
    keeps r old = elim (Bool-cases (where_ r)) [
      | inl hit ↦ rw (hit, same r) old
      | inr miss ↦ rw miss old
    ]

-- Another budget within its bounds, and other attempts.
pub recharged :
    (t : Tables) (b : Budget)
    → b.sessions ≤ 100
    → b.admissions ≤ 1000
    → IsWithin t
    → IsWithin (record t { budget = some b })
recharged t b few spent h = record {
  charged = (b, refl, few, spent);
  retained = h.retained;
  unique = h.unique;
  shares = h.shares;
  known = h.known;
}

pub recorded-IsWithin :
    (t : Tables) (attempts : List AttemptRow)
    → IsWithin t
    → IsWithin (record t { db = record (t.db) { attempts = attempts } })
recorded-IsWithin t attempts h = record {
  charged = h.charged;
  retained = h.retained;
  unique = h.unique;
  shares = h.shares;
  known = h.known;
}

-- A new event that is no visitor's.
pub event_accepted :
    (t : Tables) (r : EventRow)
    → r.sandbox_id ≡ none
    → IsWithin t
    → IsWithin (record t { db = record (t.db) { events = t.db.events ++ r ∷ [] } })
event_accepted t r free h = record {
  charged = h.charged;
  retained = h.retained;
  unique = h.unique;
  shares =
      All-mono (IsShare t.db.events) _ t.db.sessions
        (λ s old. (
          ground (arith, count-append (λ r. is_owner s.id r.sandbox_id) t.db.events (r ∷ [])),
          old.1,
        ))
        h.shares;
  known = All-append (IsKnown t.db.sessions) t.db.events (r ∷ []) h.known (rw free refl, tt);
}

unknown-owned :
    (k : Bytes) (sessions : List SessionRow) (events : List EventRow)
    → is_there session_key k sessions ≡ false
    → All (IsKnown sessions) events
    → owned k events ≡ 0
unknown-owned k sessions [] absent h = refl
unknown-owned k sessions (r ∷ events) absent h = elim (Option-cases r.sandbox_id) [
  | inl free ↦ rw free (unknown-owned k sessions events absent h.1)
  | inr (j, mine) ↦ elim (Bool-cases (bytes_eq j k)) [
    | inr other ↦ rw (mine, other) (unknown-owned k sessions events absent h.1)
    | inl same ↦
        let there : is_there session_key j sessions ≡ true =
          subst (λ o. owner_known sessions o ≡ true) mine h.0 in
        let here : is_there session_key k sessions ≡ true =
          subst (λ i. is_there session_key i sessions ≡ true) (bytes_eq→eq j k same) there in
        absurd (cc)
  ]
]

is_there-append :
    (k : Bytes) (sessions : List SessionRow) (s : SessionRow)
    → is_there session_key k sessions ≡ true
    → is_there session_key k (sessions ++ s ∷ []) ≡ true
is_there-append k sessions s h = rw (find-append session_key k sessions s) (ground arith)

pub IsKnown-mono :
    (before after : List SessionRow)
    → ((k : Bytes) → is_there session_key k before ≡ true → is_there session_key k after ≡ true)
    → (r : EventRow) → IsKnown before r
    → IsKnown after r
IsKnown-mono before after keep r h = go r.sandbox_id h
  where
    go : (o : Option Bytes) → owner_known before o ≡ true → owner_known after o ≡ true
    go none h = refl
    go (some k) h = keep k h

pub session_created :
    (t : Tables) (id : Bytes) (expiry : ℕ) (b : Budget)
    → b.sessions < 100
    → b.admissions ≤ 1000
    → length t.db.sessions < 1000
    → is_there session_key id t.db.sessions ≡ false
    → IsWithin t
    → IsWithin (created id expiry b t)
session_created t id expiry b few spent room fresh h = record {
  charged = (record b { sessions = b.sessions + 1 }, refl, omega arith, spent);
  retained = omega (arith, length-append t.db.sessions (new_session id expiry ∷ []));
  unique = Unique-append session_key t.db.sessions (new_session id expiry) h.unique fresh;
  shares =
      All-append (IsShare t.db.events) t.db.sessions (new_session id expiry ∷ []) h.shares (
        (omega (arith, unknown-owned id t.db.sessions t.db.events fresh h.known), omega arith),
        tt,
      );
  known =
      All-mono (IsKnown t.db.sessions) _ t.db.events
        (IsKnown-mono t.db.sessions _
          (λ k. is_there-append k t.db.sessions (new_session id expiry)))
        h.known;
}
