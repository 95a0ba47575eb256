-- ===== src/Postgres/System/Leases.antt =====
-- internal/postgres/queue.go: one worker at a time. An event under a running lease, and the calls
-- that other processes make before its end.
use mathlib.Core.Option
use p3_relay.Prelude.{
  ℕ, ◌+◌, ◌<◌, ◌≡◌, ◌≢◌, refl, inl, inr, Bool, false, some, List, [], ◌∷◌, ◌++◌, Bytes, sym, ap,
  ◌∙◌, arith, Bool-cases,
}
use p3_relay.Errors.{Result, ok, err, Reply, fine, refused, lost}
use p3_relay.Identifier.{new_uuid}
use p3_relay.Delivery.{ClaimedEvent}
use p3_relay.Table.{find, update, Unique}
use p3_relay.Table.Laws.{find-update, find-append}
use p3_relay.Table.Rows.{find-IsFound}
use p3_relay.Postgres.{Db, EventRow, SessionRow, event_key, delivering, dead_lettered, timestamptz}
use p3_relay.Postgres.Replay.{can_replay, replayed}
use p3_relay.Postgres.Queue.{
  holds_claim, completed, record_state, claim, claim_identified, after_claim, recorded, is_expired,
  is_eligible,
}
use p3_relay.Postgres.Queue.Claimed.{RowClaimed, retires, leases, leaves, row_claimed, row_after}
use p3_relay.Sandbox.Store.Replay.{is_own, sandbox_replayed}
use p3_relay.Sandbox.Store.Removal.{IsLeftover, cleaned_exact}
use p3_relay.Sandbox.Store.Outcomes.{
  create-tables, submit-tables, admits, sandbox_replay-tables, cleanup-tables,
}
use p3_relay.Postgres.System.{
  System, Step, accepts, replays, claims, records, creates, submits, repeats, cleans, tables_of,
}
use p3_relay.Postgres.System.Invariant.{IsConsistent, holds_claim-row}
use p3_relay.Postgres.System.Accepts.{accept-db, replay-db}
use p3_relay.Postgres.System.Records.{record_attempt-db}
use p3_relay.Postgres.System.Repeats.{same_own, owned_row-eq}
use p3_relay.Postgres.System.Lookups.{find-after_claim}

-- A row under a claim whose lease runs until an instant.
pub record IsLeased (claim_id : Bytes) (until : ℕ) (r : EventRow) : Type 0 where
  pub working : r.state ≡ delivering
  pub claimed : r.claim_id ≡ some claim_id
  pub leased_until : r.lease_expires_at ≡ some until

-- A step that neither comes after the lease's end, by the clock that its own call reads, nor is the
-- worker's own recording.
abbrev pub IsOthers : {s t : System} → Bytes → ℕ → Step s t → Type 0
IsOthers claim_id until (claims reply random locked now lease fresh) = timestamptz now < until
IsOthers claim_id until (cleans replies times locked) = times 1 < until
IsOthers claim_id until (records replies c attempt issued) = c.claim_id ≢ claim_id
IsOthers claim_id until (accepts r₁ r₂ publisher clock receipt) = Unit {0}
IsOthers claim_id until (replays r₁ r₂ publisher clock event_id source_key) = Unit {0}
IsOthers claim_id until (creates replies times id expiry) = Unit {0}
IsOthers claim_id until (submits sha256 replies times random publisher owner scenario) = Unit {0}
IsOthers claim_id until (repeats replies times publisher owner id) = Unit {0}

module _ (claim_id : Bytes) (until : ℕ) (r : EventRow) (leased : IsLeased claim_id until r) where
  not-expired : (now : ℕ) → now < until → is_expired now r ≡ false
  unfolding is_expired
  not-expired now early = rw (leased.working, leased.leased_until) (ground arith)

  pub not-eligible :
      (now : ℕ) (sessions : List SessionRow) → now < until → is_eligible now sessions r ≡ false
  unfolding is_eligible
  not-eligible now sessions early = rw (leased.working, leased.leased_until) (ground arith)

  not-held : (c : ClaimedEvent) → c.claim_id ≢ claim_id → holds_claim c r ≡ false
  not-held c other = elim (Bool-cases (holds_claim c r)) [
    | inr free ↦ free
    | inl held ↦
        let (_, _, name) = holds_claim-row c r held in
        let both : some c.claim_id ≡ some claim_id = sym name ∙ leased.claimed in
        absurd (other (cc))
  ]

module _ (k : Bytes) (r : EventRow) (events : List EventRow)
    (found : find event_key k events ≡ some r) where
  update-keeps :
      (where_ : EventRow → Bool) (set : EventRow → EventRow)
      → ((x : EventRow) → (set x).id ≡ x.id)
      → where_ r ≡ false
      → find event_key k (update where_ set events) ≡ some r
  update-keeps where_ set id miss =
      find-update event_key k where_ set events id ∙ ap (Option.map _) found ∙ rw miss refl

  append-keeps : (x : EventRow) → find event_key k (events ++ x ∷ []) ≡ some r
  append-keeps x = find-append event_key k events x ∙ ground arith

RowClaimed-keeps :
    (locked : Bytes → Bool) (now : ℕ) (sessions : List SessionRow) (events : List EventRow)
    (claim_id : Bytes) (lease_end : ℕ) (r x : EventRow)
    → is_expired now r ≡ false
    → is_eligible now sessions r ≡ false
    → RowClaimed locked now sessions events claim_id lease_end r x
    → x ≡ r
RowClaimed-keeps locked now sessions events claim_id lease_end r x young unfit (retires old e) = cc
RowClaimed-keeps locked now sessions events claim_id lease_end r x young unfit (leases fit e f) = cc
RowClaimed-keeps locked now sessions events claim_id lease_end r x young unfit (leaves e f) = f

module _ (k holder : Bytes) (until : ℕ) (r : EventRow) (held : IsLeased holder until r) (db : Db)
    (u : Unique event_key db.events) (found : find event_key k db.events ≡ some r) where
  after_claim-keeps :
      (locked : Bytes → Bool) (claim_id : Bytes) (now lease_end : ℕ)
      → now < until
      → find event_key k (after_claim locked claim_id now lease_end db).events ≡ some r
  after_claim-keeps locked claim_id now lease_end early =
      let g = row_after locked now db.sessions db.events claim_id lease_end in
      find-after_claim locked claim_id now lease_end db k
      ∙ ap (Option.map g) found
      ∙ ap some (
          RowClaimed-keeps locked now db.sessions db.events claim_id lease_end r (g r)
            (not-expired holder until r held now early)
            (not-eligible holder until r held now db.sessions early)
            (row_claimed locked now db.sessions db.events claim_id lease_end r u
              (find-IsFound event_key k db.events r found)))

  claimed-keeps :
      (made : Result Bytes) (reply : Reply) (locked : Bytes → Bool) (now lease : ℕ)
      → timestamptz now < until
      → find event_key k (claim_identified made reply locked now lease db).1.events ≡ some r
  claimed-keeps (err e) reply locked now lease early = found
  claimed-keeps (ok id) refused locked now lease early = found
  claimed-keeps (ok id) fine locked now lease early =
      after_claim-keeps locked id (timestamptz now) (timestamptz (now + lease)) early
  claimed-keeps (ok id) lost locked now lease early =
      after_claim-keeps locked id (timestamptz now) (timestamptz (now + lease)) early

unready :
    (until : ℕ) (claim_id : Bytes) (r : EventRow) (event_id source_key : Bytes)
    → IsLeased claim_id until r
    → can_replay event_id source_key r ≡ false
unready until claim_id r event_id source_key held = rw held.working (ground arith)

-- Before a lease ends, no step but the recording of the worker that holds it changes the event's
-- row.
pub Step-keeps :
    {s t : System} (k holder : Bytes) (until : ℕ) (r : EventRow)
    → IsConsistent s
    → find event_key k s.db.events ≡ some r
    → IsLeased holder until r
    → (step : Step s t) → IsOthers holder until step
    → find event_key k t.db.events ≡ some r
Step-keeps {s} k holder until r h found held (accepts r₁ r₂ publisher clock receipt) others =
    elim (accept-db r₁ r₂ publisher clock s.db receipt) [
      | inl same ↦ rw same found
      | inr (_, new) ↦ rw new (append-keeps k r s.db.events found _)
    ]
Step-keeps {s} k holder until r h found held (replays r₁ r₂ publisher clock event_id source_key)
      others =
    elim (replay-db r₁ r₂ publisher clock s.db event_id source_key) [
      | inl same ↦ rw same found
      | inr new ↦ rw new (
          update-keeps k r s.db.events found (can_replay event_id source_key) (replayed clock)
            (λ x. refl) (unready until holder r event_id source_key held))
    ]
Step-keeps {s} k holder until r h found held (claims reply random locked now lease fresh) others =
    unfold claim in
    claimed-keeps k holder until r held s.db h.unique found (new_uuid random) reply locked now lease
      others
Step-keeps {s} k holder until r h found held (records replies c attempt issued) others =
    elim (record_attempt-db replies c attempt s.db) [
      | inl same ↦ rw same found
      | inr (_, _, new) ↦ rw new (
          unfold recorded in
          update-keeps k r s.db.events found (holds_claim c)
            (completed (record_state c attempt) attempt) (λ x. refl)
            (not-held holder until r held c others))
    ]
Step-keeps {s} k holder until r h found held (creates replies times id expiry) others =
    elim (create-tables replies times id expiry (tables_of s)) [
      | inl same ↦ rw same found
      | inr (b, _, _, _, _, new) ↦ rw new found
    ]
Step-keeps {s} k holder until r h found held
      (submits sha256 replies times random publisher owner scenario) others =
    elim (submit-tables sha256 times owner scenario (tables_of s) replies random publisher) [
      | inl same ↦ rw same found
      | inr (id, admits b _ _ _ _ new) ↦ rw new (append-keeps k r s.db.events found _)
    ]
Step-keeps {s} k holder until r h found held (repeats replies times publisher owner id) others =
    elim (sandbox_replay-tables replies times publisher owner id (tables_of s)) [
      | inl same ↦ rw same found
      | inr (b, chosen, _, owned, dead, _, _, new) ↦ rw new (
          update-keeps k r s.db.events found (is_own owner id) (sandbox_replayed (times 2))
            (λ x. refl)
            (elim (Bool-cases (is_own owner id r)) [
              | inr miss ↦ miss
              | inl hit ↦
                  let same : r ≡ chosen =
                    same_own s h owner id chosen r
                      (owned_row-eq owner id (times 1) s.db chosen owned)
                      (find-IsFound event_key k s.db.events r found) hit in
                  let state : delivering ≡ dead_lettered =
                    sym held.working ∙ ap (λ (x : EventRow). x.state) same ∙ dead in
                  absurd (cc)
            ]))
    ]
Step-keeps {s} k holder until r h found held (cleans replies times locked) others =
    elim (cleanup-tables replies times locked (tables_of s)) [
      | inl same ↦ rw same found
      | inr (b, _, new) ↦ elim (cleaned_exact locked times s.db k r h.unique found) [
        | inl (kept, _) ↦ rw new kept
        | inr (due, _, _) ↦
            absurd (running (times 1) until s.db.sessions r held.leased_until others due)
      ]
    ]
  where
    running :
        (clock end : ℕ) (sessions : List SessionRow) (r : EventRow)
        → r.lease_expires_at ≡ some end
        → clock < end
        → IsLeftover clock sessions r
        → ⊥
    running clock end sessions r lease early due = elim due.unleased [
      | inl none_ ↦ cc
      | inr (t, some_, past) ↦ let same : t ≡ end = cc in omega arith
    ]
