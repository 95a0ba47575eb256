-- ===== src/Postgres/System/Entries.antt =====
-- internal/postgres/store.go over every history: what was accepted first under a source's key and an
-- event's identifier, as the ledger shows it.
pub mod Kept
pub mod Selected
use mathlib.Core.Option
use p3_relay.Prelude.{
  ℕ, ◌+◌, ◌≡◌, refl, inl, inr, Bool, true, false, not, Option, none, some, List, [], ◌∷◌, ◌++◌,
  Bytes, arith, subst, sym, ap, ◌∙◌, Bool-cases, if◌then◌else◌, filter, codes, has_prefix,
  has_prefix-append, bytes_eq→eq, All,
}
use p3_relay.Errors.{Result, ok, err, Reply, fine, refused, lost}
use p3_relay.Identifier.{new_uuid}
use p3_relay.Table.{update, Unique}
use p3_relay.Postgres.{Db, EventRow, event_key, timestamptz}
use p3_relay.Postgres.Store.{same_key, select_one, new_event}
use p3_relay.Postgres.Store.Ledger.{Entry, ledger, entry_of}
use p3_relay.Postgres.Replay.{can_replay, replayed}
use p3_relay.Postgres.Queue.{
  holds_claim, completed, record_state, claim, claim_identified, after_claim, recorded, retired,
  leased,
}
use p3_relay.Sandbox.Store.Submission.{simulated_event}
use p3_relay.Sandbox.Store.Replay.{is_own, sandbox_replayed}
use p3_relay.Sandbox.Store.Cleanup.{cleaned, leftovers, has_id}
use p3_relay.Sandbox.Store.Outcomes.{
  create-tables, submit-tables, admits, sandbox_replay-tables, cleanup-tables,
}
use p3_relay.Postgres.System.{
  System, Step, Reach, here, next, accepts, replays, claims, records, creates, submits, repeats,
  cleans, tables_of,
}
use p3_relay.Postgres.System.Accepts.{accept-db, replay-db}
use p3_relay.Postgres.System.Records.{record_attempt-db}
use p3_relay.Postgres.System.Repeats.{select_one-IsFound, select_one-holds}
use p3_relay.Postgres.System.Invariant.{IsConsistent}
use p3_relay.Postgres.System.Reachable.{Reach-IsConsistent}
use p3_relay.Postgres.System.Isolation.{AllLabelled, IsLabelled, IsOwnedBy}
use p3_relay.Sandbox.Store.Removal.{removed-IsLeftover}
use p3_relay.Table.Rows.{Unique-IsFound}

-- The columns that the ledger and its keeping rest on.
abbrev pub Keeps : EventRow → EventRow → Type 0
Keeps r x =
    (x.id ≡ r.id)
    × (x.source_key ≡ r.source_key)
    × (x.external_event_id ≡ r.external_event_id)
    × (x.body_sha256 ≡ r.body_sha256)
    × (x.sandbox_id ≡ r.sandbox_id)

module _ (source_key external_event_id : Bytes) where
  abbrev key : EventRow → Bool
  key = same_key source_key external_event_id

  -- An operator's event is the one under the key.
  pub record HasEntry (entry : Entry) (events : List EventRow) : Type 0 where
    pub row : EventRow
    pub found : select_one (same_key source_key external_event_id) events ≡ some row
    pub id : row.id ≡ entry.id
    pub digest : row.body_sha256 ≡ entry.body_sha256
    pub owner : row.sandbox_id ≡ none

  select_one-update :
      (where_ : EventRow → Bool) (set : EventRow → EventRow) (rows : List EventRow)
      → ((r : EventRow) → Keeps r (set r))
      → select_one key (update where_ set rows)
        ≡ Option.map (λ r. if where_ r then set r else r) (select_one key rows)
  unfolding select_one update
  select_one-update where_ set [] keeps = refl
  select_one-update where_ set (r ∷ rows) keeps =
      let (_, source, event, _, _) = keeps r in
      let same : key (if where_ r then set r else r) ≡ key r = ground (arith, source, event) in
      rw same (ground (arith, select_one-update where_ set rows keeps))

  pub update-HasEntry :
      (entry : Entry) (where_ : EventRow → Bool) (set : EventRow → EventRow) (rows : List EventRow)
      → ((r : EventRow) → Keeps r (set r))
      → HasEntry entry rows
      → HasEntry entry (update where_ set rows)
  update-HasEntry entry where_ set rows keeps h =
      let (id, source, event, digest, owner) = keeps h.row in
      record {
        row = if where_ h.row then set h.row else h.row;
        found = select_one-update where_ set rows keeps ∙ ap (Option.map _) h.found;
        id = ground (arith, id, h.id);
        digest = ground (arith, digest, h.digest);
        owner = ground (arith, owner, h.owner);
      }

  select_one-append :
      (rows : List EventRow) (x r : EventRow)
      → select_one key rows ≡ some r
      → select_one key (rows ++ x ∷ []) ≡ some r
  unfolding select_one
  select_one-append [] x r h = cc
  select_one-append (y ∷ rows) x r h = ground (arith, select_one-append rows x r)

  pub append-HasEntry :
      (entry : Entry) (rows : List EventRow) (x : EventRow)
      → HasEntry entry rows
      → HasEntry entry (rows ++ x ∷ [])
  append-HasEntry entry rows x h = record {
    row = h.row;
    found = select_one-append rows x h.row h.found;
    id = h.id;
    digest = h.digest;
    owner = h.owner;
  }

  pub select_one-filter :
      (keep : EventRow → Bool) (rows : List EventRow) (r : EventRow)
      → select_one key rows ≡ some r
      → keep r ≡ true
      → select_one key (filter keep rows) ≡ some r
  unfolding select_one
  select_one-filter keep [] r h k = cc
  select_one-filter keep (y ∷ rows) r h k = ground (arith, select_one-filter keep rows r)
