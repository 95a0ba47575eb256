-- ===== src/Postgres/System/Entries/Kept.antt =====
-- internal/postgres/store.go over every history: no step removes or changes an operator's entry.
use p3_relay.Prelude.{
  ℕ, ◌+◌, ◌≡◌, refl, inl, inr, Bool, true, false, not, Option, none, some, List, [], ◌∷◌, Bytes,
  arith, subst, sym, ap, ◌∙◌, Bool-cases, codes, has_prefix, has_prefix-append, bytes_eq→eq, All,
}
use p3_relay.Errors.{Result, ok, err, Reply, fine, refused, lost}
use p3_relay.Identifier.{new_uuid}
use p3_relay.Table.{Unique}
use p3_relay.Postgres.{Db, EventRow, event_key, timestamptz}
use p3_relay.Postgres.Store.{same_key, select_one, new_event}
use p3_relay.Postgres.Store.Ledger.{Entry, ledger, entry_of}
use p3_relay.Postgres.Replay.{can_replay, replayed}
use p3_relay.Postgres.Queue.{
  holds_claim, completed, record_state, claim, claim_identified, after_claim, recorded, retired,
  leased,
}
use p3_relay.Sandbox.Store.Submission.{simulated_event}
use p3_relay.Sandbox.Store.Replay.{is_own, sandbox_replayed}
use p3_relay.Sandbox.Store.Cleanup.{cleaned, leftovers, has_id}
use p3_relay.Sandbox.Store.Outcomes.{
  create-tables, submit-tables, admits, sandbox_replay-tables, cleanup-tables,
}
use p3_relay.Postgres.System.{
  System, Step, Reach, here, next, accepts, replays, claims, records, creates, submits, repeats,
  cleans, tables_of,
}
use p3_relay.Postgres.System.Accepts.{accept-db, replay-db}
use p3_relay.Postgres.System.Records.{record_attempt-db}
use p3_relay.Postgres.System.Repeats.{select_one-IsFound, select_one-holds}
use p3_relay.Postgres.System.Invariant.{IsConsistent}
use p3_relay.Postgres.System.Reachable.{Reach-IsConsistent}
use p3_relay.Postgres.System.Isolation.{AllLabelled, IsLabelled, IsOwnedBy}
use p3_relay.Sandbox.Store.Removal.{removed-IsLeftover}
use p3_relay.Table.Rows.{Unique-IsFound}
use p3_relay.Postgres.System.Entries.{HasEntry, update-HasEntry, append-HasEntry, select_one-filter}

select_one-All :
    (P : EventRow → Type 0) (where_ : EventRow → Bool) (rows : List EventRow) (r : EventRow)
    → All P rows
    → select_one where_ rows ≡ some r
    → P r
unfolding select_one
select_one-All P where_ [] r h e = cc
select_one-All P where_ (x ∷ rows) r h e = elim (Bool-cases (where_ x)) [
  | inl hit ↦
      let first : some x ≡ some r = rw (hit, select_one) at e in
      let same : x ≡ r = cc in subst P same h.0
  | inr miss ↦ select_one-All P where_ rows r h.1 (rw (miss, select_one) at e)
]

-- A row under a (same_key source_key external_event_id) outside the visitors' namespace is no visitor's.
unowned :
    (source_key : Bytes) (owner : Option Bytes)
    → has_prefix source_key (codes "sandbox:") ≡ false
    → IsOwnedBy source_key owner
    → owner ≡ none
unowned source_key none outside own = refl
unowned source_key (some owner) outside own =
    let inside : has_prefix source_key (codes "sandbox:") ≡ true =
      subst (λ k. has_prefix k (codes "sandbox:") ≡ true) (sym own)
        (has_prefix-append (codes "sandbox:") owner) in
    cc

module _ (source_key external_event_id : Bytes) where
  cleaned-HasEntry :
      (entry : Entry) (locked : Bytes → Bool) (times : ℕ → ℕ) (db : Db)
      → Unique event_key db.events
      → HasEntry source_key external_event_id entry db.events
      → HasEntry source_key external_event_id entry (cleaned locked times db).events
  unfolding cleaned
  cleaned-HasEntry entry locked times db u h =
      let known =
        select_one-IsFound db.events (same_key source_key external_event_id) db.events h.row
          (Unique-IsFound event_key db.events u) h.found in
      let kept : has_id (leftovers locked (times 1) db) h.row.id ≡ false =
        elim (Bool-cases (has_id (leftovers locked (times 1) db) h.row.id)) [
          | inr stays ↦ stays
          | inl old ↦
              let left = removed-IsLeftover locked (times 1) db u h.row.id h.row known old in
              let both : none ≡ some left.owner = sym h.owner ∙ left.owned in absurd (cc)
        ] in
      record {
        row = h.row;
        found =
            select_one-filter source_key external_event_id
              (λ r. not (has_id (leftovers locked (times 1) db) r.id)) db.events h.row h.found
              (ground arith);
        id = h.id;
        digest = h.digest;
        owner = h.owner;
      }

  after_claim-HasEntry :
      (entry : Entry) (locked : Bytes → Bool) (claim_id : Bytes) (now lease_end : ℕ) (db : Db)
      → HasEntry source_key external_event_id entry db.events
      → HasEntry source_key external_event_id entry
          (after_claim locked claim_id now lease_end db).events
  unfolding after_claim
  after_claim-HasEntry entry locked claim_id now lease_end db h =
      update-HasEntry source_key external_event_id entry _ (leased claim_id lease_end) _
        (λ r. (refl, refl, refl, refl, refl))
        (update-HasEntry source_key external_event_id entry _ retired db.events
          (λ r. (refl, refl, refl, refl, refl)) h)

  claimed-HasEntry :
      (entry : Entry) (db : Db) (made : Result Bytes) (reply : Reply) (locked : Bytes → Bool)
      (now lease : ℕ)
      → HasEntry source_key external_event_id entry db.events
      → HasEntry source_key external_event_id entry
          (claim_identified made reply locked now lease db).1.events
  claimed-HasEntry entry db (err e) reply locked now lease h = h
  claimed-HasEntry entry db (ok id) refused locked now lease h = h
  claimed-HasEntry entry db (ok id) fine locked now lease h =
      after_claim-HasEntry entry locked id (timestamptz now) (timestamptz (now + lease)) db h
  claimed-HasEntry entry db (ok id) lost locked now lease h =
      after_claim-HasEntry entry locked id (timestamptz now) (timestamptz (now + lease)) db h

  Step-HasEntry :
      {s t : System} (entry : Entry)
      → IsConsistent s
      → Step s t
      → HasEntry source_key external_event_id entry s.db.events
      → HasEntry source_key external_event_id entry t.db.events
  Step-HasEntry {s} entry c (accepts r₁ r₂ publisher clock receipt) h =
      elim (accept-db r₁ r₂ publisher clock s.db receipt) [
        | inl same ↦ rw same h
        | inr (_, new) ↦ rw new (
            append-HasEntry source_key external_event_id entry s.db.events (new_event receipt clock)
              h)
      ]
  Step-HasEntry {s} entry c (replays r₁ r₂ publisher clock event_id source) h =
      elim (replay-db r₁ r₂ publisher clock s.db event_id source) [
        | inl same ↦ rw same h
        | inr new ↦ rw new (
            update-HasEntry source_key external_event_id entry (can_replay event_id source)
              (replayed clock) s.db.events (λ r. (refl, refl, refl, refl, refl)) h)
      ]
  Step-HasEntry {s} entry c (claims reply random locked now lease fresh) h =
      unfold claim in claimed-HasEntry entry s.db (new_uuid random) reply locked now lease h
  Step-HasEntry {s} entry c (records replies claimed attempt issued) h =
      elim (record_attempt-db replies claimed attempt s.db) [
        | inl same ↦ rw same h
        | inr (_, _, new) ↦ rw new (
            unfold recorded in
            update-HasEntry source_key external_event_id entry (holds_claim claimed)
              (completed (record_state claimed attempt) attempt) s.db.events
              (λ r. (refl, refl, refl, refl, refl)) h)
      ]
  Step-HasEntry {s} entry c (creates replies times id expiry) h =
      elim (create-tables replies times id expiry (tables_of s)) [
        | inl same ↦ rw same h
        | inr (b, _, _, _, _, new) ↦ rw new h
      ]
  Step-HasEntry {s} entry c (submits sha256 replies times random publisher owner scenario) h =
      elim (submit-tables sha256 times owner scenario (tables_of s) replies random publisher) [
        | inl same ↦ rw same h
        | inr (id, admits b _ _ _ _ new) ↦ rw new (
            append-HasEntry source_key external_event_id entry s.db.events
              (simulated_event sha256 owner scenario id (times 3)) h)
      ]
  Step-HasEntry {s} entry c (repeats replies times publisher owner id) h =
      elim (sandbox_replay-tables replies times publisher owner id (tables_of s)) [
        | inl same ↦ rw same h
        | inr (b, chosen, _, _, _, _, _, new) ↦ rw new (
            update-HasEntry source_key external_event_id entry (is_own owner id)
              (sandbox_replayed (times 2)) s.db.events (λ r. (refl, refl, refl, refl, refl)) h)
      ]
  Step-HasEntry {s} entry c (cleans replies times locked) h =
      elim (cleanup-tables replies times locked (tables_of s)) [
        | inl same ↦ rw same h
        | inr (b, _, new) ↦ rw new (cleaned-HasEntry entry locked times s.db c.unique h)
      ]

  pub Reach-HasEntry :
      {s t : System} (entry : Entry)
      → IsConsistent s
      → HasEntry source_key external_event_id entry s.db.events
      → Reach s t
      → HasEntry source_key external_event_id entry t.db.events
  Reach-HasEntry entry c h here = h
  Reach-HasEntry entry c h (next r step) =
      Step-HasEntry entry (Reach-IsConsistent r c) step (Reach-HasEntry entry c h r)

  pub HasEntry-ledger :
      (entry : Entry) (db : Db)
      → HasEntry source_key external_event_id entry db.events
      → ledger db source_key external_event_id ≡ some entry
  unfolding ledger
  HasEntry-ledger entry db h = ap entry_of h.found ∙ ground (arith, h.id, h.digest)

  -- Under a (same_key source_key external_event_id) of the operator's, what the ledger shows is an operator's event.
  pub ledger-HasEntry :
      (entry : Entry) (db : Db)
      → AllLabelled db
      → has_prefix source_key (codes "sandbox:") ≡ false
      → ledger db source_key external_event_id ≡ some entry
      → HasEntry source_key external_event_id entry db.events
  unfolding ledger
  ledger-HasEntry entry db labelled outside h =
      entry_row (select_one (same_key source_key external_event_id) db.events) refl h
    where
      entry_row :
          (o : Option EventRow)
          → select_one (same_key source_key external_event_id) db.events ≡ o
          → entry_of o ≡ some entry
          → HasEntry source_key external_event_id entry db.events
      entry_row none e k = cc
      entry_row (some r) e k =
          let hit = select_one-holds (same_key source_key external_event_id) db.events r e in
          let source : r.source_key ≡ source_key = bytes_eq→eq _ _ (ground arith) in
          let own =
            subst (λ s. IsOwnedBy s r.sandbox_id) source
              (select_one-All IsLabelled (same_key source_key external_event_id) db.events r
                labelled e) in
          let same : record { id = r.id; body_sha256 = r.body_sha256 } ≡ entry = cc in
          record {
            row = r;
            found = e;
            id = ap (λ (x : Entry). x.id) same;
            digest = ap (λ (x : Entry). x.body_sha256) same;
            owner = unowned source_key r.sandbox_id outside own;
          }
