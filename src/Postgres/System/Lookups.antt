-- ===== src/Postgres/System/Lookups.antt =====
-- How a predicate on the row behind a key passes through the statements.
use mathlib.Core.Option
use p3_relay.Prelude.{
  ℕ, ◌≡◌, refl, ap, ◌∙◌, Bool, true, false, Option, none, some, List, [], ◌∷◌, ◌++◌, Bytes,
  bytes_eq, if◌then◌else◌, is_some,
}
use p3_relay.Table.{find, update, exists, Unique}
use p3_relay.Table.Laws.{find-update, find-append, Unique-update}
use p3_relay.Postgres.{Db, EventRow, event_key}
use p3_relay.Postgres.Queue.{after_claim, candidate, expired_rows, retired, leased, is_candidate}
use p3_relay.Postgres.Queue.Claimed.{row_after}
use p3_relay.Postgres.System.Invariant.{OnRow}

module _ (P Q : EventRow → Type 0) (missing : Type 0) where
  pub OnRow-map :
      (g : EventRow → EventRow) (o : Option EventRow)
      → ((r : EventRow) → o ≡ some r → P r → Q (g r))
      → OnRow P missing o
      → OnRow Q missing (Option.map g o)
  OnRow-map g none keep h = h
  OnRow-map g (some r) keep h = keep r refl h

  pub OnRow-update :
      (k : Bytes) (where_ : EventRow → Bool) (set : EventRow → EventRow) (rows : List EventRow)
      → ((r : EventRow) → (set r).id ≡ r.id)
      → ((r : EventRow) → find event_key k rows ≡ some r → P r → Q (if where_ r then set r else r))
      → OnRow P missing (find event_key k rows)
      → OnRow Q missing (find event_key k (update where_ set rows))
  OnRow-update k where_ set rows keep_id keep h =
      rw (find-update event_key k where_ set rows keep_id)
        (OnRow-map (λ r. if where_ r then set r else r) (find event_key k rows) keep h)

map-map :
    (g f h : EventRow → EventRow) (o : Option EventRow)
    → ((r : EventRow) → g (f r) ≡ h r)
    → Option.map g (Option.map f o) ≡ Option.map h o
map-map g f h none e = refl
map-map g f h (some r) e = ap some (e r)

-- The row behind a key after a claim.
pub find-after_claim :
    (locked : Bytes → Bool) (claim_id : Bytes) (now lease_end : ℕ) (db : Db) (k : Bytes)
    → find event_key k (after_claim locked claim_id now lease_end db).events
      ≡ Option.map
          (row_after locked now db.sessions db.events claim_id lease_end)
          (find event_key k db.events)
unfolding after_claim
find-after_claim locked claim_id now lease_end db k =
    find-update event_key k (is_candidate chosen) (leased claim_id lease_end) _ (λ r. refl)
    ∙ ap (Option.map (λ r. if is_candidate chosen r then leased claim_id lease_end r else r))
        (find-update event_key k is_old retired db.events (λ r. refl))
    ∙ map-map _ _ _ (find event_key k db.events) (λ r. refl)
  where
    chosen : Option EventRow
    chosen = candidate locked now db.sessions db.events

    is_old : EventRow → Bool
    is_old r = exists (λ e. bytes_eq e.id r.id) (expired_rows locked now db.events)

pub Unique-after_claim :
    (locked : Bytes → Bool) (claim_id : Bytes) (now lease_end : ℕ) (db : Db)
    → Unique event_key db.events
    → Unique event_key (after_claim locked claim_id now lease_end db).events
unfolding after_claim
Unique-after_claim locked claim_id now lease_end db u =
    Unique-update event_key _ _ _ (λ r. refl)
      (Unique-update event_key _ retired db.events (λ r. refl) u)

append_row :
    (P : EventRow → Type 0) (missing : Type 0) (found : Option EventRow) (hit : Bool) (x : EventRow)
    → OnRow P missing found
    → (missing → P x)
    → OnRow P missing (if is_some found then found else (if hit then some x else none))
append_row P missing none true x h new = new h
append_row P missing none false x h new = h
append_row P missing (some r) hit x h new = h

-- A row put behind the others hides none of them.
pub OnRow-append :
    (P : EventRow → Type 0) (missing : Type 0) (k : Bytes) (rows : List EventRow) (x : EventRow)
    → (missing → P x)
    → OnRow P missing (find event_key k rows)
    → OnRow P missing (find event_key k (rows ++ x ∷ []))
OnRow-append P missing k rows x new h =
    rw (find-append event_key k rows x)
      (append_row P missing (find event_key k rows) (bytes_eq x.id k) x h new)
