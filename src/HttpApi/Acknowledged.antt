-- ===== src/HttpApi/Acknowledged.antt =====
-- internal/httpapi/api.go over internal/postgres: an event behind the receipt that its source got,
-- over every later history of calls.
use p3_relay.Prelude.{ℕ, ◌≡◌, inl, inr, false, Bool, some, Bytes, codes, has_prefix, subst, sym}
use p3_relay.Errors.{Result, ok, err}
use p3_relay.Identifier.{new_uuid}
use p3_relay.Postgres.Store.Ledger.{ledger}
use p3_relay.Postgres.System.{System, Reach, next, accepts, migrated}
use p3_relay.Postgres.System.Reachable.{Reach-IsConsistent, migrated-IsConsistent}
use p3_relay.Postgres.System.Isolation.{Reach-AllLabelled}
use p3_relay.Postgres.System.Entries.Kept.{Reach-HasEntry, HasEntry-ledger, ledger-HasEntry}
use p3_relay.HttpApi.{Api, Request, responds, receipt}
use p3_relay.HttpApi.Handlers.{Setting, accept, accept_identified, events_post}
use p3_relay.HttpApi.Handlers.Receipts.{IsTrusted, events_post-Admits}
use p3_relay.HttpApi.Served.{Database, tables_store, posted-IsDurable}

module _ (d : Database) (setting : Setting) (api : Api) where
  -- The system behind a post.
  abbrev pub posted : Request → System → System
  posted request s = record s { db = (events_post (tables_store d) setting api request s.db).1 }

  accepted-Reach :
      (origin s : System) (made : Result Bytes) (external_id content : Bytes)
      → Reach origin s
      → Reach origin (record s {
        db = (accept_identified (tables_store d) setting api made external_id content s.db).1;
      })
  accepted-Reach origin s (err e) external_id content reach = reach
  accepted-Reach origin s (ok id) external_id content reach =
      next reach (accepts (d.replies 0) (d.replies 1) d.publisher d.clock _)

  posted-Reach :
      (origin s : System) (request : Request) → Reach origin s → Reach origin (posted request s)
  unfolding accept
  posted-Reach origin s request reach =
      elim (events_post-Admits (tables_store d) setting api request s.db) [
        | inr (_, _, _, _, same) ↦
            subst (λ db. Reach origin (record s { db = db })) (sym same) reach
        | inl (_, same) ↦
            subst (λ o. Reach origin (record s { db = o.1 })) (sym same)
              (accepted-Reach origin s (new_uuid setting.random) request.relay_event_id
                request.content reach)
      ]

  -- In a database that any history of calls made, a post that is answered with a receipt came from
  -- the source; and after every further history the table still shows, under the source's key and
  -- the event's identifier, an event with the receipt's identifier and the digest of the posted
  -- body, new or a duplicate, and whatever the database replies: if the source's key lies outside
  -- the visitors' namespace.
  pub acknowledged-Stays :
      {s t : System} {hour : ℕ} (request : Request) (id : Bytes) (duplicate : Bool)
      → Reach (migrated hour) s
      → has_prefix api.source_key (codes "sandbox:") ≡ false
      → (events_post (tables_store d) setting api request s.db).0
        ≡ responds 202 (receipt id duplicate)
      → Reach (posted request s) t
      → IsTrusted setting api request
        × (ledger t.db api.source_key request.relay_event_id
            ≡ some (record { id = id; body_sha256 = setting.sha256 request.content }))
  acknowledged-Stays {s} {t} {hour} request id duplicate reach outside answer later =
      let (trusted, entered) = posted-IsDurable d setting api request s.db id duplicate answer in
      let now = posted-Reach (migrated hour) s request reach in
      let there =
        ledger-HasEntry api.source_key request.relay_event_id _ (posted request s).db
          (Reach-AllLabelled now tt) outside entered in
      let kept =
        Reach-HasEntry api.source_key request.relay_event_id _
          (Reach-IsConsistent now (migrated-IsConsistent hour)) there later in
      (trusted, HasEntry-ledger api.source_key request.relay_event_id _ t.db kept)
