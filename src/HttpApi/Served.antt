-- ===== src/HttpApi/Served.antt =====
-- internal/httpapi/api.go over internal/postgres: the handlers on the tables themselves.
use p3_relay.Prelude.{
  ℕ, ◌≡◌, inl, inr, Bool, Option, none, some, Bytes, bytes_eq, bytes_eq→eq, bytes_eq_refl, sym, ap,
  ◌∙◌, Bool-cases,
}
use p3_relay.Errors.{Result, ok, err, conflict, Reply}
use p3_relay.Identifier.{new_uuid}
use p3_relay.Postgres.{Db}
use p3_relay.Postgres.Store
use p3_relay.Postgres.Store.{Publisher, Receipt, Accepted}
use p3_relay.Postgres.Store.Ledger.{Ledger, Entry, ledger, admit, admitted, answer_to, entered}
use p3_relay.Postgres.Store.Ledger.Refinement.{Refines, answered, declined, unheard, accept-Refines}
use p3_relay.Postgres.Replay
use p3_relay.Postgres.Read
use p3_relay.Postgres.Read.{Detail}
use p3_relay.HttpApi
use p3_relay.HttpApi.{Api, Request, Response, responds, aborted, receipt, Body}
use p3_relay.HttpApi.Handlers.{Setting, accept, accept_identified, accept_response, events_post}
use p3_relay.HttpApi.Handlers.Receipts.{IsTrusted, events_post-Admits}

-- What one request meets in the database: the replies to its statements in their order, and the
-- clock.
pub record Database : Type 0 where
  pub to_valid_utf8 : Bytes → Bytes
  pub replies : ℕ → Reply
  pub clock : ℕ
  pub publisher : Publisher

abbrev pub tables_store : Database → HttpApi.Store Db Detail
tables_store d = record {
  accept = λ receipt db.
      let done = Store.accept (d.replies 0) (d.replies 1) d.publisher d.clock db receipt in
      (done.result, done.db);
  replay = λ event_id source_key db.
      let done =
        Replay.replay (d.replies 0) (d.replies 1) d.publisher d.clock db event_id source_key in
      (done.result, done.db);
  overview = λ source_key db. Read.overview (d.replies 0) db source_key;
  list = λ source_key state limit db. Read.list (d.replies 0) db source_key state limit;
  detail = λ event_id source_key db.
      Read.detail d.to_valid_utf8 (d.replies 0) (d.replies 1) db event_id source_key;
}

-- What stands in the ledger under the key of a receipt that the contract answered.
admitted-entry :
    (before : Ledger) (r : Receipt) (accepted : Accepted)
    → admit before r ≡ ok accepted
    → admitted before r r.source_key r.external_event_id
      ≡ some (record { id = accepted.id; body_sha256 = r.body_sha256 })
unfolding admit admitted
admitted-entry before r accepted h =
    rw (bytes_eq_refl r.source_key, bytes_eq_refl r.external_event_id)
      (entry_at (before r.source_key r.external_event_id) h)
  where
    entry_at :
        (found : Option Entry)
        → answer_to r found ≡ ok accepted
        → entered r found ≡ some (record { id = accepted.id; body_sha256 = r.body_sha256 })
    entry_at none e = cc
    entry_at (some entry) e = elim (Bool-cases (bytes_eq entry.body_sha256 r.body_sha256)) [
      | inl same ↦
          let digest = bytes_eq→eq entry.body_sha256 r.body_sha256 same in
          let e' = rw same at e in cc
      | inr other ↦ let e' = rw other at e in absurd (cc)
    ]

refined-entry :
    (trouble : Bool) (r : Receipt) (before after : Ledger) (result : Result Accepted)
    (accepted : Accepted)
    → Refines trouble r before after result
    → result ≡ ok accepted
    → after r.source_key r.external_event_id
      ≡ some (record { id = accepted.id; body_sha256 = r.body_sha256 })
refined-entry trouble r before after result accepted (answered same change) h =
    ap (λ l. l r.source_key r.external_event_id) change
    ∙ admitted-entry before r accepted (sym same ∙ h)
refined-entry trouble r before after result accepted (declined t (m, failure) change) h = cc
refined-entry trouble r before after result accepted (unheard t (m, failure) change) h = cc

module _ (d : Database) (setting : Setting) (api : Api) where
  accepted_result :
      (result : Result Accepted) (id : Bytes) (duplicate : Bool)
      → accept_response (tables_store d) setting api result ≡ responds 202 (receipt id duplicate)
      → result ≡ ok (record { id = id; duplicate = duplicate })
  accepted_result (ok accepted) id duplicate h = cc
  accepted_result (err conflict) id duplicate h = cc
  accepted_result (err e) id duplicate h = cc

  accept-entry :
      (made : Result Bytes) (external_id content : Bytes) (db : Db) (id : Bytes) (duplicate : Bool)
      → (accept_identified (tables_store d) setting api made external_id content db).0
        ≡ responds 202 (receipt id duplicate)
      → ledger
          (accept_identified (tables_store d) setting api made external_id content db).1
          api.source_key
          external_id
        ≡ some (record { id = id; body_sha256 = setting.sha256 content })
  accept-entry (err e) external_id content db id duplicate h = cc
  accept-entry (ok fresh) external_id content db id duplicate h =
      let given : Receipt = record {
        id = fresh;
        source_key = api.source_key;
        external_event_id = external_id;
        body = content;
        body_sha256 = setting.sha256 content;
        destination_url = api.destination_url;
      } in
      refined-entry _ given (ledger db) _ _ (record { id = id; duplicate = duplicate })
        (accept-Refines d.publisher d.clock db given (d.replies 0) (d.replies 1)).0
        (accepted_result _ id duplicate h)

  -- A post that is answered with a receipt came from the source, and its event is in the table
  -- behind the request under the source's key and the event's identifier, with the receipt's
  -- identifier and the digest of the posted body; this holds of a new event and of a duplicate, and
  -- whatever the database replies.
  pub posted-IsDurable :
      (request : Request) (db : Db) (id : Bytes) (duplicate : Bool)
      → (events_post (tables_store d) setting api request db).0
        ≡ responds 202 (receipt id duplicate)
      → IsTrusted setting api request
        × (ledger
              (events_post (tables_store d) setting api request db).1
              api.source_key
              request.relay_event_id
            ≡ some (record { id = id; body_sha256 = setting.sha256 request.content }))
  unfolding accept
  posted-IsDurable request db id duplicate h =
      elim (events_post-Admits (tables_store d) setting api request db) [
        | inr (status, code, high, answer, same) ↦ absurd (cc (answer, h))
        | inl (trusted, same) ↦ (
          trusted,
          ap (λ o. ledger o.1 api.source_key request.relay_event_id) same
              ∙ accept-entry (new_uuid setting.random) request.relay_event_id request.content db id
                  duplicate (ap (λ o. o.0) (sym same) ∙ h),
        )
      ]
