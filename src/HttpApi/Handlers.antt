-- ===== src/HttpApi/Handlers.antt =====
-- internal/httpapi/api.go: the handlers, each with all its early returns. A handler returns its
-- response and the store's state.
pub mod Receipts
use p3_relay.Prelude.{
  ℕ, Bool, true, false, not, Option, none, some, List, [], ◌∷◌, Bytes, codes, bytes_eq, String,
  length, ◌==◌, if◌then◌else◌, ◌&&◌,
}
use p3_relay.Errors.{Error, Result, ok, err, conflict, not_found, invalid_state}
use p3_relay.Identifier.{new_uuid, valid_uuid}
use p3_relay.Signature.{Hmac, valid}
use p3_relay.Postgres.Store.{Receipt, Accepted}
use p3_relay.Postgres.Read.{Overview, Summary}
use p3_relay.HttpApi.{
  Store, Api, Request, Response, Body, responds, aborted, problem, receipt, counts, events, event,
  endpoint, pending_again,
}
use p3_relay.HttpApi.Auth.{
  valid_timestamp, valid_event_id, valid_state, authorized, read_body, ReadBody, body,
  unsupported_media_type, payload_too_large, invalid_json,
}

abbrev pub write_error : {D : Type 0} → ℕ → String → Response D
write_error status code = responds status (problem code)

abbrev pub receipt_unavailable : {D : Type 0} → Response D
receipt_unavailable = write_error 503 "receipt_unavailable"

-- What one request meets: the clock, the random bytes of a new identifier, JSON's validity,
-- SHA-256 and the HMAC.
pub record Setting : Type 0 where
  pub now : ℕ
  pub random : Option Bytes
  pub json_valid : Bytes → Bool
  pub sha256 : Bytes → Bytes
  pub hmac : Hmac

module _ {S D : Type 0} (store : Store S D) (setting : Setting) (api : Api) where
  abbrev pub accept_response : Result Accepted → Response D
  accept_response (ok accepted) = responds 202 (receipt accepted.id accepted.duplicate)
  accept_response (err conflict) = write_error 409 "idempotency_conflict"
  accept_response (err _) = receipt_unavailable

  abbrev pub accept_identified : Result Bytes → Bytes → Bytes → S → Response D × S
  accept_identified (err e) external_id content s = (receipt_unavailable, s)
  accept_identified (ok id) external_id content s =
      let (result, s') =
        store.accept
          (record {
            id = id;
            source_key = api.source_key;
            external_event_id = external_id;
            body = content;
            body_sha256 = setting.sha256 content;
            destination_url = api.destination_url;
          })
          s in
      (accept_response result, s')

  unfoldable pub accept : Bytes → Bytes → S → Response D × S
  accept external_id content s = accept_identified (new_uuid setting.random) external_id content s

  -- The checks of `events_post` behind the signature.
  unfoldable pub signed : Request → Bytes → Option Bool → S → Response D × S
  signed request content none s = (aborted, s)
  signed request content (some false) s = (write_error 401 "invalid_signature", s)
  signed request content (some true) s =
      if not (valid_event_id request.relay_event_id)
      then (write_error 400 "invalid_request", s)
      else if length api.destination_url == 0
      then (receipt_unavailable, s)
      else accept request.relay_event_id content s

  unfoldable pub with_body : Request → ReadBody → S → Response D × S
  with_body request unsupported_media_type s = (write_error 415 "unsupported_media_type", s)
  with_body request payload_too_large s = (write_error 413 "payload_too_large", s)
  with_body request invalid_json s = (write_error 400 "invalid_request", s)
  with_body request (body content) s =
      if not (valid_timestamp setting.now request.timestamp)
      then (write_error 400 "invalid_request", s)
      else signed request content
          (valid setting.hmac api.ingress_secret request.timestamp content request.signature) s

  unfoldable pub events_post : Request → S → Response D × S
  events_post request s =
      if not (bytes_eq request.source_key api.source_key)
      then (write_error 401 "invalid_signature", s)
      else with_body request
          (read_body setting.json_valid request.content_type request.content request.fails) s

  abbrev pub unauthorized : Response D
  unauthorized = write_error 401 "unauthorized"

  abbrev pub may_read : Request → Bool
  may_read request = authorized setting.sha256 api request.authorization

  abbrev pub overview_response : Result Overview → Response D
  overview_response (ok overview) = responds 200 (counts overview)
  overview_response (err e) = write_error 503 "read_unavailable"

  unfoldable pub overview_get : Request → S → Response D
  overview_get request s =
      if may_read request then overview_response (store.overview api.source_key s) else unauthorized

  abbrev pub list_response : Result (List Summary) → Response D
  list_response (ok found) = responds 200 (events found)
  list_response (err e) = write_error 503 "read_unavailable"

  unfoldable pub events_get : Request → S → Response D
  events_get request s =
      if not (may_read request)
      then unauthorized
      else if not (length request.state == 0) && not (valid_state request.state)
      then write_error 400 "invalid_request"
      else list_response (store.list api.source_key request.state 50 s)

  abbrev pub detail_response : Result D → Response D
  detail_response (ok detail) = responds 200 (event detail)
  detail_response (err not_found) = write_error 404 "event_not_found"
  detail_response (err _) = write_error 503 "read_unavailable"

  unfoldable pub event_get : Request → S → Response D
  event_get request s =
      if not (may_read request)
      then unauthorized
      else if not (valid_uuid request.event_id)
      then write_error 400 "invalid_request"
      else detail_response (store.detail request.event_id api.source_key s)

  unfoldable pub endpoint_get : Request → Response D
  endpoint_get request =
      if may_read request
      then responds 200
          (endpoint api.source_key api.destination_url (not (length api.destination_url == 0)))
      else unauthorized

  abbrev pub replay_response : Bytes → Result (Unit {0}) → Response D
  replay_response event_id (ok _) = responds 202 (pending_again event_id)
  replay_response event_id (err not_found) = write_error 404 "event_not_found"
  replay_response event_id (err invalid_state) = write_error 409 "invalid_event_state"
  replay_response event_id (err _) = write_error 503 "replay_unavailable"

  unfoldable pub events_replay_post : Request → S → Response D × S
  events_replay_post request s =
      if not (may_read request)
      then (unauthorized, s)
      else if not (valid_uuid request.event_id)
      then (write_error 400 "invalid_request", s)
      else let (result, s') = store.replay request.event_id api.source_key s in
        (replay_response request.event_id result, s')
