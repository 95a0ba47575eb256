-- ===== src/HttpApi/Changes.antt =====
-- internal/httpapi/api.go: which requests reach the store's writing calls.
use p3_relay.Prelude.{◌≡◌, refl, inl, inr, true, Bool-cases}
use p3_relay.Identifier.{valid_uuid}
use p3_relay.HttpApi.{Store, Api, Request, Response}
use p3_relay.HttpApi.Handlers.{Setting, accept, may_read, replay_response, events_replay_post}
use p3_relay.HttpApi.Handlers.Receipts.{IsTrusted, events_post-Admits}
use p3_relay.HttpApi.Routes.{
  Endpoint, handle, posts_event, reads_overview, lists_events, reads_event, replays_event,
  reads_endpoint,
}

module _ {S D : Type 0} (store : Store S D) (setting : Setting) (api : Api) (request : Request)
    (s : S) where
  -- What a request did: nothing to the store; or it was a trusted receipt, posted and handed to the
  -- store's acceptance; or it was the operator's replay of a well-formed identifier.
  pub data Effect (endpoint : Endpoint) (served : Response D × S) : Type 0 where
    nothing : served.1 ≡ s → Effect endpoint served
    accepts :
        endpoint ≡ posts_event
        → IsTrusted setting api request
        → served ≡ accept store setting api request.relay_event_id request.content s
        → Effect endpoint served
    replays :
        endpoint ≡ replays_event
        → may_read store setting api request ≡ true
        → valid_uuid request.event_id ≡ true
        → served ≡ (
          replay_response store setting api request.event_id
              (store.replay request.event_id api.source_key s).0,
          (store.replay request.event_id api.source_key s).1,
        )
        → Effect endpoint served

  replay-Effect : Effect replays_event (events_replay_post store setting api request s)
  unfolding events_replay_post
  replay-Effect = elim (Bool-cases (may_read store setting api request)) [
    | inr denied ↦ rw denied (nothing refl)
    | inl allowed ↦ elim (Bool-cases (valid_uuid request.event_id)) [
      | inr bad ↦ rw (allowed, bad) (nothing refl)
      | inl good ↦ rw (allowed, good) (replays refl allowed good refl)
    ]
  ]

  -- A request to any of the handlers leaves the store as it was, unless it posts a receipt that the
  -- source authenticated, which goes to the store's acceptance, or it is the replay of a
  -- well-formed identifier under the operator's token, which goes to the store's replay.
  pub handle-Effect :
      (endpoint : Endpoint) → Effect endpoint (handle store setting api endpoint request s)
  unfolding handle
  handle-Effect posts_event = elim (events_post-Admits store setting api request s) [
    | inl (trusted, same) ↦ accepts refl trusted same
    | inr (status, code, error, answer, same) ↦ nothing same
  ]
  handle-Effect reads_overview = nothing refl
  handle-Effect lists_events = nothing refl
  handle-Effect reads_event = nothing refl
  handle-Effect replays_event = replay-Effect
  handle-Effect reads_endpoint = nothing refl
