-- ===== src/HttpApi/Routes.antt =====
-- internal/httpapi/api.go: `New`, and the handlers that `Handler` registers. The choice among the
-- patterns is `http.ServeMux`'s.
use p3_relay.Prelude.{
  Option, none, some, List, [], ◌∷◌, Bytes, codes, length, ltb, ◌==◌, ◌||◌, if◌then◌else◌,
}
use p3_relay.HttpApi.{Store, Api, Request, Response}
use p3_relay.HttpApi.Handlers.{
  Setting, events_post, overview_get, events_get, event_get, events_replay_post, endpoint_get,
}

-- `New` of a store that is there; `none` is its panic.
unfoldable pub new : Bytes → Bytes → Bytes → Bytes → Option Api
new source_key ingress_secret destination_url operator_token =
    if length source_key == 0 || ltb (length ingress_secret) 16 || ltb (length operator_token) 16
    then none
    else some (record {
      source_key = source_key;
      ingress_secret = ingress_secret;
      destination_url = destination_url;
      operator_token = operator_token;
    })

pub data Endpoint : Type 0 where
  posts_event reads_overview lists_events reads_event replays_event reads_endpoint : Endpoint

-- `Handler`: the patterns of the multiplexer.
abbrev pub routes : List (Bytes × Endpoint)
routes =
    (codes "POST /v1/sources/{source_key}/events", posts_event)
    ∷ (codes "GET /v1/overview", reads_overview)
    ∷ (codes "GET /v1/events", lists_events)
    ∷ (codes "GET /v1/events/{event_id}", reads_event)
    ∷ (codes "POST /v1/events/{event_id}/replay", replays_event)
    ∷ (codes "GET /v1/endpoint", reads_endpoint)
    ∷ []

-- The handler behind a pattern.
unfoldable pub handle :
    {S D : Type 0} → Store S D → Setting → Api → Endpoint → Request → S → Response D × S
handle store setting api posts_event request s = events_post store setting api request s
handle store setting api reads_overview request s = (overview_get store setting api request s, s)
handle store setting api lists_events request s = (events_get store setting api request s, s)
handle store setting api reads_event request s = (event_get store setting api request s, s)
handle store setting api replays_event request s = events_replay_post store setting api request s
handle store setting api reads_endpoint request s = (endpoint_get store setting api request, s)
