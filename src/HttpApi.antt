-- ===== src/HttpApi.antt =====
-- internal/httpapi/api.go: the source's and the operator's HTTP interface. JSON validity, SHA-256,
-- the HMAC and the clock are parameters; the store is the interface of internal/event, over a
-- state `S`. A response keeps its status, its error code and what its body tells.
pub mod Auth
pub mod Timestamps
pub mod Handlers
pub mod Routes
pub mod Changes
pub mod Served
pub mod Acknowledged
use p3_relay.Prelude.{ℕ, Bool, List, Bytes, String, Option}
use p3_relay.Errors.{Result}
use p3_relay.Postgres.Store.{Receipt, Accepted}
use p3_relay.Postgres.Read.{Overview, Summary}

pub record Store (S Detail : Type 0) : Type 0 where
  pub accept : Receipt → S → Result Accepted × S
  pub replay : Bytes → Bytes → S → Result (Unit {0}) × S
  pub overview : Bytes → S → Result Overview
  pub list : Bytes → Bytes → ℕ → S → Result (List Summary)
  pub detail : Bytes → Bytes → S → Result Detail

pub record Api : Type 0 where
  pub source_key : Bytes
  pub ingress_secret : Bytes
  pub destination_url : Bytes
  pub operator_token : Bytes

-- A request, with the path's values and the headers that the handlers read; the body yields
-- `content`, and then ends or fails.
pub record Request : Type 0 where
  pub source_key : Bytes
  pub event_id : Bytes
  pub state : Bytes
  pub content_type : Bytes
  pub timestamp : Bytes
  pub signature : Bytes
  pub relay_event_id : Bytes
  pub authorization : Bytes
  pub content : Bytes
  pub fails : Bool

pub data Body (Detail : Type 0) : Type 0 where
  problem : String → Body Detail
  receipt : Bytes → Bool → Body Detail
  counts : Overview → Body Detail
  events : List Summary → Body Detail
  event : Detail → Body Detail
  endpoint : Bytes → Bytes → Bool → Body Detail
  pending_again : Bytes → Body Detail

-- `aborted` is a handler's panic, which net/http turns into a closed connection.
pub data Response (Detail : Type 0) : Type 0 where
  responds : ℕ → Body Detail → Response Detail
  aborted : Response Detail
