-- ===== src/Sandbox/Handlers.antt =====
-- internal/sandbox/http.go: the visitors' HTTP boundary. The store is an interface over a state
-- `S`; the JSON decoder, the URL parser, the HMAC, the clock and the random bytes are parameters.
-- A response keeps its status, its code or what its body tells, and the cookie that it sets.
pub mod Gates
pub mod Served
use p3_relay.Prelude.{
  ℕ, Bool, true, false, ◌&&◌, ◌||◌, not, Option, none, some, List, [], ◌∷◌, ◌++◌, Bytes, String,
  codes, bytes_eq, length, ltb, ◌==◌, is_some, if◌then◌else◌,
}
use p3_relay.Errors.{Error, Result, ok, err, session, quota, missing, not_found, state}
use p3_relay.Identifier.{valid_uuid}
use p3_relay.Signature.{Hmac}
use p3_relay.Postgres.Read.{Summary}
use p3_relay.Sandbox.{valid_scenario}
use p3_relay.Sandbox.Store.Submission.{sandbox_source}
use p3_relay.Sandbox.Session.{Cookie, issue, validate}

-- The transactions of internal/sandbox and the queries of internal/postgres that are called.
pub record Backend (S Detail : Type 0) : Type 0 where
  pub active : Bytes → S → Result (Unit {0})
  pub cleanup : S → Result (Unit {0}) × S
  pub create : Bytes → ℕ → S → Result (Unit {0}) × S
  pub submit : Bytes → Bytes → S → Result Bytes × S
  pub replay : Bytes → Bytes → S → Result (Unit {0}) × S
  pub list : Bytes → Bytes → ℕ → S → Result (List Summary)
  pub detail : Bytes → Bytes → S → Result Detail

pub record Url : Type 0 where
  pub scheme : Bytes
  pub host : Bytes
  pub has_user : Bool
  pub path : Bytes
  pub raw_query : Bytes
  pub fragment : Bytes

-- The handler's fields, and what one request meets. `decode_empty` and `decode_scenario` read a
-- body that is one JSON object with no other field, and nothing behind it.
pub record Handler : Type 0 where
  pub key : Bytes
  pub origin : Bytes
  pub parse_url : Bytes → Option Url
  pub hmac : Hmac
  pub now : ℕ
  pub random : Option Bytes
  pub decode_empty : Bytes → Bool
  pub decode_scenario : Bytes → Option Bytes

-- The paths below `/v1/sandbox/`.
pub data RequestPath : Type 0 where
  session_path events_path other_path : RequestPath
  event_path replay_path : Bytes → RequestPath

-- `cookies` are the values of the cookies of the sandbox's name.
pub record Request : Type 0 where
  pub method : Bytes
  pub path : RequestPath
  pub authorization : Bytes
  pub origin : Bytes
  pub content_type : Bytes
  pub cookies : List Bytes
  pub content : Bytes
  pub fails : Bool

pub data Body (Detail : Type 0) : Type 0 where
  problem : String → Body Detail
  active_session pending_again empty : Body Detail
  events : List Summary → Body Detail
  event : Detail → Body Detail
  pending_event : Bytes → Body Detail

pub record Response (Detail : Type 0) : Type 0 where
  pub status : ℕ
  pub body : Body Detail
  pub cookie : Option Cookie

abbrev pub reply : {D : Type 0} → ℕ → Body D → Response D
reply status body = record { status = status; body = body; cookie = none }

abbrev pub reply_error : {D : Type 0} → ℕ → String → Response D
reply_error status code = reply status (problem code)

abbrev pub failure : {D : Type 0} → Error → Response D
failure session = reply_error 401 "invalid_session"
failure quota = reply_error 429 "quota_exceeded"
failure missing = reply_error 404 "event_not_found"
failure not_found = reply_error 404 "event_not_found"
failure state = reply_error 409 "invalid_event_state"
failure _ = reply_error 503 "sandbox_unavailable"

abbrev pub is_origin : Option Url → Bool
is_origin none = false
is_origin (some u) =
    bytes_eq u.scheme (codes "https")
    && (not (length u.host == 0)
        && (not u.has_user
            && (length u.path == 0 && (length u.raw_query == 0 && length u.fragment == 0))))

-- `Valid`.
unfoldable pub valid_handler : Handler → Bool
valid_handler h = is_origin (h.parse_url h.origin) && length h.key == 32

-- `decode`: a body over 1024 bytes, or one that breaks off, is refused whatever it holds.
abbrev pub readable : Request → Bool
readable r = not (ltb 1024 (length r.content) || r.fails)

abbrev pub decoded_scenario : Handler → Request → Option Bytes
decoded_scenario h r = if readable r then h.decode_scenario r.content else none

abbrev pub decoded_empty : Handler → Request → Bool
decoded_empty h r = if readable r then h.decode_empty r.content else false

module _ {S D : Type 0} (store : Backend S D) (h : Handler) where
  abbrev pub created_response : Cookie → Result (Unit {0}) × S → Response D × S
  created_response cookie (err e, s) = (failure e, s)
  created_response cookie (ok _, s) =
      (record { status = 201; body = active_session; cookie = some cookie }, s)

  abbrev pub create_issued : Result (Cookie × Bytes) → S → Response D × S
  create_issued (err e) s = (failure e, s)
  create_issued (ok (cookie, id)) s = created_response cookie (store.create id cookie.expires s)

  abbrev pub create_cleaned : Result (Unit {0}) × S → Response D × S
  create_cleaned (err e, s) = (failure e, s)
  create_cleaned (ok _, s) = create_issued (issue h.hmac h.key h.now h.random) s

  abbrev pub create_new : S → Response D × S
  create_new s = create_cleaned (store.cleanup s)

  -- What a valid cookie's session says; one that is not active is replaced.
  abbrev pub create_again : Result (Unit {0}) → S → Response D × S
  create_again (ok _) s = (reply 200 active_session, s)
  create_again (err session) s = create_new s
  create_again (err e) s = (failure e, s)

  abbrev pub create_known : Result Bytes → S → Response D × S
  create_known (err _) s = create_new s
  create_known (ok id) s = create_again (store.active id s) s

  abbrev pub create_for : List Bytes → S → Response D × S
  create_for [] s = create_new s
  create_for (token ∷ []) s = create_known (validate h.hmac h.key token h.now) s
  create_for (token ∷ another ∷ more) s = (reply_error 401 "invalid_session", s)

  unfoldable pub create : Request → S → Response D × S
  create r s =
      if decoded_empty h r then create_for r.cookies s else (reply_error 400 "invalid_request", s)

  abbrev pub listed : Result (List Summary) → Response D
  listed (ok found) = reply 200 (events found)
  listed (err e) = failure e

  abbrev pub list : Bytes → S → Response D
  list id s = listed (store.list (sandbox_source id) [] 20 s)

  abbrev pub detailed : Result D → Response D
  detailed (ok found) = reply 200 (event found)
  detailed (err e) = failure e

  abbrev pub detail : Bytes → Bytes → S → Response D
  detail event_id id s =
      if valid_uuid event_id
      then detailed (store.detail event_id (sandbox_source id) s)
      else reply_error 400 "invalid_request"

  abbrev pub submitted : Result Bytes × S → Response D × S
  submitted (ok event_id, s) = (reply 202 (pending_event event_id), s)
  submitted (err e, s) = (failure e, s)

  abbrev pub submit_scenario : Bytes → Option Bytes → S → Response D × S
  submit_scenario id none s = (reply_error 400 "invalid_request", s)
  submit_scenario id (some scenario) s =
      if valid_scenario scenario
      then submitted (store.submit id scenario s)
      else (reply_error 400 "invalid_request", s)

  abbrev pub submit : Request → Bytes → S → Response D × S
  submit r id s = submit_scenario id (decoded_scenario h r) s

  abbrev pub replayed : Result (Unit {0}) × S → Response D × S
  replayed (ok _, s) = (reply 202 pending_again, s)
  replayed (err e, s) = (failure e, s)

  abbrev pub replay : Request → Bytes → Bytes → S → Response D × S
  replay r event_id id s =
      if not (decoded_empty h r)
      then (reply_error 400 "invalid_request", s)
      else if not (valid_uuid event_id)
      then (reply_error 400 "invalid_request", s)
      else replayed (store.replay id event_id s)

  abbrev pub is_get : Request → Bool
  is_get r = bytes_eq r.method (codes "GET") || bytes_eq r.method (codes "HEAD")

  abbrev pub is_post : Request → Bool
  is_post r = bytes_eq r.method (codes "POST")

  -- The multiplexer's choice; what it answers itself has status 404 or 405.
  unfoldable pub route : RequestPath → Request → Bytes → S → Response D × S
  route session_path r id s = (reply 404 empty, s)
  route other_path r id s = (reply 404 empty, s)
  route events_path r id s =
      if is_get r then (list id s, s) else if is_post r then submit r id s else (reply 405 empty, s)
  route (event_path event_id) r id s =
      if is_get r then (detail event_id id s, s) else (reply 405 empty, s)
  route (replay_path event_id) r id s =
      if is_post r then replay r event_id id s else (reply 405 empty, s)

  abbrev pub for_session : Result (Unit {0}) → Request → Bytes → S → Response D × S
  for_session (err e) r id s = (failure e, s)
  for_session (ok _) r id s = route r.path r id s

  abbrev pub for_token : Result Bytes → Request → S → Response D × S
  for_token (err _) r s = (reply_error 401 "invalid_session", s)
  for_token (ok id) r s = for_session (store.active id s) r id s

  -- The rest of `ServeHTTP`, which needs exactly one cookie.
  unfoldable pub with_cookies : List Bytes → Request → S → Response D × S
  with_cookies (token ∷ []) r s = for_token (validate h.hmac h.key token h.now) r s
  with_cookies _ r s = (reply_error 401 "invalid_session", s)

  abbrev pub is_session_path : RequestPath → Bool
  is_session_path session_path = true
  is_session_path _ = false

  abbrev pub opened : Request → S → Response D × S
  opened r s =
      if is_session_path r.path && is_post r then create r s else with_cookies r.cookies r s

  -- `ServeHTTP`.
  unfoldable pub serve : Request → S → Response D × S
  serve r s =
      if not (valid_handler h)
      then (reply_error 503 "sandbox_unavailable", s)
      else if not (length r.authorization == 0)
      then (reply_error 401 "invalid_session", s)
      else if is_post r && not (bytes_eq r.origin h.origin)
      then (reply_error 403 "invalid_origin", s)
      else if is_post r && not (bytes_eq r.content_type (codes "application/json"))
      then (reply_error 400 "invalid_request", s)
      else opened r s
