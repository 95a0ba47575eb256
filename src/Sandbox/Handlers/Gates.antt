-- ===== src/Sandbox/Handlers/Gates.antt =====
-- internal/sandbox/http.go: what a request does to the tables, and the creation of a session.
pub mod Serving
use p3_relay.Prelude.{
  ℕ, ◌≡◌, refl, ◌⊎◌, inl, inr, Bool, true, false, not, ◌&&◌, ◌||◌, Option, none, some, List, [],
  ◌∷◌, Bytes, codes, bytes_eq, length, arith, ◌==◌, ap, subst, Bool-cases,
}
use p3_relay.Errors.{
  Error, Result, ok, err, conflict, not_found, invalid_state, session, quota, missing, state, queue,
  failed,
}
use p3_relay.Identifier.{valid_uuid}
use p3_relay.Postgres.Read.{Summary}
use p3_relay.Sandbox.{valid_scenario}
use p3_relay.Sandbox.Session.{Cookie, issue, validate}
use p3_relay.Sandbox.Handlers.{
  Backend, Handler, RequestPath, session_path, events_path, other_path, event_path, replay_path,
  Request, Response, valid_handler, create, create_new, create_for, create_cleaned, create_issued,
  created_response, create_again, create_known, failure, decoded_empty, decoded_scenario, reply,
  pending_event, pending_again, listed, detailed, detail, submitted, submit_scenario, replayed,
  is_get, is_session_path, for_session, for_token, submit, replay, route, with_cookies, opened,
  serve, is_post,
}

module _ {S D : Type 0} (store : Backend S D) (h : Handler) where
  -- What holds of every request that changes anything.
  pub record IsGated (r : Request) : Type 0 where
    pub configured : valid_handler h ≡ true
    pub unauthorized : r.authorization ≡ []
    pub posted : bytes_eq r.method (codes "POST") ≡ true
    pub same_origin : bytes_eq r.origin h.origin ≡ true
    pub typed : bytes_eq r.content_type (codes "application/json") ≡ true

  -- A visitor behind the request's only cookie.
  pub record IsVisitor (r : Request) (s : S) (id : Bytes) : Type 0 where
    pub token : Bytes
    pub only : r.cookies ≡ token ∷ []
    pub valid : validate h.hmac h.key token h.now ≡ ok id
    pub live : store.active id s ≡ ok tt

  -- What a request does to the state, with the credential that its response sets.
  pub data Effect (r : Request) (s : S) : Response D × S → Type 0 where
    nothing : (response : Response D) → response.cookie ≡ none → Effect r s (response, s)
    cleaned :
        (response : Response D) (s' : S)
        → IsGated r
        → ((store.cleanup s).1 ≡ s')
        → response.cookie ≡ none
        → Effect r s (response, s')
    created :
        (response : Response D) (s' s'' : S) (cookie : Cookie) (id : Bytes)
        (outcome : Result (Unit {0}))
        → IsGated r
        → store.cleanup s ≡ (ok tt, s')
        → issue h.hmac h.key h.now h.random ≡ ok (cookie, id)
        → store.create id cookie.expires s' ≡ (outcome, s'')
        → (response.cookie ≡ none) ⊎ ((response.cookie ≡ some cookie) × (outcome ≡ ok tt))
        → Effect r s (response, s'')
    submits :
        (response : Response D) (id scenario : Bytes)
        → IsGated r
        → IsVisitor r s id
        → valid_scenario scenario ≡ true
        → response.cookie ≡ none
        → Effect r s (response, (store.submit id scenario s).1)
    replays :
        (response : Response D) (id event_id : Bytes)
        → IsGated r
        → IsVisitor r s id
        → valid_uuid event_id ≡ true
        → response.cookie ≡ none
        → Effect r s (response, (store.replay id event_id s).1)

  pub failure-cookie : (e : Error) → (failure {D = D} e).cookie ≡ none
  failure-cookie session = refl
  failure-cookie quota = refl
  failure-cookie missing = refl
  failure-cookie not_found = refl
  failure-cookie state = refl
  failure-cookie conflict = refl
  failure-cookie invalid_state = refl
  failure-cookie queue = refl
  failure-cookie (failed m) = refl

  module _ (r : Request) (s : S) (g : IsGated r) where
    created-Effect :
        (s' : S) (cookie : Cookie) (id : Bytes) (made : Result (Unit {0}) × S)
        → store.cleanup s ≡ (ok tt, s')
        → issue h.hmac h.key h.now h.random ≡ ok (cookie, id)
        → store.create id cookie.expires s' ≡ made
        → Effect r s (created_response store h cookie made)
    created-Effect s' cookie id (err e, s'') clean issued made =
        created _ s' s'' cookie id (err e) g clean issued made (inl (failure-cookie e))
    created-Effect s' cookie id (ok _, s'') clean issued made =
        created _ s' s'' cookie id (ok tt) g clean issued made (inr (refl, refl))

    issued-Effect :
        (s' : S) (made : Result (Cookie × Bytes))
        → store.cleanup s ≡ (ok tt, s')
        → issue h.hmac h.key h.now h.random ≡ made
        → Effect r s (create_issued store h made s')
    issued-Effect s' (err e) clean issued = cleaned _ s' g (ap (λ m. m.1) clean) (failure-cookie e)
    issued-Effect s' (ok (cookie, id)) clean issued =
        created-Effect s' cookie id (store.create id cookie.expires s') clean issued refl

    cleaned-Effect :
        (made : Result (Unit {0}) × S)
        → store.cleanup s ≡ made
        → Effect r s (create_cleaned store h made)
    cleaned-Effect (err e, s') clean = cleaned _ s' g (ap (λ m. m.1) clean) (failure-cookie e)
    cleaned-Effect (ok _, s') clean =
        issued-Effect s' (issue h.hmac h.key h.now h.random) clean refl

    create_new-Effect : Effect r s (create_new store h s)
    create_new-Effect = cleaned-Effect (store.cleanup s) refl

    again-Effect : (found : Result (Unit {0})) → Effect r s (create_again store h found s)
    again-Effect (ok _) = nothing _ refl
    again-Effect (err session) = create_new-Effect
    again-Effect (err conflict) = nothing _ refl
    again-Effect (err not_found) = nothing _ refl
    again-Effect (err invalid_state) = nothing _ refl
    again-Effect (err quota) = nothing _ refl
    again-Effect (err missing) = nothing _ refl
    again-Effect (err state) = nothing _ refl
    again-Effect (err queue) = nothing _ refl
    again-Effect (err (failed m)) = nothing _ refl

    known-Effect : (known : Result Bytes) → Effect r s (create_known store h known s)
    known-Effect (err e) = create_new-Effect
    known-Effect (ok id) = again-Effect (store.active id s)

    create_for-Effect : (cookies : List Bytes) → Effect r s (create_for store h cookies s)
    create_for-Effect [] = create_new-Effect
    create_for-Effect (token ∷ []) = known-Effect (validate h.hmac h.key token h.now)
    create_for-Effect (token ∷ another ∷ more) = nothing _ refl

    pub create-Effect : Effect r s (create store h r s)
    unfolding create
    create-Effect = elim (Bool-cases (decoded_empty h r)) [
      | inl read ↦ rw read (create_for-Effect r.cookies)
      | inr bad ↦ rw bad (nothing _ refl)
    ]
