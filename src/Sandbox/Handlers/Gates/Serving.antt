-- ===== src/Sandbox/Handlers/Gates/Serving.antt =====
-- internal/sandbox/http.go: the gates and the routes behind the credential.
use p3_relay.Prelude.{
  ◌≡◌, refl, inl, inr, Bool, true, false, not, ◌&&◌, Option, none, some, List, [], ◌∷◌, Bytes,
  codes, bytes_eq, length, arith, ◌==◌, ap, subst, Bool-cases, if◌then◌else◌,
}
use p3_relay.Errors.{Result, ok, err}
use p3_relay.Identifier.{valid_uuid}
use p3_relay.Postgres.Read.{Summary}
use p3_relay.Sandbox.{valid_scenario}
use p3_relay.Sandbox.Session.{validate}
use p3_relay.Sandbox.Handlers.{
  Backend, Handler, RequestPath, session_path, events_path, other_path, event_path, replay_path,
  Request, valid_handler, failure, decoded_empty, decoded_scenario, reply, pending_event,
  pending_again, listed, detailed, detail, submitted, submit_scenario, replayed, is_get,
  is_session_path, for_session, for_token, replay, route, with_cookies, opened, serve, is_post,
}
use p3_relay.Sandbox.Handlers.Gates.{
  IsGated, IsVisitor, Effect, nothing, submits, replays, failure-cookie, create-Effect,
}

-- The chain of early returns in front of the routes.
gated :
    {A : Type 0} (P : A → Type 0) (set bare post same typed : Bool) {a b c d later : A}
    → P a
    → P b
    → P c
    → P d
    → (set ≡ true → bare ≡ true → (post ≡ true → (same ≡ true) × (typed ≡ true)) → P later)
    → P (
        if not set
        then a
        else if not bare
        then b
        else if post && not same
        then c
        else if post && not typed
        then d
        else later)
gated P false bare post same typed x y z w k = x
gated P true false post same typed x y z w k = y
gated P true true false same typed x y z w k = k refl refl (λ h. cc)
gated P true true true false typed x y z w k = z
gated P true true true true false x y z w k = w
gated P true true true true true x y z w k = k refl refl (λ h. (refl, refl))

is_nil : (s : Bytes) → (length s == 0) ≡ true → s ≡ []
is_nil [] h = refl
is_nil (c ∷ s) h = absurd (ground arith)

module _ {S D : Type 0} (store : Backend S D) (h : Handler) where
  listed-cookie : (found : Result (List Summary)) → (listed store h found).cookie ≡ none
  listed-cookie (ok found) = refl
  listed-cookie (err e) = failure-cookie store h e

  detailed-cookie : (found : Result D) → (detailed store h found).cookie ≡ none
  detailed-cookie (ok found) = refl
  detailed-cookie (err e) = failure-cookie store h e

  detail-cookie : (event_id id : Bytes) (s : S) → (detail store h event_id id s).cookie ≡ none
  detail-cookie event_id id s = elim (Bool-cases (valid_uuid event_id)) [
    | inl good ↦ rw good (detailed-cookie _)
    | inr bad ↦ rw bad refl
  ]

  module _ (r : Request) (s : S) (id : Bytes)
      (gates : bytes_eq r.method (codes "POST") ≡ true → IsGated store h r)
      (visitor : IsVisitor store h r s id) where
    submitted-Effect :
        (scenario : Bytes)
        → IsGated store h r
        → valid_scenario scenario ≡ true
        → (made : Result Bytes × S) → store.submit id scenario s ≡ made
        → Effect store h r s (submitted store h made)
    submitted-Effect scenario g fits (ok event_id, s') e =
        subst (λ t. Effect store h r s (reply 202 (pending_event event_id), t)) (ap (λ m. m.1) e)
          (submits _ id scenario g visitor fits refl)
    submitted-Effect scenario g fits (err x, s') e =
        subst (λ t. Effect store h r s (failure x, t)) (ap (λ m. m.1) e)
          (submits _ id scenario g visitor fits (failure-cookie store h x))

    scenario-Effect :
        (scenario : Option Bytes)
        → IsGated store h r
        → Effect store h r s (submit_scenario store h id scenario s)
    scenario-Effect none g = nothing _ refl
    scenario-Effect (some scenario) g = elim (Bool-cases (valid_scenario scenario)) [
      | inl fits ↦ rw fits (submitted-Effect scenario g fits (store.submit id scenario s) refl)
      | inr other ↦ rw other (nothing _ refl)
    ]

    replayed-Effect :
        (event_id : Bytes)
        → IsGated store h r
        → valid_uuid event_id ≡ true
        → (made : Result (Unit {0}) × S) → store.replay id event_id s ≡ made
        → Effect store h r s (replayed store h made)
    replayed-Effect event_id g good (ok _, s') e =
        subst (λ t. Effect store h r s (reply 202 pending_again, t)) (ap (λ m. m.1) e)
          (replays _ id event_id g visitor good refl)
    replayed-Effect event_id g good (err x, s') e =
        subst (λ t. Effect store h r s (failure x, t)) (ap (λ m. m.1) e)
          (replays _ id event_id g visitor good (failure-cookie store h x))

    replay-Effect :
        (event_id : Bytes) → IsGated store h r → Effect store h r s (replay store h r event_id id s)
    replay-Effect event_id g = elim (Bool-cases (decoded_empty h r)) [
      | inr bad ↦ rw bad (nothing _ refl)
      | inl read ↦ elim (Bool-cases (valid_uuid event_id)) [
        | inl good ↦
            rw (read, good) (replayed-Effect event_id g good (store.replay id event_id s) refl)
        | inr bad ↦ rw (read, bad) (nothing _ refl)
      ]
    ]

    route-Effect : (path : RequestPath) → Effect store h r s (route store h path r id s)
    unfolding route
    route-Effect session_path = nothing _ refl
    route-Effect other_path = nothing _ refl
    route-Effect events_path = elim (Bool-cases (is_get store h r)) [
      | inl get ↦ rw get (nothing _ (listed-cookie _))
      | inr other ↦ elim (Bool-cases (is_post store h r)) [
        | inl post ↦ rw (other, post) (scenario-Effect (decoded_scenario h r) (gates post))
        | inr neither ↦ rw (other, neither) (nothing _ refl)
      ]
    ]
    route-Effect (event_path event_id) = elim (Bool-cases (is_get store h r)) [
      | inl get ↦ rw get (nothing _ (detail-cookie event_id id s))
      | inr other ↦ rw other (nothing _ refl)
    ]
    route-Effect (replay_path event_id) = elim (Bool-cases (is_post store h r)) [
      | inl post ↦ rw post (replay-Effect event_id (gates post))
      | inr other ↦ rw other (nothing _ refl)
    ]

  module _ (r : Request) (s : S)
      (gates : bytes_eq r.method (codes "POST") ≡ true → IsGated store h r) where
    session-Effect :
        (token id : Bytes)
        → r.cookies ≡ token ∷ []
        → validate h.hmac h.key token h.now ≡ ok id
        → (found : Result (Unit {0})) → store.active id s ≡ found
        → Effect store h r s (for_session store h found r id s)
    session-Effect token id only good (err e) found = nothing _ (failure-cookie store h e)
    session-Effect token id only good (ok _) found =
        route-Effect r s id gates
          (record { token = token; only = only; valid = good; live = found }) r.path

    token-Effect :
        (token : Bytes)
        → r.cookies ≡ token ∷ []
        → (known : Result Bytes) → validate h.hmac h.key token h.now ≡ known
        → Effect store h r s (for_token store h known r s)
    token-Effect token only (err e) good = nothing _ refl
    token-Effect token only (ok id) good =
        session-Effect token id only good (store.active id s) refl

    cookies-Effect :
        (cookies : List Bytes)
        → r.cookies ≡ cookies
        → Effect store h r s (with_cookies store h cookies r s)
    unfolding with_cookies
    cookies-Effect [] only = nothing _ refl
    cookies-Effect (token ∷ []) only =
        token-Effect token only (validate h.hmac h.key token h.now) refl
    cookies-Effect (token ∷ another ∷ more) only = nothing _ refl

    opened-Effect : Effect store h r s (opened store h r s)
    opened-Effect = elim (Bool-cases (is_session_path store h r.path && is_post store h r)) [
      | inl fresh ↦ rw fresh (create-Effect store h r s (gates (ground arith)))
      | inr other ↦ rw other (cookies-Effect r.cookies refl)
    ]

  -- Nothing changes, and no credential is set, unless a configured handler meets a POST of JSON
  -- from its own origin, without an Authorization header. Then expired rows may be cleaned
  -- up and a session asked for, whose credential is set only if the store took it; or the visitor of
  -- the only cookie, whose session is live, submits a known scenario or replays a named event.
  pub serve-Effect : (r : Request) (s : S) → Effect store h r s (serve store h r s)
  unfolding serve
  serve-Effect r s =
      gated (Effect store h r s) (valid_handler h) (length r.authorization == 0) (is_post store h r)
        _ _ (nothing _ refl) (nothing _ refl) (nothing _ refl) (nothing _ refl)
        (λ set bare posts. opened-Effect r s (λ post. record {
          configured = set;
          unauthorized = is_nil r.authorization bare;
          posted = post;
          same_origin = (posts post).0;
          typed = (posts post).1;
        }))
