-- ===== src/Delivery/Sender/Attempts.antt =====
-- What the attempts that the sender makes are like, on every path.
use p3_relay.Prelude.{
  ℕ, Bool, [], ◌∷◌, ◌==◌, leb, ◌<◌, ◌≤◌, ◌≡◌, ◌≢◌, refl, ◌⊎◌, inl, inr, true, false, ◌&&◌, not,
  Option, none, some, Bytes, arith, Bool-cases, length, length-take-le, codes, ltb, ◌%◌, String,
  if_either, bytes_eq, bytes_eq_iff, if◌then◌else◌,
}
use p3_relay.Errors.{Result, ok, err}
use p3_relay.Identifier.{new_uuid}
use p3_relay.Signature.{Hmac}
use p3_relay.Delivery.{
  ClaimedEvent, Attempt, Outcome, network_error, delivered, retryable_http, terminal_http,
}
use p3_relay.Delivery.Sender.Schedule.{next_attempt_at-le}
use p3_relay.Delivery.Policy.{http_outcome}
use p3_relay.Delivery.Sender.{
  HttpSender, Surroundings, Response, send, identified, requested, received, answered,
  failed_attempt, network_attempt, sandbox_attempt, sandbox_status, Sent, delivery_request, unsent,
}

-- The delivery contract's classes of a response's status.
pub data IsClass (status : ℕ) : Outcome → Type 0 where
  successful : 200 ≤ status → status ≤ 299 → IsClass status delivered
  timed_out : status ≡ 408 → IsClass status retryable_http
  throttled : status ≡ 429 → IsClass status retryable_http
  failing : 500 ≤ status → status ≤ 599 → IsClass status retryable_http
  refusing :
      (status < 200) ⊎ ((300 ≤ status) × (status < 500)) ⊎ (600 ≤ status)
      → status ≢ 408
      → status ≢ 429
      → IsClass status terminal_http

http_outcome-IsClass : (status : ℕ) → IsClass status (http_outcome status)
unfolding http_outcome
http_outcome-IsClass status = elim (Bool-cases (leb 200 status && leb status 299)) [
  | inl good ↦ rw good (successful (ground arith) (ground arith))
  | inr not_good ↦ elim (Bool-cases (status == 408)) [
    | inl late ↦ rw (not_good, late) (timed_out (ground arith))
    | inr not_late ↦ elim (Bool-cases (status == 429)) [
      | inl many ↦ rw (not_good, not_late, many) (throttled (ground arith))
      | inr not_many ↦ elim (Bool-cases (leb 500 status && leb status 599)) [
        | inl down ↦ rw (not_good, not_late, not_many, down) (failing (ground arith) (ground arith))
        | inr other ↦
            rw (not_good, not_late, not_many, other)
              (refusing (ground arith) (ground arith) (ground arith))
      ]
    ]
  ]
]

-- The shape of an attempt: its outcome is the class of its status, or it has an error and no status;
-- its excerpt is bounded, and it starts, ends and is repeated in this order.
pub record IsWellMade (a : Attempt) : Type 0 where
  pub classified :
      ((status : ℕ) × (a.status_code ≡ some status)
        × IsClass status a.outcome
        × (a.error_code ≡ none))
      ⊎ ((code : Bytes) × (a.error_code ≡ some code)
          × (1 ≤ length code)
          × (length code ≤ 64)
          × (a.status_code ≡ none)
          × (a.outcome ≡ network_error))
  pub bounded : length a.response_excerpt ≤ 4096
  pub ordered : a.started_at ≤ a.finished_at
  pub repeated_later : a.finished_at ≤ a.next_attempt_at

sandbox_attempt-IsWellMade :
    (sha256 : Bytes → Bytes) (claimed : ClaimedEvent) (now : ℕ)
    → IsWellMade (sandbox_attempt sha256 claimed now)
unfolding sandbox_attempt
sandbox_attempt-IsWellMade sha256 claimed now = record {
  classified = inl (
    sandbox_status sha256 claimed.destination_url claimed.attempt_number,
    refl,
    http_outcome-IsClass _,
    refl,
  );
  bounded = omega arith;
  ordered = omega arith;
  repeated_later = next_attempt_at-le sha256 claimed now _;
}

module _ (hmac : Hmac) (sha256 : Bytes → Bytes) (sender : HttpSender) (world : Surroundings)
    (monotonic : (i j : ℕ) → i ≤ j → world.now i ≤ world.now j) where
  failed-IsWellMade :
      (code : String) (claimed : ClaimedEvent)
      → 1 ≤ length (codes code)
      → length (codes code) ≤ 64
      → IsWellMade (failed_attempt hmac sha256 sender world code claimed)
  unfolding failed_attempt network_attempt
  failed-IsWellMade code claimed low high = record {
    classified = inr (codes code, refl, low, high, refl, refl);
    bounded = omega arith;
    ordered = monotonic 0 1 (omega arith);
    repeated_later = next_attempt_at-le sha256 claimed (world.now 1) network_error;
  }

  answered-IsWellMade :
      (id : Bytes) (claimed : ClaimedEvent) (response : Response)
      → IsWellMade (answered hmac sha256 sender world id claimed response)
  unfolding answered
  answered-IsWellMade id claimed response =
      elim (Bool-cases (response.fails && ltb (length response.content) 4096)) [
        | inl broken ↦
            rw broken (failed-IsWellMade "response_read_failed" claimed (omega arith) (omega arith))
        | inr whole ↦ rw whole (record {
          classified = inl (response.status_code % 65536, refl, http_outcome-IsClass _, refl);
          bounded = length-take-le 4096 response.content;
          ordered = monotonic 0 1 (omega arith);
          repeated_later = omega (
            arith,
            monotonic 1 2 (omega arith),
            next_attempt_at-le sha256 claimed (world.now 2)
                (http_outcome (response.status_code % 65536)),
          );
        })
      ]

  received-IsWellMade :
      (id : Bytes) (claimed : ClaimedEvent) (answer : Option Response)
      → IsWellMade (received hmac sha256 sender world id claimed answer)
  unfolding received
  received-IsWellMade id claimed none =
      failed-IsWellMade "request_failed" claimed (omega arith) (omega arith)
  received-IsWellMade id claimed (some response) = answered-IsWellMade id claimed response

  requested-IsWellMade :
      (id : Bytes) (claimed : ClaimedEvent) (scheme : Option Bytes)
      → IsWellMade (requested hmac sha256 sender world id claimed scheme).attempt
  unfolding requested
  requested-IsWellMade id claimed none =
      failed-IsWellMade "invalid_destination" claimed (omega arith) (omega arith)
  requested-IsWellMade id claimed (some scheme) =
      elim (Bool-cases (not (bytes_eq scheme (codes "https")) && not sender.allow_insecure_http)) [
        | inl insecure ↦
            rw insecure
              (failed-IsWellMade "insecure_destination" claimed (omega arith) (omega arith))
        | inr secure ↦ rw secure (received-IsWellMade id claimed _)
      ]

  identified-IsWellMade :
      (made : Result Bytes) (claimed : ClaimedEvent)
      → IsWellMade (identified hmac sha256 sender world made claimed).attempt
  unfolding identified
  identified-IsWellMade (err e) claimed =
      failed-IsWellMade "identifier_unavailable" claimed (omega arith) (omega arith)
  identified-IsWellMade (ok id) claimed = requested-IsWellMade id claimed _

  -- Whatever the network, the URL parser and the randomness do, an attempt comes back, and it is
  -- well made: it has a status and the class that the delivery contract gives to it, or a bounded
  -- error code and the class of network errors, an excerpt of at most 4096 bytes, and, if the clock
  -- does not run backwards, it does not end before it starts nor is repeated before it ends.
  pub send-IsWellMade :
      (claimed : ClaimedEvent) → IsWellMade (send hmac sha256 sender world claimed).attempt
  unfolding send
  send-IsWellMade claimed =
      if_either (λ (sent : Sent). IsWellMade sent.attempt) claimed.sandbox _ _
        (sandbox_attempt-IsWellMade sha256 claimed (world.now 0))
        (identified-IsWellMade (new_uuid world.first_random) claimed)

-- The claim may be requested at a URL with this scheme.
abbrev pub MayRequest : HttpSender → Surroundings → ClaimedEvent → Type 0
MayRequest sender world claimed =
    (claimed.sandbox ≡ false)
    × ((scheme : Bytes) × (world.url_scheme claimed.destination_url ≡ some scheme)
        × ((scheme ≡ codes "https") ⊎ (sender.allow_insecure_http ≡ true)))

module _ (hmac : Hmac) (sha256 : Bytes → Bytes) (sender : HttpSender) (world : Surroundings) where
  -- No request, or the one of the claim.
  abbrev pub StaysInside : ClaimedEvent → Sent → Type 0
  StaysInside claimed sent =
      (sent.requests ≡ [])
      ⊎ (MayRequest sender world claimed
          × (sent.requests ≡ delivery_request hmac sha256 sender world claimed ∷ []))

  requested-StaysInside :
      (id : Bytes) (claimed : ClaimedEvent) (scheme : Option Bytes)
      → claimed.sandbox ≡ false
      → world.url_scheme claimed.destination_url ≡ scheme
      → StaysInside claimed (requested hmac sha256 sender world id claimed scheme)
  unfolding requested
  requested-StaysInside id claimed none own parsed = inl refl
  requested-StaysInside id claimed (some scheme) own parsed =
      elim (Bool-cases (not (bytes_eq scheme (codes "https")) && not sender.allow_insecure_http)) [
        | inl insecure ↦ rw insecure (inl refl)
        | inr secure ↦ rw secure (
            inr
              ((own, (scheme, parsed, ground (arith, bytes_eq_iff scheme (codes "https")))), refl))
      ]

  identified-StaysInside :
      (made : Result Bytes) (claimed : ClaimedEvent)
      → claimed.sandbox ≡ false
      → StaysInside claimed (identified hmac sha256 sender world made claimed)
  unfolding identified
  identified-StaysInside (err e) claimed own = inl refl
  identified-StaysInside (ok id) claimed own = requested-StaysInside id claimed _ own refl

  -- Send gives the client no request; or one, the claim's, and then the event is no sandbox event and
  -- its URL has the scheme https, or any scheme if plain HTTP is allowed.
  pub send-StaysInside :
      (claimed : ClaimedEvent) → StaysInside claimed (send hmac sha256 sender world claimed)
  unfolding send
  send-StaysInside claimed = by_kind claimed.sandbox refl
    where
      by_kind :
          (sandbox : Bool)
          → claimed.sandbox ≡ sandbox
          → StaysInside claimed (
              if sandbox
              then unsent (sandbox_attempt sha256 claimed (world.now 0))
              else identified hmac sha256 sender world (new_uuid world.first_random) claimed)
      by_kind true simulated = inl refl
      by_kind false own = identified-StaysInside (new_uuid world.first_random) claimed own
