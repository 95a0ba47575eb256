-- ===== src/HttpApi/Handlers/Receipts.antt =====
-- What stands behind the answer to a posted event.
use p3_relay.Prelude.{
  ℕ, ◌≤◌, ◌≡◌, ◌≢◌, refl, ◌⊎◌, inl, inr, Bool, true, false, Option, none, some, [], ◌∷◌, Bytes,
  codes, String, bytes_eq, bytes_eq_iff, arith, length, drop, All, Bool-cases, ◌==◌,
}
use p3_relay.Hex.{hex_decode}
use p3_relay.Signature.{signed_message}
use p3_relay.Signature.Exact.{valid_exact, valid_never_panics}
use p3_relay.HttpApi.{Store, Api, Request, Response}
use p3_relay.HttpApi.Auth.{
  valid_timestamp, valid_event_id, printable, read_body, ReadBody, body, unsupported_media_type,
  payload_too_large, invalid_json,
}
use p3_relay.HttpApi.Handlers.{Setting, accept, signed, with_body, events_post, write_error}

abbrev pub IsPrintable : ℕ → Type 0
IsPrintable c = (0x20 ≤ c) × (c ≤ 0x7e)

printable-All : (s : Bytes) → printable s ≡ true → All IsPrintable s
unfolding printable
printable-All [] h = tt
printable-All (c ∷ s) h = ground (arith, printable-All s)

-- A receipt that the source authenticated, in the words of the delivery contract.
pub record IsTrusted (setting : Setting) (api : Api) (request : Request) : Type 0 where
  pub source : request.source_key ≡ api.source_key
  pub media_type : request.content_type ≡ codes "application/json"
  pub whole : request.fails ≡ false
  pub not_empty : 1 ≤ length request.content
  pub not_large : length request.content ≤ 262144
  pub json : setting.json_valid request.content ≡ true
  pub timely : valid_timestamp setting.now request.timestamp ≡ true
  pub signed :
      hex_decode (drop 3 request.signature)
      ≡ some (
          setting.hmac.digest api.ingress_secret (signed_message request.timestamp request.content))
  pub id_not_empty : 1 ≤ length request.relay_event_id
  pub id_not_long : length request.relay_event_id ≤ 128
  pub id_printable : All IsPrintable request.relay_event_id
  pub enabled : 1 ≤ length api.destination_url

-- A refusal: a status from 400 on with a code, and the store as it was.
abbrev pub IsRefusal : {S D : Type 0} → Response D × S → S → Type 0
IsRefusal {D = D} outcome s =
    (status : ℕ) × (code : String) × (400 ≤ status)
    × (outcome.0 ≡ write_error {D = D} status code)
    × (outcome.1 ≡ s)

-- What a body that was read satisfies.
record IsRead (json_valid : Bytes → Bool) (content_type content : Bytes) (fails : Bool)
    (read : Bytes) : Type 0 where
  same : read ≡ content
  media_type : content_type ≡ codes "application/json"
  whole : fails ≡ false
  not_empty : 1 ≤ length content
  not_large : length content ≤ 262144
  json : json_valid content ≡ true

read_body-IsRead :
    (json_valid : Bytes → Bool) (content_type content : Bytes) (fails : Bool) (read : Bytes)
    → read_body json_valid content_type content fails ≡ body read
    → IsRead json_valid content_type content fails read
unfolding read_body
read_body-IsRead json_valid content_type content fails read h =
    ground (arith, bytes_eq_iff content_type (codes "application/json"))

valid_event_id-parts :
    (id : Bytes)
    → valid_event_id id ≡ true
    → (1 ≤ length id) × (length id ≤ 128) × (printable id ≡ true)
unfolding valid_event_id
valid_event_id-parts id h = ground arith

module _ {S D : Type 0} (store : Store S D) (setting : Setting) (api : Api) (request : Request)
    (s : S) where
  abbrev Admits : Response D × S → Type 0
  Admits outcome =
      (IsTrusted setting api request
        × (outcome ≡ accept store setting api request.relay_event_id request.content s))
      ⊎ IsRefusal outcome s

  signed-Admits :
      (verdict : Option Bool)
      → verdict ≢ none
      → (verdict ≡ some true
          → valid_event_id request.relay_event_id ≡ true
          → (length api.destination_url == 0) ≡ false
          → IsTrusted setting api request)
      → Admits (signed store setting api request request.content verdict s)
  unfolding signed
  signed-Admits none real trust = absurd (real refl)
  signed-Admits (some false) real trust = inr (401, "invalid_signature", omega arith, refl, refl)
  signed-Admits (some true) real trust = elim (Bool-cases (valid_event_id request.relay_event_id)) [
    | inr bad ↦ rw bad (inr (400, "invalid_request", omega arith, refl, refl))
    | inl good ↦ elim (Bool-cases (length api.destination_url == 0)) [
      | inl off ↦ rw (good, off) (inr (503, "receipt_unavailable", omega arith, refl, refl))
      | inr on ↦ rw (good, on) (inl (trust refl good on, refl))
    ]
  ]

  with_body-Admits :
      (read : ReadBody)
      → request.source_key ≡ api.source_key
      → read_body setting.json_valid request.content_type request.content request.fails ≡ read
      → Admits (with_body store setting api request read s)
  unfolding with_body
  with_body-Admits unsupported_media_type key e =
      inr (415, "unsupported_media_type", omega arith, refl, refl)
  with_body-Admits payload_too_large key e = inr (413, "payload_too_large", omega arith, refl, refl)
  with_body-Admits invalid_json key e = inr (400, "invalid_request", omega arith, refl, refl)
  with_body-Admits (body content) key e =
      let r = read_body-IsRead _ _ _ _ content e in
      rw r.same (elim (Bool-cases (valid_timestamp setting.now request.timestamp)) [
        | inr stale ↦ rw stale (inr (400, "invalid_request", omega arith, refl, refl))
        | inl timely ↦ rw timely (
            signed-Admits _
              (valid_never_panics setting.hmac api.ingress_secret request.timestamp request.content
                request.signature)
              (λ verdict good on.
                let (_, _, digest) =
                  (valid_exact setting.hmac api.ingress_secret request.timestamp request.content
                      request.signature).0
                    verdict in
                let (low, high, text) = valid_event_id-parts request.relay_event_id good in
                record {
                  source = key;
                  media_type = r.media_type;
                  whole = r.whole;
                  not_empty = r.not_empty;
                  not_large = r.not_large;
                  json = r.json;
                  timely = timely;
                  signed = digest;
                  id_not_empty = low;
                  id_not_long = high;
                  id_printable = printable-All request.relay_event_id text;
                  enabled = ground arith;
                }))
      ])

  -- Every post of an event either is a trusted receipt, and then goes to the store, or is refused
  -- with a status from 400 on and an error code while the store stays as it was; no request makes
  -- the handler panic.
  pub events_post-Admits :
      (IsTrusted setting api request
        × (events_post store setting api request s
            ≡ accept store setting api request.relay_event_id request.content s))
      ⊎ IsRefusal (events_post store setting api request s) s
  unfolding events_post
  events_post-Admits = elim (Bool-cases (bytes_eq request.source_key api.source_key)) [
    | inr other ↦ rw other (inr (401, "invalid_signature", omega arith, refl, refl))
    | inl same ↦ rw same (with_body-Admits _ ((bytes_eq_iff _ _).0 same) refl)
  ]
