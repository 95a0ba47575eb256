-- ===== src/Sandbox/Session.antt =====
-- internal/sandbox/session.go: the visitor's credential, `id.expiry.MAC`. The HMAC, the clock (in
-- nanoseconds since the Unix epoch) and the random bytes are parameters.
pub mod Digits
pub mod Lifetime
use p3_relay.Prelude.{
  ℕ, ◌+◌, ◌*◌, ◌/◌, Bool, true, false, ◌&&◌, ◌||◌, not, Option, none, some, [], ◌∷◌, ◌++◌, Bytes,
  codes, bytes_eq, length, ltb, leb, ◌==◌, is_some, if◌then◌else◌,
}
use p3_relay.Errors.{Result, ok, err, failed, session}
use p3_relay.Hex.{hex_encode, hex_decode}
use p3_relay.Decimal.{format_uint}
use p3_relay.Signature.{Hmac}
use p3_relay.Delivery.{second, minute}
use p3_relay.HttpApi.Auth.{Seconds, after, before, parse_int}

abbrev pub session_lifetime : ℕ
session_lifetime = 30 * minute

abbrev pub token_length : ℕ
token_length = 108

-- The fields of `http.Cookie` that are set.
pub record Cookie : Type 0 where
  pub name : Bytes
  pub value : Bytes
  pub path : Bytes
  pub secure : Bool
  pub http_only : Bool
  pub same_site_strict : Bool
  pub max_age : ℕ
  pub expires : ℕ

abbrev pub cookie_name : Bytes
cookie_name = codes "__Host-relay_sandbox"

-- The text up to the first `.` and the text behind it.
unfoldable pub cut : Bytes → Option (Bytes × Bytes)
cut [] = none
cut (c ∷ s) =
    let rest = cut s in
    if c == b'.'
    then some ([], s)
    else elim rest [ none ↦ none | some (front, back) ↦ some (c ∷ front, back) ]

abbrev three : Bytes → Option (Bytes × Bytes) → Option (Bytes × Bytes × Bytes)
three first none = none
three first (some (middle, last)) = some (first, middle, last)

abbrev cut_rest : Option (Bytes × Bytes) → Option (Bytes × Bytes × Bytes)
cut_rest none = none
cut_rest (some (first, others)) = three first (cut others)

-- `strings.SplitN(token, ".", 3)` where it gives three parts.
unfoldable pub split_token : Bytes → Option (Bytes × Bytes × Bytes)
split_token token = cut_rest (cut token)

module _ (hmac : Hmac) (key : Bytes) where
  abbrev pub session_mac : Bytes → Bytes
  session_mac payload = hex_encode (hmac.digest key (codes "relay-sandbox-v1:" ++ payload))

  abbrev pub payload_of : Bytes → ℕ → Bytes
  payload_of id expires = id ++ b'.' ∷ format_uint expires

  abbrev pub session_cookie : Bytes → ℕ → Cookie
  session_cookie id now = record {
    name = cookie_name;
    value =
        let payload = payload_of id ((now + session_lifetime) / second) in
        payload ++ b'.' ∷ session_mac payload;
    path = codes "/";
    secure = true;
    http_only = true;
    same_site_strict = true;
    max_age = 1800;
    expires = now + session_lifetime;
  }

  abbrev pub with_id : ℕ → Option Bytes → Result (Cookie × Bytes)
  with_id now none = err (failed "rand")
  with_id now (some random) = ok (session_cookie (hex_encode random) now, hex_encode random)

  -- `Issue`: `random` is the sixteen random bytes, or none of them.
  unfoldable pub issue : ℕ → Option Bytes → Result (Cookie × Bytes)
  issue now random =
      if not (length key == 32)
      then err session
      else if ltb (now / second) 1000000000 || ltb 9999998199 (now / second)
      then err session
      else with_id now random

  -- The last check of `Validate`, on what the expiry's digits say.
  abbrev pub in_lifetime : ℕ → Bytes → Option Seconds → Result Bytes
  in_lifetime now id none = err session
  in_lifetime now id (some (before n)) = err session
  in_lifetime now id (some (after n)) =
      if leb n (now / second) || ltb ((now + session_lifetime) / second) n
      then err session
      else ok id

  unfoldable pub validate_parts : ℕ → Option (Bytes × Bytes × Bytes) → Result Bytes
  validate_parts now none = err session
  validate_parts now (some (id, stamp, mac)) =
      if not (length id == 32 && (length stamp == 10 && length mac == 64))
      then err session
      else if not (is_some (hex_decode id))
      then err session
      else if not (bytes_eq (session_mac (id ++ b'.' ∷ stamp)) mac)
      then err session
      else in_lifetime now id (parse_int stamp)

  -- `Validate`.
  unfoldable pub validate : Bytes → ℕ → Result Bytes
  validate token now =
      if not (length key == 32) || not (length token == token_length)
      then err session
      else validate_parts now (split_token token)
