-- ===== src/HttpApi/Auth.antt =====
-- internal/httpapi/api.go: the checks on a request.
use p3_relay.Prelude.{
  ℕ, ◌+◌, ◌-◌, ◌*◌, ◌^◌, Bool, true, false, ◌&&◌, ◌||◌, not, Option, none, some, [], ◌∷◌, Bytes,
  codes, bytes_eq, length, take, drop, ltb, leb, ◌==◌, if◌then◌else◌,
}
use p3_relay.Decimal.{digits_value}
use p3_relay.Delivery.{second, minute}
use p3_relay.HttpApi.{Api}

abbrev pub maximum_body_bytes : ℕ
maximum_body_bytes = 262144

abbrev pub timestamp_window : ℕ
timestamp_window = 5 * minute

-- Seconds since the Unix epoch, or before it.
pub data Seconds : Type 0 where
  after : ℕ → Seconds
  before : ℕ → Seconds

abbrev pub in_range : ℕ → (ℕ → Seconds) → Option ℕ → Option Seconds
in_range limit sign none = none
in_range limit sign (some n) = if leb n limit then some (sign n) else none

-- The digits behind an optional sign; an empty run of digits is an error.
unfoldable pub parse_digits : ℕ → (ℕ → Seconds) → Bytes → Option Seconds
parse_digits limit sign [] = none
parse_digits limit sign (c ∷ s) = in_range limit sign (digits_value 0 (c ∷ s))

-- `strconv.ParseInt(raw, 10, 64)`.
unfoldable pub parse_int : Bytes → Option Seconds
parse_int [] = none
parse_int (c ∷ s) =
    if c == b'+'
    then parse_digits (2 ^ 63 - 1) after s
    else if c == b'-'
    then parse_digits (2 ^ 63) before s
    else parse_digits (2 ^ 63 - 1) after (c ∷ s)

-- Whether `now.Sub(time.Unix(seconds, 0))` lies in the window on either side; the difference of
-- `Sub` stops at the bounds of int64, far outside the window.
unfoldable pub in_window : ℕ → Seconds → Bool
in_window now (after n) =
    leb now (n * second + timestamp_window) && leb (n * second) (now + timestamp_window)
in_window now (before n) = leb (now + n * second) timestamp_window

abbrev pub window_of : ℕ → Option Seconds → Bool
window_of now none = false
window_of now (some seconds) = in_window now seconds

unfoldable pub valid_timestamp : ℕ → Bytes → Bool
valid_timestamp now raw = window_of now (parse_int raw)

unfoldable pub printable : Bytes → Bool
printable [] = true
printable (c ∷ s) = leb 0x20 c && leb c 0x7e && printable s

unfoldable pub valid_event_id : Bytes → Bool
valid_event_id value = leb 1 (length value) && leb (length value) 128 && printable value

unfoldable pub valid_state : Bytes → Bool
valid_state value =
    bytes_eq value (codes "pending")
    || bytes_eq value (codes "delivering")
    || bytes_eq value (codes "delivered")
    || bytes_eq value (codes "retry_scheduled")
    || bytes_eq value (codes "dead_lettered")

abbrev pub bearer : Bytes
bearer = codes "Bearer "

unfoldable pub authorized : (Bytes → Bytes) → Api → Bytes → Bool
authorized sha256 api value =
    if leb (length value) (length bearer) || not (bytes_eq (take (length bearer) value) bearer)
    then false
    else bytes_eq (sha256 (drop (length bearer) value)) (sha256 api.operator_token)

-- The body of a request, or the status of its refusal.
pub data ReadBody : Type 0 where
  body : Bytes → ReadBody
  unsupported_media_type payload_too_large invalid_json : ReadBody

-- `MaxBytesReader` fails past its limit, and any failure of the reader is reported as too large.
unfoldable pub read_body : (Bytes → Bool) → Bytes → Bytes → Bool → ReadBody
read_body json_valid content_type content fails =
    if not (bytes_eq content_type (codes "application/json"))
    then unsupported_media_type
    else if ltb maximum_body_bytes (length content) || fails
    then payload_too_large
    else if length content == 0 || not (json_valid content)
    then invalid_json
    else body content
