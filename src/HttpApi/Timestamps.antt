-- ===== src/HttpApi/Timestamps.antt =====
-- internal/httpapi/api.go: `ParseInt` on the timestamps that `FormatInt` writes.
use p3_relay.Prelude.{
  ℕ, ◌-◌, ◌^◌, ◌<◌, ◌≡◌, ◌≢◌, refl, true, false, some, [], ◌∷◌, Bytes, All, arith, le→leb, ◌==◌,
}
use p3_relay.Decimal.{format_uint, digits_value, is_digit}
use p3_relay.Decimal.RoundTrip.{digits_value-digits, digits-ne-nil, digits-All}
use p3_relay.HttpApi.Auth.{after, parse_int, parse_digits}

parse_int-value :
    (s : Bytes) (n : ℕ)
    → s ≢ []
    → All (λ c. is_digit c ≡ true) s
    → digits_value 0 s ≡ some n
    → n < 2 ^ 63
    → parse_int s ≡ some (after n)
unfolding parse_int parse_digits
parse_int-value [] n full h v k = absurd (full refl)
parse_int-value (c ∷ s) n full h v k =
    let plus : (c == b'+') ≡ false = ground (arith, h.0) in
    let minus : (c == b'-') ≡ false = ground (arith, h.0) in
    rw (plus, minus, v) (rw (le→leb n (2 ^ 63 - 1) (omega arith)) refl)

-- `ParseInt` of a formatted number.
pub parse_int-format_uint : (n : ℕ) → n < 2 ^ 63 → parse_int (format_uint n) ≡ some (after n)
parse_int-format_uint n h =
    parse_int-value (format_uint n) n (digits-ne-nil 19 n) (digits-All 20 n)
      (digits_value-digits 19 n (omega arith)) h
