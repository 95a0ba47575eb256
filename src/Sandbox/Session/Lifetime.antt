-- ===== src/Sandbox/Session/Lifetime.antt =====
-- Which credentials are accepted, and for how long.
use p3_relay.Prelude.{
  ℕ, ◌+◌, ◌/◌, ◌^◌, ◌≤◌, ◌<◌, ◌≡◌, refl, true, none, some, Option, ◌∷◌, ◌++◌, Bytes, All, codes,
  length, length-append, arith, bytes_eq_refl, is_some, ap, subst, ◌∙◌, bytes_eq→eq, bytes_eq,
}
use p3_relay.Errors.{ok}
use p3_relay.Hex.{hex_encode, hex_decode}
use p3_relay.Hex.Laws.{IsByte, hex_decode-hex_encode, length-hex_encode}
use p3_relay.Decimal.{format_uint}
use p3_relay.HttpApi.Timestamps.{parse_int-format_uint}
use p3_relay.Signature.{Hmac}
use p3_relay.Delivery.{second}
use p3_relay.HttpApi.Auth.{Seconds, after, before, parse_int}
use p3_relay.Sandbox.Session.{
  Cookie, split_token, session_mac, session_cookie, issue, validate, validate_parts, in_lifetime,
  session_lifetime,
}
use p3_relay.Sandbox.Session.Digits.{
  split_token-payload, hex_encode-IsPlain, digits-IsPlain, length-digits,
}

-- What an accepted token is made of.
pub record IsCredential (hmac : Hmac) (key token : Bytes) (now : ℕ) (id : Bytes) : Type 0 where
  pub stamp : Bytes
  pub expires : ℕ
  pub parts : split_token token ≡ some (id, stamp, session_mac hmac key (id ++ b'.' ∷ stamp))
  pub stamped : parse_int stamp ≡ some (after expires)
  pub later : now / second < expires
  pub soon : expires ≤ now / second + 1800

module _ (hmac : Hmac) (key : Bytes) where
  in_lifetime-bounds :
      (now : ℕ) (id id' : Bytes) (read : Option Seconds)
      → in_lifetime hmac key now id read ≡ ok id'
      → (expires : ℕ) × (read ≡ some (after expires))
        × (now / second < expires)
        × (expires ≤ now / second + 1800)
        × (id ≡ id')
  in_lifetime-bounds now id id' none h = cc
  in_lifetime-bounds now id id' (some (before n)) h = cc
  in_lifetime-bounds now id id' (some (after n)) h =
      (n, refl, ground arith, ground arith, ground arith)

  parts-IsCredential :
      (token : Bytes) (now : ℕ) (id' : Bytes) (parts : Option (Bytes × Bytes × Bytes))
      → split_token token ≡ parts
      → validate_parts hmac key now parts ≡ ok id'
      → IsCredential hmac key token now id'
  unfolding validate_parts
  parts-IsCredential token now id' none e h = cc
  parts-IsCredential token now id' (some (id, stamp, mac)) e h =
      let right : bytes_eq (session_mac hmac key (id ++ b'.' ∷ stamp)) mac ≡ true = ground arith in
      let last : in_lifetime hmac key now id (parse_int stamp) ≡ ok id' = ground arith in
      let (expires, read, later, soon, same) =
        in_lifetime-bounds now id id' (parse_int stamp) last in
      record {
        stamp = stamp;
        expires = expires;
        parts = e ∙ ap some (rw (← same) (rw (bytes_eq→eq _ mac right) refl));
        stamped = read;
        later = later;
        soon = soon;
      }

  -- A token that is accepted carries the identifier, the MAC of its first two parts under the key,
  -- and an expiry that lies ahead by at most the 1800 seconds of a session.
  pub validate-IsCredential :
      (token : Bytes) (now : ℕ) (id : Bytes)
      → validate hmac key token now ≡ ok id
      → IsCredential hmac key token now id
  unfolding validate
  validate-IsCredential token now id h =
      parts-IsCredential token now id (split_token token) refl (ground arith)

  -- The stamp of an expiry between the years 2001 and 2286 has ten digits.
  length-stamp :
      (expires : ℕ) → 10 ^ 9 ≤ expires → expires < 10 ^ 10 → length (format_uint expires) ≡ 10
  length-stamp expires low high = length-digits 19 9 expires (omega arith) low high

  abbrev token_of : Bytes → Bytes → Bytes
  token_of id stamp = (id ++ b'.' ∷ stamp) ++ b'.' ∷ session_mac hmac key (id ++ b'.' ∷ stamp)

  length-mac : (payload : Bytes) → length (session_mac hmac key payload) ≡ 64
  length-mac payload = omega (
    arith,
    length-hex_encode (hmac.digest key (codes "relay-sandbox-v1:" ++ payload)),
    hmac.digest_length key (codes "relay-sandbox-v1:" ++ payload),
  )

  length-token :
      (id stamp : Bytes) → length id ≡ 32 → length stamp ≡ 10 → length (token_of id stamp) ≡ 108
  length-token id stamp first second = omega (
    arith,
    length-append (id ++ b'.' ∷ stamp) (b'.' ∷ session_mac hmac key (id ++ b'.' ∷ stamp)),
    length-append id (b'.' ∷ stamp),
    length-mac (id ++ b'.' ∷ stamp),
  )

  parts-accepted :
      (id stamp mac : Bytes) (expires now : ℕ)
      → length id ≡ 32
      → length stamp ≡ 10
      → length mac ≡ 64
      → is_some (hex_decode id) ≡ true
      → bytes_eq (session_mac hmac key (id ++ b'.' ∷ stamp)) mac ≡ true
      → parse_int stamp ≡ some (after expires)
      → now / second < expires
      → expires ≤ now / second + 1800
      → validate_parts hmac key now (some (id, stamp, mac)) ≡ ok id
  unfolding validate_parts
  parts-accepted id stamp mac expires now l₁ l₂ l₃ hexed right read later soon =
      rw (hexed, right, read) (ground arith)

  -- A well-formed token is accepted while its expiry lies ahead.
  token-accepted :
      (random : Bytes) (expires now : ℕ)
      → length key ≡ 32
      → length random ≡ 16
      → All IsByte random
      → 10 ^ 9 ≤ expires
      → expires < 10 ^ 10
      → now / second < expires
      → expires ≤ now / second + 1800
      → validate hmac key (token_of (hex_encode random) (format_uint expires)) now
        ≡ ok (hex_encode random)
  unfolding validate
  token-accepted random expires now keyed size bytes low high later soon =
      let id = hex_encode random in
      let stamp = format_uint expires in
      let mac = session_mac hmac key (id ++ b'.' ∷ stamp) in
      let long = length-hex_encode random in
      let split =
        split_token-payload id stamp mac (hex_encode-IsPlain random bytes)
          (digits-IsPlain 20 expires) in
      let parts =
        parts-accepted id stamp mac expires now (omega arith) (length-stamp expires low high)
          (length-mac (id ++ b'.' ∷ stamp)) (rw (hex_decode-hex_encode random bytes) refl)
          (bytes_eq_refl mac) (parse_int-format_uint expires (omega arith)) later soon in
      rw (keyed, length-token id stamp (omega arith) (length-stamp expires low high), split) parts

  -- An issued credential is accepted from the moment it is issued until, half an hour later, its
  -- expiry; it names the identifier that the caller is given.
  pub validate-issue :
      (issued now : ℕ) (random : Bytes) (cookie : Cookie) (id : Bytes)
      → length random ≡ 16
      → All IsByte random
      → issue hmac key issued (some random) ≡ ok (cookie, id)
      → issued ≤ now
      → now / second < issued / second + 1800
      → validate hmac key cookie.value now ≡ ok id
  unfolding issue
  validate-issue issued now random cookie id size bytes made since before_end =
      let expires = (issued + session_lifetime) / second in
      let accepted =
        token-accepted random expires now (ground arith) size bytes (ground arith) (ground arith)
          (omega arith) (omega arith) in
      let same : (session_cookie hmac key (hex_encode random) issued, hex_encode random)
          ≡ (cookie, id) =
        ground arith in
      subst (λ (made : Cookie × Bytes). validate hmac key made.0.value now ≡ ok made.1) same
        accepted
