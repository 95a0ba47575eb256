-- ===== src/Tests/Wire.antt =====
-- Identifiers, signatures, numbers and hints.
use p3_relay.Prelude.{
  ℕ, ◌+◌, ◌-◌, lt→ltb, ◌≡◌, ◌≢◌, refl, sym, ap, ◌∙◌, take-append, ◌↔◌, true, Option, none, some, [],
  ◌∷◌, ◌++◌, Bytes, codes, arith, length, take, drop,
}
use p3_relay.Hex.{hex_decode}
use p3_relay.Identifier.{new_uuid, valid_uuid, format_uuid}
use p3_relay.Identifier.Format.{valid_uuid-new_uuid}
use p3_relay.Signature.{valid}
use p3_relay.Signature.Exact.{valid_exact, valid_never_panics}
use p3_relay.Decimal.{parse_uint, format_uint, digits}
use p3_relay.Decimal.RoundTrip.{parse_uint-format_uint}
use p3_relay.Notification.{Message, Item, Client, marshal, publish}
use p3_relay.Notification.Messages.{ReadsObjects, IsPublished, uuid-length, publish-accepted}
use p3_relay.Tests.{constant_hmac, zeros, zeros-IsByte, event_id}

valid_uuid-new_uuid_example : valid_uuid (format_uuid (zeros 16)) ≡ true
unfolding new_uuid
valid_uuid-new_uuid_example =
    valid_uuid-new_uuid (zeros 16) (format_uuid (zeros 16)) (omega arith) (zeros-IsByte 16) refl

valid_exact_example :
    (valid constant_hmac (codes "secret") (codes "1") (codes "[]") (codes "v1=00") ≡ some true) ↔ (
      (take 3 (codes "v1=00") ≡ codes "v1=")
      × (length (codes "v1=00") ≡ 67)
      × (hex_decode (drop 3 (codes "v1=00")) ≡ some (zeros 32)))
valid_exact_example =
    valid_exact constant_hmac (codes "secret") (codes "1") (codes "[]") (codes "v1=00")

valid_never_panics_example :
    valid constant_hmac (codes "secret") (codes "1") (codes "[]") (codes "v1=00") ≢ none
valid_never_panics_example =
    valid_never_panics constant_hmac (codes "secret") (codes "1") (codes "[]") (codes "v1=00")

parse_uint-format_uint_example : parse_uint 1000 (format_uint 407) ≡ some 407
parse_uint-format_uint_example = parse_uint-format_uint 1000 407 (omega arith) (omega arith)

-- A decoder of one digit and an identifier at their places in the text.
abbrev first_digit : Bytes → ℕ
first_digit [] = 0
first_digit (c ∷ s) = c - b'0'

abbrev at_places : Bytes → Option Message
at_places s = some (record { version = first_digit (drop 11 s); event_id = take 36 (drop 25 s) })

abbrev demo_item : Item
demo_item = record {
  body = some (marshal (record { version = 1; event_id = event_id }));
  receipt_handle = some (codes "handle");
}

abbrev demo_client : Client
demo_client = record {
  send_message = λ body. none;
  receive_message = some (demo_item ∷ []);
  delete_batch = λ entries. none;
}

at_places-ReadsObjects : ReadsObjects at_places
unfolding digits
at_places-ReadsObjects version id small formed =
    let digit : b'0' + version - b'0' ≡ version = omega arith in
    rw (lt→ltb version 10 small, digit)
      (ap (λ (s : Bytes). some (record { version = version; event_id = s }))
        (ap (λ n. take n (id ++ b'"' ∷ b'}' ∷ [])) (sym (uuid-length id formed))
          ∙ take-append id (b'"' ∷ b'}' ∷ [])))

publish-accepted_example :
    IsPublished at_places demo_client event_id (codes "handle") (publish demo_client event_id)
publish-accepted_example =
    publish-accepted at_places demo_client event_id (codes "handle") at_places-ReadsObjects
      (omega arith) (omega arith)
