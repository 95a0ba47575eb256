-- ===== src/Signature/Exact.antt =====
-- Which signatures are accepted.
use p3_relay.Prelude.{
  ◌∷◌, ◌≡◌, refl, ◌≢◌, ◌↔◌, true, Option, none, some, ◌++◌, Bytes, codes, arith, length, take, drop,
  bytes_eq_iff,
}
use p3_relay.Hex.{hex_decode}
use p3_relay.Hex.Laws.{
  hex_decode-hex_encode, length-hex_encode, upper_encode, length-upper_encode,
  hex_decode-upper_encode,
}
use p3_relay.Signature.{Hmac, prefix, signed_message, create, valid, compare_digests}

compare_exact :
    (supplied : Option Bytes) (digest : Bytes)
    → (compare_digests supplied (some digest) ≡ some true) ↔ (supplied ≡ some digest)
compare_exact none digest = (λ h. cc, λ h. cc)
compare_exact (some s) digest = ground (arith, bytes_eq_iff digest s)

compare_total :
    (supplied : Option Bytes) (digest : Bytes) → compare_digests supplied (some digest) ≢ none
compare_total none digest = λ h. cc
compare_total (some s) digest = λ h. cc

module _ (hmac : Hmac) (secret timestamp body : Bytes) where
  decoded_create :
      hex_decode (drop (length prefix) (create hmac secret timestamp body))
      ≡ some (hmac.digest secret (signed_message timestamp body))
  unfolding create
  decoded_create =
      hex_decode-hex_encode _ (hmac.digest_bytes secret (signed_message timestamp body))

  -- A signature is accepted exactly when it has 67 bytes, begins with `v1=`, and the rest are
  -- hexadecimal digits, in either case, of the secret's digest of the timestamp, a dot and the body.
  pub valid_exact :
      (supplied : Bytes)
      → (valid hmac secret timestamp body supplied ≡ some true) ↔ (
          (take 3 supplied ≡ codes "v1=")
          × (length supplied ≡ 67)
          × (hex_decode (drop 3 supplied) ≡ some (hmac.digest secret (timestamp ++ b'.' ∷ body))))
  unfolding valid
  valid_exact supplied = rw decoded_create (
      ground (
        arith,
        compare_exact (hex_decode (drop 3 supplied))
            (hmac.digest secret (signed_message timestamp body)),
        bytes_eq_iff (take 3 supplied) (codes "v1="),
      ))

  -- The panic on a failed encoding invariant is never reached: every call returns a verdict.
  pub valid_never_panics : (supplied : Bytes) → valid hmac secret timestamp body supplied ≢ none
  unfolding valid
  valid_never_panics supplied = rw decoded_create (
      ground (
        arith,
        compare_total (hex_decode (drop 3 supplied))
            (hmac.digest secret (signed_message timestamp body)),
      ))

  length-create : length (create hmac secret timestamp body) ≡ 67
  unfolding create
  length-create = omega (
    arith,
    length-hex_encode (hmac.digest secret (signed_message timestamp body)),
    hmac.digest_length secret (signed_message timestamp body),
  )

  -- What is signed is accepted.
  pub valid-create :
      valid hmac secret timestamp body (create hmac secret timestamp body) ≡ some true
  unfolding create
  valid-create = (valid_exact _).1 (refl, length-create, decoded_create)

  -- Uppercase digits of the right digest are accepted too.
  pub valid-upper :
      valid hmac secret timestamp body
        (codes "v1=" ++ upper_encode (hmac.digest secret (signed_message timestamp body)))
      ≡ some true
  valid-upper = (valid_exact _).1 (
    refl,
    omega (
      arith,
      length-upper_encode (hmac.digest secret (signed_message timestamp body)),
      hmac.digest_length secret (signed_message timestamp body),
    ),
    hex_decode-upper_encode _ (hmac.digest_bytes secret (signed_message timestamp body)),
  )
