-- ===== src/Signature.antt =====
-- internal/signature/signature.go: `v1=` and the hexadecimal HMAC-SHA256 of `timestamp.body`.
-- The HMAC of the standard library is a parameter with the length and range that it documents.
pub mod Exact
use p3_relay.Prelude.{
  ℕ, ◌+◌, ◌≡◌, Bool, false, not, Option, none, some, ◌∷◌, ◌++◌, Bytes, codes, All, length, take,
  drop, bytes_eq, ◌==◌, if◌then◌else◌,
}
use p3_relay.Hex.{hex_encode, hex_decode}
use p3_relay.Hex.Laws.{IsByte}

-- `hmac.New(sha256.New, secret)`, fed a message, and its `Sum`.
pub record Hmac : Type 0 where
  pub digest : Bytes → Bytes → Bytes
  pub digest_length : (secret message : Bytes) → length (digest secret message) ≡ 32
  pub digest_bytes : (secret message : Bytes) → All IsByte (digest secret message)

abbrev pub encoded_size : ℕ
encoded_size = 64

abbrev pub prefix : Bytes
prefix = codes "v1="

-- The three writes into the digest.
abbrev pub signed_message : Bytes → Bytes → Bytes
signed_message timestamp body = timestamp ++ b'.' ∷ body

-- The last two steps of `Valid`; `none` is the panic of a failed invariant.
abbrev compare_digests : Option Bytes → Option Bytes → Option Bool
compare_digests none expected = some false
compare_digests (some supplied) none = none
compare_digests (some supplied) (some expected) = some (bytes_eq expected supplied)

module _ (hmac : Hmac) where
  unfoldable pub create : Bytes → Bytes → Bytes → Bytes
  create secret timestamp body =
      prefix ++ hex_encode (hmac.digest secret (signed_message timestamp body))

  unfoldable pub valid : Bytes → Bytes → Bytes → Bytes → Option Bool
  unfolding create
  valid secret timestamp body supplied =
      if not (length supplied == length prefix + encoded_size)
      then some false
      else if not (bytes_eq (take (length prefix) supplied) prefix)
      then some false
      else compare_digests (hex_decode (drop (length prefix) supplied))
          (hex_decode (drop (length prefix) (create secret timestamp body)))
