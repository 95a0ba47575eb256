-- ===== src/Gateway.antt =====
-- gateway/config.go: the checks before the connection gateway is started. PEM and X.509 decoding,
-- the key pair's check and the certificate's verification are parameters.
pub mod Launch
pub mod Files
use p3_relay.Prelude.{
  ℕ, Bool, true, false, ◌&&◌, ◌||◌, not, Option, none, some, List, [], ◌∷◌, Bytes, bytes_eq, codes,
  length, leb, ltb, split, ◌==◌, if◌then◌else◌,
}
use p3_relay.Errors.{Result, err, failed, ensure, ◌>>=◌, ◌>>◌}
use p3_relay.Postgres.Tls.{Certificate, Block, cannot_sign}

abbrev pub pem_bytes_max : ℕ
pem_bytes_max = 16384

pub record Configuration : Type 0 where
  pub certificate : Bytes
  pub private_key : Bytes
  pub backend_ca : Bytes
  pub hostname : Bytes
  pub runtime_password : Bytes
  pub migration_password : Bytes

-- `verifies` checks a server's certificate for a host name at an instant, against itself.
pub record Libraries : Type 0 where
  pub trim_space : Bytes → Bytes
  pub pem_decode : Bytes → Option Block
  pub parse_certificate : Bytes → Option Certificate
  pub key_pair : Bytes → Bytes → Bool
  pub self_signed : Bytes → Bool
  pub verifies : Bytes → Bytes → ℕ → Bool

abbrev pub is_alphanumeric : ℕ → Bool
is_alphanumeric c = (leb b'a' c && leb c b'z') || (leb b'0' c && leb c b'9')

-- The characters of a label behind its first, up to a last one that is no dash.
unfoldable pub label_end : Bytes → Bool
label_end [] = true
label_end (c ∷ []) = is_alphanumeric c
label_end (c ∷ d ∷ s) = (is_alphanumeric c || c == b'-') && label_end (d ∷ s)

-- `[a-z0-9]([a-z0-9-]{0,61}[a-z0-9])?`.
unfoldable pub is_label : Bytes → Bool
is_label [] = false
is_label (c ∷ s) = is_alphanumeric c && (label_end s && leb (length s) 62)

unfoldable pub each_label : List Bytes → Bool
each_label [] = true
each_label (label ∷ labels) = is_label label && each_label labels

-- `hostnamePattern`: labels between dots.
unfoldable pub hostname_matches : Bytes → Bool
hostname_matches hostname = each_label (split b'.' hostname)

unfoldable pub each_hex : Bytes → Bool
each_hex [] = true
each_hex (c ∷ s) = ((leb b'0' c && leb c b'9') || (leb b'a' c && leb c b'f')) && each_hex s

-- `passwordPattern`.
unfoldable pub password_matches : Bytes → Bool
password_matches password = length password == 64 && each_hex password

abbrev pub fits_bounds : Bytes → Bool
fits_bounds content = not (length content == 0) && leb (length content) pem_bytes_max

abbrev pub in_force : ℕ → Certificate → Bool
in_force now c = leb c.not_before now && ltb now c.not_after

module _ (libraries : Libraries) where
  -- One block of a kind and nothing behind it.
  abbrev pub only_block : Bytes → Option Block → Option Block
  only_block kind none = none
  only_block kind (some b) =
      if bytes_eq b.kind kind && length (libraries.trim_space b.rest) == 0 then some b else none

  abbrev pub certificate_of : Option Block → Option Certificate
  certificate_of none = none
  certificate_of (some b) = libraries.parse_certificate b.content

  abbrev pub parse_certificate : Bytes → Option Certificate
  parse_certificate content =
      certificate_of (only_block (codes "CERTIFICATE") (libraries.pem_decode content))

  abbrev pub is_found : {A : Type 0} → Option A → Bool
  is_found none = false
  is_found (some _) = true

  abbrev pub server_checked : Configuration → ℕ → Option Certificate → Result (Unit {0})
  server_checked value now none = err (failed "invalid gateway certificate")
  server_checked value now (some c) = do
    ensure (is_found (only_block (codes "PRIVATE KEY") (libraries.pem_decode value.private_key)))
        (failed "one PKCS8 private key required")
    ensure (libraries.key_pair value.certificate value.private_key)
        (failed "invalid gateway key pair")
    ensure (in_force now c) (failed "gateway certificate outside validity period")
    ensure (libraries.self_signed value.certificate)
        (failed "gateway certificate must be self-signed CA")
    ensure (libraries.verifies value.certificate value.hostname now)
        (failed "gateway certificate identity or validity rejected")

  -- `validateServer`.
  unfoldable pub validate_server : Configuration → ℕ → Result (Unit {0})
  validate_server value now = server_checked value now (parse_certificate value.certificate)

  abbrev pub backend_checked : ℕ → Option Certificate → Result (Unit {0})
  backend_checked now none = err (failed "invalid backend CA")
  backend_checked now (some c) = do
    ensure c.is_ca (failed "backend certificate is not a CA")
    ensure (not (cannot_sign c.signs)) (failed "backend CA excludes certificate signing")
    ensure (in_force now c) (failed "backend CA outside validity period")

  -- `validate`.
  unfoldable pub validate : Configuration → ℕ → Result (Unit {0})
  validate value now = do
    ensure (leb (length value.hostname) 253 && hostname_matches value.hostname)
        (failed "invalid gateway hostname")
    ensure (password_matches value.runtime_password) (failed "invalid runtime password format")
    ensure (password_matches value.migration_password) (failed "invalid migration password format")
    ensure (not (bytes_eq value.runtime_password value.migration_password))
        (failed "database roles require distinct credentials")
    ensure
        (fits_bounds value.certificate
          && (fits_bounds value.private_key && fits_bounds value.backend_ca))
        (failed "missing or oversized TLS material")
    _ ← validate_server value now
    backend_checked now (parse_certificate value.backend_ca)
