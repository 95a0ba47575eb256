-- ===== src/Postgres/Tls.antt =====
-- internal/postgres/tls.go: the trust anchors of a database connection. PEM and X.509 decoding,
-- the trimming of space and the clock are parameters.
pub mod Roots
pub mod Anchors
use p3_relay.Prelude.{
  ℕ, zero, suc, Bool, true, false, ◌&&◌, ◌||◌, not, Option, none, some, List, [], ◌∷◌, Bytes, codes,
  bytes_eq, has_prefix, length, ltb, leb, ◌==◌, if◌then◌else◌,
}
use p3_relay.Errors.{Result, ok, err, failed, ensure, ◌>>=◌, ◌>>◌}

-- What of a certificate is looked at; `signs` is its key usage, if it has one, and whether that
-- lets it sign certificates.
pub record Certificate : Type 0 where
  pub is_ca : Bool
  pub signs : Option Bool
  pub not_before : ℕ
  pub not_after : ℕ

-- A decoded block and what follows it.
pub record Block : Type 0 where
  pub kind : Bytes
  pub headers : ℕ
  pub content : Bytes
  pub rest : Bytes

pub record Decoders : Type 0 where
  pub trim_space : Bytes → Bytes
  pub pem_decode : Bytes → Option Block
  pub parse_certificate : Bytes → Option Certificate

abbrev pub database_ca_bytes_max : ℕ
database_ca_bytes_max = 32768

abbrev pub database_ca_count_max : ℕ
database_ca_count_max = 2

abbrev pub cannot_sign : Option Bool → Bool
cannot_sign (some false) = true
cannot_sign _ = false

abbrev pub checked_certificate : ℕ → Option Certificate → Result Certificate
checked_certificate now none = err (failed "invalid database CA certificate")
checked_certificate now (some c) = do
  ensure (c.is_ca) (failed "database trust anchor must be a CA")
  ensure (not (cannot_sign c.signs)) (failed "database CA excludes certificate signing")
  ensure (leb c.not_before now && ltb now c.not_after)
      (failed "database CA outside validity period")
  ok c

module _ (decoders : Decoders) (now : ℕ) where
  abbrev pub checked_block : Option Block → Result (Certificate × Bytes)
  checked_block none = err (failed "invalid database CA encoding")
  checked_block (some b) = do
    ensure (bytes_eq b.kind (codes "CERTIFICATE") && b.headers == 0)
        (failed "invalid database CA encoding")
    c ← checked_certificate now (decoders.parse_certificate b.content)
    ok (c, decoders.trim_space b.rest)

  -- One round of the loop.
  unfoldable pub next_root : Bytes → Result (Certificate × Bytes)
  next_root remainder =
      if has_prefix remainder (codes "-----BEGIN CERTIFICATE-----")
      then checked_block (decoders.pem_decode remainder)
      else err (failed "invalid database CA encoding")

  -- The loop, with the rounds that `count < databaseCACountMax` leaves: the certificates and the
  -- text that is left.
  unfoldable pub roots_loop : ℕ → Bytes → Result (List Certificate × Bytes)
  roots_loop zero remainder = ok ([], remainder)
  roots_loop (suc rounds) [] = ok ([], [])
  roots_loop (suc rounds) (c ∷ s) = do
    (root, rest) ← next_root (c ∷ s)
    (roots, left) ← roots_loop rounds rest
    ok (root ∷ roots, left)

  -- `databaseCARoots`.
  unfoldable pub database_ca_roots : Bytes → Result (List Certificate)
  database_ca_roots content = do
    ensure (leb (length content) database_ca_bytes_max) (failed "database CA bundle too large")
    (roots, left) ← roots_loop database_ca_count_max (decoders.trim_space content)
    ensure (not (length roots == 0) && length left == 0)
        (failed "database CA bundle must contain one or two certificates")
    ok roots

-- The fields of `tls.Config` that matter here; a version 0 is the library's default.
pub record TlsConfig : Type 0 where
  pub insecure_skip_verify : Bool
  pub server_name : Bytes
  pub min_version : ℕ
  pub max_version : ℕ
  pub root_cas : Option (List Certificate)

pub record ConnConfig : Type 0 where
  pub tls_config : Option TlsConfig
  pub fallbacks : ℕ

pub record TlsOptions : Type 0 where
  pub ca_pem : Bytes
  pub required : Bytes

abbrev pub version_tls12 : ℕ
version_tls12 = 0x0303

abbrev pub minimum_version : TlsConfig → ℕ
minimum_version current =
    if ltb current.min_version version_tls12 then version_tls12 else current.min_version

abbrev pub valid_requirement : Bytes → Bool
valid_requirement required =
    length required == 0 || (bytes_eq required (codes "false") || bytes_eq required (codes "true"))

abbrev pub verifiable : Option TlsConfig → Result TlsConfig
verifiable none = err (failed "database CA requires hostname-verified TLS")
verifiable (some current) =
    if current.insecure_skip_verify || length current.server_name == 0
    then err (failed "database CA requires hostname-verified TLS")
    else ok current

abbrev pub anchored : ConnConfig → TlsConfig → List Certificate → ConnConfig
anchored configuration current roots = record configuration {
  tls_config =
      some (record current { root_cas = some roots; min_version = minimum_version current });
}

abbrev pub left_by : ConnConfig → Result ConnConfig → Result (Unit {0}) × ConnConfig
left_by configuration (err e) = (err e, configuration)
left_by configuration (ok changed) = (ok tt, changed)

module _ (decoders : Decoders) (now : ℕ) where
  abbrev pub with_anchors : ConnConfig → TlsOptions → Result ConnConfig
  with_anchors configuration options = do
    current ← verifiable configuration.tls_config
    ensure (configuration.fallbacks == 0) (failed "database TLS fallback targets are not supported")
    ensure (current.max_version == 0 || leb (minimum_version current) current.max_version)
        (failed "database TLS maximum excludes required protocol versions")
    roots ← database_ca_roots decoders now options.ca_pem
    ok (anchored configuration current roots)

  abbrev pub chosen : ConnConfig → TlsOptions → Result ConnConfig
  chosen configuration options =
      if not (valid_requirement options.required)
      then err (failed "invalid database CA requirement")
      else if length options.ca_pem == 0
      then (if bytes_eq options.required (codes "true")
          then err (failed "database CA required")
          else ok configuration)
      else with_anchors configuration options

  -- `ConfigureTLS`: the error, and the configuration that it leaves.
  unfoldable pub configure_tls : ConnConfig → TlsOptions → Result (Unit {0}) × ConnConfig
  configure_tls configuration options = left_by configuration (chosen configuration options)
