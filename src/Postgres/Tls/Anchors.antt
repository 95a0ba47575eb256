-- ===== src/Postgres/Tls/Anchors.antt =====
-- internal/postgres/tls.go: the configurations that `ConfigureTLS` leaves.
use p3_relay.Prelude.{
  ℕ, ◌≤◌, ◌≡◌, refl, ◌⊎◌, inl, inr, false, Option, none, some, List, [], ◌∷◌, Bytes, All, length,
  arith, subst, ap, ◌==◌, bytes_eq, codes,
}
use p3_relay.Errors.{Error, Result, ok, err, Result-cases}
use p3_relay.Postgres.Tls.{
  Certificate, Decoders, database_ca_roots, TlsConfig, ConnConfig, TlsOptions, configure_tls,
  chosen, with_anchors, verifiable, anchored, left_by,
}
use p3_relay.Postgres.Tls.Roots.{IsAnchor, Spells, roots-anchors, roots-Spells}

module _ (decoders : Decoders) (now : ℕ) where
  -- A verified connection to one host, that trusts the options' certificates and no others.
  pub record IsTrusting (options : TlsOptions) (before after : TlsConfig) : Type 0 where
    pub roots : List Certificate
    pub trusted : after.root_cas ≡ some roots
    pub given : Spells decoders now (decoders.trim_space options.ca_pem) roots
    pub anchors : All (IsAnchor now) roots
    pub some_ : 1 ≤ length roots
    pub few : length roots ≤ 2
    pub verified : after.insecure_skip_verify ≡ false
    pub named : 1 ≤ length after.server_name
    pub same_host : after.server_name ≡ before.server_name
    pub modern : 0x0303 ≤ after.min_version
    pub no_lower : before.min_version ≤ after.min_version
    pub reachable : (after.max_version ≡ 0) ⊎ (after.min_version ≤ after.max_version)

  -- What a successful call does to the configuration.
  pub data Configured (before : ConnConfig) (options : TlsOptions) : ConnConfig → Type 0 where
    unchanged :
        options.ca_pem ≡ []
        → bytes_eq options.required (codes "true") ≡ false
        → Configured before options before
    trusts :
        (current configured : TlsConfig) (after : ConnConfig)
        → before.tls_config ≡ some current
        → after.tls_config ≡ some configured
        → IsTrusting options current configured
        → after.fallbacks ≡ 0
        → Configured before options after

  verifiable-ok :
      (found : Option TlsConfig) (current : TlsConfig)
      → verifiable found ≡ ok current
      → (found ≡ some current)
        × (current.insecure_skip_verify ≡ false)
        × (1 ≤ length current.server_name)
  verifiable-ok none current h = cc
  verifiable-ok (some x) current h =
      let same : x ≡ current = ground arith in
      (
        ap some same,
        subst (λ (x : TlsConfig). x.insecure_skip_verify ≡ false) same (ground arith),
        subst (λ (x : TlsConfig). 1 ≤ length x.server_name) same (ground arith),
      )

  with_anchors-Configured :
      (before after : ConnConfig) (options : TlsOptions)
      → with_anchors decoders now before options ≡ ok after
      → Configured before options after
  with_anchors-Configured before after options h =
      elim (Result-cases (verifiable before.tls_config)) [
        | inr (e, bad) ↦ absurd (ground arith)
        | inl (current, usable) ↦
            elim (Result-cases (database_ca_roots decoders now options.ca_pem)) [
              | inr (e, bad) ↦ absurd (ground arith)
              | inl (roots, anchors) ↦
                  let (found, verified, named) = verifiable-ok before.tls_config current usable in
                  let (each, some_, few) =
                    roots-anchors decoders now options.ca_pem roots anchors in
                  let same : anchored before current roots ≡ after = ground arith in
                  subst (Configured before options) same (
                    trusts current _ (anchored before current roots) found refl
                      (record {
                        roots = roots;
                        trusted = refl;
                        given = roots-Spells decoders now options.ca_pem roots anchors;
                        anchors = each;
                        some_ = some_;
                        few = few;
                        verified = verified;
                        named = named;
                        same_host = refl;
                        modern = ground arith;
                        no_lower = ground arith;
                        reachable = ground arith;
                      })
                      (ground arith))
            ]
      ]

  chosen-Configured :
      (before after : ConnConfig) (options : TlsOptions)
      → chosen decoders now before options ≡ ok after
      → Configured before options after
  chosen-Configured before after options h = elim (empty_or options.ca_pem) [
    | inr full ↦ with_anchors-Configured before after options (ground arith)
    | inl empty ↦
        let same : before ≡ after = ground arith in
        subst (Configured before options) same (unchanged empty (ground arith))
  ]
    where
      empty_or : (s : Bytes) → (s ≡ []) ⊎ ((length s == 0) ≡ false)
      empty_or [] = inl refl
      empty_or (c ∷ s) = inr (ground arith)

  left_by-Configured :
      (before : ConnConfig) (options : TlsOptions) (made : Result ConnConfig)
      → ((after : ConnConfig) → made ≡ ok after → Configured before options after)
      → let (outcome, after) = left_by before made in
        ((e : Error) × (outcome ≡ err e) × (after ≡ before))
        ⊎ ((outcome ≡ ok tt) × Configured before options after)
  left_by-Configured before options (err e) good = inl (e, refl, refl)
  left_by-Configured before options (ok after) good = inr (refl, good after refl)

  -- A configuration that cannot be given its trust anchors is left as it was, with an error. A
  -- successful call changes nothing where no anchors are given nor required; otherwise the
  -- configuration it leaves verifies the host it names, trusts exactly the certificates that the
  -- options' text spells, which are one or two, in force, and may sign, and has a lowest version of at
  -- least TLS 1.2 and at most the highest version, and no fallbacks.
  pub configure_tls-Configured :
      (before : ConnConfig) (options : TlsOptions)
      → let (outcome, after) = configure_tls decoders now before options in
        ((e : Error) × (outcome ≡ err e) × (after ≡ before))
        ⊎ ((outcome ≡ ok tt) × Configured before options after)
  unfolding configure_tls
  configure_tls-Configured before options =
      left_by-Configured before options (chosen decoders now before options)
        (λ after made. chosen-Configured before after options made)
