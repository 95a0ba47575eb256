-- ===== src/Postgres/Tls/Roots.antt =====
-- internal/postgres/tls.go: the certificates that `databaseCARoots` reads.
use p3_relay.Prelude.{
  ℕ, zero, suc, ◌≤◌, ◌<◌, ◌≡◌, refl, inl, inr, true, false, Option, none, some, List, [], ◌∷◌,
  bytes_eq→eq, has_prefix, sym, ◌∙◌, Bytes, All, length, arith, subst, ap, codes,
}
use p3_relay.Errors.{ok, Result-cases}
use p3_relay.Postgres.Tls.{
  Certificate, Block, Decoders, cannot_sign, checked_certificate, checked_block, next_root,
  roots_loop, database_ca_roots,
}

-- A certificate authority's certificate that may sign and is in force.
pub record IsAnchor (now : ℕ) (c : Certificate) : Type 0 where
  pub authority : c.is_ca ≡ true
  pub signing : cannot_sign c.signs ≡ false
  pub begun : c.not_before ≤ now
  pub unfinished : now < c.not_after

checked-IsAnchor :
    (now : ℕ) (found : Option Certificate) (c : Certificate)
    → checked_certificate now found ≡ ok c
    → IsAnchor now c
checked-IsAnchor now none c h = cc
checked-IsAnchor now (some x) c h =
    let same : x ≡ c = ground arith in
    subst (IsAnchor now) same (record {
      authority = ground arith;
      signing = ground arith;
      begun = ground arith;
      unfinished = ground arith;
    })

module _ (decoders : Decoders) (now : ℕ) where
  block-IsAnchor :
      (found : Option Block) (c : Certificate) (rest : Bytes)
      → checked_block decoders now found ≡ ok (c, rest)
      → IsAnchor now c
  block-IsAnchor none c rest h = cc
  block-IsAnchor (some b) c rest h =
      elim (Result-cases (checked_certificate now (decoders.parse_certificate b.content))) [
        | inr (e, bad) ↦ absurd (ground arith)
        | inl (x, good) ↦
            let same : x ≡ c = ground arith in
            subst (IsAnchor now) same
              (checked-IsAnchor now (decoders.parse_certificate b.content) x good)
      ]

  next_root-IsAnchor :
      (remainder : Bytes) (c : Certificate) (rest : Bytes)
      → next_root decoders now remainder ≡ ok (c, rest)
      → IsAnchor now c
  unfolding next_root
  next_root-IsAnchor remainder c rest h =
      block-IsAnchor (decoders.pem_decode remainder) c rest (ground arith)

  roots_loop-All :
      (rounds : ℕ) (remainder : Bytes) (roots : List Certificate) (left : Bytes)
      → roots_loop decoders now rounds remainder ≡ ok (roots, left)
      → All (IsAnchor now) roots × (length roots ≤ rounds)
  unfolding roots_loop
  roots_loop-All zero remainder roots left h =
      let none_ : [] ≡ roots = cc in
      subst (λ roots. All (IsAnchor now) roots × (length roots ≤ 0)) none_ (tt, omega arith)
  roots_loop-All (suc rounds) [] roots left h =
      let none_ : [] ≡ roots = cc in
      subst (λ roots. All (IsAnchor now) roots × (length roots ≤ suc rounds)) none_
        (tt, omega arith)
  roots_loop-All (suc rounds) (c ∷ s) roots left h =
      elim (Result-cases (next_root decoders now (c ∷ s))) [
        | inr (e, bad) ↦ absurd (ground arith)
        | inl ((root, rest), first) ↦ elim (Result-cases (roots_loop decoders now rounds rest)) [
          | inr (e, bad) ↦ absurd (ground arith)
          | inl ((more, left'), later) ↦
              let known = roots_loop-All rounds rest more left' later in
              let same : root ∷ more ≡ roots = ground arith in
              subst (λ roots. All (IsAnchor now) roots × (length roots ≤ suc rounds)) same
                ((next_root-IsAnchor (c ∷ s) root rest first, known.0), omega (arith, known.1))
        ]
      ]

  pub roots-anchors :
      (content : Bytes) (roots : List Certificate)
      → database_ca_roots decoders now content ≡ ok roots
      → All (IsAnchor now) roots × (1 ≤ length roots) × (length roots ≤ 2)
  unfolding database_ca_roots
  roots-anchors content roots h =
      elim (Result-cases (roots_loop decoders now 2 (decoders.trim_space content))) [
        | inr (e, bad) ↦ absurd (ground arith)
        | inl ((found, left), looped) ↦
            let known = roots_loop-All 2 (decoders.trim_space content) found left looped in
            let same : found ≡ roots = ground arith in
            let full : 1 ≤ length found = ground arith in
            subst (λ roots. All (IsAnchor now) roots × (1 ≤ length roots) × (length roots ≤ 2)) same
              (known.0, full, known.1)
      ]

  -- The certificates of a text: each the content of the PEM block that the text begins with, and
  -- nothing behind the last.
  pub data Spells : Bytes → List Certificate → Type 0 where
    nothing_left : Spells [] []
    certificate :
        (text : Bytes) (b : Block) (c : Certificate) (more : List Certificate)
        → has_prefix text (codes "-----BEGIN CERTIFICATE-----") ≡ true
        → decoders.pem_decode text ≡ some b
        → b.kind ≡ codes "CERTIFICATE"
        → decoders.parse_certificate b.content ≡ some c
        → Spells (decoders.trim_space b.rest) more
        → Spells text (c ∷ more)

  checked-same :
      (found : Option Certificate) (c : Certificate)
      → checked_certificate now found ≡ ok c
      → found ≡ some c
  checked-same none c h = cc
  checked-same (some x) c h = ap some (ground arith)

  block-Spells :
      (text : Bytes) (found : Option Block) (c : Certificate) (rest : Bytes)
      (more : List Certificate)
      → decoders.pem_decode text ≡ found
      → has_prefix text (codes "-----BEGIN CERTIFICATE-----") ≡ true
      → checked_block decoders now found ≡ ok (c, rest)
      → Spells rest more
      → Spells text (c ∷ more)
  block-Spells text none c rest more e begun h later = cc
  block-Spells text (some b) c rest more e begun h later =
      elim (Result-cases (checked_certificate now (decoders.parse_certificate b.content))) [
        | inr (e', bad) ↦ absurd (ground arith)
        | inl (x, good) ↦
            let same : x ≡ c = ground arith in
            let behind : decoders.trim_space b.rest ≡ rest = ground arith in
            let kind : b.kind ≡ codes "CERTIFICATE" = bytes_eq→eq _ _ (ground arith) in
            certificate text b c more begun e kind
              (checked-same (decoders.parse_certificate b.content) x good ∙ ap some same)
              (subst (λ s. Spells s more) (sym behind) later)
      ]

  next_root-Spells :
      (text : Bytes) (c : Certificate) (rest : Bytes) (more : List Certificate)
      → next_root decoders now text ≡ ok (c, rest)
      → Spells rest more
      → Spells text (c ∷ more)
  unfolding next_root
  next_root-Spells text c rest more h later =
      block-Spells text (decoders.pem_decode text) c rest more refl (ground arith) (ground arith)
        later

  roots_loop-Spells :
      (rounds : ℕ) (remainder : Bytes) (roots : List Certificate)
      → roots_loop decoders now rounds remainder ≡ ok (roots, [])
      → Spells remainder roots
  unfolding roots_loop
  roots_loop-Spells zero remainder roots h =
      let none_ : [] ≡ roots = cc in
      let empty : [] ≡ remainder = cc in
      subst (λ s. Spells s roots) empty (subst (Spells []) none_ nothing_left)
  roots_loop-Spells (suc rounds) [] roots h =
      let none_ : [] ≡ roots = cc in subst (Spells []) none_ nothing_left
  roots_loop-Spells (suc rounds) (c ∷ s) roots h =
      elim (Result-cases (next_root decoders now (c ∷ s))) [
        | inr (e, bad) ↦ absurd (ground arith)
        | inl ((root, rest), first) ↦ elim (Result-cases (roots_loop decoders now rounds rest)) [
          | inr (e, bad) ↦ absurd (ground arith)
          | inl ((more, left), later) ↦
              let same : root ∷ more ≡ roots = ground arith in
              let done : left ≡ [] = ground arith in
              subst (Spells (c ∷ s)) same (
                next_root-Spells (c ∷ s) root rest more first
                  (roots_loop-Spells rounds rest more (later ∙ ap (λ l. ok (more, l)) done)))
        ]
      ]

  pub roots-Spells :
      (content : Bytes) (roots : List Certificate)
      → database_ca_roots decoders now content ≡ ok roots
      → Spells (decoders.trim_space content) roots
  unfolding database_ca_roots
  roots-Spells content roots h =
      elim (Result-cases (roots_loop decoders now 2 (decoders.trim_space content))) [
        | inr (e, bad) ↦ absurd (ground arith)
        | inl ((found, left), looped) ↦
            let same : found ≡ roots = ground arith in
            let short : length left ≡ 0 = ground arith in
            let done = empty left short in
            subst (Spells (decoders.trim_space content)) same (
              roots_loop-Spells 2 (decoders.trim_space content) found
                (looped ∙ ap (λ l. ok (found, l)) done))
      ]
    where
      empty : (s : Bytes) → length s ≡ 0 → s ≡ []
      empty [] h = refl
      empty (c ∷ s) h = absurd (omega arith)
