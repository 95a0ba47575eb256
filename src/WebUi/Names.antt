-- ===== src/WebUi/Names.antt =====
-- internal/webui/site.go: the names of the files that are served.
use p3_relay.Prelude.{
  ◌≤◌, ◌≡◌, refl, ◌⊎◌, inl, inr, Bool, true, false, Option, none, some, Bytes, bytes_eq, codes,
  length, arith, has_prefix, drop, Bool-cases, subst, sym, ap, ◌∙◌, bytes_eq→eq, ◌==◌, ◌||◌,
}
use p3_relay.WebUi.{
  Site, content, index, assets, trim_prefix, has_character, asset_name, named, opened,
  site_filename, serve, is_page,
}

-- A file of the flat directory of assets, whose own name is not empty, has no slash and does not
-- begin with a dot.
pub record IsAsset (name : Bytes) : Type 0 where
  pub inside : has_prefix name assets ≡ true
  pub full : 1 ≤ length (drop 7 name)
  pub flat : has_character b'/' (drop 7 name) ≡ false
  pub visible : has_prefix (drop 7 name) (codes ".") ≡ false

abbrev refused : Bytes → Bool
refused basename =
    length basename == 0 || (has_character b'/' basename || has_prefix basename (codes "."))

asset_name-IsAsset :
    (name found : Bytes)
    → has_prefix name assets ≡ true
    → asset_name name ≡ some found
    → (name ≡ found) × IsAsset name
asset_name-IsAsset name found inside h = elim (Bool-cases (refused (drop 7 name))) [
  | inl bad ↦ absurd (ground arith)
  | inr good ↦ (
    ground arith,
    record { inside = inside; full = ground arith; flat = ground arith; visible = ground arith },
  )
]

filename-exact :
    (site : Site) (path found : Bytes)
    → site_filename site path ≡ some found
    → (found ≡ index) ⊎ IsAsset found
unfolding site_filename
filename-exact site path found h = elim (Bool-cases (is_page path)) [
  | inl page ↦ inl (ground arith)
  | inr other ↦ elim (Bool-cases (has_prefix path (codes "/events/"))) [
    | inl event ↦ inl (ground arith)
    | inr plain ↦
        let name = trim_prefix path (codes "/") in
        elim (Bool-cases (has_prefix name assets)) [
          | inr outside ↦ absurd (ground arith)
          | inl inside ↦
              let (same, good) = asset_name-IsAsset name found inside (ground arith) in
              inr (subst IsAsset same good)
        ]
  ]
]

named-exact :
    (site : Site) (choice : Option Bytes) (found : Bytes) (fresh : Bool)
    → named site choice ≡ content found fresh
    → (choice ≡ some found) × (site.regular found ≡ some true) × (fresh ≡ bytes_eq found index)
named-exact site none found fresh h = cc
named-exact site (some filename) found fresh h = go (site.regular filename) refl h
  where
    go :
        (kind : Option Bool)
        → site.regular filename ≡ kind
        → opened filename kind ≡ content found fresh
        → (some filename ≡ some found)
          × (site.regular found ≡ some true)
          × (fresh ≡ bytes_eq found index)
    go none e h = cc
    go (some false) e h = cc
    go (some true) e h =
        let same : filename ≡ found = cc in
        let kept : bytes_eq filename index ≡ fresh = cc in
        (ap some same, ap site.regular (sym same) ∙ e, sym kept ∙ ap (λ f. bytes_eq f index) same)

-- Only the index and the files of the flat directory of assets are served, and only regular ones,
-- to GET and HEAD; the index alone is never cached.
pub serve-exact :
    (site : Site) (method path found : Bytes) (fresh : Bool)
    → serve site method path ≡ content found fresh
    → ((found ≡ index) ⊎ IsAsset found)
      × (site.regular found ≡ some true)
      × (fresh ≡ bytes_eq found index)
      × ((method ≡ codes "GET") ⊎ (method ≡ codes "HEAD"))
unfolding serve
serve-exact site method path found fresh h =
    elim (Bool-cases (bytes_eq method (codes "GET") || bytes_eq method (codes "HEAD"))) [
      | inr other ↦ absurd (ground arith)
      | inl reads ↦
          let (named_, kind, cached) =
            named-exact site (site_filename site path) found fresh (ground arith) in
          (
            filename-exact site path found named_,
            kind,
            cached,
            ground (arith, bytes_eq→eq method (codes "GET"), bytes_eq→eq method (codes "HEAD")),
          )
    ]
