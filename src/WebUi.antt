-- ===== src/WebUi.antt =====
-- internal/webui/site.go: the compiled dashboard's files. The rooted directory and `fs.ValidPath`
-- are parameters.
pub mod Names
use p3_relay.Prelude.{
  ℕ, Bool, true, false, ◌&&◌, ◌||◌, not, Option, none, some, [], ◌∷◌, Bytes, codes, bytes_eq,
  has_prefix, length, drop, ◌==◌, if◌then◌else◌,
}
use p3_relay.Errors.{Result, ok, err, failed}
use p3_relay.Identifier.{valid_uuid}

-- `strings.TrimPrefix`.
abbrev pub trim_prefix : Bytes → Bytes → Bytes
trim_prefix s prefix = if has_prefix s prefix then drop (length prefix) s else s

-- `strings.Contains` of one character.
unfoldable pub has_character : ℕ → Bytes → Bool
has_character character [] = false
has_character character (c ∷ s) = c == character || has_character character s

abbrev pub index : Bytes
index = codes "index.html"

abbrev pub assets : Bytes
assets = codes "assets/"

abbrev pub is_page : Bytes → Bool
is_page path =
    bytes_eq path (codes "/")
    || (bytes_eq path (codes "/events") || bytes_eq path (codes "/endpoint"))

-- A name in the flat directory of assets.
abbrev pub asset_name : Bytes → Option Bytes
asset_name name =
    let basename = trim_prefix name assets in
    if length basename == 0 || (has_character b'/' basename || has_prefix basename (codes "."))
    then none
    else some name

-- What the directory holds under a name: nothing that opens, or something, regular or not.
pub record Site : Type 0 where
  pub valid_path : Bytes → Bool
  pub regular : Bytes → Option Bool

-- `Open`: `none` is a directory that does not open.
unfoldable pub open_site : Option Site → Result Site
open_site none = err (failed "web directory unavailable")
open_site (some site) = elim (site.regular index) [
  | some true ↦ ok site
  | other ↦ err (failed "web index unavailable")
]

-- `none` is the empty name.
unfoldable pub site_filename : Site → Bytes → Option Bytes
site_filename site path =
    if is_page path
    then some index
    else if has_prefix path (codes "/events/")
    then (if valid_uuid (trim_prefix path (codes "/events/")) then some index else none)
    else if not (has_prefix (trim_prefix path (codes "/")) assets)
        || not (site.valid_path (trim_prefix path (codes "/")))
    then none
    else asset_name (trim_prefix path (codes "/"))

-- A file is served with `no-store` and the content policy, or as immutable.
pub data Answer : Type 0 where
  method_not_allowed not_found : Answer
  content : Bytes → Bool → Answer

abbrev pub opened : Bytes → Option Bool → Answer
opened filename (some true) = content filename (bytes_eq filename index)
opened filename _ = not_found

abbrev pub named : Site → Option Bytes → Answer
named site none = not_found
named site (some filename) = opened filename (site.regular filename)

-- `ServeHTTP`.
unfoldable pub serve : Site → Bytes → Bytes → Answer
serve site method path =
    if bytes_eq method (codes "GET") || bytes_eq method (codes "HEAD")
    then named site (site_filename site path)
    else method_not_allowed
