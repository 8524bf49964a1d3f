-- ===== src/Server/Modules.antt =====
-- internal/server/connect.go: `CreateModule`, `ListModules` and `ListModuleVersions`.
pub mod Create
pub mod Groups
pub mod Majors
pub mod Listing
use perseus.Prelude.{
  ℕ, Text, codes, Bool, true, false, not, ◌&&◌, Option, none, some, List, [], ◌∷◌, ◌++◌, ◌==◌, leb,
  if◌then◌else◌, Result, ok, err, check, is_nil, is_empty, text_eq, cut_prefix,
}
use perseus.Prelude.Int.{ℤ, pos}
use perseus.Store.Session.{ModuleRow}
use perseus.Store.Query.{ModuleVersion, ModuleVersionQuery}
use perseus.Server.Messages.{
  Module, VersionOption, option_none, option_latest, option_all, option_other, ListModulesRequest,
  ModulesResponse, ListModuleVersionsRequest, ConnectError, name_required, invalid_name,
  invalid_version, filter_required, option_is_none, paging_latest, database_failed,
}
use perseus.Server.Backend.{Store, Handler, ◌>>=◌, ◌>>◌, answer, reply, call}

-- [0-9]
abbrev pub is_digit : ℕ → Bool
is_digit c = leb b'0' c && leb c b'9'

abbrev pub all_digits : Text → Bool
all_digits [] = true
all_digits (c ∷ s) = is_digit c && all_digits s

-- [2-9]|[1-9][0-9]+
unfoldable pub is_major : Text → Bool
is_major [] = false
is_major (c ∷ []) = leb b'2' c && leb c b'9'
is_major (c ∷ d ∷ s) = leb b'1' c && leb c b'9' && all_digits (d ∷ s)

-- /v(...)$
unfoldable pub major_suffix : Text → Option Text
unfolding is_major
major_suffix s = elim (cut_prefix s (codes "/v")) [
  | none ↦ none
  | some d ↦ if is_major d then some d else none
]

-- .+ before it: some character that is no newline.
unfoldable pub match_major : Text → Option Text
unfolding major_suffix
match_major [] = none
match_major (c ∷ s) = elim (if c == 10 then none else major_suffix s) [
  | some d ↦ some d
  | none ↦ match_major s
]

-- The version that stands in for a module without versions.
unfoldable pub default_version : Text → Text
unfolding match_major
default_version name = elim (match_major name) [
  | none ↦ codes "v0.0.0"
  | some d ↦ b'v' ∷ (d ++ codes ".0.0")
]

module _ (valid : Text → Text → Bool) where
  unfoldable pub check_versions : Text → List Text → Result ConnectError (Unit {0})
  check_versions name [] = ok tt
  check_versions name (v ∷ versions) =
      if valid name v then check_versions name versions else err invalid_version

  unfoldable pub check_module : Module → Result ConnectError (Unit {0})
  unfolding check_versions default_version
  check_module m =
      if is_nil m.versions
      then check (valid m.name (default_version m.name)) invalid_name
      else check_versions m.name m.versions

module _ {S : Type 0} (store : Store S) where
  unfoldable pub create_module : (Text → Text → Bool) → Module → Handler S Module
  unfolding check_module
  create_module valid m = do
    reply (check (not (is_empty m.name)) name_required)
    reply (check_module valid m)
    call (store.save_module m.name [] m.versions) database_failed
    answer m

  -- The query for the latest version of one module.
  abbrev pub latest_query : Text → Bool → ModuleVersionQuery
  latest_query name prerelease = record {
    module_filter = name;
    version_filter = [];
    include_prerelease = prerelease;
    latest_only = true;
    page_token = [];
    count = pos 0;
  }

  abbrev pub query_latest : Text → Bool → Handler S (List ModuleVersion × Text)
  query_latest name prerelease =
      call (store.query_module_versions (latest_query name prerelease)) database_failed

  -- The latest stable version, or else the latest pre-release.
  unfoldable pub latest_versions : Text → Handler S (List ModuleVersion)
  latest_versions name = query_latest name false >>= λ (stable, _).
      if is_nil stable
      then (query_latest name true >>= λ (versions, _). answer versions)
      else answer stable

  abbrev pub with_latest : Text → List ModuleVersion → Module
  with_latest name [] = record { name = name; versions = [] }
  with_latest name (v ∷ _) = record { name = name; versions = (b'v' ∷ v.version) ∷ [] }

  unfoldable pub list_latest : List ModuleRow → Handler S (List Module)
  unfolding latest_versions
  list_latest [] = answer []
  list_latest (m ∷ mods) = do
    versions ← latest_versions m.name
    rest ← list_latest mods
    answer (with_latest m.name versions ∷ rest)

  unfoldable pub list_modules : ListModulesRequest → Handler S ModulesResponse
  unfolding list_latest
  list_modules req =
      call (store.query_modules req.filter req.page_token req.page_size) database_failed
      >>= λ (mods, token). list_latest mods >>= λ modules.
          answer (record { modules = modules; next_page_token = token })

-- The loop of `ListModuleVersions`: `currMod` is the last module of the response.
unfoldable pub add_version : List Module → ModuleVersion → List Module
add_version [] v = record { name = v.name; versions = (b'v' ∷ v.version) ∷ [] } ∷ []
add_version (m ∷ []) v =
    if text_eq m.name v.name
    then record m { versions = m.versions ++ (b'v' ∷ v.version) ∷ [] } ∷ []
    else m ∷ record { name = v.name; versions = (b'v' ∷ v.version) ∷ [] } ∷ []
add_version (m ∷ n ∷ modules) v = m ∷ add_version (n ∷ modules) v

unfoldable pub group_versions : List Module → List ModuleVersion → List Module
unfolding add_version
group_versions modules [] = modules
group_versions modules (v ∷ versions) = group_versions (add_version modules v) versions

-- The tests of the version option.
abbrev pub check_option : VersionOption → Text → Result ConnectError (Unit {0})
check_option option_none token = err option_is_none
check_option option_latest token = check (is_empty token) paging_latest
check_option option_all token = ok tt
check_option (option_other n) token = ok tt

abbrev pub is_latest : VersionOption → Bool
is_latest option_latest = true
is_latest _ = false

-- The module name, or else the filter.
abbrev pub module_pattern : ListModuleVersionsRequest → Text
module_pattern req = if is_empty req.module_name then req.module_filter else req.module_name

abbrev pub versions_query : ListModuleVersionsRequest → ModuleVersionQuery
versions_query req = record {
  module_filter = module_pattern req;
  version_filter = req.version_filter;
  include_prerelease = req.include_prerelease;
  latest_only = is_latest req.version_option;
  page_token = req.page_token;
  count = req.page_size;
}

unfoldable pub list_module_versions :
    {S : Type 0} → Store S → ListModuleVersionsRequest → Handler S ModulesResponse
unfolding group_versions
list_module_versions store req = do
  reply (check (not (is_empty (module_pattern req))) filter_required)
  reply (check_option req.version_option req.page_token)
  (versions, token) ← call (store.query_module_versions (versions_query req)) database_failed
  answer (record { modules = group_versions [] versions; next_page_token = token })
