-- ===== src/Client/Update.antt =====
-- update.go: the command that reads the dependencies of a module and sends them to the server. Git,
-- the file system, and the module proxy stand behind the parameter `Sources`.
pub mod Served
pub mod Releases
pub mod Proxies
mod Samples
use perseus.Prelude.{
  ◌≡◌, refl, ◌⊎◌, inl, inr, Text, codes, Option, none, some, Bool, true, false, not, ◌&&◌, List, [],
  ◌∷◌, map, if◌then◌else◌, Result, ok, err, check, ◌>>=◌, is_empty,
}
use perseus.Server.Messages.{Module, UpdateDependenciesRequest}
use perseus.Modproxy.{clean, path_join}
use perseus.Client.Retry.{RpcError, Op, retry_op}
use perseus.Client.Args.{ModuleVersion, xor}

-- modfile.Require and modfile.File, as far as the program reads them
pub record Requirement : Type 0 where
  pub mod_version : ModuleVersion
  pub indirect : Bool

-- A go.mod file without a module directive has no path.
pub record ModFile : Type 0 where
  pub mod_path : Option Text
  pub requires : List Requirement

-- The struct `moduleInfo`.
pub record ModuleInfo : Type 0 where
  pub name : Text
  pub version : Text
  pub deps : List ModuleVersion

pub data UpdateError : Type 0 where
  address_missing source_missing two_sources no_tags many_tags version_missing : UpdateError
  invalid_path invalid_version_arg : UpdateError
  source_failed : UpdateError
  nil_module : UpdateError  -- a panic
  update_failed : RpcError → UpdateError

-- What the command reads from outside. `stat` tells whether a path is a folder, and `read_file` gives
-- what was read of a file, both where they do not fail; parse_lax is modfile.ParseLax, and prerelease
-- is semver.Prerelease.
pub record Sources : Type 0 where
  pub version_tags : Text → Result UpdateError (List Text)
  pub stat : Text → Option Bool
  pub read_file : Text → Option Text
  pub parse_lax : Text → Option ModFile
  pub current_version : Text → Bool → Result UpdateError Text
  pub mod_file_at : Text → Text → Result UpdateError ModFile
  pub prerelease : Text → Text

abbrev pub zero_info : ModuleInfo
zero_info = record { name = []; version = []; deps = [] }

unfoldable pub direct : List Requirement → List ModuleVersion
direct [] = []
direct (r ∷ requires) = if r.indirect then direct requires else r.mod_version ∷ direct requires

-- fromModFile, which reads mf.Module, and panics where that is nil
abbrev pub from_mod_file : ModFile → Text → Result UpdateError ModuleInfo
from_mod_file mf v = elim mf.mod_path [
  | none ↦ err nil_module
  | some name ↦ ok (record { name = name; version = v; deps = direct mf.requires })
]

-- The only tag of the commit
abbrev pub one_tag : List Text → Result UpdateError Text
one_tag [] = err no_tags
one_tag (t ∷ []) = ok t
one_tag (t ∷ u ∷ tags) = err many_tags

-- versionArg.Set
unfoldable pub set_version : (Text → Bool) → Text → Result UpdateError Text
set_version is_semver s = if not (is_semver s) then err invalid_version_arg else ok s

unfoldable pub parse_module_dir : Sources → Text → Result UpdateError ModuleInfo
unfolding direct path_join
parse_module_dir sources p = elim (sources.stat p) [
  | none ↦ err invalid_path
  | some is_dir ↦
      if not is_dir
      then err invalid_path
      else elim (sources.read_file (path_join (p ∷ codes "go.mod" ∷ []))) [
        | none ↦ err source_failed
        | some contents ↦ elim (sources.parse_lax contents) [
          | none ↦ err source_failed
          | some mf ↦ from_mod_file mf []
        ]
      ]
]

module _ (sources : Sources) (include_prerelease : Bool) where
  abbrev pub is_skipped : Text → Bool
  is_skipped v = not include_prerelease && not (is_empty (sources.prerelease v))

  -- The version of the command line, or else the tag of the commit.
  abbrev pub version_in : Text → Text → Result UpdateError Text
  version_in version dir =
      if is_empty version then (sources.version_tags dir >>= one_tag) else ok version

  abbrev pub info_in : Text → Text → Result UpdateError ModuleInfo
  info_in dir v =
      if is_skipped v
      then ok zero_info
      else (parse_module_dir sources dir >>= λ info. ok (record info { version = v }))

  unfoldable pub get_module_info_from_dir : Text → Text → Result UpdateError ModuleInfo
  unfolding parse_module_dir clean
  get_module_info_from_dir version dir = version_in version (clean dir) >>= info_in (clean dir)

  abbrev pub version_at : Text → Text → Result UpdateError Text
  version_at version mod_path =
      if is_empty version then sources.current_version mod_path include_prerelease else ok version

  unfoldable pub parse_module_path : Text → Text → Result UpdateError ModuleInfo
  unfolding direct
  parse_module_path mod_path v =
      if is_empty v
      then err version_missing
      else (sources.mod_file_at mod_path v >>= λ mf. from_mod_file mf v)

  abbrev pub info_at : Text → Text → Result UpdateError ModuleInfo
  info_at mod_path v = if is_skipped v then ok zero_info else parse_module_path mod_path v

  unfoldable pub get_module_info_from_proxy : Text → Text → Result UpdateError ModuleInfo
  unfolding parse_module_path
  get_module_info_from_proxy version mod_path = version_at version mod_path >>= info_at mod_path

  -- The switch on the flags --path and --module, after they have been checked.
  unfoldable pub read_module_info : Text → Text → Text → Result UpdateError ModuleInfo
  unfolding get_module_info_from_dir get_module_info_from_proxy xor
  read_module_info version file_path mod_path =
      if is_empty file_path && is_empty mod_path
      then err source_missing
      else (if not (xor (not (is_empty file_path) ∷ not (is_empty mod_path) ∷ []))
          then err two_sources
          else (if is_empty file_path
              then get_module_info_from_proxy version mod_path
              else get_module_info_from_dir version file_path))

abbrev pub dependency_message : ModuleVersion → Module
dependency_message d = record { name = d.path; versions = d.version ∷ [] }

abbrev pub update_request : ModuleInfo → UpdateDependenciesRequest
update_request info = record {
  module_name = info.name;
  version = info.version;
  dependencies = map dependency_message info.deps;
}

module _ {S : Type 0} (update : UpdateDependenciesRequest → Op S (Unit {0})) where
  unfoldable pub apply_updates : ModuleInfo → S → Result UpdateError (Unit {0}) × S
  unfolding retry_op
  apply_updates info s =
      let (r, s') = retry_op (update (update_request info)) s in
      elim r [ err e ↦ (err (update_failed e), s') | ok _ ↦ (ok tt, s') ]

  -- An empty name is that of a skipped version.
  abbrev pub apply_info : Result UpdateError ModuleInfo → S → Result UpdateError (Unit {0}) × S
  apply_info (err e) s = (err e, s)
  apply_info (ok info) s = if is_empty info.name then (ok tt, s) else apply_updates info s

  unfoldable pub run_update :
      Sources → Bool → Text → Text → Text → Text → S → Result UpdateError (Unit {0}) × S
  unfolding read_module_info apply_updates
  run_update sources include_prerelease server_addr version file_path mod_path s =
      if is_empty server_addr
      then (err address_missing, s)
      else apply_info (read_module_info sources include_prerelease version file_path mod_path) s
