-- ===== src/Server/Dependencies.antt =====
-- internal/server/connect.go: `UpdateDependencies` and `QueryDependencies`.
pub mod Update
pub mod Queries
use perseus.Prelude.{
  Text, codes, Bool, List, [], ◌∷◌, map, if◌then◌else◌, Result, ok, err, check, trim_prefix,
}
use perseus.Store.Write.{Version}
use perseus.Server.Messages.{
  Module, Direction, dependencies, dependents, direction_other, UpdateDependenciesRequest,
  QueryDependenciesRequest, ModulesResponse, ConnectError, one_version_required, invalid_module,
  database_failed,
}
use perseus.Server.Backend.{Store, Handler, ◌>>=◌, ◌>>◌, answer, reply, call}

-- store.Version{ModuleID: name, SemVer: strings.TrimPrefix(version, "v")}
abbrev pub store_version : Text → Text → Version
store_version name version = record {
  id = 0;
  module_id = name;
  sem_ver = trim_prefix version (codes "v");
}

-- One dependency of the request: it has exactly one version.
unfoldable pub read_dependency :
    (Text → Text → Bool) → Text → List Text → Result ConnectError Version
read_dependency valid name [] = err one_version_required
read_dependency valid name (v ∷ []) =
    if valid name v then ok (store_version name v) else err invalid_module
read_dependency valid name (v ∷ w ∷ versions) = err one_version_required

unfoldable pub read_dependencies :
    (Text → Text → Bool) → List Module → Result ConnectError (List Version)
unfolding read_dependency
read_dependencies valid [] = ok []
read_dependencies valid (m ∷ modules) = elim (read_dependency valid m.name m.versions) [
  | err e ↦ err e
  | ok d ↦ elim (read_dependencies valid modules) [ err e ↦ err e | ok deps ↦ ok (d ∷ deps) ]
]

-- The module of a response for a version of the store.
abbrev pub with_version : Version → Module
with_version d = record { name = d.module_id; versions = (b'v' ∷ d.sem_ver) ∷ [] }

module _ {S : Type 0} (store : Store S) (valid : Text → Text → Bool) where
  unfoldable pub update_dependencies : UpdateDependenciesRequest → Handler S (Unit {0})
  unfolding read_dependencies
  update_dependencies req = do
    reply (check (valid req.module_name req.version) invalid_module)
    deps ← reply (read_dependencies valid req.dependencies)
    call (store.save_module_dependencies (store_version req.module_name req.version) deps)
        database_failed

  -- The switch on the direction; a number without a name leaves the result empty.
  unfoldable pub query_direction :
      QueryDependenciesRequest → Direction → Handler S (List Version × Text)
  query_direction req dependencies =
      call
        (store.get_dependees req.module_name (trim_prefix req.version (codes "v")) req.page_token
          req.page_size)
        database_failed
  query_direction req dependents =
      call
        (store.get_dependents req.module_name (trim_prefix req.version (codes "v")) req.page_token
          req.page_size)
        database_failed
  query_direction req (direction_other n) = answer ([], [])

  unfoldable pub query_dependencies : QueryDependenciesRequest → Handler S ModulesResponse
  unfolding query_direction
  query_dependencies req = do
    reply (check (valid req.module_name req.version) invalid_module)
    (deps, token) ← query_direction req req.direction
    answer (record { modules = map with_version deps; next_page_token = token })
