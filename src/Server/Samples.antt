-- ===== src/Server/Samples.antt =====
-- Each theorem of the handlers at an input that meets its hypotheses.
use perseus.Prelude.{
  ◌⊎◌, ℕ, ◌≡◌, refl, Text, codes, Bool, true, false, not, ◌&&◌, ◌||◌, [], ◌∷◌, map, ok, is_empty,
  ◌==◌, arith, trim_prefix, text_eq,
}
use perseus.Store.Session.{Session}
use perseus.Store.Valid.{IsValid}
use perseus.Store.Write.{save_module_dependencies}
use perseus.Store.Graph.{Node, depends}
use perseus.Store.Write.Dependencies.{is_target}
use perseus.Store.Write.Saved.{GraphSaved}
use perseus.Store.Query.{dependees, dependents}
use perseus.Store.Query.Edges.{edge_of}
use perseus.Store.Samples.{plain, plain-laws, list_codec, list_codec-laws, stored, stored-IsValid}
use perseus.Server.Messages.{
  internal, invalid_argument, Module, UpdateDependenciesRequest, ModulesResponse, code,
}
use perseus.Server.Backend.{postgres_client}
use perseus.Server.Outcomes.{Answers}
use perseus.Server.Modules.{is_digit, is_major, default_version, create_module}
use perseus.Store.Write.Saving.{ModuleSaved}
use perseus.Server.Modules.Create.{Acceptable, create_module-refines}
use perseus.Server.Modules.Majors.{default_version-major}
use perseus.Server.Dependencies.{store_version, update_dependencies, query_dependencies}
use perseus.Server.Dependencies.Update.{CheckLaws, dependency_of, update_dependencies-refines}
use perseus.Server.Dependencies.Queries.{
  lists, query_all, query_dependencies-edges, query_dependencies-update_dependencies,
}

-- A check that wants a path, and a version that starts with a v and a digit.
abbrev pub starts_version : Text → Bool
starts_version [] = false
starts_version (c ∷ []) = false
starts_version (c ∷ d ∷ w) = (c == b'v') && is_digit d

abbrev pub simple_check : Text → Text → Bool
simple_check name v = not (is_empty name) && starts_version v

pub simple_check-laws : CheckLaws simple_check
simple_check-laws = record {
  path_nonempty = λ p v h. ground arith;
  canonical = λ p v h. canonical p v h;
}
  where
    canonical :
        (p v : Text)
        → simple_check p v ≡ true
        → (c : ℕ) × (w : Text) × (v ≡ (b'v' ∷ c ∷ w)) × (is_digit c ≡ true)
    canonical p [] h = ground arith
    canonical p (x ∷ []) h = ground arith
    canonical p (x ∷ c ∷ w) h = (c, w, ground arith, ground arith)

abbrev update_request : UpdateDependenciesRequest
update_request = record {
  module_name = codes "a";
  version = codes "v1.0";
  dependencies = record { name = codes "c"; versions = codes "v3.0" ∷ [] } ∷ [];
}

update_dependencies-refines_example :
    Answers
      (λ _ s'.
        IsValid plain s'
        × GraphSaved plain
            (store_version (codes "a") (codes "v1.0"))
            (map dependency_of update_request.dependencies)
            stored.tables
            s'.tables)
      (λ e s'.
        IsValid plain s' × (s'.tables ≡ stored.tables) × ((code e ≡ internal) ⊎ (s' ≡ stored)))
      (update_dependencies (postgres_client plain list_codec) simple_check update_request stored)
update_dependencies-refines_example =
    update_dependencies-refines plain plain-laws list_codec simple_check simple_check-laws
      update_request stored stored-IsValid

query_dependencies-edges_example :
    (response : ModulesResponse) × (query_dependencies
        (postgres_client plain list_codec)
        simple_check
        (query_all (codes "b") (codes "v2.0") dependents)
        stored
      ≡ (ok response, stored))
    × ((b : Node)
        → lists plain b response.modules
          ≡ edge_of dependents plain stored.tables (codes "b", codes "2.0") b)
unfolding trim_prefix
query_dependencies-edges_example =
    query_dependencies-edges plain plain-laws list_codec list_codec-laws simple_check
      simple_check-laws (codes "b") (codes "v2.0") (codes "2.0") dependents stored stored-IsValid
      refl refl refl

-- The database after the request.
abbrev updated : Session
updated =
    (update_dependencies (postgres_client plain list_codec) simple_check update_request stored).1

query_dependencies-update_dependencies_example :
    (response : ModulesResponse) × (query_dependencies
        (postgres_client plain list_codec)
        simple_check
        (query_all (codes "a") (codes "v1.0") dependees)
        updated
      ≡ (ok response, updated))
    × ((b : Node)
        → lists plain b response.modules ≡ (
            is_target plain (map dependency_of update_request.dependencies) b
            || depends plain stored.tables (codes "a", codes "1.0") b))
unfolding update_dependencies trim_prefix text_eq save_module_dependencies
query_dependencies-update_dependencies_example =
    query_dependencies-update_dependencies plain plain-laws list_codec list_codec-laws simple_check
      simple_check-laws update_request (codes "1.0") stored updated stored-IsValid refl refl refl

abbrev new_module : Module
new_module = record { name = codes "d"; versions = codes "v1.0" ∷ codes "1" ∷ [] }

create_module-refines_example :
    Answers
      (λ n s'.
        (n ≡ new_module)
        × Acceptable simple_check new_module
        × IsValid plain s'
        × ModuleSaved plain (codes "d") new_module.versions stored.tables s'.tables)
      (λ e s'.
        IsValid plain s'
        × (((code e ≡ internal) × Acceptable simple_check new_module × (s'.tables ≡ stored.tables))
            ⊎ ((code e ≡ invalid_argument)
                × (Acceptable simple_check new_module → ⊥)
                × (s' ≡ stored))))
      (create_module (postgres_client plain list_codec) simple_check new_module stored)
create_module-refines_example =
    create_module-refines plain plain-laws list_codec simple_check new_module stored stored-IsValid

default_version-major_example : default_version (codes "a.b/v3/c/v12") ≡ codes "v12.0.0"
unfolding is_major
default_version-major_example = default_version-major (codes "a.b/v3/") b'c' (codes "12") refl refl
