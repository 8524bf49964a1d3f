-- ===== src/Server/Rpc/Service.antt =====
-- The service that runServer hands to NewPerseusServiceHandler: which handler of
-- internal/server/connect.go serves which procedure. What connect.NewUnaryHandler makes of one of
-- them is a parameter.
use perseus.Prelude.{Text, Bool}
use perseus.Server.Messages.{
  Module, ListModulesRequest, ListModuleVersionsRequest, UpdateDependenciesRequest,
  QueryDependenciesRequest, ModulesResponse,
}
use perseus.Server.Backend.{Store, Handler}
use perseus.Server.Modules
use perseus.Server.Dependencies
use perseus.Server.Rpc.{
  Procedure, create_module, list_modules, list_module_versions, update_dependencies,
  query_dependencies,
}

-- The interface PerseusServiceHandler: the messages of each procedure
abbrev pub Request : Procedure → Type 0
Request create_module = Module
Request list_modules = ListModulesRequest
Request list_module_versions = ListModuleVersionsRequest
Request update_dependencies = UpdateDependenciesRequest
Request query_dependencies = QueryDependenciesRequest

abbrev pub Answer : Procedure → Type 0
Answer create_module = Module
Answer update_dependencies = Unit {0}
Answer p = ModulesResponse

-- connectServer, with the check of module.Check
unfoldable pub connect_server :
    {S : Type 0}
    → Store S
    → (Text → Text → Bool)
    → (p : Procedure) → Request p
    → Handler S (Answer p)
connect_server store valid create_module req = Modules.create_module store valid req
connect_server store valid list_modules req = Modules.list_modules store req
connect_server store valid list_module_versions req = Modules.list_module_versions store req
connect_server store valid update_dependencies req =
    Dependencies.update_dependencies store valid req
connect_server store valid query_dependencies req = Dependencies.query_dependencies store valid req
