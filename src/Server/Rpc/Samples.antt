-- ===== src/Server/Rpc/Samples.antt =====
-- The routes for a handler that is written as a number.
use perseus.Prelude.{◌≡◌, refl, text_eq, has_prefix, ℕ, refl, codes, ◌++◌}
use perseus.Server.Rpc.{
  Procedure, create_module, list_modules, list_module_versions, update_dependencies,
  query_dependencies, service_path, Handlers, http_handler, service_handler, serve_mux,
  match_or_redirect, clean_path, procedure_path, longest,
}
use perseus.Modproxy.{clean}
use perseus.Server.Rpc.Routes.{Served, service_handler-Served}

abbrev number : Procedure → ℕ
number create_module = 1
number list_modules = 2
number list_module_versions = 3
number update_dependencies = 4
number query_dependencies = 5

abbrev pub numbered : Handlers ℕ
numbered = record {
  procedure = number;
  transcode = λ ch path. ch path;
  endpoint = λ e. 200;
  redirect = λ target. 301;
  not_found = 404;
}

service_handler-Served_example :
    ((p : Procedure) → service_handler number 404 (procedure_path p) ≡ number p)
    × Served number 404
        (service_path ++ codes "ListModule")
        (service_handler number 404 (service_path ++ codes "ListModule"))
service_handler-Served_example =
    service_handler-Served number 404 (service_path ++ codes "ListModule")

-- The procedures behind the mux, and paths that are not clean.
paths_run :
    (http_handler numbered (codes "/crowdstrike.perseus.perseusapi.PerseusService/ListModules") ≡ 2)
    × (http_handler numbered (codes "/ui") ≡ 301)
    × (http_handler numbered (codes "/ui//x/../") ≡ 301)
    × (http_handler numbered (codes "/healthz") ≡ 200)
unfolding http_handler serve_mux match_or_redirect clean_path service_handler procedure_path text_eq
    has_prefix longest clean
paths_run = (refl, refl, refl, refl)
