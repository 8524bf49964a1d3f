-- ===== src/Server/Rpc.antt =====
-- perseusapi/perseusapiconnect/perseus.connect.go: the paths of the procedures and the handler of
-- the service; and the mux of runServer in internal/server/server.go, with ServeMux of net/http. The
-- handlers of one procedure, Vanguard's transcoder and the other handlers
-- of the mux are parameters.
pub mod Routes
pub mod Service
pub mod Samples
use perseus.Prelude.{
  Text, codes, Bool, true, false, not, ◌&&◌, Option, none, some, List, [], ◌∷◌, ◌++◌, length, any,
  if◌then◌else◌, ltb, ◌==◌, text_eq, has_prefix,
}
use perseus.Modproxy.{clean}

pub data Procedure : Type 0 where
  create_module list_modules list_module_versions update_dependencies query_dependencies : Procedure

-- The path that NewPerseusServiceHandler returns
abbrev pub service_path : Text
service_path = codes "/crowdstrike.perseus.perseusapi.PerseusService/"

-- The constants that end in Procedure
unfoldable pub procedure_path : Procedure → Text
procedure_path create_module = codes "/crowdstrike.perseus.perseusapi.PerseusService/CreateModule"
procedure_path list_modules = codes "/crowdstrike.perseus.perseusapi.PerseusService/ListModules"
procedure_path list_module_versions =
    codes "/crowdstrike.perseus.perseusapi.PerseusService/ListModuleVersions"
procedure_path update_dependencies =
    codes "/crowdstrike.perseus.perseusapi.PerseusService/UpdateDependencies"
procedure_path query_dependencies =
    codes "/crowdstrike.perseus.perseusapi.PerseusService/QueryDependencies"

-- The handler that NewPerseusServiceHandler returns
unfoldable pub service_handler : {H : Type 0} → (Procedure → H) → H → Text → H
unfolding procedure_path
service_handler handlers not_found path =
    if text_eq path (procedure_path create_module)
    then handlers create_module
    else if text_eq path (procedure_path list_modules)
    then handlers list_modules
    else if text_eq path (procedure_path list_module_versions)
    then handlers list_module_versions
    else if text_eq path (procedure_path update_dependencies)
    then handlers update_dependencies
    else if text_eq path (procedure_path query_dependencies)
    then handlers query_dependencies
    else not_found

-- What the mux leads to.
pub data Endpoint : Type 0 where
  transcoder ux healthz metrics : Endpoint
  pprof_index pprof_cmdline pprof_profile pprof_symbol pprof_trace : Endpoint

abbrev pub Route : Type 0
Route = Text × Endpoint

-- The calls of mux.Handle and mux.HandleFunc
abbrev pub routes : List Route
routes =
    (codes "/", transcoder)
    ∷ (codes "/ui/", ux)
    ∷ (codes "/healthz", healthz)
    ∷ (codes "/metrics", metrics)
    ∷ (codes "/debug/pprof/", pprof_index)
    ∷ (codes "/debug/pprof/cmdline", pprof_cmdline)
    ∷ (codes "/debug/pprof/profile", pprof_profile)
    ∷ (codes "/debug/pprof/symbol", pprof_symbol)
    ∷ (codes "/debug/pprof/trace", pprof_trace)
    ∷ []

abbrev pub ends_in_slash : Text → Bool
ends_in_slash [] = false
ends_in_slash (c ∷ []) = c == b'/'
ends_in_slash (c ∷ d ∷ s) = ends_in_slash (d ∷ s)

-- A pattern that ends in a slash stands for every path below it.
abbrev pub pattern_matches : Text → Text → Bool
pattern_matches pattern path =
    if ends_in_slash pattern then has_prefix path pattern else text_eq path pattern

abbrev pub longer : Route → Option Route → Route
longer r none = r
longer (p, e) (some (q, f)) = if ltb (length p) (length q) then (q, f) else (p, e)

-- The longest pattern that matches
unfoldable pub longest : Text → List Route → Option Route
unfolding text_eq has_prefix
longest path [] = none
longest path ((pattern, endpoint) ∷ rs) =
    let rest = longest path rs in
    if pattern_matches pattern path then some (longer (pattern, endpoint) rest) else rest

abbrev pub is_pattern : Text → Bool
is_pattern path = any (λ (pattern, endpoint). text_eq path pattern) routes

pub data Routed : Type 0 where
  handled : Option Route → Routed
  redirected : Text → Routed

-- cleanPath of net/http: path.Clean of the rooted path, with the slash at its end kept.
unfoldable pub clean_path : Text → Text
unfolding clean
clean_path path =
    let cleaned = clean (if has_prefix path (codes "/") then path else b'/' ∷ path) in
    if ends_in_slash path && not (text_eq cleaned (codes "/"))
    then cleaned ++ b'/' ∷ []
    else cleaned

-- The match of a clean path: one without a slash at its end that is no pattern is redirected where
-- it is one with the slash.
unfoldable pub match_or_redirect : Text → Routed
unfolding longest
match_or_redirect path =
    let slashed = path ++ b'/' ∷ [] in
    if not (is_pattern path) && (is_pattern slashed && not (ends_in_slash path))
    then redirected slashed
    else handled (longest path routes)

-- ServeMux: a path that is not clean is redirected to the clean one.
unfoldable pub serve_mux : Text → Routed
unfolding match_or_redirect clean_path
serve_mux path = elim (match_or_redirect (clean_path path)) [
  | redirected target ↦ redirected target
  | handled route ↦
      if text_eq (clean_path path) path then handled route else redirected (clean_path path)
]

-- What serves a request: the handlers of the procedures, what Vanguard makes of the handler of the
-- service, and the other handlers.
pub record Handlers (H : Type 0) : Type 0 where
  pub procedure : Procedure → H
  pub transcode : (Text → H) → Text → H
  pub endpoint : Endpoint → H
  pub redirect : Text → H
  pub not_found : H

module _ {H : Type 0} (handlers : Handlers H) where
  abbrev pub serve_endpoint : Text → Endpoint → H
  serve_endpoint path transcoder =
      handlers.transcode (service_handler handlers.procedure handlers.not_found) path
  serve_endpoint path e = handlers.endpoint e

  abbrev pub serve_routed : Text → Routed → H
  serve_routed path (redirected target) = handlers.redirect target
  serve_routed path (handled none) = handlers.not_found
  serve_routed path (handled (some (pattern, e))) = serve_endpoint path e

  -- The handler of the HTTP server
  unfoldable pub http_handler : Text → H
  unfolding serve_mux service_handler
  http_handler path = serve_routed path (serve_mux path)
