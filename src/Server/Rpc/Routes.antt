-- ===== src/Server/Rpc/Routes.antt =====
-- Where the requests of the client and the paths of the comments in internal/server/server.go lead.
use perseus.Prelude.{
  ◌⊎◌, inl, inr, ◌≡◌, ◌≢◌, refl, ◌∙◌, ap, Text, codes, true, false, Bool-cases, some, [], ◌∷◌, ◌++◌,
  text_eq, text_eq_iff, has_prefix,
}
use perseus.Server.Rpc.{
  Procedure, create_module, list_modules, list_module_versions, update_dependencies,
  query_dependencies, procedure_path, service_handler, transcoder, ux, healthz, metrics, handled,
  redirected, longest, clean_path, match_or_redirect, serve_mux, Handlers, serve_routed,
  http_handler,
}
use perseus.Modproxy.{clean}

-- The paths that the comment in runServer lists, where they are clean: all below /api/v1/ go to the
-- transcoder, all below /ui/ to the web pages, and /ui is redirected there; of the health check and
-- of the metrics only the paths without a slash at the end are served, and all below them goes to
-- the transcoder.
pub match_or_redirect-paths :
    (rest : Text)
    → (match_or_redirect (codes "/api/v1/" ++ rest) ≡ handled (some (codes "/", transcoder)))
      × (match_or_redirect (codes "/ui/" ++ rest) ≡ handled (some (codes "/ui/", ux)))
      × (match_or_redirect (codes "/ui") ≡ redirected (codes "/ui/"))
      × (match_or_redirect (codes "/healthz") ≡ handled (some (codes "/healthz", healthz)))
      × (match_or_redirect (codes "/healthz/" ++ rest) ≡ handled (some (codes "/", transcoder)))
      × (match_or_redirect (codes "/metrics") ≡ handled (some (codes "/metrics", metrics)))
      × (match_or_redirect (codes "/metrics/" ++ rest) ≡ handled (some (codes "/", transcoder)))
unfolding match_or_redirect text_eq has_prefix longest
match_or_redirect-paths [] = (refl, refl, refl, refl, refl, refl, refl)
match_or_redirect-paths (c ∷ rest) = (refl, refl, refl, refl, refl, refl, refl)

service_handler-procedure_path :
    {H : Type 0} (procedures : Procedure → H) (not_found : H) (p : Procedure)
    → service_handler procedures not_found (procedure_path p) ≡ procedures p
unfolding service_handler procedure_path text_eq
service_handler-procedure_path procedures not_found create_module = refl
service_handler-procedure_path procedures not_found list_modules = refl
service_handler-procedure_path procedures not_found list_module_versions = refl
service_handler-procedure_path procedures not_found update_dependencies = refl
service_handler-procedure_path procedures not_found query_dependencies = refl

module _ {H : Type 0} (procedures : Procedure → H) (not_found : H) where
  -- The path is that of a procedure, whose handler serves it, or of none, and is not found.
  abbrev pub Served : Text → H → Type 0
  Served path h =
      ((p : Procedure) × (path ≡ procedure_path p) × (h ≡ procedures p))
      ⊎ (((p : Procedure) → path ≢ procedure_path p) × (h ≡ not_found))

  service_handler-each : (path : Text) → Served path (service_handler procedures not_found path)
  unfolding service_handler
  service_handler-each path = elim (Bool-cases (text_eq path (procedure_path create_module))) [
    | inl a ↦ rw a (inl (create_module, equal a, refl))
    | inr a ↦ elim (Bool-cases (text_eq path (procedure_path list_modules))) [
      | inl b ↦ rw (a, b) (inl (list_modules, equal b, refl))
      | inr b ↦ elim (Bool-cases (text_eq path (procedure_path list_module_versions))) [
        | inl c ↦ rw (a, b, c) (inl (list_module_versions, equal c, refl))
        | inr c ↦ elim (Bool-cases (text_eq path (procedure_path update_dependencies))) [
          | inl d ↦ rw (a, b, c, d) (inl (update_dependencies, equal d, refl))
          | inr d ↦ elim (Bool-cases (text_eq path (procedure_path query_dependencies))) [
            | inl e ↦ rw (a, b, c, d, e) (inl (query_dependencies, equal e, refl))
            | inr e ↦ rw (a, b, c, d, e) (inr (none_of a b c d e, refl))
          ]
        ]
      ]
    ]
  ]
    where
      equal : {q : Text} → text_eq path q ≡ true → path ≡ q
      equal {q = q} h = (text_eq_iff path q).0 h

      differs : {q : Text} → text_eq path q ≡ false → path ≢ q
      differs {q = q} h e = absurd (cc (h, (text_eq_iff path q).1 e))

      none_of :
          text_eq path (procedure_path create_module) ≡ false
          → text_eq path (procedure_path list_modules) ≡ false
          → text_eq path (procedure_path list_module_versions) ≡ false
          → text_eq path (procedure_path update_dependencies) ≡ false
          → text_eq path (procedure_path query_dependencies) ≡ false
          → (p : Procedure) → path ≢ procedure_path p
      none_of a b c d e create_module = differs a
      none_of a b c d e list_modules = differs b
      none_of a b c d e list_module_versions = differs c
      none_of a b c d e update_dependencies = differs d
      none_of a b c d e query_dependencies = differs e

  -- The handler that NewPerseusServiceHandler returns serves the path of each procedure by the
  -- handler of that procedure, and answers that every other path is not found.
  pub service_handler-Served :
      (path : Text)
      → ((p : Procedure) → service_handler procedures not_found (procedure_path p) ≡ procedures p)
        × Served path (service_handler procedures not_found path)
  service_handler-Served path =
      (service_handler-procedure_path procedures not_found, service_handler-each path)

-- The transcoder hands the requests for the procedures of the service to its handler.
abbrev pub PassesOn : {H : Type 0} → Handlers H → Type 0
PassesOn {H = H} handlers =
    (ch : Text → H) (p : Procedure)
    → handlers.transcode ch (procedure_path p) ≡ ch (procedure_path p)

-- The mux leads the paths of the procedures to the transcoder.
serve_mux-procedure_path :
    (p : Procedure) → serve_mux (procedure_path p) ≡ handled (some (codes "/", transcoder))
unfolding serve_mux match_or_redirect clean_path procedure_path text_eq has_prefix longest clean
serve_mux-procedure_path create_module = refl
serve_mux-procedure_path list_modules = refl
serve_mux-procedure_path list_module_versions = refl
serve_mux-procedure_path update_dependencies = refl
serve_mux-procedure_path query_dependencies = refl

pub http_handler-procedure_path :
    {H : Type 0} (handlers : Handlers H)
    → PassesOn handlers
    → (p : Procedure) → http_handler handlers (procedure_path p) ≡ handlers.procedure p
unfolding http_handler
http_handler-procedure_path handlers passes p =
    ap (serve_routed handlers (procedure_path p)) (serve_mux-procedure_path p)
    ∙ passes (service_handler handlers.procedure handlers.not_found) p
    ∙ service_handler-procedure_path handlers.procedure handlers.not_found p
