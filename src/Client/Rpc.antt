-- ===== src/Client/Rpc.antt =====
-- The client of perseusapi/perseusapiconnect/perseus.connect.go, on the address of getClient in
-- client_config.go, against the paths that the server serves. HTTP itself is a parameter: a
-- request for a URL reaches the server of its base at the rest of the URL.
use perseus.Prelude.{
  ◌≡◌, refl, ap, Text, Bool, false, ◌&&◌, [], ◌∷◌, ◌++◌, All, Bool-cases, inl, inr, if◌then◌else◌,
  is_empty, ◌==◌, arith,
}
use perseus.Server.Rpc.{Procedure, procedure_path, ends_in_slash, Handlers, http_handler}
use perseus.Server.Backend.{Store, Handler}
use perseus.Server.Rpc.Service.{Request, Answer, connect_server}
use perseus.Server.Rpc.Routes.{PassesOn, http_handler-procedure_path}
use perseus.Client.Config.{ClientConfig, client_address}

-- strings.TrimRight(baseURL, "/")
unfoldable pub trim_slashes : Text → Text
trim_slashes [] = []
trim_slashes (c ∷ s) =
    let rest = trim_slashes s in if is_empty rest && c == b'/' then [] else c ∷ rest

-- The URL of the client that NewPerseusServiceClient makes for a procedure.
unfoldable pub procedure_url : Text → Procedure → Text
unfolding trim_slashes procedure_path
procedure_url base p = trim_slashes base ++ procedure_path p

-- The URL that a command requests for a procedure.
unfoldable pub command_url : ClientConfig → Procedure → Text
unfolding procedure_url client_address
command_url conf p = procedure_url (client_address conf) p

-- A base without slashes at its end, and the slashes that stood there.
abbrev pub Trimmed : Text → Text → Type 0
Trimmed s base =
    (ends_in_slash base ≡ false)
    × ((slashes : Text) × (s ≡ (base ++ slashes)) × All (λ c. c ≡ b'/') slashes)

trim_slashes-Trimmed : (s : Text) → Trimmed s (trim_slashes s)
unfolding trim_slashes
trim_slashes-Trimmed [] = (refl, ([], refl, tt))
trim_slashes-Trimmed (c ∷ s) = with_rest (trim_slashes s) (trim_slashes-Trimmed s)
  where
    with_rest :
        (rest : Text)
        → Trimmed s rest
        → Trimmed (c ∷ s) (if is_empty rest && c == b'/' then [] else c ∷ rest)
    with_rest (d ∷ rest) (e, (slashes, whole, all)) = (e, (slashes, ap (λ t. c ∷ t) whole, all))
    with_rest [] (e, (slashes, whole, all)) = elim (Bool-cases (c == b'/')) [
      | inl f ↦ rw f (refl, (c ∷ slashes, ap (λ t. c ∷ t) whole, (ground (arith, f), all)))
      | inr f ↦ rw f (f, (slashes, ap (λ t. c ∷ t) whole, all))
    ]

module _ {S H : Type 0} (unary : (p : Procedure) → (Request p → Handler S (Answer p)) → H)
    (store : Store S) (valid : Text → Text → Bool) (handlers : Handlers H)
    (passes : PassesOn handlers) where
  -- What runServer serves: each procedure with its handler.
  abbrev pub serving : Handlers H
  serving = record handlers { procedure = λ p. unary p (connect_server store valid p) }

  -- The URL that a command requests for a procedure is the address that it connects to, without the
  -- slashes at its end, and behind it a path at which the server, where its transcoder hands on the
  -- requests for the procedures, runs the handler of that procedure on the store.
  pub command_url-served :
      (conf : ClientConfig) (p : Procedure)
      → (base path : Text) × (command_url conf p ≡ (base ++ path))
        × Trimmed (client_address conf) base
        × (http_handler serving path ≡ unary p (connect_server store valid p))
  unfolding command_url procedure_url
  command_url-served conf p = (
    trim_slashes (client_address conf),
    procedure_path p,
    refl,
    trim_slashes-Trimmed (client_address conf),
    http_handler-procedure_path serving passes p,
  )
