-- ===== src/Client/Update/Served.antt =====
-- The update command against the handler on the Postgres client.
use perseus.Prelude.{
  if◌then◌else◌, inl, inr, Bool-cases, false, true, is_empty, ◌⊎◌, ◌≡◌, refl, ap, subst, Text, Bool,
  List, [], ◌∷◌, map, Result, ok, err,
}
use perseus.Store.Postgres.{Postgres, SemverLaws}
use perseus.Store.Session.{Session}
use perseus.Store.Write.{Version}
use perseus.Store.Valid.{IsValid}
use perseus.Store.Write.Saved.{GraphSaved}
use perseus.Store.Paging.Codecs.{Codec}
use perseus.Server.Messages.{
  ConnectError, Code, code, invalid_argument, internal, UpdateDependenciesRequest,
}
use perseus.Server.Backend.{Handler, postgres_client}
use perseus.Server.Outcomes.{Answers}
use perseus.Server.Dependencies.{store_version, update_dependencies}
use perseus.Server.Dependencies.Update.{CheckLaws, dependency_of, update_dependencies-refines}
use perseus.Client.Retry.{RpcError, other_code, Op, retry_op, retry_loop, proceed}
use perseus.Client.Args.{ModuleVersion}
use perseus.Client.Update.{
  ModuleInfo, UpdateError, update_failed, dependency_message, update_request, apply_updates,
  Sources, read_module_info, apply_info, address_missing, run_update,
}

-- The numbers of connect.CodeInvalidArgument and connect.CodeInternal
abbrev pub code_number : Code → RpcError
code_number invalid_argument = other_code 3
code_number internal = other_code 13

-- A handler as the client meets it.
abbrev pub as_rpc {ℓ} : {A : Type ℓ} → Result ConnectError A × Session → Result RpcError A × Session
as_rpc (err e, s) = (err (code_number (code e)), s)
as_rpc (ok a, s) = (ok a, s)

abbrev pub served {ℓ} : {A : Type ℓ} → Handler Session A → Op Session A
served handler s = as_rpc (handler s)

abbrev pub store_version_of : ModuleVersion → Version
store_version_of d = store_version d.path d.version

messages-read :
    (deps : List ModuleVersion)
    → map dependency_of (map dependency_message deps) ≡ map store_version_of deps
messages-read [] = refl
messages-read (d ∷ deps) = ap (λ t. store_version_of d ∷ t) (messages-read deps)

-- Where an update ends: with success or with an error, each with the session that is left.
abbrev pub UpdateEnds :
    (Session → Type 0) → (Session → Type 0) → Result UpdateError (Unit {0}) × Session → Type 0
UpdateEnds P Q (ok a, s) = P s
UpdateEnds P Q (err e, s) = Q s

module _ (pg : Postgres) (laws : SemverLaws pg) (codec : Codec) (valid : Text → Text → Bool)
    (checks : CheckLaws valid) where
  -- Against the server on a valid database, `applyUpdates` either succeeds, and then the graph has
  -- the edges from before and one from the module to each of its dependencies, and no other; or it
  -- fails, and the tables are as they were. Either way the database is valid.
  pub apply_updates-refines :
      (info : ModuleInfo) (s : Session)
      → IsValid pg s
      → UpdateEnds
          (λ s'.
            IsValid pg s'
            × GraphSaved pg
                (store_version info.name info.version)
                (map store_version_of info.deps)
                s.tables
                s'.tables)
          (λ s'. IsValid pg s' × (s'.tables ≡ s.tables))
          (apply_updates
            (λ req. served (update_dependencies (postgres_client pg codec) valid req))
            info
            s)
  unfolding apply_updates retry_op retry_loop
  apply_updates-refines info s ok_before =
      by_result
        (λ e.
          retry_loop (200 ∷ 300 ∷ 500 ∷ 800 ∷ 0 ∷ []) e
            (served (update_dependencies (postgres_client pg codec) valid (update_request info))))
        (update_dependencies (postgres_client pg codec) valid (update_request info) s)
        (update_dependencies-refines pg laws codec valid checks (update_request info) s ok_before)
    where
      Saved : List Version → Session → Type 0
      Saved deps s' =
          IsValid pg s'
          × GraphSaved pg (store_version info.name info.version) deps s.tables s'.tables

      Kept : Session → Type 0
      Kept s' = IsValid pg s' × (s'.tables ≡ s.tables)

      outcome : Result RpcError (Unit {0}) × Session → Result UpdateError (Unit {0}) × Session
      outcome r =
          let (x, t) = r in elim x [ err e ↦ (err (update_failed e), t) | ok _ ↦ (ok tt, t) ]

      by_code :
          (again : RpcError → Op Session (Unit {0})) (c : Code) (t : Session)
          → Kept t
          → UpdateEnds
              (Saved (map store_version_of info.deps))
              Kept
              (outcome (proceed again (err (code_number c), t)))
      by_code again invalid_argument t h = h
      by_code again internal t h = h

      by_result :
          (again : RpcError → Op Session (Unit {0})) (r : Result ConnectError (Unit {0}) × Session)
          → Answers
              (λ _ s'. Saved (map dependency_of (map dependency_message info.deps)) s')
              (λ e s'. IsValid pg s' × (s'.tables ≡ s.tables) × ((code e ≡ internal) ⊎ (s' ≡ s)))
              r
          → UpdateEnds
              (Saved (map store_version_of info.deps))
              Kept
              (outcome (proceed again (as_rpc r)))
      by_result again (ok a, t) h = subst (λ deps. Saved deps t) (messages-read info.deps) h
      by_result again (err e, t) h = by_code again (code e) t (h.0, h.1)

  -- What an update with this information does: nothing where a version is skipped, and else the
  -- edges from the module to its dependencies are added.
  abbrev pub Sent : ModuleInfo → Session → Session → Type 0
  Sent info s s' =
      ((is_empty info.name ≡ true) × (s' ≡ s))
      ⊎ ((is_empty info.name ≡ false)
          × GraphSaved pg (store_version info.name info.version) (map store_version_of info.deps)
              s.tables s'.tables)

  -- Against the server on a valid database, the command `update` either succeeds, and then it has
  -- an address and has read what it sends: nothing where a version is skipped, and the session is as
  -- it was; or else a module and its dependencies, and then the graph has the edges from before and
  -- one from the module to each of its dependencies, and no other; or it fails, and the tables are as
  -- they were. Either way the database is valid.
  pub run_update-refines :
      (sources : Sources) (include_prerelease : Bool)
      (server_addr version file_path mod_path : Text) (s : Session)
      → IsValid pg s
      → UpdateEnds
          (λ s'.
            IsValid pg s'
            × (is_empty server_addr ≡ false)
            × ((info : ModuleInfo) × (read_module_info sources include_prerelease version file_path
                    mod_path
                  ≡ ok info)
                × Sent info s s'))
          (λ s'. IsValid pg s' × (s'.tables ≡ s.tables))
          (run_update
            (λ req. served (update_dependencies (postgres_client pg codec) valid req))
            sources
            include_prerelease
            server_addr
            version
            file_path
            mod_path
            s)
  unfolding run_update
  run_update-refines sources include_prerelease server_addr version file_path mod_path s ok_before =
      by_address (is_empty server_addr) refl
    where
      update : UpdateDependenciesRequest → Op Session (Unit {0})
      update req = served (update_dependencies (postgres_client pg codec) valid req)

      Read : Session → Type 0
      Read s' =
          IsValid pg s'
          × (is_empty server_addr ≡ false)
          × ((info : ModuleInfo) × (read_module_info sources include_prerelease version file_path
                  mod_path
                ≡ ok info)
              × Sent info s s')

      Kept : Session → Type 0
      Kept s' = IsValid pg s' × (s'.tables ≡ s.tables)

      saved :
          (info : ModuleInfo)
          → is_empty server_addr ≡ false
          → read_module_info sources include_prerelease version file_path mod_path ≡ ok info
          → is_empty info.name ≡ false
          → (r : Result UpdateError (Unit {0}) × Session)
          → UpdateEnds
              (λ s'.
                IsValid pg s'
                × GraphSaved pg
                    (store_version info.name info.version)
                    (map store_version_of info.deps)
                    s.tables
                    s'.tables)
              Kept
              r
          → UpdateEnds Read Kept r
      saved info e read named (ok a, t) (h, k) = (h, e, (info, read, inr (named, k)))
      saved info e read named (err x, t) h = h

      by_info :
          is_empty server_addr ≡ false
          → (r : Result UpdateError ModuleInfo)
          → read_module_info sources include_prerelease version file_path mod_path ≡ r
          → UpdateEnds Read Kept (apply_info update r s)
      by_info e (err x) read = (ok_before, refl)
      by_info e (ok info) read = elim (Bool-cases (is_empty info.name)) [
        | inl n ↦ rw n (ok_before, e, (info, read, inl (n, refl)))
        | inr n ↦ rw n (
            saved info e read n (apply_updates update info s)
              (apply_updates-refines info s ok_before))
      ]

      by_address :
          (missing : Bool)
          → is_empty server_addr ≡ missing
          → UpdateEnds Read Kept (
              if missing
              then (err address_missing, s)
              else apply_info update
                  (read_module_info sources include_prerelease version file_path mod_path)
                  s)
      by_address true e = (ok_before, refl)
      by_address false e =
          by_info e (read_module_info sources include_prerelease version file_path mod_path) refl
