-- ===== src/Server/Dependencies/Queries.antt =====
-- `QueryDependencies` on the Postgres client, alone and after `UpdateDependencies`.
use perseus.Prelude.{
  ◌⊎◌, inl, inr, ℕ, ◌≡◌, refl, ◌∙◌, subst, Text, codes, Bool, true, false, ◌||◌, some, List, [],
  ◌∷◌, map, Bool-cases, inl, inr, ok, trim_prefix, arith,
}
use perseus.Prelude.Int.{pos}
use perseus.Store.Postgres.{Postgres, SemverLaws}
use perseus.Store.Session.{Session}
use perseus.Store.Write.{Version}
use perseus.Store.Valid.{IsValid}
use perseus.Store.Graph.{Node, node_eq, node_eq_refl, depends}
use perseus.Store.Write.Dependencies.{is_node, is_target}
use perseus.Store.Write.Saved.{GraphSaved}
use perseus.Store.Paging.Codecs.{Codec, CodecLaws}
use perseus.Store.Query.{
  JoinTarget, dependees, dependents, get_dependx, get_dependees, get_dependents,
}
use perseus.Store.Query.Edges.{listed, edge_of}
use perseus.Store.Query.Answers.{get_dependx-edges}
use perseus.Server.Messages.{
  internal, Module, Direction, UpdateDependenciesRequest, QueryDependenciesRequest, ModulesResponse,
  database_failed, code, invalid_argument,
}
use perseus.Server.Messages
use perseus.Server.Backend.{postgres_client, answer}
use perseus.Server.Outcomes.{Answers, call-ok, bind-ok}
use perseus.Server.Modules.{is_digit}
use perseus.Server.Dependencies.{
  store_version, query_direction, query_dependencies, update_dependencies, with_version,
}
use perseus.Server.Dependencies.Update.{
  CheckLaws, trimmed-nonempty, dependency_of, update_dependencies-refines,
}

-- Whether a node is among the modules of a response.
abbrev pub lists_version : Postgres → Node → Text → List Text → Bool
lists_version pg b name [] = false
lists_version pg b name (v ∷ versions) =
    node_eq pg (name, trim_prefix v (codes "v")) b || lists_version pg b name versions

abbrev pub lists : Postgres → Node → List Module → Bool
lists pg b [] = false
lists pg b (m ∷ modules) = lists_version pg b m.name m.versions || lists pg b modules

lists-listed :
    (pg : Postgres) (b : Node) (rows : List Version)
    → lists pg b (map with_version rows) ≡ listed pg b rows
unfolding trim_prefix
lists-listed pg b [] = refl
lists-listed pg b (r ∷ rows) = ground (arith, lists-listed pg b rows)

-- Dependees are asked for as dependencies.
abbrev pub direction_of : JoinTarget → Direction
direction_of dependees = Messages.dependencies
direction_of dependents = Messages.dependents

-- The request for everything in one page.
abbrev pub query_all : Text → Text → JoinTarget → QueryDependenciesRequest
query_all name version target = record {
  module_name = name;
  version = version;
  direction = direction_of target;
  page_token = [];
  page_size = pos 0;
}

module _ (pg : Postgres) (codec : Codec) (valid : Text → Text → Bool) where
  -- What the store answers in a direction is the answer.
  query_direction-ok :
      (name version : Text) (target : JoinTarget) (s : Session) {rows : List Version} {token : Text}
      → get_dependx pg codec name (trim_prefix version (codes "v")) target [] (pos 0) s
        ≡ (ok (rows, token), s)
      → query_direction
          (postgres_client pg codec)
          valid
          (query_all name version target)
          (direction_of target)
          s
        ≡ (ok (rows, token), s)
  unfolding query_direction get_dependees get_dependents
  query_direction-ok name version dependents s got =
      call-ok (get_dependents pg codec name (trim_prefix version (codes "v")) [] (pos 0))
        database_failed got
  query_direction-ok name version dependees s got =
      call-ok (get_dependees pg codec name (trim_prefix version (codes "v")) [] (pos 0))
        database_failed got

  pub query_dependencies-ok :
      (name version : Text) (target : JoinTarget) (s : Session) {rows : List Version} {token : Text}
      → valid name version ≡ true
      → get_dependx pg codec name (trim_prefix version (codes "v")) target [] (pos 0) s
        ≡ (ok (rows, token), s)
      → query_dependencies (postgres_client pg codec) valid (query_all name version target) s
        ≡ (ok (record { modules = map with_version rows; next_page_token = token }), s)
  unfolding query_dependencies
  query_dependencies-ok name version target s e got = rw e (
      bind-ok
        (query_direction (postgres_client pg codec) valid (query_all name version target)
          (direction_of target))
        (λ (deps, token).
          answer (record { modules = map with_version deps; next_page_token = token }))
        (query_direction-ok name version target s got))

module _ (pg : Postgres) (laws : SemverLaws pg) (codec : Codec) (codec_laws : CodecLaws codec)
    (valid : Text → Text → Bool) (checks : CheckLaws valid) where
  -- In a valid database, with no failing round trip, `QueryDependencies` for a valid module version
  -- that is a semantic version, without paging, answers with exactly the modules and versions that
  -- the graph links to it, in the direction asked for.
  pub query_dependencies-edges :
      (name version cast : Text) (target : JoinTarget) (s : Session)
      → IsValid pg s
      → valid name version ≡ true
      → pg.semver_cast (trim_prefix version (codes "v")) ≡ some cast
      → s.faults ≡ []
      → (response : ModulesResponse) × (query_dependencies
            (postgres_client pg codec)
            valid
            (query_all name version target)
            s
          ≡ (ok response, s))
        × ((b : Node) → lists pg b response.modules ≡ edge_of target pg s.tables (name, cast) b)
  query_dependencies-edges name version cast target s ok_before e casts calm =
      let (rows, token, got, edges, more) =
        get_dependx-edges pg laws codec codec_laws name (trim_prefix version (codes "v")) cast
          target s ok_before (checks.path_nonempty name version e)
          (trimmed-nonempty valid checks name version e) casts calm in
      (
        record { modules = map with_version rows; next_page_token = token },
        query_dependencies-ok pg codec valid name version target s e got,
        λ b. lists-listed pg b rows ∙ edges b,
      )

  root-is_node :
      (name version cast : Text)
      → valid name version ≡ true
      → pg.semver_cast (trim_prefix version (codes "v")) ≡ some cast
      → is_node pg name (trim_prefix version (codes "v")) (name, cast) ≡ true
  unfolding is_node trim_prefix
  root-is_node name version cast e casts =
      let (c, w, v, digit) = checks.canonical name version e in
      rw (trimmed c w digit v, casts, is_node) (node_eq_refl pg laws (name, cast))
    where
      trimmed :
          (c : ℕ) (w : Text)
          → is_digit c ≡ true
          → version ≡ (b'v' ∷ c ∷ w)
          → trim_prefix (trim_prefix version (codes "v")) (codes "v")
            ≡ trim_prefix version (codes "v")
      trimmed c w digit v = rw v (ground arith)

  update-valid :
      (req : UpdateDependenciesRequest) (s s' : Session)
      → update_dependencies (postgres_client pg codec) valid req s ≡ (ok tt, s')
      → valid req.module_name req.version ≡ true
  unfolding update_dependencies
  update-valid req s s' h = elim (Bool-cases (valid req.module_name req.version)) [
    | inl e ↦ e
    | inr e ↦ absurd (cc (rw e at h))
  ]

  -- Where `UpdateDependencies` has answered in a valid database, for a version that is a semantic
  -- version, `QueryDependencies` for the same module version, without paging and with no failing
  -- round trip, answers with the dependencies of the request and those that the version had
  -- before, and with nothing else.
  pub query_dependencies-update_dependencies :
      (req : UpdateDependenciesRequest) (cast : Text) (s s' : Session)
      → IsValid pg s
      → update_dependencies (postgres_client pg codec) valid req s ≡ (ok tt, s')
      → pg.semver_cast (trim_prefix req.version (codes "v")) ≡ some cast
      → s'.faults ≡ []
      → (response : ModulesResponse) × (query_dependencies
            (postgres_client pg codec)
            valid
            (query_all req.module_name req.version dependees)
            s'
          ≡ (ok response, s'))
        × ((b : Node)
            → lists pg b response.modules ≡ (
                is_target pg (map dependency_of req.dependencies) b
                || depends pg s.tables (req.module_name, cast) b))
  query_dependencies-update_dependencies req cast s s' ok_before h casts calm =
      let e = update-valid req s s' h in
      let (ok_after, saved) =
        subst
          (Answers Done
            (λ e t. IsValid pg t × (t.tables ≡ s.tables) × ((code e ≡ internal) ⊎ (t ≡ s))))
          h (update_dependencies-refines pg laws codec valid checks req s ok_before) in
      let (response, got, edges) =
        query_dependencies-edges req.module_name req.version cast dependees s' ok_after e casts
          calm in
      (
        response,
        got,
        λ b.
            edges b
            ∙ saved.edges (req.module_name, cast) b
            ∙ rw (root-is_node req.module_name req.version cast e casts) refl,
      )
    where
      Done : Unit {0} → Session → Type 0
      Done _ t =
          IsValid pg t
          × GraphSaved pg (store_version req.module_name req.version)
              (map dependency_of req.dependencies) s.tables t.tables
