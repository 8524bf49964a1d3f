-- ===== src/Client/Walk/Served.antt =====
-- The walk against the handler on the Postgres client.
use perseus.Prelude.{
  ℕ, suc, ◌≡◌, refl, sym, ap, ◌∙◌, Bool, true, false, ◌||◌, Option, none, some, List, [], ◌∷◌, map,
  ok, Text, codes, trim_prefix, is_empty, sort, sort-All, any, any-sort, All, length, Bool-cases,
  inl, inr, ◌==◌,
}
use perseus.Prelude.Int.{pos}
use perseus.Store.Postgres.{Postgres, SemverLaws}
use perseus.Store.Session.{Session, Tables, ModuleRow, VersionRow, DependencyRow}
use perseus.Store.Write.{Version}
use perseus.Store.Valid.{IsValid}
use perseus.Store.Graph.{Node, node_eq}
use perseus.Store.Paging.Codecs.{Codec, CodecLaws}
use perseus.Store.Paging.{encode_page_token}
use perseus.Store.Paging.Tokens.{is_empty-encode_page_token}
use perseus.Store.Query.{
  JoinTarget, read_token, module_name, mvs_row, find_mvs, rhs_id, lhs_id, is_given, with_row,
  dependency_before, dependency_key, join_dependencies, get_dependx,
}
use perseus.Store.Query.Edges.{listed, edge_of, listed-eq-edge}
use perseus.Store.Query.Pages.{get_dependx-page}
use perseus.Server.Backend.{postgres_client}
use perseus.Server.Messages.{Module}
use perseus.Server.Dependencies.{query_dependencies, with_version}
use perseus.Server.Dependencies.Update.{CheckLaws, trimmed-nonempty}
use perseus.Server.Dependencies.Queries.{direction_of, query_dependencies-ok}
use perseus.Client.Args.{ModuleVersion}
use perseus.Client.Walk.{
  Service, Serves, request, module_message, unfold_tree, walk_dependencies,
  walk_dependencies-unfold,
}
use perseus.Client.Update.Served.{served, as_rpc}

module _ (pg : Postgres) (valid : Text → Text → Bool) where
  -- A version, as it stands in the database, that the server accepts in a request.
  abbrev pub Accepted : Text → Text → Type 0
  Accepted name version =
      (valid name (b'v' ∷ version) ≡ true) × ((cast : Text) × (pg.semver_cast version ≡ some cast))

  abbrev pub AcceptedRow : Option Text → Text → Type 0
  AcceptedRow none version = Unit
  AcceptedRow (some name) version = Accepted name version

  -- Every version of a module that stands in the tables is accepted.
  abbrev pub AllAccepted : List ModuleRow → List VersionRow → Type 0
  AllAccepted modules [] = Unit
  AllAccepted modules (r ∷ rows) =
      AcceptedRow (module_name r.module_id modules) r.version × AllAccepted modules rows

  abbrev AcceptedVersion : Version → Type 0
  AcceptedVersion d = Accepted d.module_id d.sem_ver

  abbrev AcceptedFound : Option Version → Type 0
  AcceptedFound none = Unit
  AcceptedFound (some d) = AcceptedVersion d

  mvs_row-Accepted :
      (r : VersionRow) (name : Option Text)
      → AcceptedRow name r.version
      → AcceptedFound (mvs_row r name)
  mvs_row-Accepted r none h = tt
  mvs_row-Accepted r (some name) h = h

  find_mvs-Accepted :
      (id : ℕ) (modules : List ModuleRow) (rows : List VersionRow)
      → AllAccepted modules rows
      → AcceptedFound (find_mvs id modules rows)
  unfolding find_mvs
  find_mvs-Accepted id modules [] h = tt
  find_mvs-Accepted id modules (r ∷ rows) (h, more) = elim (Bool-cases (r.id == id)) [
    | inl e ↦ rw e (mvs_row-Accepted r (module_name r.module_id modules) h)
    | inr e ↦ rw e (find_mvs-Accepted id modules rows more)
  ]

  with_row-Accepted :
      (given : Bool) (found : Option Version) (rest : List Version)
      → AcceptedFound found
      → All AcceptedVersion rest
      → All AcceptedVersion (with_row given found rest)
  with_row-Accepted given none rest h k = k
  with_row-Accepted true (some d) rest h k = (h, k)
  with_row-Accepted false (some d) rest h k = k

  join_dependencies-Accepted :
      (target : JoinTarget) (name version : Text) (t : Tables) (rows : List DependencyRow)
      → AllAccepted t.modules t.versions
      → All AcceptedVersion (join_dependencies pg target name version t rows)
  unfolding join_dependencies
  join_dependencies-Accepted target name version t [] h = tt
  join_dependencies-Accepted target name version t (d ∷ rows) h =
      with_row-Accepted (is_given pg name version (find_mvs (lhs_id target d) t.modules t.versions))
        (find_mvs (rhs_id target d) t.modules t.versions) _
        (find_mvs-Accepted (rhs_id target d) t.modules t.versions h)
        (join_dependencies-Accepted target name version t rows h)

-- The module version that a response's row stands for.
abbrev pub listed_version : Version → ModuleVersion
listed_version d = record { path = d.module_id; version = b'v' ∷ d.sem_ver }

messages-listed :
    (rows : List Version) → map module_message (map listed_version rows) ≡ map with_version rows
messages-listed [] = refl
messages-listed (d ∷ rows) = ap (λ t. with_version d ∷ t) (messages-listed rows)

-- The node of the database's graph that a module version stands for.
abbrev pub node_of : ModuleVersion → Node
node_of m = (m.path, trim_prefix m.version (codes "v"))

-- A module version that the server accepts.
abbrev pub Known : Postgres → (Text → Text → Bool) → ModuleVersion → Type 0
Known pg valid m =
    (valid m.path m.version ≡ true) × ((cast : Text) × (pg.semver_cast (node_of m).1 ≡ some cast))

-- Whether a node is among some module versions.
abbrev pub has_node : Postgres → Node → List ModuleVersion → Bool
has_node pg b = any (λ d. node_eq pg (node_of d) b)

has_node-listed :
    (pg : Postgres) (b : Node) (rows : List Version)
    → has_node pg b (map listed_version rows) ≡ listed pg b rows
unfolding trim_prefix
has_node-listed pg b [] = refl
has_node-listed pg b (r ∷ rows) =
    ap (λ t. node_eq pg (r.module_id, r.sem_ver) b || t) (has_node-listed pg b rows)

-- The version as the database reads it, where it is a semantic version.
abbrev pub cast_of : Postgres → ModuleVersion → Text
cast_of pg m = elim (pg.semver_cast (node_of m).1) [ none ↦ [] | some cast ↦ cast ]

cast_of-some :
    (pg : Postgres) (m : ModuleVersion) {cast : Text}
    → pg.semver_cast (node_of m).1 ≡ some cast
    → cast_of pg m ≡ cast
cast_of-some pg m h = ap (λ (o : Option Text). elim o [ none ↦ [] | some c ↦ c ]) h

-- The graph of the database around module versions, in the order of the query.
abbrev pub neighbours : Postgres → JoinTarget → Tables → ModuleVersion → List ModuleVersion
neighbours pg target t m = map listed_version (
    sort (dependency_before pg)
      (join_dependencies pg target m.path (cast_of pg m) t t.dependencies))

-- The server as the walk meets it; the context is never done.
abbrev pub served_queries : Postgres → Codec → (Text → Text → Bool) → Service Session
served_queries pg codec valid = record {
  query_dependencies = λ req. served (query_dependencies (postgres_client pg codec) valid req);
  is_done = λ s. false;
}

module _ (pg : Postgres) (laws : SemverLaws pg) (codec : Codec) (codec_laws : CodecLaws codec)
    (valid : Text → Text → Bool) (checks : CheckLaws valid) (target : JoinTarget) (s : Session)
    (calm : s.faults ≡ []) where
  abbrev pub rows_of : ModuleVersion → List Version
  rows_of m =
      sort (dependency_before pg)
        (join_dependencies pg target m.path (cast_of pg m) s.tables s.tables.dependencies)

  token_of : ModuleVersion → Text
  token_of m =
      encode_page_token codec (dependency_key m.path (node_of m).1 target) (length (rows_of m))
        (pos 0) (pos 0)

  rows-Known :
      (rows : List Version)
      → All (λ d. Accepted pg valid d.module_id d.sem_ver) rows
      → All (Known pg valid) (map listed_version rows)
  unfolding trim_prefix
  rows-Known [] h = tt
  rows-Known (d ∷ rows) (h, more) = (h, rows-Known rows more)

  got :
      (m : ModuleVersion)
      → Known pg valid m
      → get_dependx pg codec m.path (node_of m).1 target [] (pos 0) s
        ≡ (ok (rows_of m, token_of m), s)
  unfolding token_of
  got m (e, (cast, casts)) =
      get_dependx-page pg codec m.path (node_of m).1 cast target s
        (checks.path_nonempty m.path m.version e) (trimmed-nonempty valid checks m.path m.version e)
        casts calm [] (pos 0) (pos 0) (unfold read_token in refl)
      ∙ ap
          (λ (c : Text).
            let rows =
              sort (dependency_before pg)
                (join_dependencies pg target m.path c s.tables s.tables.dependencies) in
            (
              ok (
                rows,
                encode_page_token codec (dependency_key m.path (node_of m).1 target) (length rows)
                    (pos 0) (pos 0),
              ),
              s,
            ))
          (sym (cast_of-some pg m casts))

  answered :
      (m : ModuleVersion)
      → Known pg valid m
      → (served_queries pg codec valid).query_dependencies (request (direction_of target) m []) s
        ≡ (
          ok (record {
            modules = map module_message (neighbours pg target s.tables m);
            next_page_token = token_of m;
          }),
          s,
        )
  answered m (e, (cast, casts)) =
      ap as_rpc (
        query_dependencies-ok pg codec valid m.path m.version target s e (got m (e, (cast, casts))))
      ∙ ap (λ (ms : List Module). (ok (record { modules = ms; next_page_token = token_of m }), s))
          (sym (messages-listed (rows_of m)))

  token_of-nonempty : (m : ModuleVersion) → is_empty (token_of m) ≡ false
  unfolding token_of
  token_of-nonempty m =
      is_empty-encode_page_token codec codec_laws (dependency_key m.path (node_of m).1 target)
        (length (rows_of m)) (pos 0)

  module _ (stored : AllAccepted pg valid s.tables.modules s.tables.versions) where
    pub serves :
        Serves
          (served_queries pg codec valid)
          (direction_of target)
          (Known pg valid)
          (neighbours pg target s.tables)
          s
    serves = record {
      not_done = refl;
      token = token_of;
      has_next = λ m k. token_of-nonempty m;
      answers = answered;
      closed = λ m k. rows-Known _ (
          sort-All (dependency_before pg) (λ d. Accepted pg valid d.module_id d.sem_ver) _
            (join_dependencies-Accepted pg valid target m.path (cast_of pg m) s.tables
              s.tables.dependencies stored));
    }

    -- Against the server on a valid database, whose versions are all accepted by the server, and
    -- with no failing round trip, `walkDependencies` from a version that the server accepts ends,
    -- and finds the tree that the database's graph unfolds to, in the direction asked for, down to
    -- the maximal depth; the neighbours of a version in that tree are exactly its edges.
    pub walk_dependencies-served :
        IsValid pg s
        → (pages max_depth : ℕ) (m : ModuleVersion) → Known pg valid m
        → (walk_dependencies
              (served_queries pg codec valid)
              (direction_of target)
              (suc pages)
              max_depth
              m
              s
            ≡ (ok (unfold_tree (neighbours pg target s.tables) max_depth 1 m), s))
          × ((d : ModuleVersion) (b : Node)
              → has_node pg b (neighbours pg target s.tables d)
                ≡ edge_of target pg s.tables (d.path, cast_of pg d) b)
    walk_dependencies-served ok_before pages max_depth m known = (
      walk_dependencies-unfold (served_queries pg codec valid) (direction_of target)
          (Known pg valid) (neighbours pg target s.tables) s serves pages max_depth m known,
      λ d b.
          has_node-listed pg b (rows_of d)
          ∙ any-sort (dependency_before pg) (λ r. node_eq pg (r.module_id, r.sem_ver) b) _
          ∙ listed-eq-edge pg laws s ok_before target d.path (cast_of pg d) b,
    )
