-- ===== src/Client/Commands/Latest.antt =====
-- `ancestors` and `descendants` of the latest version of a module, against the handlers on the
-- Postgres client.
use perseus.Prelude.{
  ◌++◌, contains_rune, ℕ, suc, ◌⊎◌, inl, inr, ◌≡◌, refl, ap, ◌∙◌, subst, Text, codes, Bool, true,
  false, ◌&&◌, &&-true, Option, none, some, List, [], ◌∷◌, All, Any, keep, if◌then◌else◌, leb,
  Result, ok, err, text_eq, text_eq_iff, trim_prefix,
}
use perseus.Prelude.Int.{pos}
use perseus.Store.Postgres.{Postgres, SemverLaws}
use perseus.Store.Session.{Session, ModuleRow, VersionRow}
use perseus.Store.Valid.{IsValid}
use perseus.Store.Paging.Codecs.{Codec, CodecLaws}
use perseus.Store.Query.{
  ModuleVersion, module_name, join_modules, query_module_versions, JoinTarget,
}
use perseus.Store.Query.Latest.{SemverOrder}
use perseus.Store.Query.Versions.{is_wanted, whole_query}
use perseus.Store.Query.Newest.{
  PlainName, versions_named, Newest, OneGroup, query_module_versions-newest,
}
use perseus.Server.Messages.{option_latest, ListModuleVersionsRequest}
use perseus.Server.Backend.{postgres_client}
use perseus.Server.Modules.{group_versions}
use perseus.Server.Modules.Groups.{list_module_versions-ok}
use perseus.Server.Dependencies.Update.{CheckLaws}
use perseus.Server.Dependencies.Queries.{direction_of}
use perseus.Client.Retry.{no_version, bind-ok, retry_op, retry_op-ok}
use perseus.Client.Args
use perseus.Client.Args.{split-none, split-one}
use perseus.Client.Config.{ClientConfig}
use perseus.Client.Walk.{walk_dependencies, unfold_tree}
use perseus.Client.Walk.Served.{
  Accepted, AcceptedRow, AllAccepted, Known, served_queries, neighbours, walk_dependencies-served,
}
use perseus.Client.Lists.{first_of, lookup_latest_module_version}
use perseus.Client.Output.{
  Format, CommandError, rpc, one_format_only, format_of, Tools, Output, write_tree,
}
use perseus.Client.Update.Served.{as_rpc}
use perseus.Client.Commands.{
  shared_options, is_latest, graph_arguments, CommandLine, CommandOp, depth_of, with_op,
  pure_result, walk_and_write, with_arguments, graph_command, run_query_module_graph,
}
use perseus.Client.Commands.Graph.{
  formats_asked, levels_asked, graph_arguments-module_of, depth_of-levels_asked, with_op-ok,
  with_op-err,
}
use perseus.Client.Commands.Listed.{served_lists}

module _ (pg : Postgres) (valid : Text → Text → Bool) where
  join_modules-Accepted :
      (modules : List ModuleRow) (rows : List VersionRow)
      → AllAccepted pg valid modules rows
      → All (λ r. Accepted pg valid r.name r.version) (join_modules modules rows)
  unfolding join_modules
  join_modules-Accepted modules [] h = tt
  join_modules-Accepted modules (r ∷ rows) (h, hs) =
      with_name (join_modules modules rows) (module_name r.module_id modules) h
        (join_modules-Accepted modules rows hs)
    where
      with_name :
          (rest : List ModuleVersion) (name : Option Text)
          → AcceptedRow pg valid name r.version
          → All (λ r. Accepted pg valid r.name r.version) rest
          → All
              (λ r. Accepted pg valid r.name r.version)
              (elim name [
                | none ↦ rest
                | some name ↦ record { name = name; version = r.version } ∷ rest
              ])
      with_name rest none h k = k
      with_name rest (some name) h k = (h, k)

  -- A version that is found under a name is one of accepted ones.
  found-Accepted :
      (name v : Text) (p : ModuleVersion → Bool) (rows : List ModuleVersion)
      → All (λ r. Accepted pg valid r.name r.version) rows
      → Any (λ r. r.version ≡ v) (keep (λ r. text_eq r.name name && p r) rows)
      → Accepted pg valid name v
  found-Accepted name v p [] h k = absurd k
  found-Accepted name v p (r ∷ rows) (h, hs) k =
      by_test (found-Accepted name v p rows hs) (text_eq r.name name && p r) refl k
    where
      by_test :
          (Any (λ r. r.version ≡ v) (keep (λ r. text_eq r.name name && p r) rows)
            → Accepted pg valid name v)
          → (b : Bool) → (text_eq r.name name && p r) ≡ b
          → Any
              (λ r. r.version ≡ v)
              (if b
                then r ∷ keep (λ r. text_eq r.name name && p r) rows
                else keep (λ r. text_eq r.name name && p r) rows)
          → Accepted pg valid name v
      by_test later true e (inl f) =
          subst (λ w. Accepted pg valid name w) f
            (subst (λ n. Accepted pg valid n r.version)
              ((text_eq_iff r.name name).0 (&&-true _ _ e).0) h)
      by_test later true e (inr k) = later k
      by_test later false e k = later k

-- The arguments of a command that name a module in one of the ways that ask for its latest version:
-- by its path alone, with an empty version, or with the version `latest`.
pub record NamesLatest (tools : Tools) (line : CommandLine) (path : Text) : Type 0 where
  pub conf : ClientConfig
  pub configured : shared_options tools line ≡ ok conf
  pub argument :
      (line.args ≡ (path ∷ []))
      ⊎ ((line.args ≡ ((path ++ codes "@") ∷ [])) ⊎ (line.args ≡ ((path ++ codes "@latest") ∷ [])))
  pub path_whole : contains_rune b'@' path ≡ false
  pub path_accepted : tools.check_path path ≡ true

-- The arguments are read as the path and a version that stands for the latest one.
abbrev ReadLatest : Tools → CommandLine → Text → Type 0
ReadLatest tools line path =
    (version : Text) × (is_latest version ≡ true)
    × (graph_arguments tools line ≡ (
        if leb (formats_asked line.output) 1
        then ok (record { path = path; version = version }, format_of line.output)
        else err one_format_only))

graph_arguments-NamesLatest :
    (tools : Tools) (line : CommandLine) (path : Text)
    → NamesLatest tools line path
    → ReadLatest tools line path
unfolding text_eq
graph_arguments-NamesLatest tools line path n = by_spelling n.argument
  where
    by_spelling :
        (line.args ≡ (path ∷ []))
          ⊎ ((line.args ≡ ((path ++ codes "@") ∷ []))
              ⊎ (line.args ≡ ((path ++ codes "@latest") ∷ [])))
        → ReadLatest tools line path
    by_spelling (inl e) = (
      [],
      refl,
      graph_arguments-module_of tools line path (record { path = path; version = [] }) n.configured
          e (ap Args.module_of (split-none b'@' path n.path_whole)) n.path_accepted,
    )
    by_spelling (inr (inl e)) = (
      [],
      refl,
      graph_arguments-module_of tools line (path ++ codes "@")
          (record { path = path; version = [] }) n.configured e
          (ap Args.module_of (split-one b'@' path [] n.path_whole refl)) n.path_accepted,
    )
    by_spelling (inr (inr e)) = (
      codes "latest",
      refl,
      graph_arguments-module_of tools line (path ++ codes "@latest")
          (record { path = path; version = codes "latest" }) n.configured e
          (ap Args.module_of (split-one b'@' path (codes "latest") n.path_whole refl))
          n.path_accepted,
    )

module _ (pg : Postgres) (laws : SemverLaws pg) (order : SemverOrder pg) (codec : Codec)
    (codec_laws : CodecLaws codec) (valid : Text → Text → Bool) (checks : CheckLaws valid)
    (target : JoinTarget) (s : Session) (calm : s.faults ≡ [])
    (stored : AllAccepted pg valid s.tables.modules s.tables.versions) (ok_before : IsValid pg s)
    (path : Text) (plain : PlainName path) where
  -- The highest release that the database has of the module.
  abbrev pub IsRelease : Text → Type 0
  IsRelease v = Newest pg (versions_named pg s.tables path false) v

  abbrev pub release : Text → Args.ModuleVersion
  release v = record { path = path; version = b'v' ∷ v }

  release-Known : (v : Text) → IsRelease v → Known pg valid (release v)
  unfolding trim_prefix
  release-Known v (found, _) =
      found-Accepted pg valid path v (λ r. is_wanted pg false r.version)
        (join_modules s.tables.modules s.tables.versions)
        (join_modules-Accepted pg valid s.tables.modules s.tables.versions stored) found

  latest_request : ListModuleVersionsRequest
  latest_request = record {
    module_name = path;
    module_filter = [];
    version_filter = [];
    include_prerelease = false;
    version_option = option_latest;
    page_token = [];
    page_size = pos 0;
  }

  looked_up :
      (rows : List ModuleVersion) (token : Text)
      → query_module_versions pg codec (whole_query path [] false true) s ≡ (ok (rows, token), s)
      → lookup_latest_module_version (served_lists pg codec) path s
        ≡ (first_of (group_versions [] rows), s)
  unfolding lookup_latest_module_version latest_request
  looked_up rows token got =
      bind-ok (retry_op ((served_lists pg codec).list_module_versions latest_request))
        (λ response s. (first_of response.modules, s))
        (retry_op-ok ((served_lists pg codec).list_module_versions latest_request) (
          ap as_rpc (
            list_module_versions-ok (postgres_client pg codec) latest_request s s rows token
              (rw plain.0 plain.0) refl
              (ap
                  (λ b.
                    query_module_versions pg codec
                      (whole_query (if b then [] else path) [] false true) s)
                  plain.0
                ∙ got))))

  -- The latest version is the highest release, or there is none.
  lookup_latest-IsRelease :
      ((versions_named pg s.tables path false ≡ [])
        × (lookup_latest_module_version (served_lists pg codec) path s ≡ (err no_version, s)))
      ⊎ ((v : Text) × IsRelease v
          × (lookup_latest_module_version (served_lists pg codec) path s ≡ (ok (b'v' ∷ v), s)))
  unfolding group_versions
  lookup_latest-IsRelease =
      let (rows, token, got, one) =
        query_module_versions-newest pg order codec s calm path plain false in
      by_group rows (looked_up rows token got) one
    where
      by_group :
          (rows : List ModuleVersion)
          → lookup_latest_module_version (served_lists pg codec) path s
            ≡ (first_of (group_versions [] rows), s)
          → OneGroup path pg order (versions_named pg s.tables path false) rows
          → ((versions_named pg s.tables path false ≡ [])
              × (lookup_latest_module_version (served_lists pg codec) path s ≡ (err no_version, s)))
            ⊎ ((v : Text) × IsRelease v
                × (lookup_latest_module_version (served_lists pg codec) path s
                    ≡ (ok (b'v' ∷ v), s)))
      by_group rows got (inl (e, f)) =
          inl (f, got ∙ ap (λ r. (first_of (group_versions [] r), s)) e)
      by_group rows got (inr (g, e, newest)) =
          inr (g.version, newest, got ∙ ap (λ r. (first_of (group_versions [] r), s)) e)

  module _ (tools : Tools) (pages : ℕ) (line : CommandLine)
      (named : NamesLatest tools line path) where
    abbrev asked : CommandOp Session Output
    asked =
        run_query_module_graph tools (served_queries pg codec valid) (served_lists pg codec)
          (suc pages) (direction_of target) line

    abbrev walk_from : Format → Text → CommandOp Session Output
    walk_from format version =
        walk_and_write tools (served_queries pg codec valid) (served_lists pg codec) (suc pages)
          (direction_of target) (levels_asked line.max_depth) format
          (record { path = path; version = version })

    -- What follows the arguments.
    looks_up : asked s ≡ (
        if leb (formats_asked line.output) 1
        then with_op
            (lookup_latest_module_version (served_lists pg codec) path)
            (walk_from (format_of line.output))
            s
        else (err one_format_only, s))
    unfolding run_query_module_graph graph_command
    looks_up =
        let (version, latest, given) = graph_arguments-NamesLatest tools line path named in
        ap
          (λ r.
            with_arguments tools (served_queries pg codec valid) (served_lists pg codec) (suc pages)
              (direction_of target) (depth_of line.max_depth) r s)
          given
        ∙ by_count version latest (leb (formats_asked line.output) 1)
      where
        by_count :
            (version : Text)
            → is_latest version ≡ true
            → (b : Bool)
            → with_arguments tools
                (served_queries pg codec valid)
                (served_lists pg codec)
                (suc pages)
                (direction_of target)
                (depth_of line.max_depth)
                (if b
                  then ok (record { path = path; version = version }, format_of line.output)
                  else err one_format_only)
                s
              ≡ (if b
                  then with_op
                      (lookup_latest_module_version (served_lists pg codec) path)
                      (walk_from (format_of line.output))
                      s
                  else (err one_format_only, s))
        by_count version latest false = refl
        by_count version latest true = rw (depth_of-levels_asked line.max_depth, latest) refl

    walked :
        (v : Text)
        → IsRelease v
        → walk_from (format_of line.output) (b'v' ∷ v) s ≡ (
          write_tree tools (direction_of target) (format_of line.output) (
              unfold_tree
                (neighbours pg target s.tables)
                (levels_asked line.max_depth)
                1
                (release v)),
          s,
        )
    unfolding walk_and_write
    walked v newest =
        with_op-ok
          (walk_dependencies (served_queries pg codec valid) (direction_of target) (suc pages)
            (levels_asked line.max_depth) (release v))
          (λ tree.
            pure_result (write_tree tools (direction_of target) (format_of line.output) tree))
          (walk_dependencies-served pg laws codec codec_laws valid checks target s calm stored
            ok_before pages (levels_asked line.max_depth) (release v) (release-Known v newest)).0

    -- What the arguments give with one format or more, in the one case or in the other.
    by_formats :
        {r : Result CommandError Output × Session}
        → with_op
            (lookup_latest_module_version (served_lists pg codec) path)
            (walk_from (format_of line.output))
            s
          ≡ r
        → asked s ≡ (if leb (formats_asked line.output) 1 then r else (err one_format_only, s))
    by_formats h =
        looks_up
        ∙ ap (λ r. if leb (formats_asked line.output) 1 then r else (err one_format_only, s)) h

    -- Against the server on a valid database, whose versions are all accepted by the server, and
    -- with no failing round trip, `ancestors` and `descendants` of the latest version of a module
    -- whose name is plain, which is asked for by `latest`, by an empty version or by none, either
    -- fail, where the database has no release of the module; or print, in the one format that is
    -- asked for, or as JSON where none is, what the tree of the database's graph gives from the
    -- highest release, in that direction and down to the maximal depth, or to one level where that
    -- is not positive. Where more than one format is asked for they are refused.
    pub run_query_module_graph-latest :
        ((versions_named pg s.tables path false ≡ [])
          × (asked s ≡ (
              if leb (formats_asked line.output) 1
              then (err (rpc no_version), s)
              else (err one_format_only, s))))
        ⊎ ((v : Text) × IsRelease v
            × (asked s ≡ (
                if leb (formats_asked line.output) 1
                then (
                  write_tree tools (direction_of target) (format_of line.output) (
                      unfold_tree
                        (neighbours pg target s.tables)
                        (levels_asked line.max_depth)
                        1
                        (release v)),
                  s,
                )
                else (err one_format_only, s))))
    run_query_module_graph-latest = elim lookup_latest-IsRelease [
      | inl (e, h) ↦ inl (
        e,
        by_formats (
            with_op-err (lookup_latest_module_version (served_lists pg codec) path)
              (walk_from (format_of line.output)) h),
      )
      | inr (v, newest, h) ↦ inr (
        v,
        newest,
        by_formats (
            with_op-ok (lookup_latest_module_version (served_lists pg codec) path)
              (walk_from (format_of line.output)) h
            ∙ walked v newest),
      )
    ]
