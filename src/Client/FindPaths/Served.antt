-- ===== src/Client/FindPaths/Served.antt =====
-- `find-paths --all` against the handler on the Postgres client.
use perseus.Prelude.{
  ℕ, suc, ◌<◌, ◌≤◌, ◌≡◌, ◌↔◌, sym, ap, ◌∙◌, subst, Bool, true, false, Text, some, List, [], ◌∷◌,
  length, ok,
}
use perseus.Prelude.Int.{pos_part}
use perseus.Store.Postgres.{Postgres, SemverLaws}
use perseus.Store.Session.{Session}
use perseus.Store.Valid.{IsValid}
use perseus.Store.Paging.Codecs.{Codec, CodecLaws}
use perseus.Store.Query.{dependees}
use perseus.Server.Dependencies.Update.{CheckLaws}
use perseus.Client.Args.{ModuleVersion}
use perseus.Client.Walk.Served.{Known, AllAccepted, served_queries, neighbours}
use perseus.Client.Paths.{Graph, PathResult, In, IsPath, find_paths_between, find_paths_between_iff}
use perseus.Client.Paths.Goroutines.{Pool, run, start}
use perseus.Client.Paths.Measures.{count}
use perseus.Client.Paths.Served.{
  query_graph, is_error, recursive_search-no_error, find_paths_between-served,
}
use perseus.Client.FindPaths.{
  ModulePath, FindPathsTools, FindPathsLine, find_paths_arguments, written, run_find_paths,
}
use perseus.Client.FindPaths.All.{run_find_paths-all}

-- The paths from a module to one that is looked for, of at most a number of steps.
abbrev pub Reaches : Graph → ModuleVersion → ModuleVersion → ℕ → ModulePath → Type 0
Reaches graph from to most path =
    (steps : ModulePath) × (path ≡ from ∷ steps)
    × IsPath graph to from steps
    × (length steps ≤ most)

-- Graphs in which the search finds the same have the same paths.
Reaches-same :
    (graph other : Graph) (from to : ModuleVersion) (max_depth : ℕ)
    → find_paths_between graph max_depth from to ≡ find_paths_between other max_depth from to
    → (path : ModulePath) → Reaches graph from to (suc max_depth) path
    → Reaches other from to (suc max_depth) path
Reaches-same graph other from to max_depth e path h =
    (find_paths_between_iff other to max_depth from path).0
      (subst (λ rs. In (ok path) rs) e ((find_paths_between_iff graph to max_depth from path).1 h))

module _ (pg : Postgres) (laws : SemverLaws pg) (codec : Codec) (codec_laws : CodecLaws codec)
    (valid : Text → Text → Bool) (checks : CheckLaws valid) (s : Session) (calm : s.faults ≡ [])
    (stored : AllAccepted pg valid s.tables.modules s.tables.versions)
    (ok_before : IsValid pg s) where
  -- Against the server on a valid database, whose versions are all accepted by the server, and with
  -- no failing round trip, for modules that the arguments of `find-paths --all` name, of which the
  -- server accepts the first, and whatever the schedule of the search once its goroutines have
  -- returned: the command prints the paths in the database's graph from the first module to the
  -- second, of at least one and at most one step more than the maximal depth, and no others.
  pub run_find_paths-served :
      (tools : FindPathsTools) (line : FindPathsLine)
      (received : Bool → ModuleVersion → ModuleVersion → List PathResult) (cpus pages : ℕ)
      (schedule : List ℕ) (from to : ModuleVersion) (pool : Pool)
      → find_paths_arguments tools line ≡ ok (from, to)
      → Known pg valid from
      → line.show_all ≡ true
      → 0 < cpus
      → run
          (query_graph (served_queries pg codec valid) (suc pages) s)
          to
          schedule
          (start cpus (pos_part line.max_depth) from)
        ≡ some pool
      → pool.tasks ≡ []
      → received false from to ≡ pool.delivered
      → (paths : List ModulePath) × (run_find_paths tools received line
          ≡ ok (written tools line paths))
        × ((path : ModulePath)
            → In path paths
              ↔ Reaches
                  (λ m. ok (neighbours pg dependees s.tables m))
                  from
                  to
                  (suc (pos_part line.max_depth))
                  path)
  unfolding find_paths_between
  run_find_paths-served tools line received cpus pages schedule from to pool named known all
        positive e h r =
      let same =
        find_paths_between-served pg laws codec codec_laws valid checks s calm stored ok_before
          pages (pos_part line.max_depth) from to known in
      let (paths, printed, found) =
        run_find_paths-all tools line asked received cpus schedule from to pool named all positive e
          h r
          (ap (count is_error) same
            ∙ recursive_search-no_error (neighbours pg dependees s.tables) to
                (pos_part line.max_depth) [] from) in
      (
        paths,
        printed,
        λ path.
            let (there, back) = found path in
            (
              λ i.
                  Reaches-same asked stored_graph from to (pos_part line.max_depth) same path
                    (there i),
              λ w. back (
                  Reaches-same stored_graph asked from to (pos_part line.max_depth) (sym same) path
                    w),
            ),
      )
    where
      asked : Graph
      asked = query_graph (served_queries pg codec valid) (suc pages) s

      stored_graph : Graph
      stored_graph m = ok (neighbours pg dependees s.tables m)
