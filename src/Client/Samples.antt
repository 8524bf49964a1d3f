-- ===== src/Client/Samples.antt =====
-- Each theorem of the client at an input that meets its hypotheses.
use perseus.Prelude.{
  Any, All, ◌++◌, ℕ, zero, suc, ◌≤◌, ◌≡◌, ◌↔◌, refl, Text, codes, true, false, List, [], ◌∷◌, map,
  some, ok, err, is_empty, text_eq, trim_prefix, sort, if◌then◌else◌, arith, length,
}
use perseus.Server.Messages.{QueryDependenciesRequest, ModulesResponse}
use perseus.Server.Messages
use perseus.Client.Retry.{unavailable, Op, Attempts, retry_op, retry_op-Attempts}
use perseus.Client.Args.{ModuleVersion}
use perseus.Client.Config.{ParseBool, parse_shared_query_opts, parse_shared_query_opts_lem}
use perseus.Client.Trees.{Tree, Trees, node, no_tree, tree_then}
use perseus.Client.Walk.{Service, walk_dependencies, unfold_tree, module_message}
use perseus.Client.Flatten.Listed.{RootsSeen, FromNodes, nodes, process_children-listed}
use perseus.Client.Flatten.{process_children, Unique, see, item_name}
use perseus.Client.Paths.{In, IsPath, find_paths_between, find_paths_between_iff}
use perseus.Store.Valid.{IsValid}
use perseus.Store.Samples.{
  plain, plain-laws, list_codec, list_codec-laws, tables, stored, stored-IsValid,
}
use perseus.Store.Graph.{Node}
use perseus.Store.Query.{module_name, dependees, join_dependencies}
use perseus.Store.Query.Edges.{edge_of}
use perseus.Client.Walk.Served.{
  AllAccepted, served_queries, neighbours, has_node, cast_of, walk_dependencies-served,
}
use perseus.Server.Backend.{postgres_client}
use perseus.Server.Dependencies.{update_dependencies}
use perseus.Server.Samples.{simple_check, simple_check-laws}
use perseus.Client.Update.{ModFile, ModuleInfo, Sources, read_module_info, run_update}
use perseus.Client.Dot.{DotEdge}
use perseus.Client.Dot.File.{dot_header, dot_lines, generate_dot_graph}
use perseus.Client.Dot.Drawn.{arrow_text, EdgesSeen, DrawnFor, links, generate_dot_graph-closed}
use perseus.Server.Messages.{Module}
use perseus.Client.Update.Served.{UpdateEnds, served, Sent, run_update-refines}
use perseus.Client.Update.Releases.{Release, read_module_info-Release}

-- A server that is unavailable for a number of attempts.
abbrev wake : Op ℕ ℕ
wake zero = (ok 7, 0)
wake (suc n) = (err unavailable, n)

retry_op-Attempts_example : Attempts wake 5 2 (retry_op wake 2)
retry_op-Attempts_example = retry_op-Attempts wake 2

abbrev at_version : Text → Text → ModuleVersion
at_version path version = record { path = path; version = version }

abbrev parse_true : ParseBool
parse_true t = if text_eq t (codes "true") then (true, false) else (false, true)

parse_true-law : (t : Text) → (parse_true t).1 ≡ true → (parse_true t).0 ≡ false
parse_true-law t h = ground arith

parse_shared_query_opts_lem_example :
    parse_shared_query_opts parse_true
      (codes "http://env")
      (codes "true")
      (some (codes "http://flag"))
      (some false)
    ≡ ok (record { server_addr = codes "http://flag"; disable_tls = false })
parse_shared_query_opts_lem_example =
    parse_shared_query_opts_lem parse_true (codes "http://env") (codes "true")
      (some (codes "http://flag")) (some false) parse_true-law

-- Module a depends on b and c, and c on b.
abbrev graph : ModuleVersion → List ModuleVersion
graph m =
    if text_eq m.path (codes "a")
    then at_version (codes "b") (codes "v1") ∷ at_version (codes "c") (codes "v2") ∷ []
    else (if text_eq m.path (codes "c") then at_version (codes "b") (codes "v1") ∷ [] else [])

abbrev respond : Text → QueryDependenciesRequest → Op ℕ ModulesResponse
respond token req n = (
  ok (record {
    modules = map module_message (graph (at_version req.module_name req.version));
    next_page_token = token;
  }),
  n,
)

abbrev service : Text → Service ℕ
service token = record { query_dependencies = respond token; is_done = λ _. false }

-- Module c with b below it, and b beside it.
abbrev twice : Trees
twice =
    tree_then
      (node (at_version (codes "c") (codes "v2")) false
        (tree_then (node (at_version (codes "b") (codes "v1")) false no_tree) no_tree))
      (tree_then (node (at_version (codes "b") (codes "v1")) false no_tree) no_tree)

process_children-listed_example :
    Unique [] (map item_name (process_children twice [] 2).0)
    × ((process_children twice [] 2).1 ≡ see [] (map item_name (process_children twice [] 2).0))
    × RootsSeen twice (process_children twice [] 2).1
    × FromNodes (process_children twice [] 2).1 (nodes twice 2) (process_children twice [] 2).0
process_children-listed_example = process_children-listed twice [] 2

find_paths_between_iff_example :
    In
      (ok (
        at_version (codes "a") (codes "v1")
        ∷ at_version (codes "c") (codes "v2")
        ∷ at_version (codes "b") (codes "v1")
        ∷ []))
      (find_paths_between
        (λ m. ok (graph m))
        4
        (at_version (codes "a") (codes "v1"))
        (at_version (codes "b") []))
    ↔ ((steps : List ModuleVersion) × ((at_version (codes "a") (codes "v1")
            ∷ at_version (codes "c") (codes "v2")
            ∷ at_version (codes "b") (codes "v1")
            ∷ [])
          ≡ (at_version (codes "a") (codes "v1") ∷ steps))
        × IsPath
            (λ m. ok (graph m))
            (at_version (codes "b") [])
            (at_version (codes "a") (codes "v1"))
            steps
        × (length steps ≤ 5))
find_paths_between_iff_example =
    find_paths_between_iff (λ m. ok (graph m)) (at_version (codes "b") []) 4
      (at_version (codes "a") (codes "v1"))
      (at_version (codes "a") (codes "v1")
        ∷ at_version (codes "c") (codes "v2")
        ∷ at_version (codes "b") (codes "v1")
        ∷ [])

-- A source whose modules are all called m, at the given version, with one direct and one indirect
-- dependency.
abbrev one_source : Sources
one_source = record {
  version_tags = λ _. ok (codes "v1.0" ∷ []);
  stat = λ _. some true;
  read_file = λ _. some [];
  parse_lax = λ _. some m_file;
  current_version = λ _ _. ok (codes "v2.0");
  mod_file_at = λ _ _. ok m_file;
  prerelease = λ v. [];
}
  where
    m_file : ModFile
    m_file = record {
      mod_path = some (codes "m");
      requires =
          record { mod_version = at_version (codes "b") (codes "v2.0"); indirect = false }
          ∷ record { mod_version = at_version (codes "c") (codes "v3.0"); indirect = true }
          ∷ [];
    }

read_module_info-Release_example :
    Release one_source (read_module_info one_source false [] (codes "./m") [])
read_module_info-Release_example = read_module_info-Release one_source [] (codes "./m") []

run_update-refines_example :
    UpdateEnds
      (λ s'.
        IsValid plain s'
        × (is_empty (codes "http://localhost") ≡ false)
        × ((info : ModuleInfo) × (read_module_info one_source false (codes "v1.0") (codes "./m") []
              ≡ ok info)
            × Sent plain plain-laws list_codec simple_check simple_check-laws info stored s'))
      (λ s'. IsValid plain s' × (s'.tables ≡ stored.tables))
      (run_update
        (λ req. served (update_dependencies (postgres_client plain list_codec) simple_check req))
        one_source
        false
        (codes "http://localhost")
        (codes "v1.0")
        (codes "./m")
        []
        stored)
run_update-refines_example =
    run_update-refines plain plain-laws list_codec simple_check simple_check-laws one_source false
      (codes "http://localhost") (codes "v1.0") (codes "./m") [] stored stored-IsValid

abbrev drawn_tree : Tree
drawn_tree = node (at_version (codes "a") (codes "v1")) true twice

generate_dot_graph-closed_example :
    (edges : List DotEdge) × (generate_dot_graph (λ t. t) drawn_tree Messages.dependents
      ≡ some (
          dot_header Messages.dependents
          ++ dot_lines (λ t. t) Messages.dependents edges
          ++ codes "\t}\n}\n"))
    × Unique [] (map arrow_text edges)
    × EdgesSeen arrow_text
        (at_version (codes "a") (codes "v1"))
        twice
        (see [] (map arrow_text edges))
    × All
        (λ e.
          Any
            (DrawnFor arrow_text (see [] (map arrow_text edges)) e)
            (links (tree_then drawn_tree no_tree)))
        edges
generate_dot_graph-closed_example =
    generate_dot_graph-closed (λ t. t) drawn_tree Messages.dependents

module_a : ModuleVersion
module_a = at_version (codes "a") (codes "v1.0")

pub stored-AllAccepted : AllAccepted plain simple_check tables.modules tables.versions
unfolding module_name
stored-AllAccepted = ((refl, (codes "2.0", refl)), ((refl, (codes "1.0", refl)), tt))

-- The database's one edge is found from either end.
walk_dependencies-served_example :
    (walk_dependencies
        (served_queries plain list_codec simple_check)
        Messages.dependencies
        1
        4
        module_a
        stored
      ≡ (ok (unfold_tree (neighbours plain dependees tables) 4 1 module_a), stored))
    × ((d : ModuleVersion) (b : Node)
        → has_node plain b (neighbours plain dependees tables d)
          ≡ edge_of dependees plain tables (d.path, cast_of plain d) b)
unfolding module_a trim_prefix
walk_dependencies-served_example =
    walk_dependencies-served plain plain-laws list_codec list_codec-laws simple_check
      simple_check-laws dependees stored refl stored-AllAccepted stored-IsValid 0 4 module_a
      (refl, (codes "1.0", refl))

walked_tree :
    unfold_tree (neighbours plain dependees tables) 4 1 module_a
    ≡ node module_a true
        (tree_then (node (at_version (codes "b") (codes "v2.0")) false no_tree) no_tree)
unfolding module_a trim_prefix sort join_dependencies text_eq
walked_tree = refl
