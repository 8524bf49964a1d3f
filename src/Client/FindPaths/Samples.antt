-- ===== src/Client/FindPaths/Samples.antt =====
-- `find-paths --all a@v1.0 b` on a small database.
use perseus.Prelude.{
  sort, text_eq, ap, ◌∙◌, Result, trim_prefix, ◌≡◌, ◌↔◌, refl, codes, true, false, not, none, some,
  List, [], ◌∷◌, ok, err, is_empty, arith,
}
use perseus.Prelude.Int.{pos}
use perseus.Store.Query.{dependees, join_dependencies}
use perseus.Store.Samples.{
  plain, plain-laws, list_codec, list_codec-laws, tables, stored, stored-IsValid,
}
use perseus.Server.Samples.{simple_check, simple_check-laws}
use perseus.Client.Samples.{stored-AllAccepted}
use perseus.Client.Walk.Served.{served_queries, neighbours}
use perseus.Client.Paths.Served.{query_graph, query_graph-served}
use perseus.Client.Paths.Goroutines.{Call, call_at, begun, plan_of, Pool, run, start}
use perseus.Client.Args.{ModuleVersion}
use perseus.Client.Retry.{RpcError, no_version}
use perseus.Client.Paths.{Graph, PathResult, hits, In}
use perseus.Client.Paths.Samples.{at_v1, any_b, five_moves}
use perseus.Client.FindPaths.{
  ModulePath, FindPathsTools, FindPathsLine, find_paths_arguments, written, run_find_paths,
  print_tree_to, print_json_lines_to,
}
use perseus.Client.FindPaths.Served.{Reaches, run_find_paths-served}

abbrev tools : FindPathsTools
tools = record {
  parse_bool = λ t. (false, true);
  check_path = λ p. not (is_empty p);
  lookup_latest = λ p. err no_version;
  quote = λ t. t;
  from_context = λ e. false;
}

abbrev all_from_a_to_b : FindPathsLine
all_from_a_to_b = record {
  args = codes "a@v1.0" ∷ codes "b" ∷ [];
  as_json = false;
  show_all = true;
  max_depth = pos 1;
  server_addr = some (codes "http://localhost");
  insecure = none;
  env_addr = [];
  env_no_tls = [];
}

one_path_as_tree :
    print_tree_to ((at_v1 (codes "a") ∷ at_v1 (codes "b") ∷ []) ∷ []) ≡ codes "a@v1\n-> b@v1\n"
unfolding print_tree_to
one_path_as_tree = refl

one_path_as_json :
    print_json_lines_to (λ t. t) ((at_v1 (codes "a") ∷ any_b ∷ []) ∷ []) ≡ codes "{a@v1:{b:{}}}\n"
unfolding print_json_lines_to
one_path_as_json = refl

abbrev a_v1 : ModuleVersion
a_v1 = record { path = codes "a"; version = codes "v1.0" }

abbrev b_v2 : ModuleVersion
b_v2 = record { path = codes "b"; version = codes "v2.0" }

named : find_paths_arguments tools all_from_a_to_b ≡ ok (a_v1, any_b)
unfolding find_paths_arguments
named = refl

abbrev asked : Graph
asked = query_graph (served_queries plain list_codec simple_check) 1 stored

asked_of_a : asked a_v1 ≡ ok (b_v2 ∷ [])
unfolding trim_prefix sort join_dependencies text_eq
asked_of_a =
    query_graph-served plain plain-laws list_codec list_codec-laws simple_check simple_check-laws
      stored refl stored-AllAccepted stored-IsValid 0 a_v1 (refl, (codes "1.0", refl))

asked_of_b : asked b_v2 ≡ ok []
unfolding trim_prefix sort join_dependencies text_eq
asked_of_b =
    query_graph-served plain plain-laws list_codec list_codec-laws simple_check simple_check-laws
      stored refl stored-AllAccepted stored-IsValid 0 b_v2 (refl, (codes "2.0", refl))

abbrev all_returned : Pool
all_returned = record { tasks = []; free = 1; delivered = ok (a_v1 ∷ b_v2 ∷ []) ∷ [] }

-- The search when the query of its one goroutine has returned.
abbrev after_query : Call → Result RpcError (List ModuleVersion) → List PathResult → Pool
after_query c r delivered = record {
  tasks = begun (plan_of any_b c r) ∷ [];
  free = 0;
  delivered = delivered;
}

five_moves-returned : run asked any_b five_moves (start 1 1 a_v1) ≡ some all_returned
unfolding run start text_eq hits
five_moves-returned =
    ap (λ r. run asked any_b (0 ∷ 0 ∷ 0 ∷ 0 ∷ []) (after_query (call_at 1 [] a_v1) r [])) asked_of_a
    ∙ ap
        (λ r.
          run asked any_b (0 ∷ [])
            (after_query (call_at 0 (a_v1 ∷ []) b_v2) r all_returned.delivered))
        asked_of_b

run_find_paths-served_example :
    (paths : List ModulePath) × (run_find_paths tools
        (λ cancels from to. all_returned.delivered)
        all_from_a_to_b
      ≡ ok (written tools all_from_a_to_b paths))
    × ((path : ModulePath)
        → In path paths ↔ Reaches (λ m. ok (neighbours plain dependees tables m)) a_v1 any_b 2 path)
unfolding trim_prefix
run_find_paths-served_example =
    run_find_paths-served plain plain-laws list_codec list_codec-laws simple_check simple_check-laws
      stored refl stored-AllAccepted stored-IsValid tools all_from_a_to_b
      (λ cancels from to. all_returned.delivered) 1 0 five_moves a_v1 any_b all_returned named
      (refl, (codes "1.0", refl)) refl (omega arith) five_moves-returned refl refl
