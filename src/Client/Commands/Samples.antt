-- ===== src/Client/Commands/Samples.antt =====
-- The commands `query ancestors a@v1.0` and `query ancestors a` on a small database.
use perseus.Prelude.{
  inl, Text, ◌⊎◌, arith, contains_any, ◌≡◌, refl, codes, true, false, not, none, some, [], ◌∷◌, err,
  is_empty, has_prefix, compare_text, trim_prefix,
}
use perseus.Prelude.Int.{pos}
use perseus.Store.Session.{Session}
use perseus.Store.Query.{dependees}
use perseus.Store.Samples.{
  plain, plain-laws, plain-order, list_codec, list_codec-laws, tables, stored, stored-IsValid,
}
use perseus.Server.Messages
use perseus.Server.Samples.{simple_check, simple_check-laws}
use perseus.Client.Retry.{no_version}
use perseus.Client.Args.{ModuleVersion}
use perseus.Client.Walk.{unfold_tree}
use perseus.Client.Walk.Served.{served_queries, neighbours}
use perseus.Client.Lists.{ListService}
use perseus.Client.Samples.{stored-AllAccepted}
use perseus.Client.Output.{Tools, OutputFlags, Output, rpc, table, write_tree}
use perseus.Client.Commands.{
  CommandLine, CommandOp, depth_of, shared_options, run_query_module_graph,
}
use perseus.Client.Commands.Listed.{served_lists}
use perseus.Client.Commands.Latest.{NamesLatest, run_query_module_graph-latest}
use perseus.Store.Query.Newest.{versions_named, Newest}
use perseus.Client.Commands.Graph.{Names, run_query_module_graph-served}

abbrev pub tools : Tools
unfolding has_prefix
tools = record {
  parse_bool = λ t. (false, true);
  check_path = λ p. not (is_empty p);
  is_semver = λ v. has_prefix v (codes "v");
  quote = λ t. t;
  semver_compare = compare_text;
  parse_template = λ t. none;
}

abbrev pub as_table : OutputFlags
as_table = record { as_json = false; as_list = true; as_dot = false; template = [] }

abbrev ancestors_of_a : CommandLine
ancestors_of_a = record {
  args = codes "a@v1.0" ∷ [];
  output = as_table;
  max_depth = pos 4;
  server_addr = some (codes "http://localhost");
  insecure = none;
  env_addr = [];
  env_no_tls = [];
}

abbrev a_v1 : ModuleVersion
a_v1 = record { path = codes "a"; version = codes "v1.0" }

abbrev no_lists : ListService Session
no_lists = record {
  list_modules = λ req s. (err no_version, s);
  list_module_versions = λ req s. (err no_version, s);
}

named : Names tools ancestors_of_a a_v1
unfolding shared_options has_prefix tools
named = record {
  conf = record { server_addr = codes "http://localhost"; disable_tls = false };
  configured = refl;
  argument = refl;
  path_whole = refl;
  version_whole = refl;
  path_accepted = refl;
}

run_query_module_graph-served_example :
    run_query_module_graph tools
      (served_queries plain list_codec simple_check)
      no_lists
      1
      Messages.dependencies
      ancestors_of_a
      stored
    ≡ (
      write_tree tools Messages.dependencies table
          (unfold_tree (neighbours plain dependees tables) 4 1 a_v1),
      stored,
    )
unfolding depth_of trim_prefix has_prefix tools
run_query_module_graph-served_example =
    run_query_module_graph-served plain plain-laws list_codec list_codec-laws simple_check
      simple_check-laws dependees stored refl stored-AllAccepted stored-IsValid tools no_lists 0
      ancestors_of_a a_v1 named refl (refl, (codes "1.0", refl))

abbrev ancestors_of_latest : CommandLine
ancestors_of_latest = record ancestors_of_a { args = codes "a" ∷ [] }

named_latest : NamesLatest tools ancestors_of_latest (codes "a")
unfolding shared_options has_prefix tools
named_latest = record {
  conf = record { server_addr = codes "http://localhost"; disable_tls = false };
  configured = refl;
  argument = inl refl;
  path_whole = refl;
  path_accepted = refl;
}

abbrev latest_ancestors : CommandOp Session Output
latest_ancestors =
    run_query_module_graph tools (served_queries plain list_codec simple_check)
      (served_lists plain list_codec) 1 Messages.dependencies ancestors_of_latest

run_query_module_graph-latest_example :
    ((versions_named plain tables (codes "a") false ≡ [])
      × (latest_ancestors stored ≡ (err (rpc no_version), stored)))
    ⊎ ((v : Text) × Newest plain (versions_named plain tables (codes "a") false) v
        × (latest_ancestors stored ≡ (
          write_tree tools Messages.dependencies table (
              unfold_tree
                (neighbours plain dependees tables)
                4
                1
                (record { path = codes "a"; version = b'v' ∷ v })),
          stored,
        )))
unfolding contains_any
run_query_module_graph-latest_example =
    run_query_module_graph-latest plain plain-laws plain-order list_codec list_codec-laws
      simple_check simple_check-laws dependees stored refl stored-AllAccepted stored-IsValid
      (codes "a") (refl, refl, (omega arith, tt)) tools 0 ancestors_of_latest named_latest
