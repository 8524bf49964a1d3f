-- ===== src/Client/Commands/ListSamples.antt =====
-- The list commands on a small database.
use perseus.Prelude.{
  ◌≡◌, refl, codes, true, false, none, some, List, [], ◌∷◌, map, sort, contains_any, arith,
}
use perseus.Prelude.Int.{pos}
use perseus.Store.Query.{ModuleVersion, version_before}
use perseus.Store.Query.Versions.{matching_modules, selected}
use perseus.Store.Samples.{plain, plain-order, list_codec, list_codec-laws, tables, stored}
use perseus.Server.Messages.{Module}
use perseus.Server.Modules.Listing.{Shown, Paired}
use perseus.Client.Lists.{module_item}
use perseus.Client.Output.{write_results}
use perseus.Client.Commands.{
  CommandLine, VersionFlags, shared_options, run_list_modules, run_list_module_versions,
  write_versions,
}
use perseus.Client.Commands.Samples.{tools, as_table}
use perseus.Client.Commands.Listed.{by_format, NamesPattern, served_lists, run_list_modules-served}
use perseus.Client.Commands.Versions.{row_item, Chosen, run_list_module_versions-served}

abbrev list_all : CommandLine
list_all = record {
  args = codes "?" ∷ [];
  output = as_table;
  max_depth = pos 0;
  server_addr = some (codes "http://localhost");
  insecure = none;
  env_addr = [];
  env_no_tls = [];
}

given : NamesPattern tools list_all (codes "?")
unfolding shared_options
given = record {
  conf = record { server_addr = codes "http://localhost"; disable_tls = false };
  configured = refl;
  argument = refl;
}

run_list_modules-served_example :
    (modules : List Module) × (run_list_modules tools
        (served_lists plain list_codec)
        1
        list_all
        stored
      ≡ (by_format as_table (λ f. write_results tools f (map module_item modules)), stored))
    × Paired
        (Shown plain tables)
        (matching_modules plain list_codec stored refl (codes "?"))
        modules
unfolding contains_any
run_list_modules-served_example =
    run_list_modules-served plain plain-order list_codec list_codec-laws stored refl tools 0
      list_all (codes "?") given (omega arith, tt)
      ((refl, refl, (omega arith, tt)), ((refl, refl, (omega arith, tt)), tt))

abbrev latest_flags : VersionFlags
latest_flags = record { versions = []; latest = true; include_prerelease = false }

run_list_module_versions-served_example :
    (rows : List ModuleVersion) × (run_list_module_versions tools
        (served_lists plain list_codec)
        1
        latest_flags
        list_all
        stored
      ≡ (
        by_format as_table (λ f.
            write_versions tools
              (served_lists plain list_codec)
              1
              f
              (map row_item (sort (version_before plain) rows))),
        stored,
      ))
    × Chosen plain plain-order true
        (selected plain list_codec stored refl
          (codes "?")
          []
          false
          true
          []
          (omega arith, tt)
          tt
          refl)
        rows
run_list_module_versions-served_example =
    run_list_module_versions-served plain plain-order list_codec list_codec-laws stored refl tools 0
      list_all latest_flags (codes "?") [] given refl (omega arith, tt) tt refl
