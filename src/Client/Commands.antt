-- ===== src/Client/Commands.antt =====
-- query.go: the commands `query list-modules`, `list-module-versions`, `ancestors` and
-- `descendants`.
pub mod Graph
pub mod Listed
pub mod Versions
pub mod Latest
mod Samples
mod ListSamples
use perseus.Prelude.{
  ℕ, suc, Text, codes, Bool, true, false, not, ◌&&◌, ◌||◌, Option, none, some, List, [], ◌∷◌, ◌++◌,
  map, if◌then◌else◌, Result, ok, err, ◌>>=◌, map_err, check, is_empty, text_eq, split, has_prefix,
  Ordering,
}
use perseus.Prelude.Int.{ℤ, pos, pos_part, is_positive}
use perseus.Server.Messages.{Direction, dependencies, dependents}
use perseus.Client.Retry.{RpcError, Op}
use perseus.Client.Args.{ModuleVersion, module_of, xor}
use perseus.Client.Config.{ParseBool, ClientConfig, parse_shared_query_opts}
use perseus.Client.Trees.{Tree}
use perseus.Client.Walk.{Service, walk_dependencies}
use perseus.Client.Flatten.{DependencyItem, flatten_tree}
use perseus.Client.Dot.{DotEdge, dot_edges}
use perseus.Client.Lists.{
  ListService, list_modules, list_module_versions, lookup_latest_module_version,
}
use perseus.Client.Output.{
  OutputFlags, Format, templated, table, dot_graph, json, CommandError, rpc, arguments_required,
  dot_not_supported, one_format_only, invalid_module, invalid_version, invalid_template,
  has_template, format_of, graph_format, list_format, Tools, apply_template, full_name, Output,
  nothing, write_results, write_tree,
}

-- The command line, and the environment.
pub record CommandLine : Type 0 where
  pub args : List Text
  pub output : OutputFlags
  pub max_depth : ℤ
  pub server_addr : Option Text
  pub insecure : Option Bool
  pub env_addr : Text
  pub env_no_tls : Text

unfoldable pub shared_options : Tools → CommandLine → Result CommandError ClientConfig
unfolding parse_shared_query_opts
shared_options tools line = map_err rpc (
    parse_shared_query_opts tools.parse_bool line.env_addr line.env_no_tls line.server_addr
      line.insecure)

abbrev pub one_argument : List Text → Result CommandError Text
one_argument (arg ∷ []) = ok arg
one_argument _ = err arguments_required

-- if maxDepth <= 0 { maxDepth = 1 }
unfoldable pub depth_of : ℤ → ℕ
depth_of d = if is_positive d then pos_part d else 1

-- The module and the format that the arguments of `ancestors` and `descendants` give.
unfoldable pub graph_arguments : Tools → CommandLine → Result CommandError (ModuleVersion × Format)
unfolding graph_format shared_options
graph_arguments tools line = shared_options tools line >>= λ _. one_argument line.args >>= λ arg.
    map_err (λ _. invalid_module) (module_of (split b'@' arg)) >>= λ root.
    check (tools.check_path root.path) invalid_module >>= λ _.
    graph_format line.output >>= λ format. ok (root, format)

-- An operation of the client in a command.
abbrev pub CommandOp {ℓ} : Type 0 → Type ℓ → Type ℓ
CommandOp S A = S → Result CommandError A × S

abbrev pub with_op {ℓ κ} :
    {S : Type 0} {A : Type ℓ} {B : Type κ} → Op S A → (A → CommandOp S B) → CommandOp S B
with_op op next s = let (r, t) = op s in elim r [ err e ↦ (err (rpc e), t) | ok a ↦ next a t ]

abbrev pub pure_result {ℓ} : {S : Type 0} {A : Type ℓ} → Result CommandError A → CommandOp S A
pure_result r s = (r, s)

-- `""` and `latest` ask for the latest version.
abbrev pub is_latest : Text → Bool
is_latest version = is_empty version || text_eq version (codes "latest")

module _ {S : Type 0} (tools : Tools) (service : Service S) (lists : ListService S)
    (pages : ℕ) where
  unfoldable pub walk_and_write : Direction → ℕ → Format → ModuleVersion → CommandOp S Output
  unfolding write_tree walk_dependencies
  walk_and_write direction depth format root =
      with_op (walk_dependencies service direction pages depth root)
        (λ tree. pure_result (write_tree tools direction format tree))

  unfoldable pub graph_command : Direction → ℕ → ModuleVersion × Format → CommandOp S Output
  unfolding walk_and_write lookup_latest_module_version
  graph_command direction depth (root, format) =
      if is_latest root.version
      then with_op (lookup_latest_module_version lists root.path)
          (λ v. walk_and_write direction depth format (record root { version = v }))
      else if tools.is_semver root.version
      then walk_and_write direction depth format root
      else pure_result (err invalid_version)

  abbrev pub with_arguments :
      Direction → ℕ → Result CommandError (ModuleVersion × Format) → CommandOp S Output
  with_arguments direction depth (err e) s = (err e, s)
  with_arguments direction depth (ok given) s = graph_command direction depth given s

  -- runQueryModuleGraphCmd: `ancestors` asks for dependencies, `descendants` for dependents.
  unfoldable pub run_query_module_graph : Direction → CommandLine → CommandOp S Output
  unfolding graph_command graph_arguments depth_of
  run_query_module_graph direction line =
      with_arguments direction (depth_of line.max_depth) (graph_arguments tools line)

-- The flags of `list-module-versions`.
pub record VersionFlags : Type 0 where
  pub versions : Text
  pub latest : Bool
  pub include_prerelease : Bool

-- The pattern and the format that the arguments of the two lists give.
unfoldable pub list_arguments : Tools → CommandLine → Result CommandError (Text × Format)
unfolding list_format shared_options
list_arguments tools line = shared_options tools line >>= λ _.
    one_argument line.args >>= λ pattern. list_format line.output >>= λ format. ok (pattern, format)

module _ {S : Type 0} (tools : Tools) (lists : ListService S) (pages : ℕ) where
  abbrev pub list_with :
      (Text → Op S (List DependencyItem))
      → (Format → List DependencyItem → Result CommandError Output)
      → Result CommandError (Text × Format)
      → CommandOp S Output
  list_with fetch write (err e) s = (err e, s)
  list_with fetch write (ok (pattern, format)) s =
      with_op (fetch pattern) (λ items. pure_result (write format items)) s

  -- runListModulesCmd
  unfoldable pub run_list_modules : CommandLine → CommandOp S Output
  unfolding list_arguments write_results list_modules
  run_list_modules line =
      list_with (list_modules lists pages) (write_results tools) (list_arguments tools line)

  abbrev pub write_versions : Format → List DependencyItem → Result CommandError Output
  write_versions format [] = ok nothing
  write_versions format (i ∷ items) = write_results tools format (i ∷ items)

  -- runListModuleVersionsCmd
  unfoldable pub run_list_module_versions : VersionFlags → CommandLine → CommandOp S Output
  unfolding list_arguments write_results list_module_versions
  run_list_module_versions flags line =
      list_with
        (λ pattern.
          list_module_versions lists pages pattern flags.versions flags.latest
            flags.include_prerelease)
        write_versions (list_arguments tools line)
