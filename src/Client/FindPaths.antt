-- ===== src/Client/FindPaths.antt =====
-- findpath.go: the command `find-paths`. The schedule of the search is a parameter: which results
-- the channel delivers, in which order.
pub mod All
pub mod Served
mod Samples
use perseus.Prelude.{
  ℕ, zero, suc, Text, codes, Bool, true, false, Option, List, [], ◌∷◌, ◌++◌, if◌then◌else◌, Result,
  ok, err, ◌>>=◌,
}
use perseus.Prelude.Int.{ℤ}
use perseus.Client.Retry.{RpcError, bad_argument}
use perseus.Client.Args.{ModuleVersion, show_version, parse_module_arg}
use perseus.Client.Config.{ParseBool, parse_shared_query_opts}
use perseus.Client.Paths.{PathResult}

abbrev pub ModulePath : Type 0
ModulePath = List ModuleVersion

-- strings.Repeat
abbrev pub repeat_text : ℕ → Text → Text
repeat_text zero s = []
repeat_text (suc n) s = s ++ repeat_text n s

abbrev pub newline : Text
newline = 10 ∷ []

-- What stands before a module at a place of a path.
abbrev pub indentation : ℕ → Text
indentation zero = []
indentation (suc n) = repeat_text n (codes "   ") ++ codes "-> "

abbrev pub path_tree : ℕ → ModulePath → Text
path_tree indent [] = []
path_tree indent (m ∷ ms) =
    indentation indent ++ show_version m ++ newline ++ path_tree (suc indent) ms

unfoldable pub print_tree_to : List ModulePath → Text
unfolding show_version
print_tree_to [] = []
print_tree_to (p ∷ ps) = path_tree 0 p ++ print_tree_to ps

-- The keys of a path, one inside the other; `quote` is the verb %q.
abbrev pub path_keys : (Text → Text) → ModulePath → Text
path_keys quote [] = []
path_keys quote (m ∷ ms) = codes "{" ++ quote (show_version m) ++ codes ":" ++ path_keys quote ms

abbrev pub path_braces : ModulePath → Text
path_braces [] = []
path_braces (m ∷ ms) = codes "}" ++ path_braces ms

unfoldable pub print_json_lines_to : (Text → Text) → List ModulePath → Text
unfolding show_version
print_json_lines_to quote [] = []
print_json_lines_to quote (p ∷ ps) =
    path_keys quote p ++ codes "{}" ++ path_braces p ++ newline ++ print_json_lines_to quote ps

-- The command line, and the environment.
pub record FindPathsLine : Type 0 where
  pub args : List Text
  pub as_json : Bool
  pub show_all : Bool
  pub max_depth : ℤ
  pub server_addr : Option Text
  pub insecure : Option Bool
  pub env_addr : Text
  pub env_no_tls : Text

-- What the command calls. `quote` is the verb %q of fmt, and `from_context` tells whether an error
-- is context.Canceled.
pub record FindPathsTools : Type 0 where
  pub parse_bool : ParseBool
  pub check_path : Text → Bool
  pub lookup_latest : Text → Result RpcError Text
  pub quote : Text → Text
  pub from_context : RpcError → Bool

-- The loop over the channel. A canceled context ends it without an error. connect.CodeOf looks at
-- the error of the command, which is nil here, so that its test never holds.
unfoldable pub collect : (RpcError → Bool) → List PathResult → Result RpcError (List ModulePath)
collect from_context [] = ok []
collect from_context (err e ∷ rs) = if from_context e then ok [] else err e
collect from_context (ok p ∷ rs) = collect from_context rs >>= λ ps. ok (p ∷ ps)

abbrev pub two_arguments : List Text → Result RpcError (Text × Text)
two_arguments (from ∷ to ∷ []) = ok (from, to)
two_arguments _ = err bad_argument

-- The two modules that are asked for; only the first of them gets the latest version.
unfoldable pub find_paths_arguments :
    FindPathsTools → FindPathsLine → Result RpcError (ModuleVersion × ModuleVersion)
unfolding parse_shared_query_opts parse_module_arg
find_paths_arguments tools line =
    parse_shared_query_opts tools.parse_bool line.env_addr line.env_no_tls line.server_addr
      line.insecure
    >>= λ _. two_arguments line.args >>= λ (a, b).
        parse_module_arg tools.check_path tools.lookup_latest true a >>= λ from.
        parse_module_arg tools.check_path tools.lookup_latest false b >>= λ to. ok (from, to)

unfoldable pub written : FindPathsTools → FindPathsLine → List ModulePath → Text
unfolding print_tree_to print_json_lines_to
written tools line paths =
    if line.as_json then print_json_lines_to tools.quote paths else print_tree_to paths

-- runFindPathsCommand: `received` is what the channel delivers for the two modules, given whether
-- the context is canceled behind the first path.
unfoldable pub run_find_paths :
    FindPathsTools
    → (Bool → ModuleVersion → ModuleVersion → List PathResult)
    → FindPathsLine
    → Result RpcError Text
unfolding find_paths_arguments collect written
run_find_paths tools received line = find_paths_arguments tools line >>= λ (from, to).
    collect tools.from_context (received (if line.show_all then false else true) from to)
    >>= λ paths. ok (written tools line paths)
