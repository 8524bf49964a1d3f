-- ===== src/Client/Output.antt =====
-- query.go: the output formats of the query commands, and what they print. module.CheckPath,
-- semver.IsValid, semver.Compare and text/template are parameters; what a command prints is a value,
-- before it is laid out as a table or as JSON.
use perseus.Prelude.{
  Text, codes, Bool, true, false, not, ◌||◌, Option, none, some, List, [], ◌∷◌, ◌++◌, map,
  if◌then◌else◌, Result, ok, err, ◌>>=◌, check, is_empty, Ordering,
}
use perseus.Server.Messages.{Direction, dependencies}
use perseus.Client.Retry.{RpcError}
use perseus.Client.Args.{xor}
use perseus.Client.Config.{ParseBool}
use perseus.Client.Trees.{Tree}
use perseus.Client.Flatten.{DependencyItem, flatten_tree}
use perseus.Client.Dot.File.{generate_dot_graph}

-- The flags that choose an output format.
pub record OutputFlags : Type 0 where
  pub as_json : Bool
  pub as_list : Bool
  pub as_dot : Bool
  pub template : Text

pub data Format : Type 0 where
  templated : Text → Format
  table dot_graph json : Format

pub data CommandError : Type 0 where
  rpc : RpcError → CommandError
  arguments_required dot_not_supported one_format_only : CommandError
  invalid_module invalid_version invalid_template : CommandError

abbrev pub has_template : OutputFlags → Bool
has_template o = not (is_empty o.template)

-- The switch at the end of a command.
abbrev pub format_of : OutputFlags → Format
format_of o =
    if has_template o
    then templated o.template
    else if o.as_list
    then table
    else if o.as_dot
    then dot_graph
    else json

-- The format of `ancestors` and `descendants`; JSON where no format is asked for.
unfoldable pub graph_format : OutputFlags → Result CommandError Format
graph_format o =
    let as_json = o.as_json || not (o.as_list || (o.as_dot || has_template o)) in
    check (xor (as_json ∷ o.as_list ∷ o.as_dot ∷ has_template o ∷ [])) one_format_only >>= λ _.
    ok (format_of o)

-- The format of the two lists.
unfoldable pub list_format : OutputFlags → Result CommandError Format
list_format o =
    let as_json = o.as_json || not (o.as_list || has_template o) in
    check (not o.as_dot) dot_not_supported >>= λ _.
    check (xor (as_json ∷ o.as_list ∷ has_template o ∷ [])) one_format_only >>= λ _.
    ok (format_of o)

-- What the program calls; `quote` is the verb %q of fmt. A template that parses writes a text for an item, or fails.
pub record Tools : Type 0 where
  pub parse_bool : ParseBool
  pub check_path : Text → Bool
  pub is_semver : Text → Bool
  pub quote : Text → Text
  pub semver_compare : Text → Text → Ordering
  pub parse_template : Text → Option (DependencyItem → Option Text)

-- The lines that a template writes, up to the item at which it fails, if it does.
unfoldable pub apply_template :
    (DependencyItem → Option Text) → List DependencyItem → List Text × Bool
apply_template execute [] = ([], false)
apply_template execute (i ∷ items) =
    let (lines, failed) = apply_template execute items in
    elim (execute i) [ none ↦ ([], true) | some line ↦ (line ∷ lines, failed) ]

-- dependencyItem.Name
unfoldable pub full_name : DependencyItem → Text
full_name d = d.path ++ b'@' ∷ d.version

-- What a command prints: lines, with whether the template failed behind them; the rows of a table
-- below the labels of its columns; a DOT file; a tree; items.
pub data Output : Type 0 where
  nothing : Output
  lines : List Text → Bool → Output
  direct_rows : Text → List (Text × Bool) → Output
  version_rows : List (Text × Text) → Output
  dot_file : Option Text → Output
  json_tree : Tree → Output
  json_items : List DependencyItem → Output

abbrev pub templated_output :
    Option (DependencyItem → Option Text) → List DependencyItem → Result CommandError Output
templated_output none items = err invalid_template
templated_output (some execute) items =
    let (texts, failed) = apply_template execute items in ok (lines texts failed)

-- writeResults
unfoldable pub write_results : Tools → Format → List DependencyItem → Result CommandError Output
unfolding apply_template
write_results tools (templated t) items = templated_output (tools.parse_template t) items
write_results tools table items = ok (version_rows (map (λ i. (i.path, i.version)) items))
write_results tools dot_graph items = ok (json_items items)
write_results tools json items = ok (json_items items)

abbrev pub column_label : Direction → Text
column_label dependencies = codes "Dependency"
column_label _ = codes "Dependent"

-- The switch of runQueryModuleGraphCmd on its tree.
unfoldable pub write_tree : Tools → Direction → Format → Tree → Result CommandError Output
unfolding apply_template full_name generate_dot_graph
write_tree tools direction (templated t) tree =
    templated_output (tools.parse_template t) (flatten_tree tools.semver_compare tree)
write_tree tools direction table tree = ok (
    direct_rows (column_label direction)
      (map (λ i. (full_name i, i.is_direct)) (flatten_tree tools.semver_compare tree)))
write_tree tools direction dot_graph tree =
    ok (dot_file (generate_dot_graph tools.quote tree direction))
write_tree tools direction json tree = ok (json_tree tree)
