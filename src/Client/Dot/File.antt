-- ===== src/Client/Dot/File.antt =====
-- query.go: the text that `generateDotGraph` writes; `quote` is the verb %q of fmt.
use perseus.Prelude.{Text, codes, Option, none, some, List, [], ◌∷◌, ◌++◌}
use perseus.Server.Messages.{Direction, dependencies}
use perseus.Client.Args.{show_version}
use perseus.Client.Trees.{Tree}
use perseus.Client.Dot.{DotEdge, dot_edges}

abbrev pub rank_dir : Direction → Text
rank_dir dependencies = codes "LR"
rank_dir _ = codes "RL"

abbrev pub arrow_dir : Direction → Text
arrow_dir dependencies = codes " [dir=back]"
arrow_dir _ = []

-- The lines before the edges
abbrev pub dot_header : Direction → Text
dot_header direction =
    codes "digraph G {\n    bgcolor=\"#414142\";\n\trankdir=\""
    ++ rank_dir direction
    ++ codes "\";\n\tsubgraph cluster_D {\n        label=\"\";\n"
    ++ codes "        node [shape=box style=\"rounded,filled\" fontname=Arial fontsize=14 "
    ++ codes "margin=.25 fillcolor=\"#F3F3F4\" fontcolor=\"#58595B\"]\n"
    ++ codes "        edge [color=\"#EC3525\"]\n\t\tbgcolor=\"#58595B\";\n"
    ++ codes "        style=\"rounded\";\n"

-- A line for each edge, from the dependency to the module
unfoldable pub dot_lines : (Text → Text) → Direction → List DotEdge → Text
unfolding show_version
dot_lines quote direction [] = []
dot_lines quote direction ((m, d) ∷ edges) =
    codes "\t\t"
    ++ quote (show_version d)
    ++ codes " -> "
    ++ quote (show_version m)
    ++ arrow_dir direction
    ++ codes "\n"
    ++ dot_lines quote direction edges

unfoldable pub generate_dot_graph : (Text → Text) → Tree → Direction → Option Text
unfolding dot_edges dot_lines
generate_dot_graph quote tree direction = elim (dot_edges tree) [
  | none ↦ none
  | some edges ↦ some (dot_header direction ++ dot_lines quote direction edges ++ codes "\t}\n}\n")
]
