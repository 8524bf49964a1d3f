-- ===== src/Client/Dot.antt =====
-- query.go: `generateDotGraph` finds the edges of a tree, each once.
pub mod File
pub mod Drawn
use perseus.Prelude.{
  map-append, ℕ, zero, suc, ◌+◌, ◌≤◌, ◌≡◌, refl, sym, ap, subst, Text, codes, Bool, true, false,
  Option, none, some, List, [], ◌∷◌, ◌++◌, map, if◌then◌else◌, Bool-cases, inl, inr, arith,
}
use perseus.Client.Args.{ModuleVersion, show_version}
use perseus.Client.Trees.{Tree, Trees, node, no_tree, tree_then, append_trees}
use perseus.Client.Flatten.{is_seen, Unique, see, Unique-append}

-- An edge as it is drawn: a module and one of its dependencies.
abbrev pub DotEdge : Type 0
DotEdge = ModuleVersion × ModuleVersion

unfoldable pub edge_key : DotEdge → Text
unfolding show_version
edge_key (m, d) = show_version m ++ (codes "->" ++ show_version d)

abbrev pub is_leaf : Trees → Bool
is_leaf no_tree = true
is_leaf (tree_then t ts) = false

-- What the loop over the dependencies of a node leaves: the edges it writes, the nodes it puts on
-- the stack, and the edges that have been seen.
pub record Visit : Type 0 where
  pub edges : List DotEdge
  pub pushed : Trees
  pub seen : List Text

abbrev pub add_edge : ModuleVersion → ModuleVersion → Bool → Trees → Visit → Visit
add_edge m d direct below v = record {
  edges = (m, d) ∷ v.edges;
  pushed = if is_leaf below then v.pushed else tree_then (node d direct below) v.pushed;
  seen = v.seen;
}

unfoldable pub visit_deps : ModuleVersion → Trees → List Text → Visit
unfolding edge_key
visit_deps m no_tree seen = record { edges = []; pushed = no_tree; seen = seen }
visit_deps m (tree_then (node d direct below) rest) seen =
    let skipped = visit_deps m rest seen in
    let taken = add_edge m d direct below (visit_deps m rest (edge_key (m, d) ∷ seen)) in
    if is_seen (edge_key (m, d)) seen then skipped else taken

-- The loop over the stack, which is taken from the front and grows at the back.
unfoldable pub dot_loop : ℕ → Trees → List Text → Option (List DotEdge)
unfolding visit_deps
dot_loop fuel no_tree seen = some []
dot_loop zero (tree_then t rest) seen = none
dot_loop (suc fuel) (tree_then (node m direct deps) rest) seen =
    let v = visit_deps m deps seen in
    elim (dot_loop fuel (append_trees rest v.pushed) v.seen) [
      | none ↦ none
      | some edges ↦ some (v.edges ++ edges)
    ]

-- The number of nodes.
abbrev pub size : Trees → ℕ
size no_tree = 0
size (tree_then (node m direct deps) rest) = suc (size deps + size rest)

unfoldable pub dot_edges : Tree → Option (List DotEdge)
unfolding dot_loop
dot_edges tree = dot_loop (size (tree_then tree no_tree)) (tree_then tree no_tree) []

size-append : (ts us : Trees) → size (append_trees ts us) ≡ size ts + size us
size-append no_tree us = omega arith
size-append (tree_then (node m direct deps) rest) us = omega (arith, size-append rest us)

-- The edges are new, each once, and have been seen behind the loop; it pushes at most what is there.
pub visit_deps-Unique :
    (m : ModuleVersion) (deps : Trees) (seen : List Text)
    → Unique seen (map edge_key (visit_deps m deps seen).edges)
      × ((visit_deps m deps seen).seen ≡ see seen (map edge_key (visit_deps m deps seen).edges))
      × (size (visit_deps m deps seen).pushed ≤ size deps)
unfolding visit_deps
visit_deps-Unique m no_tree seen = (tt, refl, omega arith)
visit_deps-Unique m (tree_then (node d direct below) rest) seen =
    elim (Bool-cases (is_seen (edge_key (m, d)) seen)) [
      | inl e ↦
          let (u, f, l) = visit_deps-Unique m rest seen in rw (visit_deps, e) (u, f, omega arith)
      | inr e ↦
          let (u, f, l) = visit_deps-Unique m rest (edge_key (m, d) ∷ seen) in
          rw (visit_deps, e)
            (
              (e, u),
              f,
              pushed_size (is_leaf below) (visit_deps m rest (edge_key (m, d) ∷ seen)).pushed l,
            )
    ]
  where
    pushed_size :
        (leaf : Bool) (ts : Trees)
        → size ts ≤ size rest
        → size (if leaf then ts else tree_then (node d direct below) ts)
          ≤ suc (size below + size rest)
    pushed_size true ts l = omega arith
    pushed_size false ts l = omega arith

dot_loop-Unique :
    (fuel : ℕ) (queue : Trees) (seen : List Text)
    → size queue ≤ fuel
    → (edges : List DotEdge) × (dot_loop fuel queue seen ≡ some edges)
      × Unique seen (map edge_key edges)
unfolding dot_loop
dot_loop-Unique fuel no_tree seen l = ([], refl, tt)
dot_loop-Unique zero (tree_then (node m direct deps) rest) seen l = absurd (omega arith)
dot_loop-Unique (suc fuel) (tree_then (node m direct deps) rest) seen l =
    let v = visit_deps m deps seen in
    let (u, f, k) = visit_deps-Unique m deps seen in
    let smaller : size (append_trees rest v.pushed) ≤ fuel =
      omega (arith, size-append rest v.pushed) in
    let (edges, got, w) = dot_loop-Unique fuel (append_trees rest v.pushed) v.seen smaller in
    (
      v.edges ++ edges,
      rw (dot_loop, got),
      subst (Unique seen) (sym (map-append edge_key v.edges edges)) (
          Unique-append seen (map edge_key v.edges) (map edge_key edges) u
            (subst (λ t. Unique t (map edge_key edges)) f w)),
    )

-- The loop ends, and no two of its edges have the same key.
pub dot_edges-Unique :
    (tree : Tree)
    → (edges : List DotEdge) × (dot_edges tree ≡ some edges) × Unique [] (map edge_key edges)
unfolding dot_edges
dot_edges-Unique (node m direct deps) =
    dot_loop-Unique (size (tree_then (node m direct deps) no_tree))
      (tree_then (node m direct deps) no_tree) [] (omega arith)
