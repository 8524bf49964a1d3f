-- ===== src/Client/Trees.antt =====
-- query.go: the tree of dependencies.
use perseus.Prelude.{Bool, false, []}
use perseus.Client.Args.{ModuleVersion}

-- The struct `dependencyTreeNode`, and a slice of it.
mutual
  pub data Tree : Type 0 where
    node : ModuleVersion → Bool → Trees → Tree

  pub data Trees : Type 0 where
    no_tree : Trees
    tree_then : Tree → Trees → Trees

-- The zero value
abbrev pub zero_version : ModuleVersion
zero_version = record { path = []; version = [] }

abbrev pub zero_tree : Tree
zero_tree = node zero_version false no_tree

abbrev pub deps_of : Tree → Trees
deps_of (node m direct deps) = deps

abbrev pub append_trees : Trees → Trees → Trees
append_trees no_tree ts = ts
append_trees (tree_then t rest) ts = tree_then t (append_trees rest ts)
