-- ===== src/Client/Flatten.antt =====
-- query.go: `flattenTree` makes a sorted list of a dependency tree.
pub mod Listed
use perseus.Prelude.{
  map-append, ℕ, suc, ◌==◌, ◌≡◌, refl, sym, ◌∙◌, ap, subst, Text, Bool, true, false, ◌||◌, ◌&&◌,
  List, [], ◌∷◌, ◌++◌, map, if◌then◌else◌, Bool-cases, inl, inr, any, text_eq, sort, compare_text,
  Ordering,
}
use perseus.Store.Postgres.{is_lt, is_eq}
use perseus.Client.Args.{ModuleVersion, show_version}
use perseus.Client.Trees.{Tree, Trees, node, no_tree, tree_then, deps_of}

-- The struct `dependencyItem`.
pub record DependencyItem : Type 0 where
  pub path : Text
  pub version : Text
  pub is_direct : Bool
  pub degree : ℕ

-- Whether a name stands in the map of unique modules.
abbrev pub is_seen : Text → List Text → Bool
is_seen name = any (text_eq name)

abbrev pub item : ModuleVersion → Bool → ℕ → DependencyItem
item m direct degree = record {
  path = m.path;
  version = m.version;
  is_direct = direct;
  degree = degree;
}

-- The items of a list of trees at a depth, and the unique modules behind them.
unfoldable pub process_children : Trees → List Text → ℕ → List DependencyItem × List Text
unfolding show_version
process_children no_tree seen depth = ([], seen)
process_children (tree_then (node m direct deps) rest) seen depth =
    let skipped = process_children rest seen depth in
    let below = process_children deps (show_version m ∷ seen) (suc depth) in
    let others = process_children rest below.1 depth in
    if is_seen (show_version m) seen
    then skipped
    else (item m (depth == 1) depth ∷ below.0 ++ others.0, others.1)

-- The loop over the direct dependencies, which are listed whether they were seen or not.
unfoldable pub flatten_deps : Trees → List Text → List DependencyItem
unfolding process_children
flatten_deps no_tree seen = []
flatten_deps (tree_then (node m direct deps) rest) seen =
    let below = process_children deps (show_version m ∷ seen) 2 in
    item m true 1 ∷ below.0 ++ flatten_deps rest below.1

abbrev pub is_gt : Ordering → Bool
is_gt Ordering.gt = true
is_gt _ = false

-- By path, and then from the highest version down; the comparison of versions is semver.Compare.
abbrev pub item_before : (Text → Text → Ordering) → DependencyItem → DependencyItem → Bool
item_before semver_compare a b =
    is_lt (compare_text a.path b.path)
    || (is_eq (compare_text a.path b.path) && is_gt (semver_compare a.version b.version))

unfoldable pub flatten_tree : (Text → Text → Ordering) → Tree → List DependencyItem
unfolding flatten_deps sort
flatten_tree semver_compare tree =
    sort (item_before semver_compare) (flatten_deps (deps_of tree) [])

abbrev pub item_name : DependencyItem → Text
item_name i = show_version (record { path = i.path; version = i.version })

-- Names that were not seen, each once.
abbrev pub Unique : List Text → List Text → Type 0
Unique seen [] = Unit
Unique seen (name ∷ names) = (any (text_eq name) seen ≡ false) × Unique (name ∷ seen) names

-- The names that have been seen after these.
abbrev pub see : List Text → List Text → List Text
see seen [] = seen
see seen (name ∷ names) = see (name ∷ seen) names

pub see-append : (seen xs ys : List Text) → see seen (xs ++ ys) ≡ see (see seen xs) ys
see-append seen [] ys = refl
see-append seen (x ∷ xs) ys = see-append (x ∷ seen) xs ys

pub Unique-append :
    (seen xs ys : List Text) → Unique seen xs → Unique (see seen xs) ys → Unique seen (xs ++ ys)
Unique-append seen [] ys u v = v
Unique-append seen (x ∷ xs) ys (n, u) v = (n, Unique-append (x ∷ seen) xs ys u v)

both-Unique :
    (seen middle last : List Text) (xs ys : List DependencyItem)
    → Unique seen (map item_name xs) × (middle ≡ see seen (map item_name xs))
    → Unique middle (map item_name ys) × (last ≡ see middle (map item_name ys))
    → Unique seen (map item_name (xs ++ ys)) × (last ≡ see seen (map item_name (xs ++ ys)))
both-Unique seen middle last xs ys (u, e) (v, f) = (
  subst (Unique seen) (sym (map-append item_name xs ys)) (
      Unique-append seen (map item_name xs) (map item_name ys) u
        (subst (λ t. Unique t (map item_name ys)) e v)),
  f
      ∙ ap (λ t. see t (map item_name ys)) e
      ∙ sym (see-append seen (map item_name xs) (map item_name ys))
      ∙ sym (ap (see seen) (map-append item_name xs ys)),
)

-- The items of `processChildren` are modules that had not been seen, each once, and the map that
-- it leaves has exactly these added.
pub process_children-Unique :
    (trees : Trees) (seen : List Text) (depth : ℕ)
    → Unique seen (map item_name (process_children trees seen depth).0)
      × ((process_children trees seen depth).1
          ≡ see seen (map item_name (process_children trees seen depth).0))
unfolding process_children
process_children-Unique no_tree seen depth = (tt, refl)
process_children-Unique (tree_then (node m direct deps) rest) seen depth =
    elim (Bool-cases (is_seen (show_version m) seen)) [
      | inl e ↦ rw (process_children, e) (process_children-Unique rest seen depth)
      | inr e ↦
          let below = process_children deps (show_version m ∷ seen) (suc depth) in
          let others = process_children rest below.1 depth in
          let (u, f) =
            both-Unique (show_version m ∷ seen) below.1 others.1 below.0 others.0
              (process_children-Unique deps (show_version m ∷ seen) (suc depth))
              (process_children-Unique rest below.1 depth) in
          rw (process_children, e) ((e, u), f)
    ]
