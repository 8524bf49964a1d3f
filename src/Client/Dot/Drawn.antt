-- ===== src/Client/Dot/Drawn.antt =====
-- What `generateDotGraph` draws: edges of the tree, and all that follow from one that is drawn.
use perseus.Prelude.{
  ℕ, zero, suc, ◌≡◌, ◌⊎◌, refl, sym, ap, ◌∙◌, subst, Text, codes, Bool, true, false, Option, none,
  some, List, [], ◌∷◌, ◌++◌, map, map-append, All, Any, any, text_eq, if◌then◌else◌, inl, inr,
  arith,
}
use perseus.Server.Messages.{Direction}
use perseus.Client.Args.{ModuleVersion, show_version}
use perseus.Client.Trees.{Tree, Trees, node, no_tree, tree_then, append_trees, deps_of}
use perseus.Client.Flatten.{is_seen, Unique, see, see-append}
use perseus.Client.Flatten.Listed.{
  is_seen-see, is_seen-head, Any-left, Any-right, All-weaken, All-append,
}
use perseus.Client.Dot.{
  DotEdge, Visit, add_edge, edge_key, is_leaf, visit_deps, visit_deps-Unique, dot_loop, size,
  dot_edges, dot_edges-Unique,
}
use perseus.Client.Dot.File.{dot_header, dot_lines, generate_dot_graph}

-- A place of the tree at which a dependency stands below a module, with the trees below it.
pub record Link : Type 0 where
  pub from : ModuleVersion
  pub to : ModuleVersion
  pub below : Trees

abbrev pub root_of : Tree → ModuleVersion
root_of (node m direct deps) = m

abbrev pub links_to : ModuleVersion → Trees → List Link
links_to m no_tree = []
links_to m (tree_then (node d direct below) rest) =
    record { from = m; to = d; below = below } ∷ links_to m rest

abbrev pub links : Trees → List Link
links no_tree = []
links (tree_then (node m direct deps) rest) = links_to m deps ++ (links deps ++ links rest)

-- A module and a dependency, as they are told apart in the file.
abbrev pub arrow_text : DotEdge → Text
arrow_text (m, d) = show_version m ++ (codes "->" ++ show_version d)

module _ (key : DotEdge → Text) where
  -- The edges from a module to the roots of trees have all been seen.
  abbrev pub EdgesSeen : ModuleVersion → Trees → List Text → Type 0
  EdgesSeen m no_tree seen = Unit
  EdgesSeen m (tree_then (node d direct below) rest) seen =
      (any (text_eq (key (m, d))) seen ≡ true) × EdgesSeen m rest seen

  -- The edge is that of the place, and the edges from its dependency to what is below it are seen.
  abbrev pub DrawnFor : List Text → DotEdge → Link → Type 0
  DrawnFor seen e l = (e ≡ (l.from, l.to)) × EdgesSeen l.to l.below seen

  -- The edges below every node of the stack have been seen.
  abbrev StackSeen : Trees → List Text → Type 0
  StackSeen no_tree seen = Unit
  StackSeen (tree_then (node m direct deps) rest) seen = EdgesSeen m deps seen × StackSeen rest seen

  EdgesSeen-see :
      (m : ModuleVersion) (ts : Trees) (seen names : List Text)
      → EdgesSeen m ts seen
      → EdgesSeen m ts (see seen names)
  EdgesSeen-see m no_tree seen names h = tt
  EdgesSeen-see m (tree_then (node d direct below) rest) seen names (h, hs) =
      (is_seen-see (key (m, d)) seen names h, EdgesSeen-see m rest seen names hs)

  StackSeen-parts :
      (ts us : Trees) (seen : List Text)
      → StackSeen (append_trees ts us) seen
      → StackSeen ts seen × StackSeen us seen
  StackSeen-parts no_tree us seen h = (tt, h)
  StackSeen-parts (tree_then (node m direct deps) rest) us seen (h, hs) =
      let (l, r) = StackSeen-parts rest us seen hs in ((h, l), r)

module _ (P : Link → Type 0) where
  Any-parts : (xs ys : List Link) → Any P (xs ++ ys) → Any P xs ⊎ Any P ys
  Any-parts [] ys h = inr h
  Any-parts (x ∷ xs) ys (inl h) = inl (inl h)
  Any-parts (x ∷ xs) ys (inr h) = elim (Any-parts xs ys h) [ inl k ↦ inl (inr k) | inr k ↦ inr k ]

  -- The links of two lists with a part in common, where the others' are passed on.
  Any-both : (xs ys zs : List Link) → (Any P ys → Any P zs) → Any P (xs ++ ys) → Any P (xs ++ zs)
  Any-both xs ys zs f h = elim (Any-parts xs ys h) [
    | inl k ↦ Any-left P xs zs k
    | inr k ↦ Any-right P xs zs (f k)
  ]

  links-append_trees :
      (ts us : Trees) → Any P (links (append_trees ts us)) → Any P (links ts) ⊎ Any P (links us)
  links-append_trees no_tree us h = inr h
  links-append_trees (tree_then (node m direct deps) rest) us h =
      elim (Any-parts (links_to m deps) (links deps ++ links (append_trees rest us)) h) [
        | inl k ↦ inl (Any-left P (links_to m deps) (links deps ++ links rest) k)
        | inr k ↦ elim (Any-parts (links deps) (links (append_trees rest us)) k) [
          | inl j ↦ inl (
              Any-right P (links_to m deps) (links deps ++ links rest)
                (Any-left P (links deps) (links rest) j))
          | inr j ↦ elim (links-append_trees rest us j) [
            | inl i ↦ inl (
                Any-right P (links_to m deps) (links deps ++ links rest)
                  (Any-right P (links deps) (links rest) i))
            | inr i ↦ inr i
          ]
        ]
      ]

  -- What is pushed has only links of the trees.
  links-pushed :
      (m : ModuleVersion) (deps : Trees) (seen : List Text)
      → Any P (links (visit_deps m deps seen).pushed)
      → Any P (links deps)
  unfolding visit_deps
  links-pushed m no_tree seen h = h
  links-pushed m (tree_then (node d direct below) rest) seen h =
      by_seen (is_seen (edge_key (m, d)) seen) (links-pushed m rest seen)
        (links-pushed m rest (edge_key (m, d) ∷ seen)) h
    where
      taken : Trees
      taken = (visit_deps m rest (edge_key (m, d) ∷ seen)).pushed

      beside : Any P (links rest) → Any P (links (tree_then (node d direct below) rest))
      beside k =
          Any-right P (links_to d below) (links below ++ links rest)
            (Any-right P (links below) (links rest) k)

      by_leaf :
          (leaf : Bool)
          → (Any P (links taken) → Any P (links rest))
          → Any P (links (if leaf then taken else tree_then (node d direct below) taken))
          → Any P (links (tree_then (node d direct below) rest))
      by_leaf true g h = beside (g h)
      by_leaf false g h =
          Any-both (links_to d below) (links below ++ links taken) (links below ++ links rest)
            (Any-both (links below) (links taken) (links rest) g) h

      by_seen :
          (b : Bool)
          → (Any P (links (visit_deps m rest seen).pushed) → Any P (links rest))
          → (Any P (links taken) → Any P (links rest))
          → Any P (
              links
                (if b
                  then visit_deps m rest seen
                  else add_edge m d direct below
                      (visit_deps m rest (edge_key (m, d) ∷ seen))).pushed)
          → Any P (links (tree_then (node d direct below) rest))
      by_seen true f g h = beside (f h)
      by_seen false f g h = by_leaf (is_leaf below) g h

-- What the loop over the dependencies leaves: all edges to them have been seen; and every edge that
-- it writes is drawn for one of them, where the edges below what it pushes are seen in the end.
abbrev DrawnBy : ModuleVersion → Trees → Visit → Type 0
DrawnBy m deps v =
    EdgesSeen edge_key m deps v.seen
    × ((final : List Text)
        → StackSeen edge_key v.pushed final
        → All (λ e. Any (DrawnFor edge_key final e) (links_to m deps)) v.edges)

-- A dependency with nothing below it is not pushed, and has no edges.
pushed-StackSeen :
    (d : ModuleVersion) (direct : Bool) (below ts : Trees) (final : List Text)
    → StackSeen edge_key (if is_leaf below then ts else tree_then (node d direct below) ts) final
    → EdgesSeen edge_key d below final × StackSeen edge_key ts final
pushed-StackSeen d direct no_tree ts final h = (tt, h)
pushed-StackSeen d direct (tree_then t us) ts final h = h

visit_deps-DrawnBy :
    (m : ModuleVersion) (deps : Trees) (seen : List Text) → DrawnBy m deps (visit_deps m deps seen)
unfolding visit_deps
visit_deps-DrawnBy m no_tree seen = (tt, λ final h. tt)
visit_deps-DrawnBy m (tree_then (node d direct below) rest) seen =
    by_seen (is_seen (edge_key (m, d)) seen) refl (visit_deps-DrawnBy m rest seen)
      (visit_deps-DrawnBy m rest (edge_key (m, d) ∷ seen))
  where
    kept :
        (s : List Text)
        → is_seen (edge_key (m, d)) s ≡ true
        → is_seen (edge_key (m, d)) (visit_deps m rest s).seen ≡ true
    kept s h =
        subst (λ t. is_seen (edge_key (m, d)) t ≡ true) (sym (visit_deps-Unique m rest s).1)
          (is_seen-see (edge_key (m, d)) s (map edge_key (visit_deps m rest s).edges) h)

    by_seen :
        (b : Bool)
        → is_seen (edge_key (m, d)) seen ≡ b
        → DrawnBy m rest (visit_deps m rest seen)
        → DrawnBy m rest (visit_deps m rest (edge_key (m, d) ∷ seen))
        → DrawnBy m (tree_then (node d direct below) rest) (
            if b
            then visit_deps m rest seen
            else add_edge m d direct below (visit_deps m rest (edge_key (m, d) ∷ seen)))
    by_seen true e (h, drawn) k = (
      (kept seen e, h),
      λ final stack. All-weaken (visit_deps m rest seen).edges (λ e h. inr h) (drawn final stack),
    )
    by_seen false e k (h, drawn) = (
      (kept (edge_key (m, d) ∷ seen) (is_seen-head (edge_key (m, d)) seen), h),
      λ final stack.
          let (edges_below, others) =
            pushed-StackSeen d direct below (visit_deps m rest (edge_key (m, d) ∷ seen)).pushed
              final stack in
          (
            inl (refl, edges_below),
            All-weaken (visit_deps m rest (edge_key (m, d) ∷ seen)).edges (λ e h. inr h)
                (drawn final others),
          ),
    )

-- What the loop over the stack draws.
abbrev Closed : Trees → List Text → List DotEdge → Type 0
Closed stack final edges =
    StackSeen edge_key stack final × All (λ e. Any (DrawnFor edge_key final e) (links stack)) edges

some_inj : {xs ys : List DotEdge} → ◌≡◌ {A = Option (List DotEdge)} (some xs) (some ys) → xs ≡ ys
some_inj h = ground arith

dot_loop-Closed :
    (fuel : ℕ) (stack : Trees) (seen : List Text) (edges : List DotEdge)
    → dot_loop fuel stack seen ≡ some edges
    → Closed stack (see seen (map edge_key edges)) edges
unfolding dot_loop
dot_loop-Closed fuel no_tree seen edges e =
    subst (λ es. Closed no_tree (see seen (map edge_key es)) es) (some_inj e) (tt, tt)
dot_loop-Closed zero (tree_then t rest) seen edges e = absurd (cc)
dot_loop-Closed (suc fuel) (tree_then (node m direct deps) rest) seen edges e =
    by_rest (dot_loop fuel (append_trees rest v.pushed) v.seen) e
      (dot_loop-Closed fuel (append_trees rest v.pushed) v.seen)
  where
    v : Visit
    v = visit_deps m deps seen

    stack : Trees
    stack = tree_then (node m direct deps) rest

    all_seen :
        (ys : List DotEdge) → see seen (map edge_key (v.edges ++ ys)) ≡ see v.seen (map edge_key ys)
    all_seen ys =
        ap (see seen) (map-append edge_key v.edges ys)
        ∙ see-append seen (map edge_key v.edges) (map edge_key ys)
        ∙ ap (λ t. see t (map edge_key ys)) (sym (visit_deps-Unique m deps seen).1)

    place :
        (final : List Text) (e : DotEdge)
        → Any (DrawnFor edge_key final e) (links (append_trees rest v.pushed))
        → Any (DrawnFor edge_key final e) (links stack)
    place final e h =
        Any-right (DrawnFor edge_key final e) (links_to m deps) (links deps ++ links rest)
          (elim (links-append_trees (DrawnFor edge_key final e) rest v.pushed h) [
            | inl k ↦ Any-right (DrawnFor edge_key final e) (links deps) (links rest) k
            | inr k ↦
                Any-left (DrawnFor edge_key final e) (links deps) (links rest)
                  (links-pushed (DrawnFor edge_key final e) m deps seen k)
          ])

    joined :
        (ys : List DotEdge)
        → Closed (append_trees rest v.pushed) (see v.seen (map edge_key ys)) ys
        → Closed stack (see v.seen (map edge_key ys)) (v.edges ++ ys)
    joined ys (seen_below, drawn) =
        let final = see v.seen (map edge_key ys) in
        let (to_rest, to_pushed) = StackSeen-parts edge_key rest v.pushed final seen_below in
        let (first, visited) = visit_deps-DrawnBy m deps seen in
        (
          (EdgesSeen-see edge_key m deps v.seen (map edge_key ys) first, to_rest),
          All-append (λ e. Any (DrawnFor edge_key final e) (links stack)) v.edges ys
              (All-weaken v.edges
                (λ e h.
                  Any-left (DrawnFor edge_key final e) (links_to m deps) (links deps ++ links rest)
                    h)
                (visited final to_pushed))
              (All-weaken ys (place final) drawn),
        )

    by_rest :
        (r : Option (List DotEdge))
        → elim r [ none ↦ none | some ys ↦ some (v.edges ++ ys) ] ≡ some edges
        → ((ys : List DotEdge)
            → r ≡ some ys
            → Closed (append_trees rest v.pushed) (see v.seen (map edge_key ys)) ys)
        → Closed stack (see seen (map edge_key edges)) edges
    by_rest none e k = absurd (cc)
    by_rest (some ys) e k =
        subst (λ es. Closed stack (see seen (map edge_key es)) es) (some_inj e)
          (subst (λ t. Closed stack t (v.edges ++ ys)) (sym (all_seen ys)) (joined ys (k ys refl)))

-- generateDotGraph ends, and writes a line for each of some edges, no two of which have the same
-- text `module->dependency`. Each of them is the edge from a module to a dependency at some place of
-- the tree, and the edges from that dependency to what stands below it there are drawn as well, or
-- edges with their text; and so are the edges from the root.
pub generate_dot_graph-closed :
    (quote : Text → Text) (tree : Tree) (direction : Direction)
    → (edges : List DotEdge) × (generate_dot_graph quote tree direction
        ≡ some (dot_header direction ++ dot_lines quote direction edges ++ codes "\t}\n}\n"))
      × Unique [] (map arrow_text edges)
      × EdgesSeen arrow_text (root_of tree) (deps_of tree) (see [] (map arrow_text edges))
      × All
          (λ e.
            Any
              (DrawnFor arrow_text (see [] (map arrow_text edges)) e)
              (links (tree_then tree no_tree)))
          edges
unfolding generate_dot_graph dot_edges edge_key
generate_dot_graph-closed quote (node m direct deps) direction =
    let (edges, e, unique) = dot_edges-Unique (node m direct deps) in
    let ((root, rest), drawn) =
      dot_loop-Closed (size (tree_then (node m direct deps) no_tree))
        (tree_then (node m direct deps) no_tree) [] edges e in
    (edges, rw (generate_dot_graph, e) refl, unique, root, drawn)
