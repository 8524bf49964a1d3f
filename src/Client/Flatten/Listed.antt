-- ===== src/Client/Flatten/Listed.antt =====
-- What `processChildren` lists of the trees: which nodes, and what follows from a listed one.
use perseus.Prelude.{
  ℕ, suc, ◌==◌, ◌≡◌, refl, sym, subst, Text, Bool, true, false, List, [], ◌∷◌, ◌++◌, map, All, Any,
  any, text_eq, if◌then◌else◌, inl, inr, text_eq_refl, arith,
}
use perseus.Client.Args.{ModuleVersion, show_version}
use perseus.Client.Trees.{Trees, node, no_tree, tree_then}
use perseus.Client.Flatten.{
  DependencyItem, is_seen, item, item_name, process_children, Unique, see, process_children-Unique,
}

-- A node of the trees with the trees below it, at its depth.
pub record Placed : Type 0 where
  pub place : ModuleVersion
  pub below : Trees
  pub depth : ℕ

-- The nodes of trees whose roots are at a depth.
abbrev pub nodes : Trees → ℕ → List Placed
nodes no_tree depth = []
nodes (tree_then (node m direct deps) rest) depth =
    record { place = m; below = deps; depth = depth } ∷ (nodes deps (suc depth) ++ nodes rest depth)

-- The roots of the trees have all been seen.
abbrev pub RootsSeen : Trees → List Text → Type 0
RootsSeen no_tree seen = Unit
RootsSeen (tree_then (node m direct deps) rest) seen =
    (any (text_eq (show_version m)) seen ≡ true) × RootsSeen rest seen

-- The item stands for the node, with its depth, and the dependencies of the node have been seen.
abbrev pub StandsFor : List Text → DependencyItem → Placed → Type 0
StandsFor seen i n =
    (i ≡ record {
      path = n.place.path;
      version = n.place.version;
      is_direct = n.depth == 1;
      degree = n.depth;
    })
    × RootsSeen n.below seen

-- Every item stands for one of the nodes.
abbrev pub FromNodes : List Text → List Placed → List DependencyItem → Type 0
FromNodes seen ns = All (λ i. Any (StandsFor seen i) ns)

pub is_seen-see :
    (name : Text) (seen names : List Text)
    → is_seen name seen ≡ true
    → is_seen name (see seen names) ≡ true
is_seen-see name seen [] h = h
is_seen-see name seen (n ∷ names) h = is_seen-see name (n ∷ seen) names (ground (arith, h))

pub is_seen-head : (name : Text) (seen : List Text) → is_seen name (name ∷ seen) ≡ true
is_seen-head name seen = rw (text_eq_refl name) refl

RootsSeen-see :
    (ts : Trees) (seen names : List Text) → RootsSeen ts seen → RootsSeen ts (see seen names)
RootsSeen-see no_tree seen names h = tt
RootsSeen-see (tree_then (node m direct deps) rest) seen names (h, hs) =
    (is_seen-see (show_version m) seen names h, RootsSeen-see rest seen names hs)

Any-weaken {ℓ} :
    {A : Type ℓ} {P Q : A → Type 0} (xs : List A) → ((x : A) → P x → Q x) → Any P xs → Any Q xs
Any-weaken [] f h = absurd h
Any-weaken (x ∷ xs) f (inl h) = inl (f x h)
Any-weaken (x ∷ xs) f (inr h) = inr (Any-weaken xs f h)

pub Any-left {ℓ} : {A : Type ℓ} (P : A → Type 0) (xs ys : List A) → Any P xs → Any P (xs ++ ys)
Any-left P [] ys h = absurd h
Any-left P (x ∷ xs) ys (inl h) = inl h
Any-left P (x ∷ xs) ys (inr h) = inr (Any-left P xs ys h)

pub Any-right {ℓ} : {A : Type ℓ} (P : A → Type 0) (xs ys : List A) → Any P ys → Any P (xs ++ ys)
Any-right P [] ys h = h
Any-right P (x ∷ xs) ys h = inr (Any-right P xs ys h)

pub All-weaken {ℓ} :
    {A : Type ℓ} {P Q : A → Type 0} (xs : List A) → ((x : A) → P x → Q x) → All P xs → All Q xs
All-weaken [] f h = tt
All-weaken (x ∷ xs) f (h, hs) = (f x h, All-weaken xs f hs)

pub All-append {ℓ} :
    {A : Type ℓ} (P : A → Type 0) (xs ys : List A) → All P xs → All P ys → All P (xs ++ ys)
All-append P [] ys h k = k
All-append P (x ∷ xs) ys (h, hs) k = (h, All-append P xs ys hs k)

-- More may be seen, and there may be more nodes.
FromNodes-weaken :
    (seen names : List Text) (ns ms : List Placed) (is : List DependencyItem)
    → ((i : DependencyItem) → Any (StandsFor seen i) ns → Any (StandsFor seen i) ms)
    → FromNodes seen ns is
    → FromNodes (see seen names) ms is
FromNodes-weaken seen names ns ms is more =
    All-weaken is (λ i h.
      Any-weaken ms (λ n (e, roots). (e, RootsSeen-see n.below seen names roots)) (more i h))

-- What `processChildren` lists of trees at a depth, and the modules that have then been seen.
abbrev Lists : Trees → ℕ → List DependencyItem × List Text → Type 0
Lists trees depth r = RootsSeen trees r.1 × FromNodes r.1 (nodes trees depth) r.0

process_children-Lists :
    (trees : Trees) (seen : List Text) (depth : ℕ)
    → Lists trees depth (process_children trees seen depth)
unfolding process_children
process_children-Lists no_tree seen depth = (tt, tt)
process_children-Lists (tree_then (node m direct deps) rest) seen depth =
    by_seen (is_seen (show_version m) seen) refl
      (process_children-Lists deps (show_version m ∷ seen) (suc depth))
      (process_children-Lists rest (process_children deps (show_version m ∷ seen) (suc depth)).1
        depth)
      (process_children-Lists rest seen depth)
  where
    skipped : List DependencyItem × List Text
    skipped = process_children rest seen depth

    under : List DependencyItem × List Text
    under = process_children deps (show_version m ∷ seen) (suc depth)

    others : List DependencyItem × List Text
    others = process_children rest under.1 depth

    here : Placed
    here = record { place = m; below = deps; depth = depth }

    seen_here : is_seen (show_version m) under.1 ≡ true
    seen_here =
        subst (λ t. is_seen (show_version m) t ≡ true)
          (sym (process_children-Unique deps (show_version m ∷ seen) (suc depth)).1)
          (is_seen-see (show_version m) (show_version m ∷ seen) (map item_name under.0)
            (is_seen-head (show_version m) seen))

    by_seen :
        (b : Bool)
        → is_seen (show_version m) seen ≡ b
        → Lists deps (suc depth) under
        → Lists rest depth others
        → Lists rest depth skipped
        → Lists
            (tree_then (node m direct deps) rest)
            depth
            (if b then skipped else (item m (depth == 1) depth ∷ under.0 ++ others.0, others.1))
    by_seen true e h k (roots, from) = (
      (
        subst (λ t. is_seen (show_version m) t ≡ true)
            (sym (process_children-Unique rest seen depth).1)
            (is_seen-see (show_version m) seen (map item_name skipped.0) e),
        roots,
      ),
      All-weaken skipped.0
          (λ i h.
            inr (Any-right (StandsFor skipped.1 i) (nodes deps (suc depth)) (nodes rest depth) h))
          from,
    )
    by_seen false e (roots, from) (roots', from') l =
        let final : others.1 ≡ see under.1 (map item_name others.0) =
          (process_children-Unique rest under.1 depth).1 in
        (
          (
            subst (λ t. is_seen (show_version m) t ≡ true) (sym final)
                (is_seen-see (show_version m) under.1 (map item_name others.0) seen_here),
            roots',
          ),
          (
            inl (
              refl,
              subst (RootsSeen deps) (sym final)
                  (RootsSeen-see deps under.1 (map item_name others.0) roots),
            ),
            All-append
                (λ i.
                  Any (StandsFor others.1 i) (nodes (tree_then (node m direct deps) rest) depth))
                under.0 others.0
                (subst
                  (λ t. FromNodes t (nodes (tree_then (node m direct deps) rest) depth) under.0)
                  (sym final)
                  (FromNodes-weaken under.1 (map item_name others.0) (nodes deps (suc depth))
                    (nodes (tree_then (node m direct deps) rest) depth) under.0
                    (λ i h. inr (
                      Any-left (StandsFor under.1 i) (nodes deps (suc depth)) (nodes rest depth) h))
                    from))
                (All-weaken others.0
                  (λ i h. inr (
                    Any-right (StandsFor others.1 i) (nodes deps (suc depth)) (nodes rest depth) h))
                  from'),
          ),
        )

-- The items of `processChildren` are modules that had not been seen, each once, and the map that it
-- leaves has exactly these added. Each item stands for a node of the trees, with the depth of that
-- node as its degree, and is direct at depth 1; and the roots of the trees, and the dependencies of
-- every node that an item stands for, are in the map that it leaves: what is listed is closed under
-- the dependencies of the trees.
pub process_children-listed :
    (trees : Trees) (seen : List Text) (depth : ℕ)
    → Unique seen (map item_name (process_children trees seen depth).0)
      × ((process_children trees seen depth).1
          ≡ see seen (map item_name (process_children trees seen depth).0))
      × RootsSeen trees (process_children trees seen depth).1
      × FromNodes
          (process_children trees seen depth).1
          (nodes trees depth)
          (process_children trees seen depth).0
process_children-listed trees seen depth =
    let (unique, final) = process_children-Unique trees seen depth in
    let (roots, from) = process_children-Lists trees seen depth in (unique, final, roots, from)
