-- ===== src/Client/Paths/Served.antt =====
-- pathfinder.go: the queries of the search, and the search against the handler on the Postgres
-- client.
use perseus.Prelude.{
  ℕ, zero, suc, ◌≡◌, refl, ap, ◌∙◌, Bool, true, false, List, [], ◌∷◌, ◌++◌, All, Result, ok, err,
  Text, Bool-cases, inl, inr, arith,
}
use perseus.Store.Postgres.{Postgres, SemverLaws}
use perseus.Store.Session.{Session}
use perseus.Store.Valid.{IsValid}
use perseus.Store.Paging.Codecs.{Codec, CodecLaws}
use perseus.Store.Query.{dependees}
use perseus.Server.Messages.{dependencies}
use perseus.Server.Dependencies.Update.{CheckLaws}
use perseus.Client.Args.{ModuleVersion}
use perseus.Client.Trees.{Tree, Trees, node, no_tree, tree_then, deps_of}
use perseus.Client.Walk.{Service, walk_dependencies, unfold_tree, unfold_all}
use perseus.Client.Walk.Served.{
  Known, AllAccepted, served_queries, neighbours, serves, walk_dependencies-served,
}
use perseus.Client.Retry.{RpcError}
use perseus.Client.Paths.{
  Graph, PathResult, hits, search_all, matches, recursive_search, find_paths_between,
}
use perseus.Client.Paths.Measures.{count, count-append}

-- The modules of deps.Deps
abbrev pub modules_of : Trees → List ModuleVersion
modules_of no_tree = []
modules_of (tree_then (node d direct below) rest) = d ∷ modules_of rest

abbrev pub direct_modules :
    {S : Type 0} → Result RpcError Tree × S → Result RpcError (List ModuleVersion)
direct_modules (err e, s) = err e
direct_modules (ok tree, s) = ok (modules_of (deps_of tree))

-- The query of a call of recursiveSearch: a walk of depth 1.
unfoldable pub query_graph : {S : Type 0} → Service S → ℕ → S → Graph
unfolding walk_dependencies
query_graph service pages s m = direct_modules (walk_dependencies service dependencies pages 1 m s)

modules_of-unfold_all :
    (child : ModuleVersion → Tree) (ds : List ModuleVersion) → modules_of (unfold_all child ds) ≡ ds
modules_of-unfold_all child [] = refl
modules_of-unfold_all child (d ∷ ds) = ap (λ t. d ∷ t) (modules_of-unfold_all child ds)

search_all-agree :
    (P : ModuleVersion → Type 0) (f g : ModuleVersion → List PathResult)
    → ((d : ModuleVersion) → P d → f d ≡ g d)
    → (ds : List ModuleVersion) → All P ds
    → search_all f ds ≡ search_all g ds
search_all-agree P f g h [] k = refl
search_all-agree P f g h (d ∷ ds) (p, k) = rw (h d p, search_all-agree P f g h ds k) refl

-- A graph that agrees on known modules with one that has no errors.
module _ (P : ModuleVersion → Type 0) (graph : Graph) (next : ModuleVersion → List ModuleVersion)
    (agrees : (m : ModuleVersion) → P m → graph m ≡ ok (next m))
    (closed : (m : ModuleVersion) → P m → All P (next m)) (to : ModuleVersion) where
  recursive_search-agree :
      (levels : ℕ) (chain : List ModuleVersion) (from : ModuleVersion)
      → P from
      → recursive_search graph to levels chain from
        ≡ recursive_search (λ m. ok (next m)) to levels chain from
  unfolding recursive_search
  recursive_search-agree zero chain from p = rw (recursive_search, agrees from p) refl
  recursive_search-agree (suc levels) chain from p =
      rw (recursive_search, agrees from p)
        (ap (λ t. hits to (chain ++ from ∷ []) (next from) ++ t)
          (search_all-agree P (recursive_search graph to levels (chain ++ from ∷ []))
            (recursive_search (λ m. ok (next m)) to levels (chain ++ from ∷ []))
            (λ d q. recursive_search-agree levels (chain ++ from ∷ []) d q) (next from)
            (closed from p)))

abbrev pub is_error : PathResult → Bool
is_error (err e) = true
is_error (ok q) = false

hits-no_error :
    (to : ModuleVersion) (chain ds : List ModuleVersion) → count is_error (hits to chain ds) ≡ 0
unfolding hits
hits-no_error to chain [] = refl
hits-no_error to chain (d ∷ ds) = elim (Bool-cases (matches to d)) [
  | inl e ↦ rw e (omega (arith, hits-no_error to chain ds))
  | inr e ↦ rw e (hits-no_error to chain ds)
]

search_all-no_error :
    (f : ModuleVersion → List PathResult)
    → ((d : ModuleVersion) → count is_error (f d) ≡ 0)
    → (ds : List ModuleVersion) → count is_error (search_all f ds) ≡ 0
search_all-no_error f h [] = refl
search_all-no_error f h (d ∷ ds) =
    omega (arith, count-append is_error (f d) (search_all f ds), h d, search_all-no_error f h ds)

pub recursive_search-no_error :
    (next : ModuleVersion → List ModuleVersion) (to : ModuleVersion) (levels : ℕ)
    (chain : List ModuleVersion) (from : ModuleVersion)
    → count is_error (recursive_search (λ m. ok (next m)) to levels chain from) ≡ 0
unfolding recursive_search
recursive_search-no_error next to zero chain from =
    hits-no_error to (chain ++ from ∷ []) (next from)
recursive_search-no_error next to (suc levels) chain from =
    count-append is_error (hits to (chain ++ from ∷ []) (next from))
      (search_all (recursive_search (λ m. ok (next m)) to levels (chain ++ from ∷ [])) (next from))
    ∙ omega (
      arith,
      hits-no_error to (chain ++ from ∷ []) (next from),
      search_all-no_error (recursive_search (λ m. ok (next m)) to levels (chain ++ from ∷ []))
          (λ d. recursive_search-no_error next to levels (chain ++ from ∷ []) d) (next from),
    )

module _ (pg : Postgres) (laws : SemverLaws pg) (codec : Codec) (codec_laws : CodecLaws codec)
    (valid : Text → Text → Bool) (checks : CheckLaws valid) (s : Session) (calm : s.faults ≡ [])
    (stored : AllAccepted pg valid s.tables.modules s.tables.versions)
    (ok_before : IsValid pg s) where
  -- A query finds the neighbours in the database.
  pub query_graph-served :
      (pages : ℕ) (m : ModuleVersion)
      → Known pg valid m
      → query_graph (served_queries pg codec valid) (suc pages) s m
        ≡ ok (neighbours pg dependees s.tables m)
  unfolding query_graph
  query_graph-served pages m known =
      ap direct_modules
        (walk_dependencies-served pg laws codec codec_laws valid checks dependees s calm stored
          ok_before pages 1 m known).0
      ∙ ap ok (
          modules_of-unfold_all (unfold_tree (neighbours pg dependees s.tables) 0 2)
            (neighbours pg dependees s.tables m))

  -- The search over queries is the search over the database's graph.
  pub find_paths_between-served :
      (pages max_depth : ℕ) (from to : ModuleVersion)
      → Known pg valid from
      → find_paths_between
          (query_graph (served_queries pg codec valid) (suc pages) s)
          max_depth
          from
          to
        ≡ find_paths_between (λ m. ok (neighbours pg dependees s.tables m)) max_depth from to
  unfolding find_paths_between
  find_paths_between-served pages max_depth from to known =
      recursive_search-agree (Known pg valid)
        (query_graph (served_queries pg codec valid) (suc pages) s)
        (neighbours pg dependees s.tables) (λ m k. query_graph-served pages m k)
        (serves pg laws codec codec_laws valid checks dependees s calm stored).closed to max_depth
        [] from known
