-- ===== src/Client/Walk.antt =====
-- query.go: `walkDependencies` asks the server for the dependencies of a module, and of these.
pub mod Served
use perseus.Prelude.{
  ℕ, zero, suc, ◌≡◌, refl, ◌∙◌, ap, Text, Bool, false, List, [], ◌∷◌, map, if◌then◌else◌, ◌==◌,
  Result, ok, err, is_empty, All,
}
use perseus.Prelude.Int.{pos}
use perseus.Server.Messages.{Module, Direction, QueryDependenciesRequest, ModulesResponse}
use perseus.Client.Retry.{
  RpcError, canceled, panic, out_of_pages, Op, ◌>>=◌, done, bind-ok, retry_op, retry_op-ok,
}
use perseus.Client.Args.{ModuleVersion}
use perseus.Client.Trees.{Tree, Trees, node, no_tree, tree_then, zero_tree, deps_of, append_trees}

-- The server as the client sees it, and whether the context is done.
pub record Service (S : Type 0) : Type 0 where
  pub query_dependencies : QueryDependenciesRequest → Op S ModulesResponse
  pub is_done : S → Bool

abbrev pub request : Direction → ModuleVersion → Text → QueryDependenciesRequest
request direction m token = record {
  module_name = m.path;
  version = m.version;
  direction = direction;
  page_token = token;
  page_size = pos 0;
}

-- dep.Versions[0]
abbrev pub first_version : Module → Result RpcError ModuleVersion
first_version m = elim m.versions [
  | [] ↦ err panic
  | v ∷ _ ↦ ok (record { path = m.name; version = v })
]

module _ {S : Type 0} where
  -- The modules of one response, each with the dependencies that `child` finds for it.
  unfoldable pub walk_modules : (ModuleVersion → Op S Tree) → List Module → Op S Trees
  walk_modules child [] s = (ok no_tree, s)
  walk_modules child (m ∷ modules) s = elim (first_version m) [
    | err e ↦ (err e, s)
    | ok d ↦
        (child d >>= λ below.
        walk_modules child modules >>= λ rest. done (tree_then (node d false (deps_of below)) rest))
          s
  ]

  -- The loop over the pages, which ends at the first page with a next one.
  unfoldable pub walk_pages :
      Service S → Direction → ℕ → (ModuleVersion → Op S Tree) → ModuleVersion → Text → Op S Trees
  unfolding walk_modules retry_op
  walk_pages service direction zero child m token s = (err out_of_pages, s)
  walk_pages service direction (suc pages) child m token s =
      (retry_op (service.query_dependencies (request direction m token)) >>= λ response.
      walk_modules child response.modules >>= λ deps.
      let next = walk_pages service direction pages child m response.next_page_token >>= λ more.
      done (append_trees deps more) in
      if is_empty response.next_page_token then next else done deps)
        s

  -- `levels` is the number of levels that are left: one more than the maximal depth less the depth.
  unfoldable pub walk : Service S → Direction → ℕ → ℕ → ℕ → ModuleVersion → Op S Tree
  unfolding walk_pages
  walk service direction pages zero depth m s =
      if service.is_done s then (err canceled, s) else (ok zero_tree, s)
  walk service direction pages (suc levels) depth m s =
      let below =
        walk_pages service direction pages (walk service direction pages levels (suc depth)) m []
        >>= λ deps. done (node m (depth == 1) deps) in
      if service.is_done s then (err canceled, s) else below s

  unfoldable pub walk_dependencies : Service S → Direction → ℕ → ℕ → ModuleVersion → Op S Tree
  unfolding walk
  walk_dependencies service direction pages max_depth m = walk service direction pages max_depth 1 m

-- The tree that a graph unfolds to, down to a number of levels.
abbrev pub unfold_all : (ModuleVersion → Tree) → List ModuleVersion → Trees
unfold_all below [] = no_tree
unfold_all below (d ∷ ds) = tree_then (node d false (deps_of (below d))) (unfold_all below ds)

abbrev pub unfold_tree : (ModuleVersion → List ModuleVersion) → ℕ → ℕ → ModuleVersion → Tree
unfold_tree graph zero depth m = zero_tree
unfold_tree graph (suc levels) depth m =
    node m (depth == 1) (unfold_all (unfold_tree graph levels (suc depth)) (graph m))

abbrev pub module_message : ModuleVersion → Module
module_message m = record { name = m.path; versions = m.version ∷ [] }

-- A server that answers about known modules, in one page with a token for a next one, with the
-- neighbours in a graph, which are known in turn.
pub record Serves {S : Type 0} (service : Service S) (direction : Direction)
    (Known : ModuleVersion → Type 0) (graph : ModuleVersion → List ModuleVersion) (s : S)
    : Type 0 where
  pub not_done : service.is_done s ≡ false
  pub token : ModuleVersion → Text
  pub has_next : (m : ModuleVersion) → Known m → is_empty (token m) ≡ false
  pub answers :
      (m : ModuleVersion)
      → Known m
      → service.query_dependencies (request direction m []) s
        ≡ (ok (record { modules = map module_message (graph m); next_page_token = token m }), s)
  pub closed : (m : ModuleVersion) → Known m → All Known (graph m)

module _ {S : Type 0} (service : Service S) (direction : Direction) (Known : ModuleVersion → Type 0)
    (graph : ModuleVersion → List ModuleVersion) (s : S)
    (serves : Serves service direction Known graph s) (pages : ℕ) where
  walk_modules-unfold :
      (child : ModuleVersion → Op S Tree) (below : ModuleVersion → Tree) (ds : List ModuleVersion)
      → ((d : ModuleVersion) → Known d → child d s ≡ (ok (below d), s))
      → All Known ds
      → walk_modules child (map module_message ds) s ≡ (ok (unfold_all below ds), s)
  unfolding walk_modules
  walk_modules-unfold child below [] h known = refl
  walk_modules-unfold child below (d ∷ ds) h (known, more) =
      bind-ok (child d)
        (λ b. walk_modules child (map module_message ds) >>= λ rest.
          done (tree_then (node d false (deps_of b)) rest))
        (h d known)
      ∙ bind-ok (walk_modules child (map module_message ds))
          (λ rest. done (tree_then (node d false (deps_of (below d))) rest))
          (walk_modules-unfold child below ds h more)

  walk_pages-unfold :
      (child : ModuleVersion → Op S Tree) (below : ModuleVersion → Tree) (m : ModuleVersion)
      → ((d : ModuleVersion) → Known d → child d s ≡ (ok (below d), s))
      → Known m
      → walk_pages service direction (suc pages) child m [] s ≡ (ok (unfold_all below (graph m)), s)
  unfolding walk_pages
  walk_pages-unfold child below m h known =
      bind-ok (retry_op (service.query_dependencies (request direction m [])))
        (λ response. walk_modules child response.modules >>= λ deps.
          let next = walk_pages service direction pages child m response.next_page_token >>= λ more.
          done (append_trees deps more) in
          if is_empty response.next_page_token then next else done deps)
        (retry_op-ok (service.query_dependencies (request direction m [])) (serves.answers m known))
      ∙ bind-ok (walk_modules child (map module_message (graph m)))
          (λ deps.
            let next = walk_pages service direction pages child m (serves.token m) >>= λ more.
            done (append_trees deps more) in
            if is_empty (serves.token m) then next else done deps)
          (walk_modules-unfold child below (graph m) h (serves.closed m known))
      ∙ rw (serves.has_next m known) refl

  walk-unfold :
      (levels depth : ℕ) (m : ModuleVersion)
      → Known m
      → walk service direction (suc pages) levels depth m s
        ≡ (ok (unfold_tree graph levels depth m), s)
  unfolding walk
  walk-unfold zero depth m known = rw serves.not_done refl
  walk-unfold (suc levels) depth m known = rw serves.not_done (
      bind-ok
        (walk_pages service direction (suc pages)
          (walk service direction (suc pages) levels (suc depth)) m [])
        (λ deps. done (node m (depth == 1) deps))
        (walk_pages-unfold (walk service direction (suc pages) levels (suc depth))
          (unfold_tree graph levels (suc depth)) m (λ d k. walk-unfold levels (suc depth) d k)
          known))

  -- While the context is not done, and against a server that answers every query about known
  -- modules at the first attempt, in one page with the neighbours in a graph, which are known in
  -- turn, and with a token for a next page, `walkDependencies` ends after one request for each node,
  -- and finds the tree that the graph unfolds to down to the maximal depth below a known module.
  pub walk_dependencies-unfold :
      (max_depth : ℕ) (m : ModuleVersion)
      → Known m
      → walk_dependencies service direction (suc pages) max_depth m s
        ≡ (ok (unfold_tree graph max_depth 1 m), s)
  unfolding walk_dependencies
  walk_dependencies-unfold max_depth m known = walk-unfold max_depth 1 m known
