-- ===== src/Client/Paths.antt =====
-- pathfinder.go: the search for dependency paths. The goroutines of the search send their results
-- to one channel in any order; here they stand in a list in the order of the calls.
pub mod Goroutines
pub mod Measures
pub mod Schedules
pub mod Served
pub mod Samples
use perseus.Prelude.{
  ℕ, zero, suc, ◌≤◌, ◌≡◌, refl, sym, ◌∙◌, ap, subst, ◌⊎◌, ◌↔◌, inl, inr, Bool, true, ◌&&◌, ◌||◌,
  List, [], ◌∷◌, ◌++◌, append_assoc, if◌then◌else◌, Result, ok, err, is_empty, text_eq, length,
  Bool-cases, arith,
}
use perseus.Client.Retry.{RpcError}
use perseus.Client.Args.{ModuleVersion}

-- The direct dependencies of a module, as a query of depth 1 finds them, or its error.
abbrev pub Graph : Type 0
Graph = ModuleVersion → Result RpcError (List ModuleVersion)

abbrev pub PathResult : Type 0
PathResult = Result RpcError (List ModuleVersion)

-- d.Module.Path == to.Path && (to.Version == "" || d.Module.Version == to.Version)
abbrev pub matches : ModuleVersion → ModuleVersion → Bool
matches to d = text_eq d.path to.path && (is_empty to.version || text_eq d.version to.version)

-- The results that one module produces itself.
unfoldable pub hits : ModuleVersion → List ModuleVersion → List ModuleVersion → List PathResult
hits to chain [] = []
hits to chain (d ∷ ds) =
    let rest = hits to chain ds in if matches to d then ok (chain ++ d ∷ []) ∷ rest else rest

abbrev pub search_all : (ModuleVersion → List PathResult) → List ModuleVersion → List PathResult
search_all find [] = []
search_all find (d ∷ ds) = find d ++ search_all find ds

-- `levels` is the maximal depth and one more, less the depth; the chain ends in `from`.
unfoldable pub recursive_search :
    Graph → ModuleVersion → ℕ → List ModuleVersion → ModuleVersion → List PathResult
unfolding hits
recursive_search graph to zero chain from = elim (graph from) [
  | err e ↦ err e ∷ []
  | ok ds ↦ hits to (chain ++ from ∷ []) ds
]
recursive_search graph to (suc levels) chain from = elim (graph from) [
  | err e ↦ err e ∷ []
  | ok ds ↦
      hits to (chain ++ from ∷ []) ds
      ++ search_all (recursive_search graph to levels (chain ++ from ∷ [])) ds
]

unfoldable pub find_paths_between : Graph → ℕ → ModuleVersion → ModuleVersion → List PathResult
unfolding recursive_search
find_paths_between graph max_depth from to = recursive_search graph to max_depth [] from

abbrev pub In : {A : Type 0} → A → List A → Type 0
In x [] = ⊥
In x (y ∷ ys) = (x ≡ y) ⊎ In x ys

-- A step of the graph.
abbrev pub Edge : Graph → ModuleVersion → ModuleVersion → Type 0
Edge graph a b = (ds : List ModuleVersion) × (graph a ≡ ok ds) × In b ds

-- The steps of a path that leads from a module to one that is looked for.
abbrev pub IsPath : Graph → ModuleVersion → ModuleVersion → List ModuleVersion → Type 0
IsPath graph to from [] = ⊥
IsPath graph to from (d ∷ []) = Edge graph from d × (matches to d ≡ true)
IsPath graph to from (d ∷ e ∷ steps) = Edge graph from d × IsPath graph to d (e ∷ steps)

module _ {A : Type 0} (x : A) where
  In-left : (xs ys : List A) → In x xs → In x (xs ++ ys)
  In-left [] ys h = absurd h
  In-left (z ∷ xs) ys (inl e) = inl e
  In-left (z ∷ xs) ys (inr h) = inr (In-left xs ys h)

  In-right : (xs ys : List A) → In x ys → In x (xs ++ ys)
  In-right [] ys h = h
  In-right (z ∷ xs) ys h = inr (In-right xs ys h)

  In-append : (xs ys : List A) → In x (xs ++ ys) → In x xs ⊎ In x ys
  In-append [] ys h = inr h
  In-append (z ∷ xs) ys (inl e) = inl (inl e)
  In-append (z ∷ xs) ys (inr h) = elim (In-append xs ys h) [ inl k ↦ inl (inr k) | inr k ↦ inr k ]

hits_sound :
    (to : ModuleVersion) (chain : List ModuleVersion) (r : PathResult) (ds : List ModuleVersion)
    → In r (hits to chain ds)
    → (d : ModuleVersion) × In d ds × (matches to d ≡ true) × (r ≡ ok (chain ++ d ∷ []))
unfolding hits
hits_sound to chain r [] h = absurd h
hits_sound to chain r (d ∷ ds) h = elim (Bool-cases (matches to d)) [
  | inr e ↦ let (c, i, m, p) = hits_sound to chain r ds (rw e at h) in (c, inr i, m, p)
  | inl e ↦ elim (rw e at h) [
    | inl p ↦ (d, inl refl, e, p)
    | inr k ↦ let (c, i, m, p) = hits_sound to chain r ds k in (c, inr i, m, p)
  ]
]

hits_complete :
    (to : ModuleVersion) (chain : List ModuleVersion) (d : ModuleVersion) (ds : List ModuleVersion)
    → In d ds
    → matches to d ≡ true
    → In (ok (chain ++ d ∷ [])) (hits to chain ds)
unfolding hits
hits_complete to chain d [] i m = absurd i
hits_complete to chain d (c ∷ ds) (inl e) m =
    let h : matches to c ≡ true = ap (matches to) (sym e) ∙ m in
    rw h (inl (ap (λ x. ok (chain ++ x ∷ [])) e))
hits_complete to chain d (c ∷ ds) (inr i) m = elim (Bool-cases (matches to c)) [
  | inl e ↦ rw e (inr (hits_complete to chain d ds i m))
  | inr e ↦ rw e (hits_complete to chain d ds i m)
]

search_all_sound :
    (find : ModuleVersion → List PathResult) (r : PathResult) (ds : List ModuleVersion)
    → In r (search_all find ds)
    → (d : ModuleVersion) × In d ds × In r (find d)
search_all_sound find r [] h = absurd h
search_all_sound find r (d ∷ ds) h = elim (In-append r (find d) (search_all find ds) h) [
  | inl k ↦ (d, inl refl, k)
  | inr k ↦ let (c, i, m) = search_all_sound find r ds k in (c, inr i, m)
]

search_all_complete :
    (find : ModuleVersion → List PathResult) (r : PathResult) (d : ModuleVersion)
    (ds : List ModuleVersion)
    → In d ds
    → In r (find d)
    → In r (search_all find ds)
search_all_complete find r d [] i h = absurd i
search_all_complete find r d (c ∷ ds) (inl e) h =
    In-left r (find c) (search_all find ds) (subst (λ x. In r (find x)) e h)
search_all_complete find r d (c ∷ ds) (inr i) h =
    In-right r (find c) (search_all find ds) (search_all_complete find r d ds i h)

module _ (graph : Graph) (to : ModuleVersion) where
  -- What follows the module that a chain ends in, of what the search finds.
  abbrev Found : ℕ → List ModuleVersion → ModuleVersion → List ModuleVersion → Type 0
  Found levels chain from path =
      (steps : List ModuleVersion) × (path ≡ chain ++ from ∷ steps)
      × IsPath graph to from steps
      × (length steps ≤ suc levels)

  hit-Found :
      (levels : ℕ) (chain : List ModuleVersion) (from : ModuleVersion)
      (path ds : List ModuleVersion)
      → graph from ≡ ok ds
      → In (ok path) (hits to (chain ++ from ∷ []) ds)
      → Found levels chain from path
  hit-Found levels chain from path ds e h =
      let (d, i, m, p) = hits_sound to (chain ++ from ∷ []) (ok path) ds h in
      (d ∷ [], ok_inj p ∙ append_assoc chain (from ∷ []) (d ∷ []), ((ds, e, i), m), omega arith)
    where
      ok_inj : {p q : List ModuleVersion} → ◌≡◌ {A = PathResult} (ok p) (ok q) → p ≡ q
      ok_inj h = ground arith

  step-Found :
      (levels : ℕ) (chain : List ModuleVersion) (from d : ModuleVersion)
      (path ds : List ModuleVersion)
      → graph from ≡ ok ds
      → In d ds
      → Found levels (chain ++ from ∷ []) d path
      → Found (suc levels) chain from path
  step-Found levels chain from d path ds e i ([], p, isp, l) = absurd isp
  step-Found levels chain from d path ds e i (c ∷ steps, p, isp, l) = (
    d ∷ c ∷ steps,
    p ∙ append_assoc chain (from ∷ []) (d ∷ c ∷ steps),
    ((ds, e, i), isp),
    omega arith,
  )

  recursive_search_sound :
      (levels : ℕ) (chain : List ModuleVersion) (from : ModuleVersion) (path : List ModuleVersion)
      → In (ok path) (recursive_search graph to levels chain from)
      → Found levels chain from path
  unfolding recursive_search
  recursive_search_sound zero chain from path h = by_graph (graph from) refl h
    where
      by_graph :
          (r : Result RpcError (List ModuleVersion))
          → graph from ≡ r
          → In (ok path) (elim r [ err e ↦ err e ∷ [] | ok ds ↦ hits to (chain ++ from ∷ []) ds ])
          → Found zero chain from path
      by_graph (err f) e (inl h) = absurd (cc)
      by_graph (err f) e (inr h) = absurd h
      by_graph (ok ds) e h = hit-Found zero chain from path ds e h
  recursive_search_sound (suc levels) chain from path h =
      by_graph (recursive_search_sound levels (chain ++ from ∷ [])) (graph from) refl h
    where
      by_graph :
          ((d : ModuleVersion) (path : List ModuleVersion)
            → In (ok path) (recursive_search graph to levels (chain ++ from ∷ []) d)
            → Found levels (chain ++ from ∷ []) d path)
          → (r : Result RpcError (List ModuleVersion)) → graph from ≡ r
          → In (ok path) (elim r [
            | err e ↦ err e ∷ []
            | ok ds ↦
                hits to (chain ++ from ∷ []) ds
                ++ search_all (recursive_search graph to levels (chain ++ from ∷ [])) ds
          ])
          → Found (suc levels) chain from path
      by_graph known (err f) e (inl h) = absurd (cc)
      by_graph known (err f) e (inr h) = absurd h
      by_graph known (ok ds) e h =
          elim (In-append (ok path) (hits to (chain ++ from ∷ []) ds)
            (search_all (recursive_search graph to levels (chain ++ from ∷ [])) ds) h) [
              | inl k ↦ hit-Found (suc levels) chain from path ds e k
              | inr k ↦
                  let (d, i, m) =
                    search_all_sound (recursive_search graph to levels (chain ++ from ∷ []))
                      (ok path) ds k in
                  step-Found levels chain from d path ds e i (known d path m)
            ]

  recursive_search_complete :
      (levels : ℕ) (chain : List ModuleVersion) (from : ModuleVersion) (steps : List ModuleVersion)
      → IsPath graph to from steps
      → length steps ≤ suc levels
      → In (ok (chain ++ from ∷ steps)) (recursive_search graph to levels chain from)
  unfolding recursive_search
  recursive_search_complete levels chain from [] isp l = absurd isp
  recursive_search_complete zero chain from (d ∷ []) ((ds, e, i), m) l =
      rw (recursive_search, e, ← append_assoc chain (from ∷ []) (d ∷ []))
        (hits_complete to (chain ++ from ∷ []) d ds i m)
  recursive_search_complete zero chain from (d ∷ c ∷ steps) isp l = absurd (omega arith)
  recursive_search_complete (suc levels) chain from (d ∷ []) ((ds, e, i), m) l =
      rw (recursive_search, e, ← append_assoc chain (from ∷ []) (d ∷ []))
        (In-left _ (hits to (chain ++ from ∷ []) ds) _
          (hits_complete to (chain ++ from ∷ []) d ds i m))
  recursive_search_complete (suc levels) chain from (d ∷ c ∷ steps) ((ds, e, i), isp) l =
      rw (recursive_search, e, ← append_assoc chain (from ∷ []) (d ∷ c ∷ steps))
        (In-right _ (hits to (chain ++ from ∷ []) ds) _ (
          search_all_complete (recursive_search graph to levels (chain ++ from ∷ [])) _ d ds i (
            recursive_search_complete levels (chain ++ from ∷ []) d (c ∷ steps) isp (omega arith))))

  -- `findPathsBetween` finds exactly the paths of the graph from the first module to one that is
  -- looked for, of at least one and at most one step more than the maximal depth.
  pub find_paths_between_iff :
      (max_depth : ℕ) (from : ModuleVersion) (path : List ModuleVersion)
      → In (ok path) (find_paths_between graph max_depth from to) ↔ (
          (steps : List ModuleVersion) × (path ≡ from ∷ steps)
          × IsPath graph to from steps
          × (length steps ≤ suc max_depth))
  unfolding find_paths_between
  find_paths_between_iff max_depth from path = (
    recursive_search_sound max_depth [] from path,
    λ (steps, p, isp, l).
        subst (λ q. In (ok q) (recursive_search graph to max_depth [] from)) (sym p)
          (recursive_search_complete max_depth [] from steps isp l),
  )
