-- ===== src/Client/FindPaths/All.antt =====
-- `find-paths --all`: the goroutines of the search, and what the command prints of their results.
use perseus.Prelude.{
  ℕ, suc, ◌+◌, ◌<◌, ◌≤◌, ◌≡◌, ◌↔◌, inl, inr, refl, ◌∙◌, ap, Bool, true, false, ◌&&◌, none, some,
  List, [], ◌∷◌, length, ok, err, text_eq, text_eq_refl, text_eq_iff, arith, Bool-cases,
}
use perseus.Prelude.Int.{pos_part}
use perseus.Client.Retry.{RpcError}
use perseus.Client.Args.{ModuleVersion}
use perseus.Client.Paths.{Graph, PathResult, In, IsPath, find_paths_between, find_paths_between_iff}
use perseus.Client.Paths.Goroutines.{Pool, deliver, step, move_at, run, start}
use perseus.Client.Paths.Measures.{count}
use perseus.Client.Paths.Served.{is_error}
use perseus.Client.Paths.Schedules.{Finished, find_paths_between-schedules}
use perseus.Client.FindPaths.{
  ModulePath, FindPathsTools, FindPathsLine, collect, find_paths_arguments, written, run_find_paths,
}

abbrev module_eq : ModuleVersion → ModuleVersion → Bool
module_eq a b = text_eq a.path b.path && text_eq a.version b.version

abbrev path_eq : ModulePath → ModulePath → Bool
path_eq [] [] = true
path_eq [] (b ∷ q) = false
path_eq (a ∷ p) [] = false
path_eq (a ∷ p) (b ∷ q) = module_eq a b && path_eq p q

path_eq_refl : (p : ModulePath) → path_eq p p ≡ true
path_eq_refl [] = refl
path_eq_refl (m ∷ p) = rw (text_eq_refl m.path, text_eq_refl m.version, path_eq_refl p) refl

path_eq→eq : (p q : ModulePath) → path_eq p q ≡ true → p ≡ q
path_eq→eq [] [] h = refl
path_eq→eq [] (b ∷ q) h = absurd (cc)
path_eq→eq (a ∷ p) [] h = absurd (cc)
path_eq→eq (a ∷ p) (b ∷ q) h =
    ground (arith, text_eq_iff a.path b.path, text_eq_iff a.version b.version, path_eq→eq p q)

-- Whether a result is a path.
abbrev is_path : ModulePath → PathResult → Bool
is_path p (err e) = false
is_path p (ok q) = path_eq p q

In-count : (p : ModulePath) (rs : List PathResult) → In (ok p) rs → 0 < count (is_path p) rs
In-count p [] h = absurd h
In-count p (r ∷ rs) (inl e) = rw (← e, path_eq_refl p) (omega arith)
In-count p (r ∷ rs) (inr h) = omega (arith, In-count p rs h)

count-In : (p : ModulePath) (rs : List PathResult) → 0 < count (is_path p) rs → In (ok p) rs
count-In p [] h = absurd (omega arith)
count-In p (err e ∷ rs) h = inr (count-In p rs (omega arith))
count-In p (ok q ∷ rs) h = elim (Bool-cases (path_eq p q)) [
  | inl e ↦ inl (ap ok (path_eq→eq p q e))
  | inr e ↦ inr (let k : 0 < 0 + count (is_path p) rs = rw e at h in count-In p rs (omega arith))
]

-- The paths among results.
abbrev paths_of : List PathResult → List ModulePath
paths_of [] = []
paths_of (err e ∷ rs) = paths_of rs
paths_of (ok p ∷ rs) = p ∷ paths_of rs

collect-paths_of :
    (from_context : RpcError → Bool) (rs : List PathResult)
    → count is_error rs ≡ 0
    → collect from_context rs ≡ ok (paths_of rs)
unfolding collect
collect-paths_of from_context [] h = refl
collect-paths_of from_context (err e ∷ rs) h = absurd (omega arith)
collect-paths_of from_context (ok p ∷ rs) h =
    rw (collect-paths_of from_context rs (omega arith)) refl

ok_inj : {p q : ModulePath} → ◌≡◌ {A = PathResult} (ok p) (ok q) → p ≡ q
ok_inj h = ground arith

In-paths_of : (p : ModulePath) (rs : List PathResult) → In p (paths_of rs) ↔ In (ok p) rs
In-paths_of p rs = (to_results rs, of_results rs)
  where
    to_results : (rs : List PathResult) → In p (paths_of rs) → In (ok p) rs
    to_results [] h = absurd h
    to_results (err e ∷ rs) h = inr (to_results rs h)
    to_results (ok q ∷ rs) (inl e) = inl (ap ok e)
    to_results (ok q ∷ rs) (inr h) = inr (to_results rs h)

    of_results : (rs : List PathResult) → In (ok p) rs → In p (paths_of rs)
    of_results [] h = absurd h
    of_results (err e ∷ rs) (inl h) = absurd (cc)
    of_results (err e ∷ rs) (inr h) = of_results rs h
    of_results (ok q ∷ rs) (inl e) = inl (ok_inj e)
    of_results (ok q ∷ rs) (inr h) = inr (of_results rs h)

module _ (graph : Graph) (from to : ModuleVersion) (cpus max_depth : ℕ) where
  -- All goroutines have returned.
  returned-Finished :
      (schedule : List ℕ) {pool : Pool}
      → 0 < cpus
      → run graph to schedule (start cpus max_depth from) ≡ some pool
      → pool.tasks ≡ []
      → Finished graph to cpus max_depth from pool
  unfolding step move_at
  returned-Finished schedule {pool} positive e h =
      elim ((find_paths_between-schedules graph to cpus max_depth from schedule positive e).1) [
        | inr f ↦ f
        | inl (i, b, s) ↦ absurd (no_step i s)
      ]
    where
      no_step : (i : ℕ) {b : Pool} → step graph to i pool ≡ some b → ⊥
      no_step i {b} s =
          let k : step graph to i pool ≡ none =
            ap (λ ts. deliver pool (move_at graph to i ts pool.free)) h in
          absurd (cc)

-- For modules that the arguments of `find-paths --all` name, whatever the schedule of the search
-- once its goroutines have returned, and where no query of the search fails, the command prints the
-- paths from the first module to the second, of at least one and at most one step more than the
-- maximal depth, and no others.
pub run_find_paths-all :
    (tools : FindPathsTools) (line : FindPathsLine) (graph : Graph)
    (received : Bool → ModuleVersion → ModuleVersion → List PathResult) (cpus : ℕ)
    (schedule : List ℕ) (from to : ModuleVersion) (pool : Pool)
    → find_paths_arguments tools line ≡ ok (from, to)
    → line.show_all ≡ true
    → 0 < cpus
    → run graph to schedule (start cpus (pos_part line.max_depth) from) ≡ some pool
    → pool.tasks ≡ []
    → received false from to ≡ pool.delivered
    → count is_error (find_paths_between graph (pos_part line.max_depth) from to) ≡ 0
    → (paths : List ModulePath) × (run_find_paths tools received line
        ≡ ok (written tools line paths))
      × ((path : ModulePath)
          → In path paths ↔ (
              (steps : ModulePath) × (path ≡ from ∷ steps)
              × IsPath graph to from steps
              × (length steps ≤ suc (pos_part line.max_depth))))
unfolding run_find_paths
run_find_paths-all tools line graph received cpus schedule from to pool named all positive e h r
      none_fails =
    (paths_of pool.delivered, printed, found)
  where
    as_often :
        (p : PathResult → Bool)
        → count p pool.delivered
          ≡ count p (find_paths_between graph (pos_part line.max_depth) from to)
    as_often =
        let (no_tasks, free, often) =
          returned-Finished graph from to cpus (pos_part line.max_depth) schedule positive e h in
        often

    printed : run_find_paths tools received line ≡ ok (written tools line (paths_of pool.delivered))
    printed =
        rw
          (
            named,
            all,
            r,
            collect-paths_of tools.from_context pool.delivered (as_often is_error ∙ none_fails),
          )
          refl

    found :
        (path : ModulePath)
        → In path (paths_of pool.delivered) ↔ (
            (steps : ModulePath) × (path ≡ from ∷ steps)
            × IsPath graph to from steps
            × (length steps ≤ suc (pos_part line.max_depth)))
    found path =
        let (sound, complete) =
          find_paths_between_iff graph to (pos_part line.max_depth) from path in
        let same = as_often (is_path path) in
        let (there, back) = In-paths_of path pool.delivered in
        (
          λ i.
              sound (count-In path _ (omega (arith, same, In-count path pool.delivered (there i)))),
          λ s. back (count-In path _ (omega (arith, same, In-count path _ (complete s)))),
        )
