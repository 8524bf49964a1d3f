-- ===== src/Client/Paths/Measures.antt =====
-- What the goroutines of the path search have still to send and to do, added up.
use perseus.Prelude.{
  ℕ, zero, suc, ◌+◌, ◌≡◌, refl, Bool, List, [], ◌∷◌, ◌++◌, map, if◌then◌else◌, Result, ok, err,
  length, arith,
}
use perseus.Client.Retry.{RpcError}
use perseus.Client.Args.{ModuleVersion}
use perseus.Client.Paths.{Graph, PathResult, hits, search_all, recursive_search}
use perseus.Client.Paths.Goroutines.{Call, call_at, plan_of, begun, Task, waiting, running}

-- How many results pass a test.
abbrev pub count : (PathResult → Bool) → List PathResult → ℕ
count p [] = 0
count p (r ∷ rs) = (if p r then 1 else 0) + count p rs

pub count-append :
    (p : PathResult → Bool) (xs ys : List PathResult) → count p (xs ++ ys) ≡ count p xs + count p ys
count-append p [] ys = omega arith
count-append p (x ∷ xs) ys = omega (arith, count-append p xs ys)

-- A number for each element, added up.
abbrev pub sum {ℓ} : {A : Type ℓ} → (A → ℕ) → List A → ℕ
sum f [] = 0
sum f (x ∷ xs) = f x + sum f xs

pub sum-append {ℓ} :
    {A : Type ℓ} (f : A → ℕ) (xs ys : List A) → sum f (xs ++ ys) ≡ sum f xs + sum f ys
sum-append f [] ys = omega arith
sum-append f (x ∷ xs) ys = omega (arith, sum-append f xs ys)

-- Whether a goroutine holds a place of the semaphore.
abbrev pub holds : Task → ℕ
holds (waiting c) = 0
holds (running rs calls) = 1

pub holds-waiting : (calls : List Call) → sum holds (map waiting calls) ≡ 0
holds-waiting [] = refl
holds-waiting (c ∷ calls) = omega (arith, holds-waiting calls)

module _ (graph : Graph) (to : ModuleVersion) where
  -- A value of each goroutine, from what a call has to do: `c` for a call, `r` for results, and
  -- `busy` for a goroutine that runs.
  abbrev pub results_of : Call → List PathResult
  results_of c = recursive_search graph to c.levels c.chain c.from

  module _ (p : PathResult → Bool) where
    abbrev pub due : Task → ℕ
    due (waiting c) = count p (results_of c)
    due (running rs calls) = count p rs + sum (λ c. count p (results_of c)) calls

    count-search_all :
        (levels : ℕ) (chain ds : List ModuleVersion)
        → count p (search_all (recursive_search graph to levels chain) ds)
          ≡ sum (λ c. count p (results_of c)) (map (call_at levels chain) ds)
    count-search_all levels chain [] = refl
    count-search_all levels chain (d ∷ ds) = omega (
      arith,
      count-append p (recursive_search graph to levels chain d)
          (search_all (recursive_search graph to levels chain) ds),
      count-search_all levels chain ds,
    )

    pub due-plan :
        (levels : ℕ) (chain : List ModuleVersion) (from : ModuleVersion)
        → due (begun (plan_of to (call_at levels chain from) (graph from)))
          ≡ count p (recursive_search graph to levels chain from)
    unfolding recursive_search
    due-plan zero chain from = by_graph (graph from)
      where
        by_graph :
            (r : Result RpcError (List ModuleVersion))
            → due (begun (plan_of to (call_at zero chain from) r))
              ≡ count p (elim r [ err e ↦ err e ∷ [] | ok ds ↦ hits to (chain ++ from ∷ []) ds ])
        by_graph (err e) = omega arith
        by_graph (ok ds) = omega arith
    due-plan (suc levels) chain from = by_graph (graph from)
      where
        by_graph :
            (r : Result RpcError (List ModuleVersion))
            → due (begun (plan_of to (call_at (suc levels) chain from) r))
              ≡ count p (elim r [
                | err e ↦ err e ∷ []
                | ok ds ↦
                    hits to (chain ++ from ∷ []) ds
                    ++ search_all (recursive_search graph to levels (chain ++ from ∷ [])) ds
              ])
        by_graph (err e) = omega arith
        by_graph (ok ds) = omega (
          arith,
          count-append p (hits to (chain ++ from ∷ []) ds)
              (search_all (recursive_search graph to levels (chain ++ from ∷ [])) ds),
          count-search_all levels (chain ++ from ∷ []) ds,
        )

    pub due-waiting :
        (calls : List Call) → sum due (map waiting calls) ≡ sum (λ c. count p (results_of c)) calls
    due-waiting [] = refl
    due-waiting (c ∷ calls) = omega (arith, due-waiting calls)

  -- The moves that a call takes, and the goroutines that it starts.
  abbrev pub all_work : (ModuleVersion → ℕ) → List ModuleVersion → ℕ
  all_work f [] = 0
  all_work f (d ∷ ds) = f d + all_work f ds

  pub work : ℕ → List ModuleVersion → ModuleVersion → ℕ
  work zero chain from = elim (graph from) [
    | err e ↦ 3
    | ok ds ↦ 2 + length (hits to (chain ++ from ∷ []) ds)
  ]
  work (suc levels) chain from = elim (graph from) [
    | err e ↦ 3
    | ok ds ↦
        2
        + length (hits to (chain ++ from ∷ []) ds)
        + all_work (work levels (chain ++ from ∷ [])) ds
  ]

  abbrev pub work_of : Call → ℕ
  work_of c = work c.levels c.chain c.from

  abbrev pub left : Task → ℕ
  left (waiting c) = work_of c
  left (running rs calls) = 1 + length rs + sum work_of calls

  work-children :
      (levels : ℕ) (chain ds : List ModuleVersion)
      → sum work_of (map (call_at levels chain) ds) ≡ all_work (work levels chain) ds
  work-children levels chain [] = refl
  work-children levels chain (d ∷ ds) = omega (arith, work-children levels chain ds)

  pub left-plan :
      (levels : ℕ) (chain : List ModuleVersion) (from : ModuleVersion)
      → suc (left (begun (plan_of to (call_at levels chain from) (graph from))))
        ≡ work levels chain from
  unfolding work
  left-plan zero chain from = by_graph (graph from)
    where
      by_graph :
          (r : Result RpcError (List ModuleVersion))
          → suc (left (begun (plan_of to (call_at zero chain from) r)))
            ≡ elim r [ err e ↦ 3 | ok ds ↦ 2 + length (hits to (chain ++ from ∷ []) ds) ]
      by_graph (err e) = omega arith
      by_graph (ok ds) = omega arith
  left-plan (suc levels) chain from = by_graph (graph from)
    where
      by_graph :
          (r : Result RpcError (List ModuleVersion))
          → suc (left (begun (plan_of to (call_at (suc levels) chain from) r))) ≡ elim r [
            | err e ↦ 3
            | ok ds ↦
                2
                + length (hits to (chain ++ from ∷ []) ds)
                + all_work (work levels (chain ++ from ∷ [])) ds
          ]
      by_graph (err e) = omega arith
      by_graph (ok ds) = omega (arith, work-children levels (chain ++ from ∷ []) ds)

  pub left-waiting : (calls : List Call) → sum left (map waiting calls) ≡ sum work_of calls
  left-waiting [] = refl
  left-waiting (c ∷ calls) = omega (arith, left-waiting calls)
