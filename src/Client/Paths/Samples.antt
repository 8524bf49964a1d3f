-- ===== src/Client/Paths/Samples.antt =====
-- One CPU searches a graph of two modules.
use perseus.Prelude.{
  ℕ, ◌≤◌, ◌≡◌, refl, ◌⊎◌, some, List, [], ◌∷◌, Text, codes, text_eq, if◌then◌else◌, ok, arith,
}
use perseus.Client.Args.{ModuleVersion}
use perseus.Client.Paths.{Graph}
use perseus.Client.Paths.Goroutines.{Pool, step, run, start}
use perseus.Client.Paths.Measures.{work}
use perseus.Client.Paths.Schedules.{Finished, find_paths_between-schedules}

abbrev pub at_v1 : Text → ModuleVersion
at_v1 path = record { path = path; version = codes "v1" }

-- Module a depends on module b.
unfoldable pub two_modules : Graph
unfolding text_eq
two_modules m = if text_eq m.path (codes "a") then ok (at_v1 (codes "b") ∷ []) else ok []

abbrev pub any_b : ModuleVersion
any_b = record { path = codes "b"; version = [] }

abbrev pub five_moves : List ℕ
five_moves = 0 ∷ 0 ∷ 0 ∷ 0 ∷ 0 ∷ []

abbrev pub at_the_end : Pool
at_the_end = record {
  tasks = [];
  free = 1;
  delivered = ok (at_v1 (codes "a") ∷ at_v1 (codes "b") ∷ []) ∷ [];
}

pub five_moves-run :
    run two_modules any_b five_moves (start 1 1 (at_v1 (codes "a"))) ≡ some at_the_end
unfolding two_modules run start
five_moves-run = refl

find_paths_between-schedules_example :
    (5 ≤ work two_modules any_b 1 [] (at_v1 (codes "a")))
    × (((i : ℕ) × (b : Pool) × (step two_modules any_b i at_the_end ≡ some b))
        ⊎ Finished two_modules any_b 1 1 (at_v1 (codes "a")) at_the_end)
find_paths_between-schedules_example =
    find_paths_between-schedules two_modules any_b 1 1 (at_v1 (codes "a")) five_moves (omega arith)
      five_moves-run
