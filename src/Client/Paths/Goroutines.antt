-- ===== src/Client/Paths/Goroutines.antt =====
-- pathfinder.go: the goroutines of `findPathsBetween`, with the semaphore that limits them and the
-- channel of results that is read as they come. A schedule picks the goroutine that moves. The
-- context is not done: what a canceled search still sends is not modelled.
use perseus.Prelude.{ℕ, zero, suc, Option, none, some, List, [], ◌∷◌, ◌++◌, map, Result, ok, err}
use perseus.Client.Retry.{RpcError}
use perseus.Client.Args.{ModuleVersion}
use perseus.Client.Paths.{Graph, PathResult, hits}

-- The arguments of a call of recursiveSearch: the levels below it, its chain and the chain's end.
pub record Call : Type 0 where
  pub levels : ℕ
  pub chain : List ModuleVersion
  pub from : ModuleVersion

-- A goroutine: before it has taken from the semaphore; after its query, with the results that it has
-- to send and the calls that it has to start.
pub data Task : Type 0 where
  waiting : Call → Task
  running : List PathResult → List Call → Task

abbrev pub call_at : ℕ → List ModuleVersion → ModuleVersion → Call
call_at levels chain from = record { levels = levels; chain = chain; from = from }

-- The calls for the dependencies, unless the depth is the maximal one.
abbrev pub children : ℕ → List ModuleVersion → List ModuleVersion → List Call
children zero chain ds = []
children (suc levels) chain ds = map (call_at levels chain) ds

-- What a call finds to do.
abbrev pub plan_of :
    ModuleVersion → Call → Result RpcError (List ModuleVersion) → List PathResult × List Call
plan_of to c (err e) = (err e ∷ [], [])
plan_of to c (ok ds) =
    let chain = c.chain ++ c.from ∷ [] in (hits to chain ds, children c.levels chain ds)

abbrev pub begun : List PathResult × List Call → Task
begun (results, calls) = running results calls

-- What a move of a goroutine leaves: the goroutines in its place, the free places of the semaphore,
-- and what it has sent.
pub record Moved : Type 0 where
  pub tasks : List Task
  pub free : ℕ
  pub sent : List PathResult

module _ (graph : Graph) (to : ModuleVersion) where
  unfoldable pub move : Task → ℕ → Option Moved
  unfolding hits
  move (waiting c) zero = none
  move (waiting c) (suc free) =
      some (record { tasks = begun (plan_of to c (graph c.from)) ∷ []; free = free; sent = [] })
  move (running (r ∷ rs) calls) free =
      some (record { tasks = running rs calls ∷ []; free = free; sent = r ∷ [] })
  move (running [] calls) free =
      some (record { tasks = map waiting calls; free = suc free; sent = [] })

  abbrev pub after_task : Task → Option Moved → Option Moved
  after_task t none = none
  after_task t (some m) = some (record m { tasks = t ∷ m.tasks })

  abbrev pub before_tasks : List Task → Option Moved → Option Moved
  before_tasks ts none = none
  before_tasks ts (some m) = some (record m { tasks = m.tasks ++ ts })

  -- The goroutine at a place moves.
  unfoldable pub move_at : ℕ → List Task → ℕ → Option Moved
  unfolding move
  move_at i [] free = none
  move_at zero (t ∷ ts) free = before_tasks ts (move t free)
  move_at (suc i) (t ∷ ts) free = after_task t (move_at i ts free)

-- The goroutines, the free places of the semaphore, and the results that have been read.
pub record Pool : Type 0 where
  pub tasks : List Task
  pub free : ℕ
  pub delivered : List PathResult

abbrev pub deliver : Pool → Option Moved → Option Pool
deliver p none = none
deliver p (some m) =
    some (record { tasks = m.tasks; free = m.free; delivered = p.delivered ++ m.sent })

module _ (graph : Graph) (to : ModuleVersion) where
  unfoldable pub step : ℕ → Pool → Option Pool
  unfolding move_at
  step i p = deliver p (move_at graph to i p.tasks p.free)

  unfoldable pub run : List ℕ → Pool → Option Pool
  unfolding step
  run [] p = some p
  run (i ∷ is) p = elim (step i p) [ none ↦ none | some q ↦ run is q ]

-- findPathsBetween: one goroutine, and a semaphore with a place for each CPU.
unfoldable pub start : ℕ → ℕ → ModuleVersion → Pool
start cpus max_depth from = record {
  tasks = waiting (call_at max_depth [] from) ∷ [];
  free = cpus;
  delivered = [];
}
