-- ===== src/Client/Paths/Schedules.antt =====
-- Every schedule of the goroutines delivers the results of the sequential search.
use perseus.Prelude.{
  ℕ, zero, suc, ◌+◌, ◌≤◌, ◌<◌, ◌≡◌, refl, ap, subst, ◌∙◌, ◌⊎◌, inl, inr, Bool, true, Option, none,
  some, List, [], ◌∷◌, length, arith,
}
use perseus.Client.Args.{ModuleVersion}
use perseus.Client.Paths.{Graph, PathResult, find_paths_between}
use perseus.Client.Paths.Goroutines.{
  Task, waiting, running, Moved, move, after_task, before_tasks, move_at, Pool, deliver, step, run,
  start,
}
use perseus.Client.Paths.Measures.{
  count, count-append, sum, sum-append, due, due-plan, due-waiting, work, left, left-plan,
  left-waiting, holds, holds-waiting,
}

module _ (graph : Graph) (to : ModuleVersion) where
  -- What a move keeps, of the goroutines that move and of what they leave.
  record Keeps (p : PathResult → Bool) (tasks : List Task) (free : ℕ) (m : Moved) : Type 0 where
    kept : count p m.sent + sum (due graph to p) m.tasks ≡ sum (due graph to p) tasks
    fewer : sum (left graph to) m.tasks < sum (left graph to) tasks
    places : m.free + sum holds m.tasks ≡ free + sum holds tasks

  some_inj : {m n : Moved} → ◌≡◌ {A = Option Moved} (some m) (some n) → m ≡ n
  some_inj h = ground arith

  move-Keeps :
      (p : PathResult → Bool) (t : Task) (free : ℕ) {m : Moved}
      → move graph to t free ≡ some m
      → Keeps p (t ∷ []) free m
  unfolding move
  move-Keeps p (waiting c) zero e = absurd (cc)
  move-Keeps p (waiting c) (suc free) e =
      subst (Keeps p (waiting c ∷ []) (suc free)) (some_inj e) (record {
        kept = omega (arith, due-plan graph to p c.levels c.chain c.from);
        fewer = omega (arith, left-plan graph to c.levels c.chain c.from);
        places = omega arith;
      })
  move-Keeps p (running (r ∷ rs) calls) free e =
      subst (Keeps p (running (r ∷ rs) calls ∷ []) free) (some_inj e)
        (record { kept = omega arith; fewer = omega arith; places = omega arith })
  move-Keeps p (running [] calls) free e =
      subst (Keeps p (running [] calls ∷ []) free) (some_inj e) (record {
        kept = omega (arith, due-waiting graph to p calls);
        fewer = omega (arith, left-waiting graph to calls);
        places = omega (arith, holds-waiting calls);
      })

  move_at-Keeps :
      (p : PathResult → Bool) (i : ℕ) (tasks : List Task) (free : ℕ) {m : Moved}
      → move_at graph to i tasks free ≡ some m
      → Keeps p tasks free m
  unfolding move_at
  move_at-Keeps p i [] free e = absurd (cc)
  move_at-Keeps p zero (t ∷ ts) free {m} e = by_move (move graph to t free) refl e
    where
      by_move :
          (o : Option Moved)
          → move graph to t free ≡ o
          → before_tasks graph to ts o ≡ some m
          → Keeps p (t ∷ ts) free m
      by_move none h e = absurd (cc)
      by_move (some k) h e =
          let keeps = move-Keeps p t free h in
          subst (Keeps p (t ∷ ts) free) (some_inj e) (record {
            kept = omega (arith, keeps.kept, sum-append (due graph to p) k.tasks ts);
            fewer = omega (arith, keeps.fewer, sum-append (left graph to) k.tasks ts);
            places = omega (arith, keeps.places, sum-append holds k.tasks ts);
          })
  move_at-Keeps p (suc i) (t ∷ ts) free {m} e =
      by_move (λ k h. move_at-Keeps p i ts free {m = k} h) (move_at graph to i ts free) refl e
    where
      by_move :
          ((k : Moved) → move_at graph to i ts free ≡ some k → Keeps p ts free k)
          → (o : Option Moved) → move_at graph to i ts free ≡ o
          → after_task graph to t o ≡ some m
          → Keeps p (t ∷ ts) free m
      by_move known none h e = absurd (cc)
      by_move known (some k) h e =
          let keeps = known k h in
          subst (Keeps p (t ∷ ts) free) (some_inj e) (record {
            kept = omega (arith, keeps.kept);
            fewer = omega (arith, keeps.fewer);
            places = omega (arith, keeps.places);
          })

  -- A goroutine that can move: one that runs, or any where a place is free.
  abbrev Movable : List Task → ℕ → Type 0
  Movable tasks free = (i : ℕ) × (m : Moved) × (move_at graph to i tasks free ≡ some m)

  holding-Movable : (tasks : List Task) (free : ℕ) → 0 < sum holds tasks → Movable tasks free
  unfolding move_at move
  holding-Movable [] free h = absurd (omega arith)
  holding-Movable (running (r ∷ rs) calls ∷ ts) free h = (zero, _, refl)
  holding-Movable (running [] calls ∷ ts) free h = (zero, _, refl)
  holding-Movable (waiting c ∷ ts) free h =
      let (i, m, e) = holding-Movable ts free (omega arith) in
      (suc i, _, ap (after_task graph to (waiting c)) e)

  free-Movable :
      (t : Task) (tasks : List Task) (free : ℕ)
      → 0 < free + sum holds (t ∷ tasks)
      → Movable (t ∷ tasks) free
  unfolding move_at move
  free-Movable (waiting c) ts (suc free) h = (zero, _, refl)
  free-Movable (running (r ∷ rs) calls) ts free h = (zero, _, refl)
  free-Movable (running [] calls) ts free h = (zero, _, refl)
  free-Movable (waiting c) ts zero h = holding-Movable (waiting c ∷ ts) zero (omega arith)

  record Reached (p : PathResult → Bool) (is : List ℕ) (a b : Pool) : Type 0 where
    kept :
        count p b.delivered + sum (due graph to p) b.tasks
        ≡ count p a.delivered + sum (due graph to p) a.tasks
    bounded : length is + sum (left graph to) b.tasks ≤ sum (left graph to) a.tasks
    places : b.free + sum holds b.tasks ≡ a.free + sum holds a.tasks

  run-Reached :
      (p : PathResult → Bool) (is : List ℕ) (a : Pool) {b : Pool}
      → run graph to is a ≡ some b
      → Reached p is a b
  unfolding run step
  run-Reached p [] a {b} e =
      subst (Reached p [] a) (pool_inj e)
        (record { kept = refl; bounded = omega arith; places = refl })
    where
      pool_inj : {m n : Pool} → ◌≡◌ {A = Option Pool} (some m) (some n) → m ≡ n
      pool_inj h = ground arith
  run-Reached p (i ∷ is) a {b} e =
      by_move (λ q h. run-Reached p is q {b = b} h) (move_at graph to i a.tasks a.free) refl e
    where
      by_move :
          ((q : Pool) → run graph to is q ≡ some b → Reached p is q b)
          → (o : Option Moved) → move_at graph to i a.tasks a.free ≡ o
          → (elim (deliver a o) [ none ↦ none | some q ↦ run graph to is q ]) ≡ some b
          → Reached p (i ∷ is) a b
      by_move known none h e = absurd (cc)
      by_move known (some m) h e =
          let keeps = move_at-Keeps p i a.tasks a.free h in
          let later = known _ e in
          record {
            kept = omega (arith, later.kept, keeps.kept, count-append p a.delivered m.sent);
            bounded = omega (arith, later.bounded, keeps.fewer);
            places = omega (arith, later.places, keeps.places);
          }

  -- All goroutines have returned, and what they have sent is what the sequential search finds, each
  -- result as often.
  abbrev pub Finished : ℕ → ℕ → ModuleVersion → Pool → Type 0
  Finished cpus max_depth from a =
      (a.tasks ≡ [])
      × (a.free ≡ cpus)
      × ((p : PathResult → Bool)
          → count p a.delivered ≡ count p (find_paths_between graph max_depth from to))

  -- While the context is not done, and with at least one CPU, every schedule of the goroutines of
  -- `findPathsBetween` has at most a number of moves that the graph, the modules and the maximal
  -- depth give; it can go on until all goroutines have returned, whatever holds the semaphore; and
  -- then the channel has delivered the results of the sequential search, each as often, in some
  -- order.
  pub find_paths_between-schedules :
      (cpus max_depth : ℕ) (from : ModuleVersion) (is : List ℕ) {a : Pool}
      → 0 < cpus
      → run graph to is (start cpus max_depth from) ≡ some a
      → (length is ≤ work graph to max_depth [] from)
        × (((i : ℕ) × (b : Pool) × (step graph to i a ≡ some b)) ⊎ Finished cpus max_depth from a)
  unfolding start step find_paths_between
  find_paths_between-schedules cpus max_depth from is {a} positive e =
      (omega (arith, (all (λ r. true)).bounded), by_tasks a.tasks refl)
    where
      all : (p : PathResult → Bool) → Reached p is (start cpus max_depth from) a
      all p = run-Reached p is (start cpus max_depth from) e

      at_end : a.tasks ≡ [] → Finished cpus max_depth from a
      at_end h = (
        h,
        omega (arith, (all (λ r. true)).places, ap (sum holds) h),
        λ p. omega (arith, (all p).kept, ap (sum (due graph to p)) h),
      )

      by_tasks :
          (ts : List Task)
          → a.tasks ≡ ts
          → ((i : ℕ) × (b : Pool) × (step graph to i a ≡ some b)) ⊎ Finished cpus max_depth from a
      by_tasks [] h = inr (at_end h)
      by_tasks (t ∷ ts) h =
          let (i, m, k) =
            free-Movable t ts a.free (omega (arith, (all (λ r. true)).places, ap (sum holds) h)) in
          inl (i, _, ap (deliver a) (ap (λ x. move_at graph to i x a.free) h ∙ k))
