-- ===== src/Server/Start/Ends.antt =====
-- How a run of the server ends, whatever its calls give and in whatever order its events come.
use perseus.Prelude.{
  ℕ, ◌+◌, ◌≡◌, refl, ◌⊎◌, inl, inr, subst, ap, ◌∙◌, not, Bool, true, false, ◌&&◌, ◌||◌, Option,
  none, some, List, [], ◌∷◌, if◌then◌else◌, Result, ok, err, Text, arith, Bool-cases,
}
use perseus.Server.Config.{
  ServerConfig, StartError, no_listener, no_database, no_exporter, no_interceptor, no_transcoder,
  server_closed, serving_failed, Environment, Flags, server_config,
}
use perseus.Server.Connection.{connection_string}
use perseus.Server.Start.{
  hangup, Event, signal, serve_fails, serve_closed, shutdown_returns, Handler, waiting, Group,
  started, keep_first, is_error, step, run, has_ended, reported, World, Effect, opens_listener,
  closes_listener, logs_close_error, is_closing, closing, connects, serves, exits, Run, after,
  deferring, wait, unless_failed, with_config, run_configured, serve_all, open_store, run_server,
  open_store,
}

abbrev failure_in : Event → Option StartError
failure_in (serve_fails m) = some (serving_failed m)
failure_in serve_closed = some server_closed
failure_in (shutdown_returns e) = e
failure_in _ = none

-- The first error that one of the goroutines returns.
abbrev pub first_failure : List Event → Option StartError
first_failure [] = none
first_failure (e ∷ es) = keep_first (failure_in e) (first_failure es)

-- A signal that stops the server, or a failure of Serve.
abbrev is_stop : Event → Bool
is_stop (signal hangup) = false
is_stop (signal _) = true
is_stop (serve_fails m) = true
is_stop _ = false

abbrev pub has_stop : List Event → Bool
has_stop [] = false
has_stop (e ∷ es) = is_stop e || has_stop es

abbrev is_waiting : Handler → Bool
is_waiting waiting = true
is_waiting _ = false

abbrev is_quiet : Group → Bool
is_quiet g = g.serving && (is_waiting g.handler && not g.canceled)

keep_first_assoc :
    (a b c : Option StartError) → keep_first (keep_first a b) c ≡ keep_first a (keep_first b c)
keep_first_assoc none b c = refl
keep_first_assoc (some e) b c = refl

module _ (e : Event) (g : Group) {h : Group} (moved : step e g ≡ some h) where
  step-first_error : h.first_error ≡ keep_first g.first_error (failure_in e)
  unfolding step
  step-first_error = ground arith

  step-quiet : is_quiet g ≡ true → is_stop e ≡ false → is_quiet h ≡ true
  unfolding step
  step-quiet q s = ground arith

  step-served :
      g.serving || is_error g.first_error ≡ true → h.serving || is_error h.first_error ≡ true
  unfolding step
  step-served s = ground arith

-- What a run leads to from a state.
record Reached (es : List Event) (g h : Group) : Type 0 where
  first : h.first_error ≡ keep_first g.first_error (first_failure es)
  quiet : has_stop es ≡ false → is_quiet g ≡ true → is_quiet h ≡ true
  served : g.serving || is_error g.first_error ≡ true → h.serving || is_error h.first_error ≡ true

run-Reached : (es : List Event) (g : Group) {h : Group} → run es g ≡ some h → Reached es g h
unfolding run
run-Reached [] g r = record {
  first = ground arith;
  quiet = λ _ q. ground arith;
  served = λ q. ground arith;
}
run-Reached (e ∷ es) g {h} r = by_step (step e g) refl r (λ k. run-Reached es k)
  where
    by_step :
        (o : Option Group)
        → step e g ≡ o
        → (elim o [ none ↦ none | some k ↦ run es k ]) ≡ some h
        → ((k : Group) → run es k ≡ some h → Reached es k h)
        → Reached (e ∷ es) g h
    by_step none s r known = absurd (cc)
    by_step (some k) s r known =
        let later = known k r in
        record {
          first =
              later.first
              ∙ ap (λ x. keep_first x (first_failure es)) (step-first_error e g s)
              ∙ keep_first_assoc g.first_error (failure_in e) (first_failure es);
          quiet = λ stop q. ground (arith, later.quiet, step-quiet e g s);
          served = λ q. later.served (step-served e g s q);
        }

abbrev pub is_opening : Effect → Bool
is_opening opens_listener = true
is_opening _ = false

abbrev pub is_close_error : Effect → Bool
is_close_error logs_close_error = true
is_close_error _ = false

abbrev pub is_serving : Effect → Bool
is_serving serves = true
is_serving _ = false

abbrev pub count : (Effect → Bool) → List Effect → ℕ
count p [] = 0
count p (e ∷ es) = (if p e then 1 else 0) + count p es

-- A run of the server's goroutines to the end, as its events say.
abbrev pub Served : List Event → Option StartError → Type 0
Served events o =
    (o ≡ reported (first_failure events))
    × (is_error (first_failure events) ≡ true)
    × (has_stop events ≡ true)

run-Served :
    (events : List Event) (g : Group)
    → run events started ≡ some g
    → has_ended g ≡ true
    → Served events (reported g.first_error)
unfolding started
run-Served events g r d =
    let all = run-Reached events started r in
    let first : g.first_error ≡ first_failure events = all.first in
    let failed = all.served refl in
    (
      ap reported first,
      ground arith,
      elim (Bool-cases (has_stop events)) [
        | inl stop ↦ stop
        | inr none_yet ↦ absurd (ground (arith, all.quiet none_yet refl))
      ],
    )

-- An outcome of a run that ends: a listener that was opened is closed, and closing it has failed
-- as often as something was served; and either nothing was served and the outcome is an error, or
-- the goroutines have run to their end.
abbrev pub EndsWell : List Event → Run → Option StartError → Type 0
EndsWell events r o =
    (count is_opening r.effects ≡ count is_closing r.effects)
    × (count is_close_error r.effects ≡ count is_serving r.effects)
    × (((count is_serving r.effects ≡ 0) × (is_error o ≡ true)) ⊎ Served events o)

module _ (w : World) (events : List Event) where
  -- The calls of `run_configured` by what they return, and the serving.
  abbrev configured : (a b c d e : Option Text) → Run → Run
  configured a b c d e s = unless_failed a no_listener (
      after opens_listener (
        closing (
          unless_failed b no_database (
            after connects (
              unless_failed c no_exporter
                (unless_failed d no_interceptor (unless_failed e no_transcoder s)))))))

  configured-EndsWell :
      (a b c d e : Option Text) (s : Run) {o : Option StartError}
      → (s.outcome ≡ some o → (s.effects ≡ serves ∷ closes_listener ∷ exits ∷ []) × Served events o)
      → (configured a b c d e s).outcome ≡ some o
      → EndsWell events (configured a b c d e s) o
  configured-EndsWell (some m) b c d e s ends h = (refl, refl, inl (refl, ground arith))
  configured-EndsWell none (some m) c d e s ends h = (refl, refl, inl (refl, ground arith))
  configured-EndsWell none none (some m) d e s ends h = (refl, refl, inl (refl, ground arith))
  configured-EndsWell none none none (some m) e s ends h = (refl, refl, inl (refl, ground arith))
  configured-EndsWell none none none none (some m) s ends h = (refl, refl, inl (refl, ground arith))
  configured-EndsWell none none none none none s ends h =
      let (effects, served) = ends h in rw (h, effects) (refl, refl, inr served)

  serve_all-Served :
      {o : Option StartError}
      → (serve_all w events).outcome ≡ some o
      → ((serve_all w events).effects ≡ serves ∷ closes_listener ∷ exits ∷ []) × Served events o
  unfolding serve_all
  serve_all-Served {o} h = by_run (run events started) refl h
    where
      by_run :
          (r : Option Group)
          → run events started ≡ r
          → (wait r).outcome ≡ some o
          → ((after serves (deferring exits (wait r))).effects
              ≡ serves ∷ closes_listener ∷ exits ∷ [])
            × Served events o
      by_run none e h = absurd (cc)
      by_run (some g) e h = elim (Bool-cases (has_ended g)) [
        | inr no_end ↦ absurd (ground arith)
        | inl end ↦
            let stopped : g.serving ≡ false = ground (arith, end) in
            rw (end, stopped)
              (refl, subst (Served events) (ground arith) (run-Served events g e end))
      ]

  -- Where runServer on the options of the command line returns, whatever its calls give and in
  -- whatever order the events come, it has closed the listener as often as it has opened it, and
  -- has logged an error of closing it once more exactly where it has served; and
  -- either it has served nothing and returns an error, or there was a signal to stop or a failure of
  -- Serve, and it returns the first error of its goroutines, of which there is one, and none if that
  -- is context.Canceled.
  pub run_server_ends :
      (env : Environment) (flags : Flags) {o : Option StartError}
      → (run_server w events env flags).outcome ≡ some o
      → EndsWell events (run_server w events env flags) o
  unfolding run_server run_configured
  run_server_ends env flags {o} h = by_config (server_config env flags) h
    where
      by_config :
          (c : Result StartError ServerConfig)
          → (with_config w events c).outcome ≡ some o
          → EndsWell events (with_config w events c) o
      by_config (err e) h = (refl, refl, inl (refl, ground arith))
      by_config (ok conf) h =
          configured-EndsWell (w.listen conf.listen_addr) (open_store w (connection_string conf))
            w.new_exporter w.new_interceptor w.new_transcoder (serve_all w events) serve_all-Served
            h
