-- ===== src/Server/Start.antt =====
-- runServer of internal/server/server.go: what it opens, and how its two goroutines end. The calls
-- of net, the store, Prometheus, Connect and Vanguard are parameters; so are the signals, and when
-- Serve and Shutdown of net/http return. As these are documented, Serve returns ErrServerClosed
-- once Shutdown was called, and another error before, and has closed its listener where it returns.
pub mod Ends
mod Samples
use perseus.Prelude.{
  Bool, true, false, not, ◌&&◌, ◌||◌, Option, none, some, List, [], ◌∷◌, ◌++◌, any, if◌then◌else◌,
  Result, ok, err, Text,
}
use perseus.Server.Config.{
  ServerConfig, StartError, no_listener, no_database, no_exporter, no_interceptor, no_transcoder,
  server_closed, context_canceled, serving_failed, Environment, Flags, server_config,
}
use perseus.Store.Open.{caller_logger, with_log, new_postgres_client}
use perseus.Server.Connection.{connection_string}

-- The signals that are waited for.
pub data Signal : Type 0 where
  interrupt quit terminate hangup : Signal

-- What happens while the server runs: a signal arrives; Serve returns, before or after Shutdown was
-- called; the context is found to be done; Shutdown returns.
pub data Event : Type 0 where
  signal : Signal → Event
  serve_fails : Text → Event
  serve_closed context_done : Event
  shutdown_returns : Option StartError → Event

-- The goroutine that handles the shutdown: in its loop, in Shutdown, returned.
pub data Handler : Type 0 where
  waiting shutting_down done : Handler

-- The error group: its first error, and whether its context is canceled.
pub record Group : Type 0 where
  pub serving : Bool
  pub handler : Handler
  pub canceled : Bool
  pub first_error : Option StartError

unfoldable pub started : Group
started = record { serving = true; handler = waiting; canceled = false; first_error = none }

-- What errgroup does with the result of a goroutine.
abbrev pub keep_first : Option StartError → Option StartError → Option StartError
keep_first none e = e
keep_first (some e) _ = some e

abbrev is_error : Option StartError → Bool
is_error none = false
is_error (some e) = true

abbrev goroutine_returns : Option StartError → Group → Group
goroutine_returns e g = record g {
  canceled = g.canceled || is_error e;
  first_error = keep_first g.first_error e;
}

-- switch sig { ... }, and the deferred cancel()
abbrev on_signal : Signal → Handler → Group → Option Group
on_signal hangup waiting g = some g
on_signal sig waiting g = some (record g { handler = shutting_down; canceled = true })
on_signal sig h g = some g

abbrev on_context : Handler → Bool → Group → Option Group
on_context waiting true g = some (record g { handler = shutting_down })
on_context h c g = none

abbrev on_serve_fails : Text → Bool → Handler → Group → Option Group
on_serve_fails m true waiting g =
    some (goroutine_returns (some (serving_failed m)) (record g { serving = false }))
on_serve_fails m s h g = none

abbrev on_serve_closed : Bool → Handler → Group → Option Group
on_serve_closed true waiting g = none
on_serve_closed true h g =
    some (goroutine_returns (some server_closed) (record g { serving = false }))
on_serve_closed false h g = none

abbrev on_shutdown_returns : Option StartError → Handler → Group → Option Group
on_shutdown_returns e shutting_down g = some (goroutine_returns e (record g { handler = done }))
on_shutdown_returns e h g = none

-- An event, where it can happen.
unfoldable pub step : Event → Group → Option Group
step (signal sig) g = on_signal sig g.handler g
step (serve_fails m) g = on_serve_fails m g.serving g.handler g
step serve_closed g = on_serve_closed g.serving g.handler g
step context_done g = on_context g.handler g.canceled g
step (shutdown_returns e) g = on_shutdown_returns e g.handler g

unfoldable pub run : List Event → Group → Option Group
run [] g = some g
run (e ∷ es) g = elim (step e g) [ none ↦ none | some h ↦ run es h ]

abbrev is_done : Handler → Bool
is_done done = true
is_done _ = false

abbrev pub has_ended : Group → Bool
has_ended g = not g.serving && is_done g.handler

-- if err := eg.Wait(); err != nil && err != context.Canceled
abbrev pub reported : Option StartError → Option StartError
reported (some context_canceled) = none
reported e = e

-- What the program calls; `none` is success.
pub record World : Type 0 where
  pub listen : Text → Option Text
  pub connect : Text → Option Text  -- sqlx.ConnectContext
  pub ping : Option Text  -- PingContext
  pub new_exporter : Option Text
  pub new_interceptor : Option Text
  pub new_transcoder : Option Text

-- The resources of a run, in order: the listener, the store's connection, the served handlers; a
-- close of the listener fails where it is closed already, and that is logged.
pub data Effect : Type 0 where
  opens_listener closes_listener logs_close_error connects serves exits : Effect

-- An outcome is an error or none; without an outcome the server is still running.
pub record Run : Type 0 where
  pub outcome : Option (Option StartError)
  pub effects : List Effect

abbrev error_in : {A : Type 0} → Result Text A → Option Text
error_in (ok a) = none
error_in (err e) = some e

-- store.NewPostgresClient(ctx, connStr, store.WithLog(log))
pub open_store : World → Text → Option Text
unfolding new_postgres_client
open_store w url =
    error_in (new_postgres_client w.connect w.ping url (with_log (some caller_logger) ∷ []))

abbrev fails : StartError → Run
fails e = record { outcome = some (some e); effects = [] }

abbrev after : Effect → Run → Run
after e r = record r { effects = e ∷ r.effects }

-- A deferred effect: once the function has returned.
abbrev deferring : Effect → Run → Run
deferring e r = record r {
  effects = elim r.outcome [ none ↦ r.effects | some o ↦ r.effects ++ e ∷ [] ];
}

abbrev pub is_closing : Effect → Bool
is_closing closes_listener = true
is_closing _ = false

-- defer func() { if err := lis.Close(); err != nil { log.Error(...) } }()
abbrev closing : Run → Run
closing r = deferring (if any is_closing r.effects then logs_close_error else closes_listener) r

-- Serve has closed the listener where it has returned.
abbrev wait : Option Group → Run
wait none = record { outcome = none; effects = [] }
wait (some g) = record {
  outcome = if has_ended g then some (reported g.first_error) else none;
  effects = if g.serving then [] else closes_listener ∷ [];
}

-- if err := call; err != nil { return ... }
abbrev unless_failed : Option Text → (Text → StartError) → Run → Run
unless_failed none wording r = r
unless_failed (some e) wording r = fails (wording e)

module _ (w : World) (events : List Event) where
  serve_all : Run
  serve_all = after serves (deferring exits (wait (run events started)))

  -- runServer from its root listener on
  run_configured : ServerConfig → Run
  run_configured conf = unless_failed (w.listen conf.listen_addr) no_listener (
      after opens_listener (
        closing (
          unless_failed (open_store w (connection_string conf)) no_database (
            after connects (
              unless_failed w.new_exporter no_exporter (
                unless_failed w.new_interceptor no_interceptor
                  (unless_failed w.new_transcoder no_transcoder serve_all)))))))

  abbrev with_config : Result StartError ServerConfig → Run
  with_config (err e) = fails e
  with_config (ok conf) = run_configured conf

  -- runServerCmd
  unfoldable pub run_server : Environment → Flags → Run
  unfolding run_configured serve_all run started open_store step
  run_server env flags = with_config (server_config env flags)
