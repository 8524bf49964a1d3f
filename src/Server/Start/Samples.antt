-- ===== src/Server/Start/Samples.antt =====
-- A server that is started with a small environment, and the theorems on its start at that one.
use perseus.Prelude.{◌≡◌, refl, none, some, List, [], ◌∷◌, if◌then◌else◌, ok, text_eq, codes}
use perseus.Prelude.Int.{pos}
use perseus.Server.Config.{
  ServerConfig, Environment, Flags, server_closed, default_listen_addr, server_config,
}
use perseus.Server.Config.Settings.{settings, accepted, server_config-settings}
use perseus.Server.Connection.{connection_string}
use perseus.Server.Start.{
  Event, signal, hangup, terminate, serve_closed, shutdown_returns, World, Run, run_server, step,
}
use perseus.Server.Start.Ends.{EndsWell, run_server_ends}

-- DB_ADDR, DB_USER, DB_PASS and DB_NAME are set.
sample_environment : Environment
unfolding text_eq
sample_environment = record {
  get_env = λ name.
      if text_eq name (codes "DB_ADDR")
      then codes "db:5432"
      else if text_eq name (codes "DB_USER")
      then codes "perseus"
      else if text_eq name (codes "DB_PASS")
      then codes "k@t/1"
      else if text_eq name (codes "DB_NAME")
      then codes "graph"
      else [];
  parse_duration = λ t. some (pos 5);
}

abbrev no_flags : Flags
no_flags = record {
  listen_addr = none;
  db_addr = none;
  db_user = none;
  db_pass = none;
  db_name = none;
}

-- The name of the database that the environment sets is not used.
abbrev sample_config : ServerConfig
sample_config = record {
  listen_addr = default_listen_addr;
  db_addr = codes "db:5432";
  db_user = codes "perseus";
  db_pwd = codes "k@t/1";
  db_name = codes "perseus";
  healthz_timeout = pos 300_000_000;
}

server_config_runs : server_config sample_environment no_flags ≡ ok sample_config
unfolding server_config sample_environment
server_config_runs = refl

server_config-settings_example :
    server_config sample_environment no_flags ≡ accepted (settings sample_environment no_flags)
server_config-settings_example = server_config-settings sample_environment no_flags

connection_string_runs :
    connection_string sample_config ≡ codes "postgres://perseus:k@t%2F1@db:5432/perseus"
unfolding connection_string
connection_string_runs = refl

abbrev sample_world : World
sample_world = record {
  listen = λ addr. none;
  connect = λ url. none;
  ping = none;
  new_exporter = none;
  new_interceptor = none;
  new_transcoder = none;
}

-- A SIGHUP, and then a SIGTERM with no open connections.
abbrev sample_events : List Event
sample_events = signal hangup ∷ signal terminate ∷ shutdown_returns none ∷ serve_closed ∷ []

abbrev sample_run : Run
sample_run = run_server sample_world sample_events sample_environment no_flags

stop_is_an_error : sample_run.outcome ≡ some (some server_closed)
unfolding run_server server_config step sample_environment
stop_is_an_error = refl

run_server_ends_example : EndsWell sample_events sample_run (some server_closed)
run_server_ends_example =
    run_server_ends sample_world sample_events sample_environment no_flags stop_is_an_error
