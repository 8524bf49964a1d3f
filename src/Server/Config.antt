-- ===== src/Server/Config.antt =====
-- internal/server/server_config.go, and where server.go declares its flags and puts the
-- configuration together. os.Getenv and time.ParseDuration are parameters, and so is the command
-- line: what it gives for a flag. A duration is its number of nanoseconds.
pub mod Settings
use perseus.Prelude.{
  ℕ, ◌≤◌, ◌<◌, ◌≡◌, refl, not, Bool, true, false, ◌||◌, Option, none, some, List, [], ◌∷◌, ◌++◌,
  if◌then◌else◌, Result, ok, err, ◌>>=◌, Text, codes, is_empty, Bool-cases, arith,
}
use perseus.Prelude.Int.{ℤ, pos, negsuc, pos_part, is_positive, ltb_ℤ}

abbrev pub default_db_name : Text
default_db_name = codes "perseus"

pub record ServerConfig : Type 0 where
  pub listen_addr : Text
  pub db_addr : Text
  pub db_user : Text
  pub db_pwd : Text
  pub db_name : Text
  pub healthz_timeout : ℤ

-- var conf serverConfig
abbrev pub empty_config : ServerConfig
empty_config = record {
  listen_addr = [];
  db_addr = [];
  db_user = [];
  db_pwd = [];
  db_name = [];
  healthz_timeout = pos 0;
}

-- The errors of starting a server; those of calls keep their text.
pub data StartError : Type 0 where
  database_not_specified : StartError
  no_listener no_database : Text → StartError
  no_exporter no_interceptor no_transcoder : Text → StartError
  server_closed : StartError
  context_canceled : StartError
  serving_failed : Text → StartError

abbrev pub ServerOption : Type 0
ServerOption = ServerConfig → Result StartError ServerConfig

with_listen_address : Text → ServerOption
with_listen_address addr conf = ok (record conf { listen_addr = addr })

with_db_address : Text → ServerOption
with_db_address addr conf = ok (record conf { db_addr = addr })

with_db_user : Text → ServerOption
with_db_user user conf = ok (record conf { db_user = user })

with_db_pass : Text → ServerOption
with_db_pass pass conf = ok (record conf { db_pwd = pass })

with_db_name : Text → ServerOption
with_db_name db conf = ok (record conf { db_name = if is_empty db then default_db_name else db })

with_health_check_timeout : ℤ → ServerOption
with_health_check_timeout d conf =
    ok (record conf { healthz_timeout = if ltb_ℤ d (pos 0) then pos 0 else d })

-- if value != "" { opts = append(opts, with(value)) }
abbrev option_for : (Text → ServerOption) → Text → List ServerOption
option_for with value = if is_empty value then [] else with value ∷ []

-- if d, err := time.ParseDuration(t); err == nil
abbrev timeout_option : Option ℤ → List ServerOption
timeout_option none = []
timeout_option (some d) = with_health_check_timeout d ∷ []

-- os.Getenv and time.ParseDuration
pub record Environment : Type 0 where
  pub get_env : Text → Text
  pub parse_duration : Text → Option ℤ

-- The last option of the environment.
timeout_options : Environment → Text → List ServerOption
timeout_options env t = if is_empty t then [] else timeout_option (env.parse_duration t)

read_server_config_env : Environment → List ServerOption
unfolding timeout_options
read_server_config_env env =
    option_for with_listen_address (env.get_env (codes "LISTEN_ADDR"))
    ++ (option_for with_db_address (env.get_env (codes "DB_ADDR"))
        ++ (option_for with_db_user (env.get_env (codes "DB_USER"))
            ++ (option_for with_db_pass (env.get_env (codes "DB_PASS"))
                ++ (option_for with_db_name (env.get_env (codes "DB_NAME"))
                    ++ timeout_options env (env.get_env (codes "HEALTHZ_TIMEOUT"))))))

-- The flags that CreateServerCommand declares; `none` where the command line has no such flag.
pub record Flags : Type 0 where
  pub listen_addr : Option Text
  pub db_addr : Option Text
  pub db_user : Option Text
  pub db_pass : Option Text
  pub db_name : Option Text

-- fset.String(name, default, ...), and fset.GetString(name)
abbrev pub get_string : Text → Option Text → Text
get_string default none = default
get_string default (some value) = value

abbrev pub default_listen_addr : Text
default_listen_addr = codes ":31138"

read_server_config_flags : Flags → List ServerOption
read_server_config_flags flags =
    option_for with_listen_address (get_string default_listen_addr flags.listen_addr)
    ++ (option_for with_db_address (get_string [] flags.db_addr)
        ++ (option_for with_db_user (get_string [] flags.db_user)
            ++ (option_for with_db_pass (get_string [] flags.db_pass)
                ++ option_for with_db_name (get_string default_db_name flags.db_name))))

apply_options : List ServerOption → ServerConfig → Result StartError ServerConfig
apply_options [] conf = ok conf
apply_options (fn ∷ opts) conf = fn conf >>= λ c. apply_options opts c

-- 300 * time.Millisecond
abbrev pub default_timeout : ℤ
default_timeout = pos 300_000_000

validate : ServerConfig → Result StartError ServerConfig
validate conf =
    if is_empty conf.db_addr || (is_empty conf.db_user || is_empty conf.db_pwd)
    then err database_not_specified
    else ok (record conf {
      healthz_timeout =
          if is_positive conf.healthz_timeout then conf.healthz_timeout else default_timeout;
    })

-- The configuration that a server is run with: the start of runServer on the options of
-- runServerCmd.
unfoldable pub server_config : Environment → Flags → Result StartError ServerConfig
unfolding apply_options read_server_config_env read_server_config_flags validate with_listen_address
    with_db_address with_db_user with_db_pass with_db_name with_health_check_timeout
server_config env flags =
    apply_options (read_server_config_env env ++ read_server_config_flags flags) empty_config
    >>= validate
