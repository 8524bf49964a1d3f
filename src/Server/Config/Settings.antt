-- ===== src/Server/Config/Settings.antt =====
-- Which of its sources each setting of the server takes.
use perseus.Prelude.{
  ◌≡◌, refl, ap, ◌∙◌, ◌||◌, Option, none, some, List, [], ◌∷◌, ◌++◌, append-nil, if◌then◌else◌,
  Result, ok, err, ◌>>=◌, Text, codes, is_empty, arith,
}
use perseus.Prelude.Int.{ℤ, pos, is_positive, ltb_ℤ}
use perseus.Server.Config.{
  ServerConfig, StartError, ServerOption, database_not_specified, with_listen_address,
  with_db_address, with_db_user, with_db_pass, with_db_name, with_health_check_timeout, option_for,
  timeout_option, timeout_options, timeout_options, Environment, Flags, get_string,
  default_listen_addr, default_db_name, default_timeout, read_server_config_env,
  read_server_config_flags, apply_options, validate, server_config, empty_config,
}

-- The first of two texts unless it is empty.
abbrev pub first_given : Text → Text → Text
first_given [] t = t
first_given (c ∷ s) t = c ∷ s

first_given-nil : (s t : Text) → first_given s (first_given t []) ≡ first_given s t
first_given-nil [] [] = refl
first_given-nil [] (c ∷ t) = refl
first_given-nil (c ∷ s) t = refl

module _ (opts : List ServerOption) (conf : ServerConfig) where
  apply-listen_address :
      (v : Text)
      → apply_options (option_for with_listen_address v ++ opts) conf
        ≡ apply_options opts (record conf { listen_addr = first_given v conf.listen_addr })
  unfolding apply_options with_listen_address
  apply-listen_address [] = refl
  apply-listen_address (c ∷ v) = refl

  apply-db_address :
      (v : Text)
      → apply_options (option_for with_db_address v ++ opts) conf
        ≡ apply_options opts (record conf { db_addr = first_given v conf.db_addr })
  unfolding apply_options with_db_address
  apply-db_address [] = refl
  apply-db_address (c ∷ v) = refl

  apply-db_user :
      (v : Text)
      → apply_options (option_for with_db_user v ++ opts) conf
        ≡ apply_options opts (record conf { db_user = first_given v conf.db_user })
  unfolding apply_options with_db_user
  apply-db_user [] = refl
  apply-db_user (c ∷ v) = refl

  apply-db_pass :
      (v : Text)
      → apply_options (option_for with_db_pass v ++ opts) conf
        ≡ apply_options opts (record conf { db_pwd = first_given v conf.db_pwd })
  unfolding apply_options with_db_pass
  apply-db_pass [] = refl
  apply-db_pass (c ∷ v) = refl

  apply-db_name :
      (v : Text)
      → apply_options (option_for with_db_name v ++ opts) conf
        ≡ apply_options opts (record conf { db_name = first_given v conf.db_name })
  unfolding apply_options with_db_name
  apply-db_name [] = refl
  apply-db_name (c ∷ v) = refl

module _ (addr db_addr user pwd name : Text) where
  abbrev five_options : List ServerOption → List ServerOption
  five_options rest =
      option_for with_listen_address addr
      ++ (option_for with_db_address db_addr
          ++ (option_for with_db_user user
              ++ (option_for with_db_pass pwd ++ (option_for with_db_name name ++ rest))))

  abbrev with_five : ServerConfig → ServerConfig
  with_five conf = record conf {
    listen_addr = first_given addr conf.listen_addr;
    db_addr = first_given db_addr conf.db_addr;
    db_user = first_given user conf.db_user;
    db_pwd = first_given pwd conf.db_pwd;
    db_name = first_given name conf.db_name;
  }

  apply-five_options :
      (rest : List ServerOption) (conf : ServerConfig)
      → apply_options (five_options rest) conf ≡ apply_options rest (with_five conf)
  apply-five_options rest conf =
      apply-listen_address _ conf addr
      ∙ apply-db_address _ _ db_addr
      ∙ apply-db_user _ _ user
      ∙ apply-db_pass _ _ pwd
      ∙ apply-db_name rest _ name

apply-append :
    (xs ys : List ServerOption) (conf : ServerConfig)
    → apply_options (xs ++ ys) conf ≡ (apply_options xs conf >>= λ c. apply_options ys c)
unfolding apply_options
apply-append [] ys conf = refl
apply-append (fn ∷ xs) ys conf = by_result (fn conf) (λ c. apply-append xs ys c)
  where
    by_result :
        (r : Result StartError ServerConfig)
        → ((c : ServerConfig)
            → apply_options (xs ++ ys) c ≡ (apply_options xs c >>= λ d. apply_options ys d))
        → (r >>= λ c. apply_options (xs ++ ys) c)
          ≡ ((r >>= λ c. apply_options xs c) >>= λ d. apply_options ys d)
    by_result (err e) known = refl
    by_result (ok c) known = known c

-- The timeout that the environment asks for, if it does.
abbrev pub requested : Environment → Text → Option ℤ
requested env [] = none
requested env (c ∷ t) = env.parse_duration (c ∷ t)

abbrev clipped : Option ℤ → ℤ → ℤ
clipped none old = old
clipped (some d) old = if ltb_ℤ d (pos 0) then pos 0 else d

apply-timeout :
    (env : Environment) (t : Text) (conf : ServerConfig)
    → apply_options (timeout_options env t) conf
      ≡ ok (record conf { healthz_timeout = clipped (requested env t) conf.healthz_timeout })
unfolding apply_options timeout_options with_health_check_timeout
apply-timeout env [] conf = refl
apply-timeout env (c ∷ t) conf = by_duration (env.parse_duration (c ∷ t))
  where
    by_duration :
        (o : Option ℤ)
        → apply_options (timeout_option o) conf
          ≡ ok (record conf { healthz_timeout = clipped o conf.healthz_timeout })
    by_duration none = refl
    by_duration (some d) = refl

-- The timeout of health checks: what is asked for, where that is more than nothing.
abbrev pub timeout_from : Option ℤ → ℤ
timeout_from none = default_timeout
timeout_from (some d) = if is_positive d then d else default_timeout

timeout_from-clipped :
    (o : Option ℤ)
    → (if is_positive (clipped o (pos 0)) then clipped o (pos 0) else default_timeout)
      ≡ timeout_from o
timeout_from-clipped none = refl
timeout_from-clipped (some d) = ground arith

-- The sources of a server's setting in the order in which they count.
abbrev pub setting : Option Text → Text → Text → Text
setting flag default env = first_given (get_string default flag) env

abbrev pub timeout_of : Environment → ℤ
timeout_of env = timeout_from (requested env (env.get_env (codes "HEALTHZ_TIMEOUT")))

-- A configuration with an address, a user and a password.
abbrev pub accepted : ServerConfig → Result StartError ServerConfig
accepted conf =
    if is_empty conf.db_addr || (is_empty conf.db_user || is_empty conf.db_pwd)
    then err database_not_specified
    else ok conf

five-nil :
    (a b c d e : Text)
    → option_for with_listen_address a
        ++ (option_for with_db_address b
            ++ (option_for with_db_user c
                ++ (option_for with_db_pass d ++ option_for with_db_name e)))
      ≡ five_options a b c d e []
five-nil a b c d e = rw append-nil refl

validate-five :
    (a b c d e v w x y z : Text) (o : Option ℤ)
    → validate (
        with_five a b c d e
          (record (with_five v w x y z empty_config) { healthz_timeout = clipped o (pos 0) }))
      ≡ accepted (record {
        listen_addr = first_given a v;
        db_addr = first_given b w;
        db_user = first_given c x;
        db_pwd = first_given d y;
        db_name = first_given e z;
        healthz_timeout = timeout_from o;
      })
unfolding validate
validate-five a b c d e v w x y z o =
    rw
      (
        first_given-nil a v,
        first_given-nil b w,
        first_given-nil c x,
        first_given-nil d y,
        first_given-nil e z,
        timeout_from-clipped o,
      )
      refl

module _ (env : Environment) (flags : Flags) where
  given : Text → Text
  given name = env.get_env name

  from_env : ServerConfig
  from_env =
      record (with_five (given (codes "LISTEN_ADDR")) (given (codes "DB_ADDR"))
        (given (codes "DB_USER")) (given (codes "DB_PASS")) (given (codes "DB_NAME"))
        empty_config) {
          healthz_timeout = clipped (requested env (given (codes "HEALTHZ_TIMEOUT"))) (pos 0);
        }

  apply-env : apply_options (read_server_config_env env) empty_config ≡ ok from_env
  unfolding read_server_config_env from_env given
  apply-env =
      apply-five_options _ _ _ _ _ (timeout_options env (env.get_env (codes "HEALTHZ_TIMEOUT")))
        empty_config
      ∙ apply-timeout env (env.get_env (codes "HEALTHZ_TIMEOUT")) _

  apply-flags :
      (conf : ServerConfig)
      → apply_options (read_server_config_flags flags) conf
        ≡ ok (
            with_five
              (get_string default_listen_addr flags.listen_addr)
              (get_string [] flags.db_addr)
              (get_string [] flags.db_user)
              (get_string [] flags.db_pass)
              (get_string default_db_name flags.db_name)
              conf)
  unfolding read_server_config_flags apply_options
  apply-flags conf =
      ap (λ opts. apply_options opts conf) (five-nil _ _ _ _ _)
      ∙ apply-five_options _ _ _ _ _ [] conf

  abbrev pub settings : ServerConfig
  settings = record {
    listen_addr = setting flags.listen_addr default_listen_addr (env.get_env (codes "LISTEN_ADDR"));
    db_addr = setting flags.db_addr [] (env.get_env (codes "DB_ADDR"));
    db_user = setting flags.db_user [] (env.get_env (codes "DB_USER"));
    db_pwd = setting flags.db_pass [] (env.get_env (codes "DB_PASS"));
    db_name = setting flags.db_name default_db_name (env.get_env (codes "DB_NAME"));
    healthz_timeout = timeout_of env;
  }

  -- A server is refused exactly if one of the address, the user and the password of the database is
  -- empty. Otherwise each setting is the value of its flag, or that of the environment where the
  -- value of the flag is empty, where a flag that is not given has its default value; and the timeout
  -- of health checks is the duration in the environment where that is positive, and 300 ms
  -- otherwise.
  pub server_config-settings : server_config env flags ≡ accepted settings
  unfolding server_config from_env given
  server_config-settings =
      rw
        (
          apply-append (read_server_config_env env) (read_server_config_flags flags) empty_config,
          apply-env,
        )
        (rw (apply-flags from_env) (
          validate-five (get_string default_listen_addr flags.listen_addr)
            (get_string [] flags.db_addr) (get_string [] flags.db_user)
            (get_string [] flags.db_pass) (get_string default_db_name flags.db_name)
            (given (codes "LISTEN_ADDR")) (given (codes "DB_ADDR")) (given (codes "DB_USER"))
            (given (codes "DB_PASS")) (given (codes "DB_NAME"))
            (requested env (given (codes "HEALTHZ_TIMEOUT")))))
