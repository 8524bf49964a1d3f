-- ===== src/Client/Config.antt =====
-- client_config.go, and parseSharedQueryOpts of query.go: where the client's options come from.
use perseus.Prelude.{
  ◌≡◌, refl, ap, ◌∙◌, append-nil, Text, codes, Bool, true, false, ◌&&◌, Option, none, some, List,
  [], ◌∷◌, ◌++◌, if◌then◌else◌, Result, ok, err, is_empty, has_prefix, drop,
}
use perseus.Client.Retry.{RpcError, address_required}

pub record ClientConfig : Type 0 where
  pub server_addr : Text
  pub disable_tls : Bool

-- A functional option: with_server_address or with_insecure_dial.
pub data ClientOption : Type 0 where
  server_address : Text → ClientOption
  insecure_dial : ClientOption

abbrev pub apply_option : ClientConfig → ClientOption → ClientConfig
apply_option conf (server_address addr) = record conf { server_addr = addr }
apply_option conf insecure_dial = record conf { disable_tls = true }

abbrev pub apply_options : ClientConfig → List ClientOption → ClientConfig
apply_options conf [] = conf
apply_options conf (o ∷ options) = apply_options (apply_option conf o) options

-- What strconv.ParseBool returns: the value, and whether there is an error.
abbrev pub ParseBool : Type 0
ParseBool = Text → Bool × Bool

abbrev pub address_option : Text → List ClientOption
address_option addr = if is_empty addr then [] else server_address addr ∷ []

abbrev pub no_tls_option : Bool × Bool → List ClientOption
no_tls_option (val, failed) = if val && failed then insecure_dial ∷ [] else []

-- The two variables of the environment.
unfoldable pub read_client_config_env : ParseBool → Text → Text → List ClientOption
read_client_config_env parse_bool addr no_tls =
    address_option addr ++ (if is_empty no_tls then [] else no_tls_option (parse_bool no_tls))

-- A flag that cannot be read is none.
abbrev pub address_flag : Option Text → List ClientOption
address_flag none = []
address_flag (some addr) = address_option addr

abbrev pub insecure_flag : Option Bool → List ClientOption
insecure_flag none = []
insecure_flag (some v) = if v then insecure_dial ∷ [] else []

unfoldable pub read_client_config_flags : Option Text → Option Bool → List ClientOption
read_client_config_flags addr insecure = address_flag addr ++ insecure_flag insecure

unfoldable pub parse_shared_query_opts :
    ParseBool → Text → Text → Option Text → Option Bool → Result RpcError ClientConfig
unfolding read_client_config_env read_client_config_flags
parse_shared_query_opts parse_bool env_addr no_tls flag_addr insecure =
    let conf =
      apply_options (record { server_addr = []; disable_tls = false })
        (read_client_config_env parse_bool env_addr no_tls
          ++ read_client_config_flags flag_addr insecure) in
    if is_empty conf.server_addr then err address_required else ok conf

-- The address that the client connects to.
unfoldable pub client_address : ClientConfig → Text
client_address conf =
    if conf.disable_tls && has_prefix conf.server_addr (codes "http:")
    then codes "h2c" ++ drop 4 conf.server_addr
    else conf.server_addr

-- The address that counts: the flag's, or else the environment's.
abbrev pub chosen_address : Option Text → Text → Text
chosen_address none env = env
chosen_address (some addr) env = if is_empty addr then env else addr

abbrev pub is_set : Option Bool → Bool
is_set none = false
is_set (some v) = v

env-address :
    (parse_bool : ParseBool) (env_addr no_tls : Text)
    → ((parse_bool no_tls).1 ≡ true → (parse_bool no_tls).0 ≡ false)
    → read_client_config_env parse_bool env_addr no_tls ≡ address_option env_addr
unfolding read_client_config_env
env-address parse_bool env_addr no_tls law =
    ap (λ t. address_option env_addr ++ t) (nothing (is_empty no_tls) (parse_bool no_tls) law)
    ∙ append-nil (address_option env_addr)
  where
    nothing :
        (unset : Bool) (r : Bool × Bool)
        → (r.1 ≡ true → r.0 ≡ false)
        → (if unset then [] else no_tls_option r) ≡ []
    nothing true r h = refl
    nothing false (true, true) h = absurd (cc (h refl))
    nothing false (true, false) h = refl
    nothing false (false, failed) h = refl

apply_options-insecure :
    (conf : ClientConfig) (insecure : Option Bool)
    → conf.disable_tls ≡ false
    → apply_options conf (insecure_flag insecure) ≡ record conf { disable_tls = is_set insecure }
apply_options-insecure conf none e = ap (λ b. record conf { disable_tls = b }) e
apply_options-insecure conf (some true) e = refl
apply_options-insecure conf (some false) e = ap (λ b. record conf { disable_tls = b }) e

apply_options-all :
    (env : Text) (flag : Option Text) (insecure : Option Bool)
    → apply_options
        (record { server_addr = []; disable_tls = false })
        (address_option env ++ (address_flag flag ++ insecure_flag insecure))
      ≡ record { server_addr = chosen_address flag env; disable_tls = is_set insecure }
apply_options-all [] none insecure =
    apply_options-insecure (record { server_addr = []; disable_tls = false }) insecure refl
apply_options-all [] (some []) insecure =
    apply_options-insecure (record { server_addr = []; disable_tls = false }) insecure refl
apply_options-all [] (some (c ∷ s)) insecure =
    apply_options-insecure (record { server_addr = c ∷ s; disable_tls = false }) insecure refl
apply_options-all (c ∷ s) none insecure =
    apply_options-insecure (record { server_addr = c ∷ s; disable_tls = false }) insecure refl
apply_options-all (c ∷ s) (some []) insecure =
    apply_options-insecure (record { server_addr = c ∷ s; disable_tls = false }) insecure refl
apply_options-all (c ∷ s) (some (d ∷ t)) insecure =
    apply_options-insecure (record { server_addr = d ∷ t; disable_tls = false }) insecure refl

-- With a parser of Booleans that gives false where it fails, the configuration has the address of
-- the flag, or else that of the environment, and is refused where both are empty; and TLS is off
-- exactly where the flag says so, whatever the environment variable holds.
pub parse_shared_query_opts_lem :
    (parse_bool : ParseBool) (env_addr no_tls : Text) (flag_addr : Option Text)
    (insecure : Option Bool)
    → ((t : Text) → (parse_bool t).1 ≡ true → (parse_bool t).0 ≡ false)
    → parse_shared_query_opts parse_bool env_addr no_tls flag_addr insecure ≡ (
        if is_empty (chosen_address flag_addr env_addr)
        then err address_required
        else ok (record {
          server_addr = chosen_address flag_addr env_addr;
          disable_tls = is_set insecure;
        }))
unfolding parse_shared_query_opts
parse_shared_query_opts_lem parse_bool env_addr no_tls flag_addr insecure law = rw (
  parse_shared_query_opts,
  env-address parse_bool env_addr no_tls (law no_tls),
  read_client_config_flags,
  apply_options-all env_addr flag_addr insecure,
)
