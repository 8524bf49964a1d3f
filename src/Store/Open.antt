-- ===== src/Store/Open.antt =====
-- internal/store/options.go, and how internal/store/pg.go opens a store. sqlx.ConnectContext and
-- PingContext are parameters: the error that each of them returns, if any.
use perseus.Prelude.{Option, none, some, List, [], ◌∷◌, Result, ok, err, ◌>>=◌, Text}

-- A logger of the caller's, or the one that does nothing.
pub data Logger : Type 0 where
  nop_logger caller_logger : Logger

-- The client's own fields besides its connection; `none` is Go's nil.
pub record Client : Type 0 where
  pub log : Option Logger

abbrev pub PgOption : Type 0
PgOption = Client → Result Text Client

abbrev or_nop : Option Logger → Logger
or_nop none = nop_logger
or_nop (some l) = l

-- WithLog
unfoldable pub with_log : Option Logger → PgOption
with_log l c = ok (record c { log = some (or_nop l) })

unfoldable pub apply_options : List PgOption → Client → Result Text Client
apply_options [] p = ok p
apply_options (fn ∷ opts) p = fn p >>= λ q. apply_options opts q

-- if err != nil { return nil, err }
abbrev pub unless_error : Option Text → Result Text (Unit {0})
unless_error none = ok tt
unless_error (some e) = err e

-- NewPostgresClient
unfoldable pub new_postgres_client :
    (Text → Option Text) → Option Text → Text → List PgOption → Result Text Client
unfolding apply_options with_log
new_postgres_client connect ping url opts = unless_error (connect url) >>= λ _.
    unless_error ping >>= λ _.
    apply_options opts (record { log = none }) >>= λ p. ok (record { log = some (or_nop p.log) })
