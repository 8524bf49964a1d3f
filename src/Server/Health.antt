-- ===== src/Server/Health.antt =====
-- handleHealthz of internal/server/http.go. What the store's Ping returns within the timeout is a
-- parameter.
use perseus.Prelude.{ℕ, Option, none, some, List, [], ◌∷◌, Text, codes}

pub record Response : Type 0 where
  pub status : ℕ
  pub body : Text

-- handleHealthz: the response, and the errors that it logs.
unfoldable pub handle_healthz : Option Text → Response × List Text
handle_healthz (some e) = (record { status = 500; body = [] }, e ∷ [])
handle_healthz none = (record { status = 200; body = codes "Krakens beware!" }, [])
