-- ===== src/Server/Backend.antt =====
-- internal/store/store.go: the interface `Store` through which the handlers reach the database,
-- the Postgres client as one, and the shape of a handler.
use perseus.Prelude.{Text, List, Result, ok, err}
use perseus.Prelude.Int.{ℤ}
use perseus.Store.Postgres.{Postgres}
use perseus.Store.Session.{ModuleRow, StoreError, Session}
use perseus.Store.Write.{Version, save_module, save_module_dependencies}
use perseus.Store.Paging.Codecs.{Codec}
use perseus.Store.Query.{
  ModuleVersion, ModuleVersionQuery, query_modules, query_module_versions, get_dependents,
  get_dependees,
}
use perseus.Server.Messages.{ConnectError}

-- A call that may change a state `S`.
abbrev pub Call {ℓ} : Type 0 → Type 0 → Type ℓ → Type ℓ
Call S E A = S → Result E A × S

pub record Store (S : Type 0) : Type 0 where
  pub save_module : Text → Text → List Text → Call S StoreError (Unit {0})
  pub save_module_dependencies : Version → List Version → Call S StoreError (Unit {0})
  pub query_modules : Text → Text → ℤ → Call S StoreError (List ModuleRow × Text)
  pub query_module_versions : ModuleVersionQuery → Call S StoreError (List ModuleVersion × Text)
  pub get_dependents : Text → Text → Text → ℤ → Call S StoreError (List Version × Text)
  pub get_dependees : Text → Text → Text → ℤ → Call S StoreError (List Version × Text)

-- var _ Store = (*PostgresClient)(nil)
abbrev pub postgres_client : Postgres → Codec → Store Session
postgres_client pg codec = record {
  save_module = save_module pg;
  save_module_dependencies = save_module_dependencies pg;
  query_modules = query_modules pg codec;
  query_module_versions = query_module_versions pg codec;
  get_dependents = get_dependents pg codec;
  get_dependees = get_dependees pg codec;
}

abbrev pub Handler {ℓ} : Type 0 → Type ℓ → Type ℓ
Handler S A = Call S ConnectError A

infixl 5 ◌>>=◌ ◌>>◌
abbrev pub ◌>>=◌ {ℓ κ} :
    {S : Type 0} {A : Type ℓ} {B : Type κ} → Handler S A → (A → Handler S B) → Handler S B
◌>>=◌ m f s = let (r, s') = m s in elim r [ err e ↦ (err e, s') | ok a ↦ f a s' ]

abbrev pub ◌>>◌ {ℓ κ} :
    {S : Type 0} {A : Type ℓ} {B : Type κ} → Handler S A → Handler S B → Handler S B
m >> k = m >>= λ _. k

abbrev pub answer {ℓ} : {S : Type 0} {A : Type ℓ} → A → Handler S A
answer a s = (ok a, s)

abbrev pub reply {ℓ} : {S : Type 0} {A : Type ℓ} → Result ConnectError A → Handler S A
reply r s = (r, s)

-- A call of the store whose error is logged and answered with another.
abbrev pub call {ℓ} : {S : Type 0} {A : Type ℓ} → Call S StoreError A → ConnectError → Handler S A
call m e s = let (r, s') = m s in elim r [ err _ ↦ (err e, s') | ok a ↦ (ok a, s') ]
