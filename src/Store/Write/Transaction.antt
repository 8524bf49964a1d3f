-- ===== src/Store/Write/Transaction.antt =====
-- The deferred commit or rollback: `SaveModule` and `SaveModuleDependencies` are atomic.
use perseus.Prelude.{
  ◌≡◌, refl, subst, Bool, true, false, ◌||◌, List, [], ◌∷◌, arith, ok, err, Result, Text, is_empty,
}
use perseus.Store.Postgres.{Postgres}
use perseus.Store.Session.{
  Session, Tables, StoreError, Db, answer, finish, transaction, fail, module_name_required,
  invalid_module, ◌>>=◌, pure,
}
use perseus.Store.Write.{
  Version, save_module, save_module_dependencies, write_graph, write_module, write_module_versions,
}
use perseus.Store.Ends.{Ends, Ends-if_action, bind-round_trip, Later, Failed}

-- What is left of an error after the transaction: the tables from before.
abbrev pub RolledBack : Session → StoreError → Session → Type 0
RolledBack s e s' = (s'.tables ≡ s.tables) × Failed s e s'

module _ {ℓ} {A : Type ℓ} (P : A → Session → Type 0) (start : Session) where
  finish-Ends :
      (r : Result StoreError A × Session)
      → Ends
          (λ a s'. Later start s' × ((faults : List Bool) → P a (record s' { faults = faults })))
          (Failed start)
          r
      → Ends P (RolledBack start) (finish start.tables r)
  unfolding finish
  finish-Ends (ok a, s) (later, h) = by_fault s.faults
    where
      by_fault :
          (faults : List Bool)
          → Ends P (RolledBack start) (
              let (r, s') = answer faults s in
              elim r [ ok _ ↦ (ok a, s') | err e ↦ (err e, record s' { tables = start.tables }) ])
      by_fault [] = h s.faults
      by_fault (true ∷ faults) = (refl, omega arith)
      by_fault (false ∷ faults) = h faults
  finish-Ends (err e, s) (later, env) = by_fault s.faults
    where
      by_fault :
          (faults : List Bool)
          → Ends P
              (RolledBack start)
              (let (r, s') = answer faults s in (err e, record s' { tables = start.tables }))
      by_fault [] = (refl, (omega arith, env))
      by_fault (true ∷ faults) = (refl, (omega arith, env))
      by_fault (false ∷ faults) = (refl, (omega arith, env))

-- The rule for a transaction: on success what its body ensures, on failure the tables from before.
pub transaction-Ends {ℓ} :
    {A : Type ℓ} (P : A → Session → Type 0) (body : Db A) (s : Session)
    → ((faults : List Bool)
        → Ends
            (λ a s'. Later s s' × ((faults' : List Bool) → P a (record s' { faults = faults' })))
            (Failed s)
            (body (record s { faults = faults })))
    → Ends P (RolledBack s) (transaction body s)
unfolding transaction
transaction-Ends P body s h =
    bind-round_trip P (RolledBack s) (λ t. finish t.tables (body t)) s
      (λ faults. finish-Ends P s (body (record s { faults = faults })) (h faults))
      (λ faults. (refl, omega arith))

-- Atomicity holds for any body and in any database.
transaction-atomic {ℓ} :
    {A : Type ℓ} (body : Db A) (s : Session)
    → Ends (λ _ _. Unit {0}) (λ e s'. s'.tables ≡ s.tables) (transaction body s)
unfolding transaction
transaction-atomic {A} body s =
    bind-round_trip (λ _ _. Unit {0}) (λ e s'. s'.tables ≡ s.tables) (λ t. finish t.tables (body t))
      s (λ faults. finish-atomic s.tables (body (record s { faults = faults }))) (λ faults. refl)
  where
    finish-atomic :
        (before : Tables) (r : Result StoreError A × Session)
        → Ends (λ _ _. Unit {0}) (λ e s'. s'.tables ≡ before) (finish before r)
    finish-atomic before (ok a, t) = by_fault t.faults
      where
        by_fault :
            (faults : List Bool)
            → Ends {A = A}
                (λ _ _. Unit {0})
                (λ e s'. s'.tables ≡ before)
                (let (r, s') = answer faults t in
                  elim r [ ok _ ↦ (ok a, s') | err e ↦ (err e, record s' { tables = before }) ])
        by_fault [] = tt
        by_fault (true ∷ faults) = refl
        by_fault (false ∷ faults) = tt
    finish-atomic before (err e, t) = by_fault t.faults
      where
        by_fault :
            (faults : List Bool)
            → Ends {A = A}
                (λ _ _. Unit {0})
                (λ e s'. s'.tables ≡ before)
                (let (r, s') = answer faults t in (err e, record s' { tables = before }))
        by_fault [] = refl
        by_fault (true ∷ faults) = refl
        by_fault (false ∷ faults) = refl

-- Whatever the database and the request, where `SaveModule` returns an error the tables are as
-- they were before the call.
pub save_module-atomic :
    (pg : Postgres) (name description : Text) (versions : List Text) (s s' : Session)
    (e : StoreError)
    → save_module pg name description versions s ≡ (err e, s')
    → s'.tables ≡ s.tables
unfolding save_module
save_module-atomic pg name description versions s s' e h =
    subst (Ends (λ _ _. Unit {0}) (λ e s'. s'.tables ≡ s.tables)) h (
      Ends-if_action (λ _ _. Unit {0}) (λ e s'. s'.tables ≡ s.tables) (is_empty name)
        (fail module_name_required) (transaction body) s (λ _. refl)
        (λ _. transaction-atomic body s))
  where
    body : Db (Unit {0})
    body = write_module name description >>= λ mid.
        write_module_versions pg mid versions >>= λ _. pure tt

-- Whatever the database and the request, where `SaveModuleDependencies` returns an error the
-- tables are as they were before the call.
pub save_module_dependencies-atomic :
    (pg : Postgres) (root : Version) (deps : List Version) (s s' : Session) (e : StoreError)
    → save_module_dependencies pg root deps s ≡ (err e, s')
    → s'.tables ≡ s.tables
unfolding save_module_dependencies
save_module_dependencies-atomic pg root deps s s' e h =
    subst (Ends (λ _ _. Unit {0}) (λ e s'. s'.tables ≡ s.tables)) h (
      Ends-if_action (λ _ _. Unit {0}) (λ e s'. s'.tables ≡ s.tables)
        (is_empty root.module_id || is_empty root.sem_ver) (fail invalid_module)
        (transaction (write_graph pg root deps)) s (λ _. refl)
        (λ _. transaction-atomic (write_graph pg root deps) s))
