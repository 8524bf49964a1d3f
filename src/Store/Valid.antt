-- ===== src/Store/Valid.antt =====
-- The constraints of create_database.sql as an invariant of a session: primary keys, UNIQUE,
-- foreign keys, and counters that are ahead of every id.
use perseus.Prelude.{
  ℕ, ◌<◌, ◌≤◌, ◌≡◌, true, false, none, some, List, [], ◌∷◌, arith, Text, refl, sym, subst,
  Bool-cases, inl, inr, ◌==◌, ==_iff,
}
use perseus.Store.Postgres.{Postgres}
use perseus.Store.Ends.{Later}
use perseus.Store.Session.{ModuleRow, VersionRow, DependencyRow, Session, Tables}
use perseus.Store.Write.{find_module, find_version, has_module_id, has_version_id, has_dependency}

abbrev pub ModulesOk : ℕ → List ModuleRow → Type 0
ModulesOk next [] = Unit
ModulesOk next (r ∷ rows) =
    (r.id < next)
    × (has_module_id r.id rows ≡ false)
    × (find_module r.name rows ≡ none)
    × ModulesOk next rows

abbrev pub VersionsOk : Postgres → ℕ → List ModuleRow → List VersionRow → Type 0
VersionsOk pg next modules [] = Unit
VersionsOk pg next modules (r ∷ rows) =
    (r.id < next)
    × (has_version_id r.id rows ≡ false)
    × (find_version pg r.module_id r.version rows ≡ none)
    × (has_module_id r.module_id modules ≡ true)
    × VersionsOk pg next modules rows

abbrev pub DependenciesOk : List VersionRow → List DependencyRow → Type 0
DependenciesOk versions [] = Unit
DependenciesOk versions (r ∷ rows) =
    (has_version_id r.dependent_id versions ≡ true)
    × (has_version_id r.dependee_id versions ≡ true)
    × (has_dependency r.dependent_id r.dependee_id rows ≡ false)
    × DependenciesOk versions rows

pub record IsValid (pg : Postgres) (s : Session) : Type 0 where
  pub modules_ok : ModulesOk s.next_module s.tables.modules
  pub versions_ok : VersionsOk pg s.next_version s.tables.modules s.tables.versions
  pub dependencies_ok : DependenciesOk s.tables.versions s.tables.dependencies

-- Larger counters keep the constraints.
pub ModulesOk-grow : (n m : ℕ) (rows : List ModuleRow) → n ≤ m → ModulesOk n rows → ModulesOk m rows
ModulesOk-grow n m [] h v = tt
ModulesOk-grow n m (r ∷ rows) h (a, b, c, v) = (omega arith, b, c, ModulesOk-grow n m rows h v)

pub VersionsOk-grow :
    (pg : Postgres) (n m : ℕ) (modules : List ModuleRow) (rows : List VersionRow)
    → n ≤ m
    → VersionsOk pg n modules rows
    → VersionsOk pg m modules rows
VersionsOk-grow pg n m modules [] h v = tt
VersionsOk-grow pg n m modules (r ∷ rows) h (a, b, c, d, v) =
    (omega arith, b, c, d, VersionsOk-grow pg n m modules rows h v)

-- An id that the counter has not reached is in no row.
pub has_module_id-fresh :
    (n k : ℕ) (rows : List ModuleRow) → n ≤ k → ModulesOk n rows → has_module_id k rows ≡ false
unfolding has_module_id
has_module_id-fresh n k [] h v = ground arith
has_module_id-fresh n k (r ∷ rows) h (a, b, c, v) = ground (arith, has_module_id-fresh n k rows h v)

pub has_version_id-fresh :
    (pg : Postgres) (n k : ℕ) (modules : List ModuleRow) (rows : List VersionRow)
    → n ≤ k
    → VersionsOk pg n modules rows
    → has_version_id k rows ≡ false
unfolding has_version_id
has_version_id-fresh pg n k modules [] h v = ground arith
has_version_id-fresh pg n k modules (r ∷ rows) h (a, b, c, d, v) =
    ground (arith, has_version_id-fresh pg n k modules rows h v)

-- What `find_module` and `find_version` return is the id of a row.
pub find_module-has :
    (name : Text) (id : ℕ) (rows : List ModuleRow)
    → find_module name rows ≡ some id
    → has_module_id id rows ≡ true
unfolding find_module has_module_id
find_module-has name id [] h = ground arith
find_module-has name id (r ∷ rows) h = ground (arith, find_module-has name id rows)

pub find_version-has :
    (pg : Postgres) (mid : ℕ) (v : Text) (id : ℕ) (rows : List VersionRow)
    → find_version pg mid v rows ≡ some id
    → has_version_id id rows ≡ true
unfolding find_version has_version_id
find_version-has pg mid v id [] h = ground arith
find_version-has pg mid v id (r ∷ rows) h = ground (arith, find_version-has pg mid v id rows)

-- A module id that no module has is in no version row.
pub find_version-orphan :
    (pg : Postgres) (n mid : ℕ) (v : Text) (modules : List ModuleRow) (rows : List VersionRow)
    → has_module_id mid modules ≡ false
    → VersionsOk pg n modules rows
    → find_version pg mid v rows ≡ none
unfolding find_version
find_version-orphan pg n mid v modules [] h ok = refl
find_version-orphan pg n mid v modules (r ∷ rows) h (a, b, c, d, ok) =
    elim (Bool-cases (r.module_id == mid)) [
      | inl e ↦ absurd (clash ((==_iff r.module_id mid).0 e))
      | inr e ↦ rw e (find_version-orphan pg n mid v modules rows h ok)
    ]
  where
    clash : r.module_id ≡ mid → ⊥
    clash e = ground (arith)

-- The same tables under later counters are as valid.
pub IsValid-grow :
    (pg : Postgres) (s s' : Session)
    → s'.tables ≡ s.tables
    → Later s s'
    → IsValid pg s
    → IsValid pg s'
IsValid-grow pg s s' e l v = record {
  modules_ok =
      subst (λ (t : Tables). ModulesOk s'.next_module t.modules) (sym e)
        (ModulesOk-grow s.next_module s'.next_module s.tables.modules l.module_grows v.modules_ok);
  versions_ok =
      subst (λ (t : Tables). VersionsOk pg s'.next_version t.modules t.versions) (sym e)
        (VersionsOk-grow pg s.next_version s'.next_version s.tables.modules s.tables.versions
          l.version_grows v.versions_ok);
  dependencies_ok =
      subst (λ (t : Tables). DependenciesOk t.versions t.dependencies) (sym e) v.dependencies_ok;
}
