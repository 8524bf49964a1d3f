-- ===== src/Store/Write.antt =====
-- internal/store/pg.go: the writing half of `PostgresClient`.
pub mod Modules
pub mod Versions
pub mod Nodes
pub mod Insert
pub mod Dependencies
pub mod Saved
pub mod Transaction
pub mod Refinement
pub mod Saving
use perseus.Prelude.{
  ℕ, ◌+◌, Text, codes, Bool, true, false, ◌&&◌, ◌||◌, Option, none, some, List, [], ◌∷◌, ◌++◌, map,
  ◌==◌, if◌then◌else◌, Result, ok, err, text_eq, is_nil, is_empty, trim_prefix,
}
use perseus.Store.Postgres.{Postgres, semver_eq}
use perseus.Store.Session.{
  ModuleRow, VersionRow, DependencyRow, Tables, StoreError, module_name_required, invalid_module,
  modified_no_row, modified_many_rows, panic, invalid_semver, foreign_key_violation,
  row_affected_twice, Session, Db, ◌>>=◌, ◌>>◌, pure, fail, lift, round_trip, next_module_id,
  next_version_id, transaction,
}

-- The struct `Version` of version.go. A query fills in the id; a caller that writes leaves it 0.
pub record Version : Type 0 where
  pub id : ℕ
  pub module_id : Text
  pub sem_ver : Text

-- The row that ON CONFLICT (name) finds.
unfoldable pub find_module : Text → List ModuleRow → Option ℕ
find_module name [] = none
find_module name (r ∷ rows) = if text_eq r.name name then some r.id else find_module name rows

abbrev pub describe : Text → Option Text → ModuleRow → ModuleRow
describe name desc r = if text_eq r.name name then record r { description = desc } else r

-- The row that ON CONFLICT ON CONSTRAINT uc_module_version_module_id_version finds.
unfoldable pub find_version : Postgres → ℕ → Text → List VersionRow → Option ℕ
find_version pg mid version [] = none
find_version pg mid version (r ∷ rows) =
    if r.module_id == mid && semver_eq pg r.version version
    then some r.id
    else find_version pg mid version rows

unfoldable pub has_module_id : ℕ → List ModuleRow → Bool
has_module_id id [] = false
has_module_id id (r ∷ rows) = r.id == id || has_module_id id rows

unfoldable pub has_version_id : ℕ → List VersionRow → Bool
has_version_id id [] = false
has_version_id id (r ∷ rows) = r.id == id || has_version_id id rows

unfoldable pub has_dependency : ℕ → ℕ → List DependencyRow → Bool
has_dependency i j [] = false
has_dependency i j (r ∷ rows) =
    (r.dependent_id == i && r.dependee_id == j) || has_dependency i j rows

-- INSERT INTO module (name, description) VALUES (name, desc)
-- ON CONFLICT (name) DO UPDATE SET description = desc RETURNING id
-- The default of `id` is evaluated first, so a conflict uses up an id.
unfoldable pub put_module : Text → Option Text → ℕ → Db (List ℕ)
unfolding find_module
put_module name desc id s = elim (find_module name s.tables.modules) [
  | some old ↦ (
    ok (old ∷ []),
    record s { tables = record s.tables { modules = map (describe name desc) s.tables.modules } },
  )
  | none ↦ (
    ok (id ∷ []),
    record s {
      tables = record s.tables {
        modules = record { id = id; name = name; description = desc } ∷ s.tables.modules;
      };
    },
  )
]

unfoldable pub upsert_module : Text → Option Text → Db (List ℕ)
unfolding round_trip next_module_id put_module
upsert_module name desc = do round_trip; id ← next_module_id; put_module name desc id

-- The checks on the rows of RETURNING: exactly one is expected.
abbrev pub scan_one : List ℕ → Result StoreError ℕ
scan_one [] = err modified_no_row
scan_one (id ∷ []) = ok id
scan_one (id ∷ _ ∷ _) = err modified_many_rows

-- An empty description is written as NULL.
abbrev pub null_string : Text → Option Text
null_string description = if is_empty description then none else some description

unfoldable pub write_module : Text → Text → Db ℕ
unfolding upsert_module
write_module name description = do
  ids ← upsert_module name (null_string description)
  lift (scan_one ids)

-- INSERT INTO module_version (module_id, version) VALUES (module, version)
-- ON CONFLICT ON CONSTRAINT uc_module_version_module_id_version
-- DO UPDATE SET module_id = module RETURNING id
unfoldable pub put_version : Postgres → ℕ → Text → ℕ → Db (List ℕ)
unfolding find_version has_module_id
put_version pg mid version id s = elim (find_version pg mid version s.tables.versions) [
  | some old ↦ (ok (old ∷ []), s)
  | none ↦
      if has_module_id mid s.tables.modules
      then (
        ok (id ∷ []),
        record s {
          tables = record s.tables {
            versions = record { id = id; module_id = mid; version = version } ∷ s.tables.versions;
          };
        },
      )
      else (err foreign_key_violation, s)
]

-- The parameter's conversion to the type of the column.
abbrev pub cast_version : Postgres → Text → Result StoreError Text
cast_version pg text = elim (pg.semver_cast text) [ none ↦ err invalid_semver | some v ↦ ok v ]

unfoldable pub upsert_version : Postgres → ℕ → Text → Db (List ℕ)
unfolding round_trip next_version_id put_version
upsert_version pg mid text = do
  round_trip
  version ← lift (cast_version pg text)
  id ← next_version_id
  put_version pg mid version id

-- The loop body of `writeModuleVersions`.
unfoldable pub write_version : Postgres → ℕ → Text → Db ℕ
unfolding upsert_version trim_prefix
write_version pg mid ver = do
  ids ← upsert_version pg mid (trim_prefix ver (codes "v"))
  lift (scan_one ids)

unfoldable pub write_module_versions : Postgres → ℕ → List Text → Db (List ℕ)
unfolding write_version
write_module_versions pg mid [] = pure []
write_module_versions pg mid (ver ∷ versions) = do
  id ← write_version pg mid ver
  ids ← write_module_versions pg mid versions
  pure (id ∷ ids)

unfoldable pub save_module : Postgres → Text → Text → List Text → Db (Unit {0})
unfolding write_module write_module_versions transaction
save_module pg name description versions =
    if is_empty name
    then fail module_name_required
    else transaction
        (do mid ← write_module name description; write_module_versions pg mid versions; pure tt)

-- ids[0]
abbrev pub first : List ℕ → Result StoreError ℕ
first [] = err panic
first (id ∷ ids) = ok id

-- A pair of row ids, the dependent's and the dependee's: the key "%d-%d" of `uniqueDeps`, and a
-- row of VALUES.
abbrev pub Pair : Type 0
Pair = ℕ × ℕ

unfoldable pub has_pair : ℕ → ℕ → List Pair → Bool
has_pair i j [] = false
has_pair i j ((k, l) ∷ ps) = (k == i && l == j) || has_pair i j ps

-- One row of INSERT INTO module_dependency ... ON CONFLICT DO UPDATE: a command may not touch a
-- row twice, an existing row stays as it is, and both ids must exist.
abbrev pub insert_row : ℕ → ℕ → List Pair → Tables → Result StoreError Tables
insert_row i j touched t =
    if has_pair i j touched
    then err row_affected_twice
    else if has_dependency i j t.dependencies
    then ok t
    else if has_version_id i t.versions && has_version_id j t.versions
    then ok
        (record t { dependencies = record { dependent_id = i; dependee_id = j } ∷ t.dependencies })
    else err foreign_key_violation

unfoldable pub insert_rows : List Pair → List Pair → Tables → Result StoreError Tables
unfolding has_pair has_dependency has_version_id
insert_rows [] touched t = ok t
insert_rows ((i, j) ∷ rows) touched t = elim (insert_row i j touched t) [
  | ok t' ↦ insert_rows rows ((i, j) ∷ touched) t'
  | err e ↦ err e
]

unfoldable pub insert_dependencies : List Pair → Db (Unit {0})
unfolding round_trip insert_rows
insert_dependencies rows = do
  round_trip
  λ s. elim (insert_rows rows [] s.tables) [
    | ok t ↦ (ok tt, record s { tables = t })
    | err e ↦ (err e, s)
  ]

-- The loop over `deps`: the rows of the command, each pair once. `rows` holds both the values of
-- `cmd` and the keys of `uniqueDeps`, which are added together.
unfoldable pub write_dependencies : Postgres → ℕ → List Version → List Pair → Db (List Pair)
unfolding write_module write_module_versions has_pair
write_dependencies pg dependent [] rows = pure rows
write_dependencies pg dependent (d ∷ deps) rows = do
  mid ← write_module d.module_id []
  vids ← write_module_versions pg mid (d.sem_ver ∷ [])
  dependee ← lift (first vids)
  write_dependencies pg dependent deps
      (if has_pair dependent dependee rows then rows else rows ++ (dependent, dependee) ∷ [])

-- The body of the transaction of `SaveModuleDependencies`.
unfoldable pub write_graph : Postgres → Version → List Version → Db (Unit {0})
unfolding write_module write_module_versions write_dependencies insert_dependencies
write_graph pg root deps = do
  pkey ← write_module root.module_id []
  version_ids ← write_module_versions pg pkey (root.sem_ver ∷ [])
  if is_nil deps then pure tt else (do
    dependent ← lift (first version_ids)
    rows ← write_dependencies pg dependent deps []
    insert_dependencies rows)

unfoldable pub save_module_dependencies : Postgres → Version → List Version → Db (Unit {0})
unfolding write_graph transaction
save_module_dependencies pg root deps =
    if is_empty root.module_id || is_empty root.sem_ver
    then fail invalid_module
    else transaction (write_graph pg root deps)
