-- ===== src/Store/Session.antt =====
-- The database as create_database.sql lays it out, and one connection to it: each statement is an
-- action that costs one round trip, which may fail.
use perseus.Prelude.{
  ℕ, ◌+◌, ◌^◌, Text, Bool, true, false, Option, List, [], ◌∷◌, ltb, if◌then◌else◌, Result, ok, err,
}

-- CREATE TABLE module
pub record ModuleRow : Type 0 where
  pub id : ℕ
  pub name : Text
  pub description : Option Text

-- CREATE TABLE module_version
pub record VersionRow : Type 0 where
  pub id : ℕ
  pub module_id : ℕ
  pub version : Text

-- CREATE TABLE module_dependency
pub record DependencyRow : Type 0 where
  pub dependent_id : ℕ
  pub dependee_id : ℕ

-- A relation has no order: new rows stand in front.
pub record Tables : Type 0 where
  pub modules : List ModuleRow
  pub versions : List VersionRow
  pub dependencies : List DependencyRow

-- Go errors of the package, one constructor for each place that makes one.
pub data StoreError : Type 0 where
  -- pg.go's own checks
  module_name_required : StoreError
  invalid_module : StoreError
  invalid_page_token : StoreError
  module_filter_required : StoreError
  module_blank : StoreError
  version_blank : StoreError
  modified_no_row : StoreError
  modified_many_rows : StoreError
  -- an index out of range: a panic
  panic : StoreError
  -- what the database answers
  connection_failed : StoreError
  invalid_semver : StoreError
  invalid_pattern : StoreError
  sequence_exhausted : StoreError
  foreign_key_violation : StoreError
  row_affected_twice : StoreError

-- SERIAL counters are outside of transactions: a rollback does not reset them. `faults` says for
-- each round trip to come whether it fails; where it ends, all succeed.
pub record Session : Type 0 where
  pub tables : Tables
  pub next_module : ℕ
  pub next_version : ℕ
  pub faults : List Bool

abbrev pub Db {ℓ} : Type ℓ → Type ℓ
Db A = Session → Result StoreError A × Session

infixl 5 ◌>>=◌ ◌>>◌
abbrev pub ◌>>=◌ {ℓ κ} : {A : Type ℓ} {B : Type κ} → Db A → (A → Db B) → Db B
◌>>=◌ m f s = let (r, s') = m s in elim r [ ok a ↦ f a s' | err e ↦ (err e, s') ]

abbrev pub ◌>>◌ {ℓ κ} : {A : Type ℓ} {B : Type κ} → Db A → Db B → Db B
m >> k = m >>= λ _. k

abbrev pub pure {ℓ} : {A : Type ℓ} → A → Db A
pure a s = (ok a, s)

abbrev pub fail {ℓ} : {A : Type ℓ} → StoreError → Db A
fail e s = (err e, s)

abbrev pub lift {ℓ} : {A : Type ℓ} → Result StoreError A → Db A
lift r s = (r, s)

abbrev pub answer : List Bool → Db (Unit {0})
answer [] s = (ok tt, s)
answer (true ∷ faults) s = (err connection_failed, record s { faults = faults })
answer (false ∷ faults) s = (ok tt, record s { faults = faults })

-- One round trip to the database.
unfoldable pub round_trip : Db (Unit {0})
round_trip s = answer s.faults s

-- A SERIAL column is an INTEGER: its sequence ends at 2^31 - 1.
abbrev pub serial_limit : ℕ
serial_limit = 2 ^ 31

-- nextval of the sequence behind module.id
unfoldable pub next_module_id : Db ℕ
next_module_id s =
    if ltb s.next_module serial_limit
    then (ok s.next_module, record s { next_module = s.next_module + 1 })
    else (err sequence_exhausted, s)

-- nextval of the sequence behind module_version.id
unfoldable pub next_version_id : Db ℕ
next_version_id s =
    if ltb s.next_version serial_limit
    then (ok s.next_version, record s { next_version = s.next_version + 1 })
    else (err sequence_exhausted, s)

-- The rollback of the tables alone.
abbrev pub rolled_back : Tables → Session → Session
rolled_back t s = record s { tables = t }

-- `err != nil` in the deferred function of a transaction: commit on success, else roll back.
unfoldable pub finish {ℓ} :
    {A : Type ℓ} → Tables → Result StoreError A × Session → Result StoreError A × Session
unfolding round_trip
finish before (ok a, s) =
    let (r, s') = round_trip s in
    elim r [ ok _ ↦ (ok a, s') | err e ↦ (err e, rolled_back before s') ]
finish before (err e, s) = let (r, s') = round_trip s in (err e, rolled_back before s')

-- BeginTx, the body, and the deferred commit or rollback.
unfoldable pub transaction {ℓ} : {A : Type ℓ} → Db A → Db A
unfolding finish
transaction body = do round_trip; λ s. finish s.tables (body s)
