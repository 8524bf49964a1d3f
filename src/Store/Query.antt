-- ===== src/Store/Query.antt =====
-- internal/store/pg.go and store.go: the reading half of `PostgresClient`.
pub mod Edges
pub mod Pages
pub mod Answers
pub mod Latest
pub mod Versions
pub mod Newest
use perseus.Prelude.{
  ℕ, ◌+◌, Text, codes, Bool, true, false, not, ◌&&◌, ◌||◌, Option, none, some, List, [], ◌∷◌, ◌++◌,
  map, ◌==◌, if◌then◌else◌, Result, ok, err, check, text_eq, is_empty, contains_any, take, drop,
  keep, length, sort, Ordering,
}
use perseus.Prelude.Int.{ℤ, pos, is_positive, pos_part}
use perseus.Store.Postgres.{Postgres, semver_eq, is_lt, is_eq}
use perseus.Store.Like.{like}
use perseus.Store.Glob.{wildcards, glob_to_like, apply_name_filter}
use perseus.Store.Session.{
  ModuleRow, VersionRow, DependencyRow, Tables, StoreError, invalid_page_token,
  module_filter_required, module_blank, version_blank, invalid_pattern, Session, Db, ◌>>=◌, ◌>>◌,
  pure, fail, lift, round_trip,
}
use perseus.Store.Write.{Version, cast_version}
use perseus.Store.Paging.Codecs.{Codec}
use perseus.Store.Paging.{TokenError, encode_page_token, decode_page_token}

-- The offset of a request: 0 without a token, and what the token says otherwise.
unfoldable pub read_token : Codec → Text → Text → Result StoreError ℤ
read_token codec token key =
    if is_empty token then ok (pos 0) else elim (decode_page_token codec token key) [
      | ok offset ↦ ok offset
      | err e ↦ err invalid_page_token
    ]

-- OFFSET and LIMIT, each only if its number is positive.
abbrev pub page {ℓ} : {A : Type ℓ} → ℤ → ℤ → List A → List A
page offset count rows =
    let rest = if is_positive offset then drop (pos_part offset) rows else rows in
    if is_positive count then take (pos_part count) rest else rest

-- WHERE with a test that the database may refuse to evaluate.
unfoldable pub where_rows {ℓ} :
    {A : Type ℓ} → (A → Option Bool) → List A → Result StoreError (List A)
where_rows test [] = ok []
where_rows test (r ∷ rows) = elim (test r) [
  | none ↦ err invalid_pattern
  | some b ↦ elim (where_rows test rows) [
    | err e ↦ err e
    | ok kept ↦ ok (if b then r ∷ kept else kept)
  ]
]

-- A SELECT: one round trip, and then what the tables give.
unfoldable pub select {ℓ} : {A : Type ℓ} → (Tables → Result StoreError A) → Db A
unfolding round_trip
select query = do round_trip; λ s. (query s.tables, s)

-- ORDER BY name
abbrev pub name_before : Postgres → ModuleRow → ModuleRow → Bool
name_before pg a b = is_lt (pg.collate a.name b.name)

unfoldable pub query_modules : Postgres → Codec → Text → Text → ℤ → Db (List ModuleRow × Text)
unfolding read_token where_rows select apply_name_filter encode_page_token sort
query_modules pg codec name_filter token count = do
  offset ← lift (read_token codec token name_filter)
  matching ← select (λ t. where_rows (λ r. apply_name_filter name_filter r.name) t.modules)
  let results = page offset count (sort (name_before pg) matching)
  pure (results, encode_page_token codec name_filter (length results) offset count)

-- The struct `ModuleVersionQuery` of store.go.
pub record ModuleVersionQuery : Type 0 where
  pub module_filter : Text
  pub version_filter : Text
  pub include_prerelease : Bool
  pub latest_only : Bool
  pub page_token : Text
  pub count : ℤ

-- %v of a bool
abbrev pub format_bool : Bool → Text
format_bool true = codes "true"
format_bool false = codes "false"

unfoldable pub page_token_string : ModuleVersionQuery → Text
page_token_string q =
    codes "moduleversions:"
    ++ (q.module_filter
        ++ (codes "+"
            ++ (q.version_filter
                ++ (codes "+"
                    ++ (format_bool q.include_prerelease
                        ++ (codes "+" ++ format_bool q.latest_only))))))

-- The struct `ModuleVersionQueryResult`: a row of the join of module and module_version.
pub record ModuleVersion : Type 0 where
  pub name : Text
  pub version : Text

-- JOIN module m ON (m.id = mv.module_id): the name behind a module id.
unfoldable pub module_name : ℕ → List ModuleRow → Option Text
module_name id [] = none
module_name id (r ∷ rows) = if r.id == id then some r.name else module_name id rows

unfoldable pub join_modules : List ModuleRow → List VersionRow → List ModuleVersion
unfolding module_name
join_modules modules [] = []
join_modules modules (r ∷ rows) =
    let rest = join_modules modules rows in
    elim (module_name r.module_id modules) [
      | none ↦ rest
      | some name ↦ record { name = name; version = r.version } ∷ rest
    ]

-- The conditions on m.name, on mv.version, and on pre-releases.
abbrev pub name_test : Text → ModuleVersion → Option Bool
name_test filter r =
    if contains_any filter wildcards
    then like (glob_to_like filter) r.name
    else some (text_eq r.name filter)

abbrev pub version_test : Postgres → Text → Text → ModuleVersion → Option Bool
version_test pg filter cast r =
    if is_empty filter
    then some true
    else if contains_any filter wildcards
    then like (glob_to_like filter) r.version
    else some (semver_eq pg r.version cast)

abbrev pub both_tests : Option Bool → Option Bool → Option Bool
both_tests (some a) (some b) = some (a && b)
both_tests _ _ = none

abbrev pub prerelease_test : Postgres → Bool → ModuleVersion → Option Bool
prerelease_test pg include r =
    if include then some true else some (is_empty (pg.get_semver_prerelease r.version))

-- MAX(mv.version) and GROUP BY m.name
abbrev pub max_version : Postgres → Text → Text → Text
max_version pg v w = if is_lt (pg.semver_cmp v w) then w else v

unfoldable pub add_latest : Postgres → ModuleVersion → List ModuleVersion → List ModuleVersion
add_latest pg r [] = r ∷ []
add_latest pg r (g ∷ groups) =
    if text_eq g.name r.name
    then record g { version = max_version pg g.version r.version } ∷ groups
    else g ∷ add_latest pg r groups

unfoldable pub group_latest : Postgres → List ModuleVersion → List ModuleVersion
unfolding add_latest
group_latest pg [] = []
group_latest pg (r ∷ rows) = add_latest pg r (group_latest pg rows)

-- ORDER BY 1, 2 DESC
abbrev pub version_before : Postgres → ModuleVersion → ModuleVersion → Bool
version_before pg a b =
    is_lt (pg.collate a.name b.name)
    || (is_eq (pg.collate a.name b.name) && is_lt (pg.semver_cmp b.version a.version))

-- A version filter without wildcards is a parameter of type semver.
abbrev pub filter_version : Postgres → Text → Result StoreError Text
filter_version pg filter =
    if is_empty filter || contains_any filter wildcards then ok filter else cast_version pg filter

unfoldable pub select_versions :
    Postgres → ModuleVersionQuery → Tables → Result StoreError (List ModuleVersion)
unfolding where_rows join_modules group_latest sort glob_to_like like
select_versions pg q t = elim (filter_version pg q.version_filter) [
  | err e ↦ err e
  | ok cast ↦
      elim (where_rows
        (λ r. both_tests (name_test q.module_filter r) (
          both_tests (version_test pg q.version_filter cast r)
            (prerelease_test pg q.include_prerelease r)))
        (join_modules t.modules t.versions)) [
          | err e ↦ err e
          | ok rows ↦
              ok (sort (version_before pg) (if q.latest_only then group_latest pg rows else rows))
        ]
]

unfoldable pub query_module_versions :
    Postgres → Codec → ModuleVersionQuery → Db (List ModuleVersion × Text)
unfolding read_token select select_versions encode_page_token page_token_string
query_module_versions pg codec q = do
  offset ← lift (read_token codec q.page_token (page_token_string q))
  lift (check (not (is_empty q.module_filter)) module_filter_required)
  rows ← select (select_versions pg q)
  let results = page offset q.count rows
  pure (results, encode_page_token codec (page_token_string q) (length results) offset q.count)

-- The two constants `joinTarget...`: which column the given module version stands in.
pub data JoinTarget : Type 0 where
  dependents dependees : JoinTarget

unfoldable pub join_column : JoinTarget → Text
join_column dependents = codes "dependee_id"
join_column dependees = codes "dependent_id"

-- A row of the CTE `mvs`: the version row with an id, and its module's name.
abbrev pub mvs_row : VersionRow → Option Text → Option Version
mvs_row r none = none
mvs_row r (some name) = some (record { id = r.id; module_id = name; sem_ver = r.version })

unfoldable pub find_mvs : ℕ → List ModuleRow → List VersionRow → Option Version
unfolding module_name
find_mvs id modules [] = none
find_mvs id modules (r ∷ rows) =
    if r.id == id then mvs_row r (module_name r.module_id modules) else find_mvs id modules rows

-- JOIN mvs lhs ... JOIN mvs rhs ...: the ids of the given and of the wanted version.
abbrev pub lhs_id : JoinTarget → DependencyRow → ℕ
lhs_id dependents r = r.dependee_id
lhs_id dependees r = r.dependent_id

abbrev pub rhs_id : JoinTarget → DependencyRow → ℕ
rhs_id dependents r = r.dependent_id
rhs_id dependees r = r.dependee_id

-- WHERE lhs.name = module AND lhs.version = version
abbrev pub is_given : Postgres → Text → Text → Option Version → Bool
is_given pg name version none = false
is_given pg name version (some lhs) = text_eq lhs.module_id name && semver_eq pg lhs.sem_ver version

abbrev pub with_row : Bool → Option Version → List Version → List Version
with_row given none rest = rest
with_row given (some rhs) rest = if given then rhs ∷ rest else rest

unfoldable pub join_dependencies :
    Postgres → JoinTarget → Text → Text → Tables → List DependencyRow → List Version
unfolding find_mvs
join_dependencies pg target name version t [] = []
join_dependencies pg target name version t (d ∷ rows) =
    with_row (is_given pg name version (find_mvs (lhs_id target d) t.modules t.versions))
      (find_mvs (rhs_id target d) t.modules t.versions)
      (join_dependencies pg target name version t rows)

-- ORDER BY 2, 3 DESC
abbrev pub dependency_before : Postgres → Version → Version → Bool
dependency_before pg a b =
    is_lt (pg.collate a.module_id b.module_id)
    || (is_eq (pg.collate a.module_id b.module_id) && is_lt (pg.semver_cmp b.sem_ver a.sem_ver))

unfoldable pub select_dependencies :
    Postgres → JoinTarget → Text → Text → Tables → Result StoreError (List Version)
unfolding join_dependencies sort
select_dependencies pg target name version t = elim (cast_version pg version) [
  | err e ↦ err e
  | ok cast ↦
      ok (sort (dependency_before pg) (join_dependencies pg target name cast t t.dependencies))
]

-- The key of the page token of `getDependx`.
abbrev pub dependency_key : Text → Text → JoinTarget → Text
dependency_key name version target =
    codes "moduleversions:" ++ (name ++ (version ++ (codes ":" ++ join_column target)))

unfoldable pub get_dependx :
    Postgres → Codec → Text → Text → JoinTarget → Text → ℤ → Db (List Version × Text)
unfolding read_token select select_dependencies encode_page_token join_column
get_dependx pg codec name version target token count = do
  offset ← lift (read_token codec token (dependency_key name version target))
  lift (check (not (is_empty name)) module_blank)
  lift (check (not (is_empty version)) version_blank)
  rows ← select (select_dependencies pg target name version)
  let results = page offset count rows
  pure (
    results,
    encode_page_token codec (dependency_key name version target) (length results) offset count,
  )

unfoldable pub get_dependents : Postgres → Codec → Text → Text → Text → ℤ → Db (List Version × Text)
unfolding get_dependx
get_dependents pg codec id version token count =
    get_dependx pg codec id version dependents token count

unfoldable pub get_dependees : Postgres → Codec → Text → Text → Text → ℤ → Db (List Version × Text)
unfolding get_dependx
get_dependees pg codec id version token count =
    get_dependx pg codec id version dependees token count
