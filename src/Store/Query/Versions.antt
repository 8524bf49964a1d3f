-- ===== src/Store/Query/Versions.antt =====
-- What `QueryModuleVersions` and `QueryModules` select.
use perseus.Prelude.{
  ◌≡◌, refl, ap, ◌∙◌, Text, Bool, true, false, ◌&&◌, ◌||◌, Option, some, List, [], ◌∷◌, Bool-cases,
  inl, inr, if◌then◌else◌, Result, ok, is_empty, text_eq, contains_any, keep, length, sort,
}
use perseus.Prelude.Int.{pos}
use perseus.Store.Postgres.{Postgres, semver_eq}
use perseus.Store.Glob.{wildcards, apply_name_filter}
use perseus.Store.Glob.Match.{
  NoBackslash, glob_matches, filter_matches, like-glob_to_like, apply_name_filter_lem,
}
use perseus.Store.Session.{ModuleRow, StoreError, Session, Tables, Db, pure}
use perseus.Store.Ends.{bind-ok}
use perseus.Store.Paging.Codecs.{Codec}
use perseus.Store.Paging.{encode_page_token}
use perseus.Store.Query.{
  where_rows, select, name_before, query_modules, ModuleVersionQuery, page_token_string,
  ModuleVersion, join_modules, name_test, version_test, both_tests, prerelease_test, group_latest,
  version_before, filter_version, select_versions, query_module_versions, read_token,
}
use perseus.Store.Query.Pages.{select-ok}

-- A filter: a glob where it has a wildcard, and else the name itself.
abbrev pub name_matches : Text → Text → Bool
name_matches filter name =
    if contains_any filter wildcards then glob_matches filter name else text_eq name filter

-- The same for a version, with the version that a filter without wildcards is read as; an empty
-- filter selects every version.
abbrev pub version_matches : Postgres → Text → Text → Text → Bool
version_matches pg filter cast version =
    if is_empty filter
    then true
    else if contains_any filter wildcards
    then glob_matches filter version
    else semver_eq pg version cast

abbrev pub is_wanted : Postgres → Bool → Text → Bool
is_wanted pg include version = include || is_empty (pg.get_semver_prerelease version)

-- The rows that a query is about.
abbrev pub selects : Postgres → ModuleVersionQuery → Text → ModuleVersion → Bool
selects pg q cast r =
    name_matches q.module_filter r.name
    && (version_matches pg q.version_filter cast r.version
        && is_wanted pg q.include_prerelease r.version)

-- A test that the database evaluates on every row keeps the rows that pass.
where_rows-keep {ℓ} :
    {A : Type ℓ} (test : A → Option Bool) (p : A → Bool)
    → ((r : A) → test r ≡ some (p r))
    → (rows : List A) → where_rows test rows ≡ ok (keep p rows)
unfolding where_rows
where_rows-keep test p h [] = refl
where_rows-keep test p h (r ∷ rows) = elim (Bool-cases (p r)) [
  | inl e ↦ rw (where_rows, h r, where_rows-keep test p h rows, e) refl
  | inr e ↦ rw (where_rows, h r, where_rows-keep test p h rows, e) refl
]

name_test_lem :
    (filter : Text) (r : ModuleVersion)
    → NoBackslash filter
    → name_test filter r ≡ some (name_matches filter r.name)
name_test_lem filter r h = elim (Bool-cases (contains_any filter wildcards)) [
  | inl e ↦ rw e (like-glob_to_like filter r.name h)
  | inr e ↦ rw e refl
]

version_test_lem :
    (pg : Postgres) (filter cast : Text) (r : ModuleVersion)
    → NoBackslash filter
    → version_test pg filter cast r ≡ some (version_matches pg filter cast r.version)
version_test_lem pg filter cast r h = elim (Bool-cases (is_empty filter)) [
  | inl e ↦ rw e refl
  | inr e ↦ elim (Bool-cases (contains_any filter wildcards)) [
    | inl f ↦ rw (e, f) (like-glob_to_like filter r.version h)
    | inr f ↦ rw (e, f) refl
  ]
]

prerelease_test_lem :
    (pg : Postgres) (include : Bool) (r : ModuleVersion)
    → prerelease_test pg include r ≡ some (is_wanted pg include r.version)
prerelease_test_lem pg true r = refl
prerelease_test_lem pg false r = refl

-- A query for everything in one page
abbrev pub whole_query : Text → Text → Bool → Bool → ModuleVersionQuery
whole_query module_filter version_filter include latest = record {
  module_filter = module_filter;
  version_filter = version_filter;
  include_prerelease = include;
  latest_only = latest;
  page_token = [];
  count = pos 0;
}

module _ (pg : Postgres) (codec : Codec) (s : Session) (calm : s.faults ≡ []) where
  module _ (module_filter version_filter : Text) (include latest : Bool) (cast : Text)
      (module_glob : NoBackslash module_filter) (version_glob : NoBackslash version_filter)
      (casts : filter_version pg version_filter ≡ ok cast) where
    abbrev q : ModuleVersionQuery
    q = whole_query module_filter version_filter include latest

    -- The rows of the join that the query selects.
    abbrev pub selected : List ModuleVersion
    selected =
        keep (selects pg (whole_query module_filter version_filter include latest) cast)
          (join_modules s.tables.modules s.tables.versions)

    abbrev pub answered_rows : List ModuleVersion
    answered_rows = sort (version_before pg) (if latest then group_latest pg selected else selected)

    tests : ModuleVersion → Option Bool
    tests r = both_tests (name_test q.module_filter r) (
        both_tests (version_test pg q.version_filter cast r)
          (prerelease_test pg q.include_prerelease r))

    tests_lem : (r : ModuleVersion) → tests r ≡ some (selects pg q cast r)
    unfolding tests
    tests_lem r =
        rw
          (
            name_test_lem module_filter r module_glob,
            version_test_lem pg version_filter cast r version_glob,
            prerelease_test_lem pg include r,
          )
          refl

    select_versions-selected : select_versions pg q s.tables ≡ ok answered_rows
    unfolding select_versions tests
    select_versions-selected =
        rw
          (
            select_versions,
            casts,
            where_rows-keep tests (selects pg q cast) tests_lem
                (join_modules s.tables.modules s.tables.versions),
          )
          refl

    -- Without a page token and a page size every row is answered.
    pub query_module_versions-ok :
        is_empty module_filter ≡ false
        → query_module_versions pg codec q s ≡ (
          ok (
            answered_rows,
            encode_page_token codec (page_token_string q) (length answered_rows) (pos 0) (pos 0),
          ),
          s,
        )
    unfolding query_module_versions read_token
    query_module_versions-ok named = rw named (
        bind-ok (select (select_versions pg q)) finish {s = s} (
          select-ok (select_versions pg q) s calm
          ∙ ap (λ (r : Result StoreError (List ModuleVersion)). (r, s)) select_versions-selected))
      where
        finish : List ModuleVersion → Db (List ModuleVersion × Text)
        finish rows =
            pure (rows, encode_page_token codec (page_token_string q) (length rows) (pos 0) (pos 0))

  abbrev pub matching_modules : Text → List ModuleRow
  matching_modules filter =
      sort (name_before pg) (keep (λ r. filter_matches filter r.name) s.tables.modules)

  pub query_modules-ok :
      (filter : Text)
      → NoBackslash filter
      → query_modules pg codec filter [] (pos 0) s ≡ (
        ok (
          matching_modules filter,
          encode_page_token codec filter (length (matching_modules filter)) (pos 0) (pos 0),
        ),
        s,
      )
  unfolding query_modules read_token
  query_modules-ok filter glob = bind-ok (select query) finish {s = s} (
      select-ok query s calm
      ∙ ap (λ (r : Result StoreError (List ModuleRow)). (r, s))
          (where_rows-keep (λ r. apply_name_filter filter r.name)
            (λ r. filter_matches filter r.name) (λ r. apply_name_filter_lem filter r.name glob)
            s.tables.modules))
    where
      query : Tables → Result StoreError (List ModuleRow)
      query t = where_rows (λ r. apply_name_filter filter r.name) t.modules

      finish : List ModuleRow → Db (List ModuleRow × Text)
      finish matching =
          let results = sort (name_before pg) matching in
          pure (results, encode_page_token codec filter (length results) (pos 0) (pos 0))
