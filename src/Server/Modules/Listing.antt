-- ===== src/Server/Modules/Listing.antt =====
-- `ListModules` on the Postgres client.
use perseus.Prelude.{
  ◌⊎◌, inl, inr, ◌≡◌, refl, sym, ap, ◌∙◌, subst, Text, Bool, true, false, List, [], ◌∷◌, All,
  if◌then◌else◌, ok, is_nil, keep, sort-All, Bool-cases, length,
}
use perseus.Prelude.Int.{pos}
use perseus.Store.Postgres.{Postgres}
use perseus.Store.Glob.Match.{NoBackslash, filter_matches}
use perseus.Store.Session.{ModuleRow, Session, Tables}
use perseus.Store.Paging.Codecs.{Codec}
use perseus.Store.Paging.{encode_page_token}
use perseus.Store.Query.{ModuleVersion, name_before, query_modules, query_module_versions}
use perseus.Store.Query.Latest.{SemverOrder}
use perseus.Store.Query.Versions.{matching_modules, query_modules-ok}
use perseus.Store.Query.Newest.{
  PlainName, versions_named, Newest, OneGroup, query_module_versions-newest,
}
use perseus.Server.Messages.{Module, database_failed}
use perseus.Server.Backend.{Handler, postgres_client, call, answer, ◌>>=◌}
use perseus.Server.Outcomes.{call-ok, bind-ok}
use perseus.Server.Modules.{
  latest_query, query_latest, latest_versions, with_latest, list_latest, list_modules,
}

-- What ListModules shows of a module: its highest release; or its highest version where it has only
-- pre-releases; or no version where it has none.
abbrev pub Shown : Postgres → Tables → ModuleRow → Module → Type 0
Shown pg t row m =
    (m.name ≡ row.name)
    × (((v : Text) × (m.versions ≡ ((b'v' ∷ v) ∷ []))
          × Newest pg (versions_named pg t row.name false) v)
        ⊎ (((v : Text) × (m.versions ≡ ((b'v' ∷ v) ∷ []))
              × (versions_named pg t row.name false ≡ [])
              × Newest pg (versions_named pg t row.name true) v)
            ⊎ ((m.versions ≡ []) × (versions_named pg t row.name true ≡ []))))

-- Two lists of the same length whose elements are related, place by place.
abbrev pub Paired : {A : Type 0} {B : Type 0} → (A → B → Type 0) → List A → List B → Type 0
Paired R [] [] = Unit
Paired R [] (y ∷ ys) = ⊥
Paired R (x ∷ xs) [] = ⊥
Paired R (x ∷ xs) (y ∷ ys) = R x y × Paired R xs ys

module _ (pg : Postgres) (order : SemverOrder pg) (codec : Codec) (s : Session)
    (calm : s.faults ≡ []) where
  query_latest-OneGroup :
      (name : Text) (include : Bool)
      → PlainName name
      → (rows : List ModuleVersion) × (token : Text) × (query_latest
            (postgres_client pg codec)
            name
            include
            s
          ≡ (ok (rows, token), s))
        × OneGroup name pg order (versions_named pg s.tables name include) rows
  query_latest-OneGroup name include plain =
      let (rows, token, got, one) =
        query_module_versions-newest pg order codec s calm name plain include in
      (
        rows,
        token,
        call-ok
            (query_module_versions pg codec (latest_query (postgres_client pg codec) name include))
            database_failed got,
        one,
      )

  module _ (row : ModuleRow) where
    abbrev Latest : Type 0
    Latest =
        (versions : List ModuleVersion) × (latest_versions (postgres_client pg codec) row.name s
          ≡ (ok versions, s))
        × Shown pg s.tables row (with_latest (postgres_client pg codec) row.name versions)

    -- What follows the query for releases.
    abbrev after_stable : List ModuleVersion × Text → Handler Session (List ModuleVersion)
    after_stable (stable, _) =
        if is_nil stable
        then (query_latest (postgres_client pg codec) row.name true >>= λ (versions, _).
            answer versions)
        else answer stable

    stable-Latest :
        (g : ModuleVersion) (rows : List ModuleVersion) (token : Text)
        → query_latest (postgres_client pg codec) row.name false s ≡ (ok (rows, token), s)
        → rows ≡ (g ∷ [])
        → Newest pg (versions_named pg s.tables row.name false) g.version
        → Latest
    unfolding latest_versions
    stable-Latest g rows token got e newest = (
      g ∷ [],
      bind-ok (query_latest (postgres_client pg codec) row.name false) after_stable got
          ∙ ap (λ r. after_stable (r, token) s) e,
      (refl, inl (g.version, refl, newest)),
    )

    prerelease-Latest :
        (rows versions : List ModuleVersion) (token more : Text)
        → query_latest (postgres_client pg codec) row.name false s ≡ (ok (rows, token), s)
        → rows ≡ []
        → versions_named pg s.tables row.name false ≡ []
        → query_latest (postgres_client pg codec) row.name true s ≡ (ok (versions, more), s)
        → OneGroup row.name pg order (versions_named pg s.tables row.name true) versions
        → Latest
    unfolding latest_versions
    prerelease-Latest rows versions token more got e none_stable got' one = (
      versions,
      bind-ok (query_latest (postgres_client pg codec) row.name false) after_stable got
          ∙ ap (λ r. after_stable (r, token) s) e
          ∙ bind-ok (query_latest (postgres_client pg codec) row.name true)
              (λ (versions, _). answer versions) got',
      by_group one,
    )
      where
        by_group :
            OneGroup row.name pg order (versions_named pg s.tables row.name true) versions
            → Shown pg s.tables row (with_latest (postgres_client pg codec) row.name versions)
        by_group (inl (f, none)) =
            subst (λ vs. Shown pg s.tables row (with_latest (postgres_client pg codec) row.name vs))
              (sym f) (refl, inr (inr (refl, none)))
        by_group (inr (g, f, newest)) =
            subst (λ vs. Shown pg s.tables row (with_latest (postgres_client pg codec) row.name vs))
              (sym f) (refl, inr (inl (g.version, refl, none_stable, newest)))

    latest_versions-Shown : PlainName row.name → Latest
    latest_versions-Shown plain =
        let (rows, token, got, one) = query_latest-OneGroup row.name false plain in
        let (versions, more, got', one') = query_latest-OneGroup row.name true plain in
        elim one [
          | inl (e, none) ↦ prerelease-Latest rows versions token more got e none got' one'
          | inr (g, e, newest) ↦ stable-Latest g rows token got e newest
        ]

  list_latest-Shown :
      (rows : List ModuleRow)
      → All (λ r. PlainName r.name) rows
      → (modules : List Module) × (list_latest (postgres_client pg codec) rows s ≡ (ok modules, s))
        × Paired (Shown pg s.tables) rows modules
  unfolding list_latest
  list_latest-Shown [] h = ([], refl, tt)
  list_latest-Shown (r ∷ rows) (h, hs) =
      let (versions, got, shown) = latest_versions-Shown r h in
      let (modules, rest, all_shown) = list_latest-Shown rows hs in
      (
        with_latest (postgres_client pg codec) r.name versions ∷ modules,
        bind-ok (latest_versions (postgres_client pg codec) r.name)
              (λ versions. list_latest (postgres_client pg codec) rows >>= λ rest.
                answer (with_latest (postgres_client pg codec) r.name versions ∷ rest))
              got
            ∙ bind-ok (list_latest (postgres_client pg codec) rows)
                (λ rest. answer (with_latest (postgres_client pg codec) r.name versions ∷ rest))
                rest,
        (shown, all_shown),
      )

  keep-All :
      (P : ModuleRow → Type 0) (p : ModuleRow → Bool) (rows : List ModuleRow)
      → All P rows
      → All P (keep p rows)
  keep-All P p [] h = tt
  keep-All P p (r ∷ rows) (h, hs) = elim (Bool-cases (p r)) [
    | inl e ↦ rw e (h, keep-All P p rows hs)
    | inr e ↦ rw e (keep-All P p rows hs)
  ]

  -- With no failing round trip, and where the names of the modules are plain, `ListModules` for a
  -- filter without a backslash, without paging, answers with every module that the filter selects,
  -- in the order of names, each with its highest release, or with its highest version where it has
  -- only pre-releases, or with no version where it has none; it changes nothing.
  pub list_modules-Shown :
      (filter : Text)
      → NoBackslash filter
      → All (λ r. PlainName r.name) s.tables.modules
      → (modules : List Module) × (list_modules
            (postgres_client pg codec)
            (record { filter = filter; page_token = []; page_size = pos 0 })
            s
          ≡ (
            ok (record {
              modules = modules;
              next_page_token =
                  encode_page_token codec filter
                    (length (matching_modules pg codec s calm filter))
                    (pos 0)
                    (pos 0);
            }),
            s,
          ))
        × Paired (Shown pg s.tables) (matching_modules pg codec s calm filter) modules
  unfolding list_modules
  list_modules-Shown filter glob plain =
      let (modules, got, shown) = list_latest-Shown (matching_modules pg codec s calm filter) (
        sort-All (name_before pg) (λ r. PlainName r.name) _
          (keep-All (λ r. PlainName r.name) (λ r. filter_matches filter r.name) s.tables.modules
            plain)) in
      (
        modules,
        bind-ok (call ((postgres_client pg codec).query_modules filter [] (pos 0)) database_failed)
              (λ (mods, token). list_latest (postgres_client pg codec) mods >>= λ modules.
                answer (record { modules = modules; next_page_token = token }))
              (call-ok (query_modules pg codec filter [] (pos 0)) database_failed
                (query_modules-ok pg codec s calm filter glob))
            ∙ bind-ok
                (list_latest (postgres_client pg codec) (matching_modules pg codec s calm filter))
                (λ modules. answer (record {
                  modules = modules;
                  next_page_token =
                      encode_page_token codec filter
                        (length (matching_modules pg codec s calm filter)) (pos 0) (pos 0);
                }))
                got,
        shown,
      )
