-- ===== src/Store/Query/Newest.antt =====
-- The latest version of one module, as `QueryModuleVersions` finds it.
use perseus.Prelude.{
  ◌⊎◌, inl, inr, ◌≡◌, refl, sym, ap, ◌∙◌, subst, Text, Bool, true, false, ◌&&◌, List, [], ◌∷◌, All,
  Any, if◌then◌else◌, ok, is_empty, text_eq, text_eq_iff, contains_any, keep, length, sort,
  Bool-cases, &&-true,
}
use perseus.Prelude.Int.{pos}
use perseus.Store.Postgres.{Postgres, is_lt}
use perseus.Store.Glob.{wildcards}
use perseus.Store.Glob.Match.{NoBackslash, glob_matches}
use perseus.Store.Session.{Session, Tables}
use perseus.Store.Paging.Codecs.{Codec}
use perseus.Store.Paging.{encode_page_token}
use perseus.Store.Query.{
  page_token_string, ModuleVersion, join_modules, group_latest, version_before,
  query_module_versions,
}
use perseus.Store.Query.Latest.{SemverOrder, HasRow, NoneHigher, Grouped, group_latest-Grouped}
use perseus.Store.Query.Versions.{
  is_wanted, selected, answered_rows, whole_query, query_module_versions-ok,
}

-- The name of a module that is read as itself in a filter.
abbrev pub PlainName : Text → Type 0
PlainName name = (is_empty name ≡ false) × (contains_any name wildcards ≡ false) × NoBackslash name

-- The versions of a module, with its pre-releases if they are wanted.
abbrev pub versions_named : Postgres → Tables → Text → Bool → List ModuleVersion
versions_named pg t name include =
    keep (λ r. text_eq r.name name && is_wanted pg include r.version)
      (join_modules t.modules t.versions)

-- A version of the list, and no version of the list is higher.
abbrev pub Newest : Postgres → List ModuleVersion → Text → Type 0
Newest pg rows v =
    Any (λ r. r.version ≡ v) rows × All (λ r. is_lt (pg.semver_cmp v r.version) ≡ false) rows

module _ (name : Text) where
  keep_named :
      (p : Text → Bool) (rows : List ModuleVersion)
      → All (λ r. r.name ≡ name) (keep (λ r. text_eq r.name name && p r.version) rows)
  keep_named p [] = tt
  keep_named p (r ∷ rows) = elim (Bool-cases (text_eq r.name name && p r.version)) [
    | inl e ↦ rw e ((text_eq_iff r.name name).0 (&&-true _ _ e).0, keep_named p rows)
    | inr e ↦ rw e (keep_named p rows)
  ]

  HasRow-named :
      (rows : List ModuleVersion) (g : ModuleVersion)
      → All (λ r. r.name ≡ name) rows
      → HasRow rows g
      → (g.name ≡ name) × Any (λ r. r.version ≡ g.version) rows
  HasRow-named [] g h k = absurd k
  HasRow-named (r ∷ rows) g (h, hs) (inl (e, f)) = (sym e ∙ h, inl f)
  HasRow-named (r ∷ rows) g (h, hs) (inr k) = let (e, f) = HasRow-named rows g hs k in (e, inr f)

  NoneHigher-named :
      (pg : Postgres) (rows : List ModuleVersion) (g : ModuleVersion)
      → g.name ≡ name
      → All (λ r. r.name ≡ name) rows
      → NoneHigher pg rows g
      → All (λ r. is_lt (pg.semver_cmp g.version r.version) ≡ false) rows
  NoneHigher-named pg [] g e h k = tt
  NoneHigher-named pg (r ∷ rows) g e (h, hs) (k, ks) =
      (k (h ∙ sym e), NoneHigher-named pg rows g e hs ks)

  -- The groups of rows that share a name: none, or one.
  module _ (pg : Postgres) (order : SemverOrder pg) where
    abbrev pub OneGroup : List ModuleVersion → List ModuleVersion → Type 0
    OneGroup rows groups =
        ((groups ≡ []) × (rows ≡ []))
        ⊎ ((g : ModuleVersion) × (groups ≡ (g ∷ [])) × Newest pg rows g.version)

    Grouped-OneGroup :
        (rows groups : List ModuleVersion)
        → All (λ r. r.name ≡ name) rows
        → Grouped pg order rows groups
        → OneGroup rows groups
    Grouped-OneGroup [] [] h k = inl (refl, refl)
    Grouped-OneGroup (r ∷ rows) [] h (once, latest, (none_named, more)) = absurd none_named
    Grouped-OneGroup rows (g ∷ []) h (once, ((has, above), rest), named) =
        let (e, f) = HasRow-named rows g h has in
        inr (g, refl, (f, NoneHigher-named pg rows g e h above))
    Grouped-OneGroup rows (g ∷ k ∷ groups) h
          (((n, others), once), ((has, above), ((has', above'), rest)), named) =
        let (e, f) = HasRow-named rows g h has in
        let (e', f') = HasRow-named rows k h has' in
        absurd (cc (n, (text_eq_iff k.name g.name).1 (e' ∙ sym e)))

    OneGroup-sort :
        (rows groups : List ModuleVersion)
        → OneGroup rows groups
        → OneGroup rows (sort (version_before pg) groups)
    unfolding sort
    OneGroup-sort rows groups (inl (e, f)) = inl (ap (sort (version_before pg)) e, f)
    OneGroup-sort rows groups (inr (g, e, n)) = inr (g, ap (sort (version_before pg)) e, n)

module _ (pg : Postgres) (order : SemverOrder pg) (codec : Codec) (s : Session)
    (calm : s.faults ≡ []) (name : Text) (plain : PlainName name) (include : Bool) where
  selected-named :
      selected pg codec s calm name [] include true [] plain.2 tt refl
      ≡ versions_named pg s.tables name include
  selected-named =
      ap
        (λ b.
          keep
            (λ r.
              (if b then glob_matches name r.name else text_eq r.name name)
              && is_wanted pg include r.version)
            (join_modules s.tables.modules s.tables.versions))
        plain.1

  -- The query for the latest version of one module has no row if there is no version that is
  -- wanted, and else one, with a version that no other is above.
  pub query_module_versions-newest :
      (rows : List ModuleVersion) × (token : Text) × (query_module_versions pg codec
          (whole_query name [] include true)
          s
        ≡ (ok (rows, token), s))
      × OneGroup name pg order (versions_named pg s.tables name include) rows
  query_module_versions-newest = (
    answered_rows pg codec s calm name [] include true [] plain.2 tt refl,
    encode_page_token codec (page_token_string (whole_query name [] include true))
        (length (answered_rows pg codec s calm name [] include true [] plain.2 tt refl)) (pos 0)
        (pos 0),
    query_module_versions-ok pg codec s calm name [] include true [] plain.2 tt refl plain.0,
    subst (λ rows. OneGroup name pg order wanted (sort (version_before pg) (group_latest pg rows)))
        (sym selected-named)
        (OneGroup-sort name pg order wanted (group_latest pg wanted) (
          Grouped-OneGroup name pg order wanted (group_latest pg wanted)
            (keep_named name (is_wanted pg include)
              (join_modules s.tables.modules s.tables.versions))
            (group_latest-Grouped pg order wanted))),
  )
    where
      wanted : List ModuleVersion
      wanted = versions_named pg s.tables name include
