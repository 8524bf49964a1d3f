-- ===== src/Client/Commands/Versions.antt =====
-- `list-module-versions` against the handler on the Postgres client.
use perseus.Prelude.{
  map-append, ℕ, suc, ◌≡◌, refl, sym, ap, ◌∙◌, Text, Bool, true, false, List, [], ◌∷◌, ◌++◌, map,
  if◌then◌else◌, ok, length, sort, is_empty,
}
use perseus.Prelude.Int.{pos}
use perseus.Store.Postgres.{Postgres}
use perseus.Store.Session.{Session}
use perseus.Store.Glob.Match.{NoBackslash}
use perseus.Store.Paging.Codecs.{Codec, CodecLaws}
use perseus.Store.Paging.{encode_page_token}
use perseus.Store.Paging.Tokens.{is_empty-encode_page_token}
use perseus.Store.Query.{
  ModuleVersion, ModuleVersionQuery, page_token_string, filter_version, group_latest,
  version_before, query_module_versions,
}
use perseus.Store.Query.Latest.{SemverOrder, Grouped, group_latest-Grouped}
use perseus.Store.Query.Versions.{whole_query, selected, answered_rows, query_module_versions-ok}
use perseus.Server.Messages.{
  Module, VersionOption, option_latest, option_all, ListModuleVersionsRequest,
}
use perseus.Server.Backend.{postgres_client}
use perseus.Server.Modules.{versions_query, check_option, is_latest}
use perseus.Server.Modules.Groups.{flatten, labelled, list_module_versions-groups}
use perseus.Client.Flatten.{DependencyItem}
use perseus.Client.Lists.{listed_item, version_items, versions_at, list_pages-first}
use perseus.Client.Lists
use perseus.Client.Output.{Tools}
use perseus.Client.Update.Served.{as_rpc}
use perseus.Client.Commands.{CommandLine, VersionFlags, write_versions, run_list_module_versions}
use perseus.Client.Commands.Listed.{by_format, NamesPattern, list_with-by_format, served_lists}

-- The item that a row of the database is shown as.
abbrev pub row_item : ModuleVersion → DependencyItem
row_item r = listed_item r.name (b'v' ∷ r.version)

items-pairs :
    (name : Text) (versions : List Text)
    → map (listed_item name) versions
      ≡ map (λ (p : Text × Text). listed_item p.0 p.1) (map (λ v. (name, v)) versions)
items-pairs name [] = refl
items-pairs name (v ∷ versions) = ap (λ t. listed_item name v ∷ t) (items-pairs name versions)

version_items-flatten :
    (modules : List Module)
    → version_items modules ≡ map (λ (p : Text × Text). listed_item p.0 p.1) (flatten modules)
version_items-flatten [] = refl
version_items-flatten (m ∷ modules) =
    ap (λ t. map (listed_item m.name) m.versions ++ t) (version_items-flatten modules)
    ∙ ap (λ t. t ++ map (λ (p : Text × Text). listed_item p.0 p.1) (flatten modules))
        (items-pairs m.name m.versions)
    ∙ sym (
        map-append (λ (p : Text × Text). listed_item p.0 p.1) (map (λ v. (m.name, v)) m.versions)
          (flatten modules))

labelled-items :
    (rows : List ModuleVersion)
    → map (λ (p : Text × Text). listed_item p.0 p.1) (map labelled rows) ≡ map row_item rows
labelled-items [] = refl
labelled-items (r ∷ rows) = ap (λ t. row_item r ∷ t) (labelled-items rows)

abbrev option_of : Bool → VersionOption
option_of latest = if latest then option_latest else option_all

option_of-latest : (latest : Bool) → is_latest (option_of latest) ≡ latest
option_of-latest true = refl
option_of-latest false = refl

option_of-accepted : (latest : Bool) → check_option (option_of latest) [] ≡ ok tt
option_of-accepted true = refl
option_of-accepted false = refl

-- What is listed of the rows that are selected: all of them, or the highest version of each module.
abbrev pub Chosen :
    (pg : Postgres) → SemverOrder pg → Bool → List ModuleVersion → List ModuleVersion → Type 0
Chosen pg order true rows groups = Grouped pg order rows groups
Chosen pg order false rows groups = groups ≡ rows

chosen : (pg : Postgres) → Bool → List ModuleVersion → List ModuleVersion
chosen pg latest rows = if latest then group_latest pg rows else rows

chosen-Chosen :
    (pg : Postgres) (order : SemverOrder pg) (latest : Bool) (rows : List ModuleVersion)
    → Chosen pg order latest rows (chosen pg latest rows)
unfolding chosen
chosen-Chosen pg order true rows = group_latest-Grouped pg order rows
chosen-Chosen pg order false rows = refl

module _ (pg : Postgres) (order : SemverOrder pg) (codec : Codec) (codec_laws : CodecLaws codec)
    (s : Session) (calm : s.faults ≡ []) (tools : Tools) (pages : ℕ) (line : CommandLine)
    (flags : VersionFlags) (pattern cast : Text) (given : NamesPattern tools line pattern)
    (not_empty : is_empty pattern ≡ false) (glob : NoBackslash pattern)
    (version_glob : NoBackslash flags.versions)
    (casts : filter_version pg flags.versions ≡ ok cast) where
  -- The rows that the pattern and the flags select.
  abbrev wanted : List ModuleVersion
  wanted =
      selected pg codec s calm pattern flags.versions flags.include_prerelease flags.latest cast
        glob version_glob casts

  abbrev shown : List ModuleVersion
  shown =
      answered_rows pg codec s calm pattern flags.versions flags.include_prerelease flags.latest
        cast glob version_glob casts

  request : ListModuleVersionsRequest
  request = record {
    module_name = [];
    module_filter = pattern;
    version_filter = flags.versions;
    include_prerelease = flags.include_prerelease;
    version_option = option_of flags.latest;
    page_token = [];
    page_size = pos 0;
  }

  query : ModuleVersionQuery
  query = whole_query pattern flags.versions flags.include_prerelease flags.latest

  token : Text
  unfolding query
  token = encode_page_token codec (page_token_string query) (length shown) (pos 0) (pos 0)

  query_lem : versions_query request ≡ query
  unfolding request query
  query_lem =
      ap (λ b. whole_query pattern flags.versions flags.include_prerelease b)
        (option_of-latest flags.latest)

  listed_items :
      Lists.list_module_versions
        (served_lists pg codec)
        (suc pages)
        pattern
        flags.versions
        flags.latest
        flags.include_prerelease
        s
      ≡ (ok (map row_item shown), s)
  unfolding Lists.list_module_versions request query token
  listed_items =
      let (modules, got, flat, _) =
        list_module_versions-groups (postgres_client pg codec) request s s shown token not_empty
          (option_of-accepted flags.latest)
          (ap (λ q. query_module_versions pg codec q s) query_lem
            ∙ query_module_versions-ok pg codec s calm pattern flags.versions
                flags.include_prerelease flags.latest cast glob version_glob casts not_empty) in
      list_pages-first version_items
        (versions_at (served_lists pg codec) pattern flags.versions flags.latest
          flags.include_prerelease)
        pages s s (record { modules = modules; next_page_token = token }) (ap as_rpc got)
        (is_empty-encode_page_token codec codec_laws (page_token_string query) (length shown)
          (pos 0))
      ∙ ap (λ items. (ok items, s))
          (version_items-flatten modules
            ∙ ap (map (λ (p : Text × Text). listed_item p.0 p.1)) flat
            ∙ labelled-items shown)

  -- Against the server with no failing round trip, `list-module-versions` with a pattern that is
  -- not empty and a pattern of versions that the database reads, which is matched with versions as
  -- they are stored, without their v, and neither pattern with a backslash, prints, in the one
  -- format that is asked for, or as JSON where none is, an item for each version that the patterns
  -- and --include-prerelease select, in the order of the query, and with --latest for the highest
  -- of each module; it prints nothing where there is none; DOT is refused, and so is more than one
  -- format.
  pub run_list_module_versions-served :
      (rows : List ModuleVersion) × (run_list_module_versions tools
          (served_lists pg codec)
          (suc pages)
          flags
          line
          s
        ≡ (
          by_format line.output (λ f.
              write_versions tools
                (served_lists pg codec)
                (suc pages)
                f
                (map row_item (sort (version_before pg) rows))),
          s,
        ))
      × Chosen pg order flags.latest wanted rows
  unfolding run_list_module_versions chosen
  run_list_module_versions-served = (
    chosen pg flags.latest wanted,
    list_with-by_format tools (served_lists pg codec) (suc pages)
        (λ pattern.
          Lists.list_module_versions (served_lists pg codec) (suc pages) pattern flags.versions
            flags.latest flags.include_prerelease)
        (write_versions tools (served_lists pg codec) (suc pages)) line pattern given
        (map row_item shown) s listed_items,
    chosen-Chosen pg order flags.latest wanted,
  )
