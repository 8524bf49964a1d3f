-- ===== src/Client/Commands/Listed.antt =====
-- `list-modules` against the handler on the Postgres client.
use perseus.Prelude.{
  ℕ, suc, ◌≡◌, refl, ap, ◌∙◌, Text, Bool, true, false, not, ◌||◌, List, [], ◌∷◌, map, All,
  if◌then◌else◌, leb, ◌==◌, Result, ok, err, ◌>>=◌, check, length, arith,
}
use perseus.Prelude.Int.{pos}
use perseus.Store.Postgres.{Postgres}
use perseus.Store.Session.{Session}
use perseus.Store.Glob.Match.{NoBackslash}
use perseus.Store.Paging.Codecs.{Codec, CodecLaws}
use perseus.Store.Paging.{encode_page_token}
use perseus.Store.Paging.Tokens.{is_empty-encode_page_token}
use perseus.Store.Query.Latest.{SemverOrder}
use perseus.Store.Query.Versions.{matching_modules}
use perseus.Store.Query.Newest.{PlainName}
use perseus.Server.Messages.{Module}
use perseus.Server.Backend.{postgres_client}
use perseus.Server.Modules.{list_modules, list_module_versions}
use perseus.Server.Modules.Listing.{Shown, Paired, list_modules-Shown}
use perseus.Client.Args.{count, xor, xor-count}
use perseus.Client.Retry.{Op}
use perseus.Client.Flatten.{DependencyItem}
use perseus.Client.Config.{ClientConfig}
use perseus.Client.Lists.{ListService, module_item, modules_at, list_pages-first}
use perseus.Client.Lists
use perseus.Client.Output.{
  OutputFlags, Format, CommandError, one_format_only, dot_not_supported, has_template, format_of,
  list_format, Tools, Output, write_results,
}
use perseus.Client.Update.Served.{served, as_rpc}
use perseus.Client.Commands.{
  CommandLine, shared_options, list_arguments, list_with, pure_result, run_list_modules,
}
use perseus.Client.Commands.Graph.{check_then, with_op-ok}

-- What a list command does with the formats that are asked for: DOT is refused, and so is more than
-- one.
abbrev pub by_format {ℓ} :
    {A : Type ℓ} → OutputFlags → (Format → Result CommandError A) → Result CommandError A
by_format o next =
    if o.as_dot
    then err dot_not_supported
    else if leb (count (o.as_json ∷ o.as_list ∷ has_template o ∷ [])) 1
    then next (format_of o)
    else err one_format_only

one_of_three :
    (j l t : Bool)
    → (count ((j || not (l || t)) ∷ l ∷ t ∷ []) == 1) ≡ leb (count (j ∷ l ∷ t ∷ [])) 1
one_of_three j l t = ground arith

list_format-by_format : (o : OutputFlags) → list_format o ≡ by_format o ok
unfolding list_format
list_format-by_format o = by_dot o.as_dot (
    check_then
      (xor ((o.as_json || not (o.as_list || has_template o)) ∷ o.as_list ∷ has_template o ∷ []))
      one_format_only (format_of o)
    ∙ ap (λ (b : Bool). if b then ok (format_of o) else err one_format_only)
        (xor-count _ ∙ one_of_three o.as_json o.as_list (has_template o)))
  where
    by_dot :
        {x y : Result CommandError Format} (dot : Bool)
        → x ≡ y
        → (check (not dot) dot_not_supported >>= λ _. x)
          ≡ (if dot then err dot_not_supported else y)
    by_dot true h = refl
    by_dot false h = h

-- The arguments of a list command that name a pattern.
pub record NamesPattern (tools : Tools) (line : CommandLine) (pattern : Text) : Type 0 where
  pub conf : ClientConfig
  pub configured : shared_options tools line ≡ ok conf
  pub argument : line.args ≡ (pattern ∷ [])

list_arguments-by_format :
    (tools : Tools) (line : CommandLine) (pattern : Text)
    → NamesPattern tools line pattern
    → list_arguments tools line ≡ by_format line.output (λ f. ok (pattern, f))
unfolding list_arguments
list_arguments-by_format tools line pattern n =
    rw (n.configured, n.argument, list_format-by_format line.output)
      (by_tests line.output.as_dot
        (leb (count (line.output.as_json ∷ line.output.as_list ∷ has_template line.output ∷ [])) 1))
  where
    named : Format → Result CommandError (Text × Format)
    named f = ok (pattern, f)

    by_tests :
        (dot b : Bool)
        → ((if dot
              then err dot_not_supported
              else if b
              then ok (format_of line.output)
              else err one_format_only)
            >>= named)
          ≡ (if dot
              then err dot_not_supported
              else if b
              then named (format_of line.output)
              else err one_format_only)
    by_tests true b = refl
    by_tests false true = refl
    by_tests false false = refl

-- A list command whose list is fetched.
pub list_with-by_format :
    {S : Type 0} (tools : Tools) (lists : ListService S) (pages : ℕ)
    (fetch : Text → Op S (List DependencyItem))
    (write : Format → List DependencyItem → Result CommandError Output) (line : CommandLine)
    (pattern : Text)
    → NamesPattern tools line pattern
    → (items : List DependencyItem) (s : S) → fetch pattern s ≡ (ok items, s)
    → list_with tools lists pages fetch write (list_arguments tools line) s
      ≡ (by_format line.output (λ f. write f items), s)
list_with-by_format tools lists pages fetch write line pattern n items s got =
    ap (λ r. list_with tools lists pages fetch write r s)
      (list_arguments-by_format tools line pattern n)
    ∙ by_tests line.output.as_dot
        (leb (count (line.output.as_json ∷ line.output.as_list ∷ has_template line.output ∷ [])) 1)
  where
    given : Result CommandError (Text × Format)
    given = ok (pattern, format_of line.output)

    by_tests :
        (dot b : Bool)
        → list_with tools lists pages fetch write
            (if dot then err dot_not_supported else if b then given else err one_format_only)
            s
          ≡ (
            (if dot
                then err dot_not_supported
                else if b
                then write (format_of line.output) items
                else err one_format_only),
            s,
          )
    by_tests true b = refl
    by_tests false false = refl
    by_tests false true =
        with_op-ok (fetch pattern) (λ items. pure_result (write (format_of line.output) items)) got

-- The list calls of the server, as the client meets them.
abbrev pub served_lists : Postgres → Codec → ListService Session
served_lists pg codec = record {
  list_modules = λ req. served (list_modules (postgres_client pg codec) req);
  list_module_versions = λ req. served (list_module_versions (postgres_client pg codec) req);
}

module _ (pg : Postgres) (order : SemverOrder pg) (codec : Codec) (codec_laws : CodecLaws codec)
    (s : Session) (calm : s.faults ≡ []) (tools : Tools) (pages : ℕ) where
  token_after : Text → Text
  token_after pattern =
      encode_page_token codec pattern (length (matching_modules pg codec s calm pattern)) (pos 0)
        (pos 0)

  items_of :
      (pattern : Text)
      → NoBackslash pattern
      → All (λ r. PlainName r.name) s.tables.modules
      → (modules : List Module) × (Lists.list_modules (served_lists pg codec) (suc pages) pattern s
          ≡ (ok (map module_item modules), s))
        × Paired (Shown pg s.tables) (matching_modules pg codec s calm pattern) modules
  unfolding Lists.list_modules token_after
  items_of pattern glob plain =
      let (modules, got, shown) = list_modules-Shown pg order codec s calm pattern glob plain in
      (
        modules,
        list_pages-first (map module_item) (modules_at (served_lists pg codec) pattern) pages s s
            (record { modules = modules; next_page_token = token_after pattern }) (ap as_rpc got)
            (is_empty-encode_page_token codec codec_laws pattern
              (length (matching_modules pg codec s calm pattern)) (pos 0)),
        shown,
      )

  -- Against the server with no failing round trip, and where the names of the modules are plain,
  -- `list-modules` with a pattern without a backslash prints, in the one format that is asked for,
  -- or as JSON where none is, an item for every module that the pattern selects, in the order of
  -- names, with its highest release, or its highest version where it has only pre-releases, or a
  -- dash where it has none; DOT is refused, and so is more than one format.
  pub run_list_modules-served :
      (line : CommandLine) (pattern : Text)
      → NamesPattern tools line pattern
      → NoBackslash pattern
      → All (λ r. PlainName r.name) s.tables.modules
      → (modules : List Module) × (run_list_modules tools (served_lists pg codec) (suc pages) line s
          ≡ (by_format line.output (λ f. write_results tools f (map module_item modules)), s))
        × Paired (Shown pg s.tables) (matching_modules pg codec s calm pattern) modules
  unfolding run_list_modules
  run_list_modules-served line pattern n glob plain =
      let (modules, got, shown) = items_of pattern glob plain in
      (
        modules,
        list_with-by_format tools (served_lists pg codec) (suc pages)
            (Lists.list_modules (served_lists pg codec) (suc pages)) (write_results tools) line
            pattern n (map module_item modules) s got,
        shown,
      )
