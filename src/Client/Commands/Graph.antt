-- ===== src/Client/Commands/Graph.antt =====
-- `ancestors` and `descendants` against the handler on the Postgres client.
use perseus.Prelude.{
  split, ℕ, zero, suc, ◌≡◌, refl, ◌∙◌, ap, Text, Bool, true, false, not, ◌||◌, [], ◌∷◌, ◌++◌,
  if◌then◌else◌, leb, ◌==◌, Result, ok, err, ◌>>=◌, check, text_eq, contains_rune, arith,
}
use perseus.Prelude.Int.{ℤ, pos, negsuc}
use perseus.Store.Postgres.{Postgres, SemverLaws}
use perseus.Store.Session.{Session}
use perseus.Store.Valid.{IsValid}
use perseus.Store.Paging.Codecs.{Codec, CodecLaws}
use perseus.Store.Query.{JoinTarget}
use perseus.Server.Dependencies.Update.{CheckLaws}
use perseus.Server.Dependencies.Queries.{direction_of}
use perseus.Client.Retry.{Op, RpcError}
use perseus.Client.Args.{ModuleVersion, count, xor, xor-count, split-one, module_of}
use perseus.Client.Config.{ClientConfig}
use perseus.Client.Walk.{walk_dependencies, unfold_tree}
use perseus.Client.Walk.Served.{
  Known, AllAccepted, served_queries, neighbours, walk_dependencies-served,
}
use perseus.Client.Lists.{ListService}
use perseus.Client.Output.{
  OutputFlags, Format, CommandError, rpc, one_format_only, has_template, format_of, graph_format,
  Tools, write_tree,
}
use perseus.Client.Commands.{
  CommandLine, shared_options, depth_of, graph_arguments, is_latest, CommandOp, with_op,
  pure_result, walk_and_write, graph_command, with_arguments, run_query_module_graph,
}

-- How many formats are asked for.
abbrev pub formats_asked : OutputFlags → ℕ
formats_asked o = count (o.as_json ∷ o.as_list ∷ o.as_dot ∷ has_template o ∷ [])

one_of_four :
    (j l d t : Bool)
    → (count ((j || not (l || (d || t))) ∷ l ∷ d ∷ t ∷ []) == 1)
      ≡ leb (count (j ∷ l ∷ d ∷ t ∷ [])) 1
one_of_four j l d t = ground arith

pub check_then {ℓ} :
    {A : Type ℓ} (b : Bool) (e : CommandError) (a : A)
    → (check b e >>= λ _. ok a) ≡ (if b then ok a else err e)
check_then true e a = refl
check_then false e a = refl

graph_format_lem :
    (o : OutputFlags)
    → graph_format o ≡ (if leb (formats_asked o) 1 then ok (format_of o) else err one_format_only)
unfolding graph_format
graph_format_lem o =
    check_then
      (xor (
        (o.as_json || not (o.as_list || (o.as_dot || has_template o)))
        ∷ o.as_list
        ∷ o.as_dot
        ∷ has_template o
        ∷ []))
      one_format_only (format_of o)
    ∙ ap (λ (b : Bool). if b then ok (format_of o) else err one_format_only)
        (xor-count _ ∙ one_of_four o.as_json o.as_list o.as_dot (has_template o))

-- The arguments of a command that name a module and its version.
pub record Names (tools : Tools) (line : CommandLine) (m : ModuleVersion) : Type 0 where
  pub conf : ClientConfig
  pub configured : shared_options tools line ≡ ok conf
  pub argument : line.args ≡ ((m.path ++ b'@' ∷ m.version) ∷ [])
  pub path_whole : contains_rune b'@' m.path ≡ false
  pub version_whole : contains_rune b'@' m.version ≡ false
  pub path_accepted : tools.check_path m.path ≡ true

pub graph_arguments-module_of :
    (tools : Tools) (line : CommandLine) (arg : Text) (m : ModuleVersion) {conf : ClientConfig}
    → shared_options tools line ≡ ok conf
    → line.args ≡ (arg ∷ [])
    → module_of (split b'@' arg) ≡ ok m
    → tools.check_path m.path ≡ true
    → graph_arguments tools line ≡ (
        if leb (formats_asked line.output) 1
        then ok (m, format_of line.output)
        else err one_format_only)
unfolding graph_arguments
graph_arguments-module_of tools line arg m configured argument parts accepted =
    rw (configured, argument, parts, accepted, graph_format_lem line.output)
      (by_count (leb (formats_asked line.output) 1))
  where
    named : Format → Result CommandError (ModuleVersion × Format)
    named f = ok (m, f)

    by_count :
        (b : Bool)
        → ((if b then ok (format_of line.output) else err one_format_only) >>= named)
          ≡ (if b then ok (m, format_of line.output) else err one_format_only)
    by_count true = refl
    by_count false = refl

graph_arguments-Names :
    (tools : Tools) (line : CommandLine) (m : ModuleVersion)
    → Names tools line m
    → graph_arguments tools line ≡ (
        if leb (formats_asked line.output) 1
        then ok (m, format_of line.output)
        else err one_format_only)
graph_arguments-Names tools line m n =
    graph_arguments-module_of tools line (m.path ++ b'@' ∷ m.version) m n.configured n.argument
      (ap module_of (split-one b'@' m.path m.version n.path_whole n.version_whole)) n.path_accepted

pub with_op-ok {ℓ κ} :
    {S : Type 0} {A : Type ℓ} {B : Type κ} (op : Op S A) (next : A → CommandOp S B) {a : A}
    {s t : S}
    → op s ≡ (ok a, t)
    → with_op op next s ≡ next a t
with_op-ok {S = S} {A = A} op next h =
    ap
      (λ (r : Result RpcError A × S).
        let (x, t) = r in elim x [ err e ↦ (err (rpc e), t) | ok a ↦ next a t ])
      h

pub with_op-err {ℓ κ} :
    {S : Type 0} {A : Type ℓ} {B : Type κ} (op : Op S A) (next : A → CommandOp S B) {e : RpcError}
    {s t : S}
    → op s ≡ (err e, t)
    → with_op op next s ≡ (err (rpc e), t)
with_op-err {S = S} {A = A} op next h =
    ap
      (λ (r : Result RpcError A × S).
        let (x, t) = r in elim x [ err e ↦ (err (rpc e), t) | ok a ↦ next a t ])
      h

-- The levels that a maximal depth asks for.
abbrev pub levels_asked : ℤ → ℕ
levels_asked (pos (suc n)) = suc n
levels_asked _ = 1

pub depth_of-levels_asked : (d : ℤ) → depth_of d ≡ levels_asked d
unfolding depth_of
depth_of-levels_asked (pos zero) = refl
depth_of-levels_asked (pos (suc n)) = ground arith
depth_of-levels_asked (negsuc n) = refl

module _ (pg : Postgres) (laws : SemverLaws pg) (codec : Codec) (codec_laws : CodecLaws codec)
    (valid : Text → Text → Bool) (checks : CheckLaws valid) (target : JoinTarget) (s : Session)
    (calm : s.faults ≡ []) (stored : AllAccepted pg valid s.tables.modules s.tables.versions)
    (ok_before : IsValid pg s) where
  not_latest : (m : ModuleVersion) → valid m.path m.version ≡ true → is_latest m.version ≡ false
  unfolding text_eq
  not_latest m e = let (c, w, v, digit) = checks.canonical m.path m.version e in rw v refl

  walked :
      (tools : Tools) (lists : ListService Session) (pages depth : ℕ) (format : Format)
      (m : ModuleVersion)
      → tools.is_semver m.version ≡ true
      → Known pg valid m
      → graph_command tools
          (served_queries pg codec valid)
          lists
          (suc pages)
          (direction_of target)
          depth
          (m, format)
          s
        ≡ (
          write_tree tools
              (direction_of target)
              format
              (unfold_tree (neighbours pg target s.tables) depth 1 m),
          s,
        )
  unfolding graph_command walk_and_write
  walked tools lists pages depth format m semver known =
      rw (not_latest m known.0, semver)
        (with_op-ok
          (walk_dependencies (served_queries pg codec valid) (direction_of target) (suc pages) depth
            m)
          (λ tree. pure_result (write_tree tools (direction_of target) format tree))
          (walk_dependencies-served pg laws codec codec_laws valid checks target s calm stored
            ok_before pages depth m known).0)

  -- Against the server on a valid database, whose versions are all accepted by the server, and with
  -- no failing round trip, `ancestors` and `descendants` of a module and a version that the
  -- program and the server accept print, in the one format that is asked for, or as JSON where none
  -- is, what the tree of the database's graph gives, in that direction and down to the maximal
  -- depth, or to one level where that is not positive; where more than one format is asked for they
  -- are refused.
  pub run_query_module_graph-served :
      (tools : Tools) (lists : ListService Session) (pages : ℕ) (line : CommandLine)
      (m : ModuleVersion)
      → Names tools line m
      → tools.is_semver m.version ≡ true
      → Known pg valid m
      → run_query_module_graph tools
          (served_queries pg codec valid)
          lists
          (suc pages)
          (direction_of target)
          line
          s
        ≡ (if leb (formats_asked line.output) 1
            then (
              write_tree tools
                  (direction_of target)
                  (format_of line.output)
                  (unfold_tree (neighbours pg target s.tables) (levels_asked line.max_depth) 1 m),
              s,
            )
            else (err one_format_only, s))
  unfolding run_query_module_graph
  run_query_module_graph-served tools lists pages line m n semver known =
      ap
        (λ r.
          with_arguments tools (served_queries pg codec valid) lists (suc pages)
            (direction_of target) (depth_of line.max_depth) r s)
        (graph_arguments-Names tools line m n)
      ∙ by_count (leb (formats_asked line.output) 1)
    where
      by_count :
          (b : Bool)
          → with_arguments tools
              (served_queries pg codec valid)
              lists
              (suc pages)
              (direction_of target)
              (depth_of line.max_depth)
              (if b then ok (m, format_of line.output) else err one_format_only)
              s
            ≡ (if b
                then (
                  write_tree tools (direction_of target) (format_of line.output) (
                      unfold_tree
                        (neighbours pg target s.tables)
                        (levels_asked line.max_depth)
                        1
                        m),
                  s,
                )
                else (err one_format_only, s))
      by_count false = refl
      by_count true = rw (depth_of-levels_asked line.max_depth) (
          walked tools lists pages (levels_asked line.max_depth) (format_of line.output) m semver
            known)
