-- ===== src/Store/Query/Answers.antt =====
-- One call of `getDependx` without a page token and without a limit answers with the graph.
use perseus.Prelude.{
  ◌≡◌, ◌≢◌, Text, refl, ◌∙◌, false, List, [], arith, is_empty, ok, any-sort, length, some,
}
use perseus.Prelude.Int.{pos}
use perseus.Store.Postgres.{Postgres, SemverLaws}
use perseus.Store.Session.{Session}
use perseus.Store.Write.{Version}
use perseus.Store.Valid.{IsValid}
use perseus.Store.Graph.{Node, node_eq}
use perseus.Store.Paging.Codecs.{Codec, CodecLaws}
use perseus.Store.Paging.{encode_page_token}
use perseus.Store.Paging.Tokens.{encode-empty_iff}
use perseus.Store.Query.{
  JoinTarget, read_token, get_dependx, dependency_before, dependency_key, join_dependencies,
}
use perseus.Store.Query.Edges.{listed, edge_of, listed-eq-edge}
use perseus.Store.Query.Pages.{dependency_rows, get_dependx-page}

module _ (pg : Postgres) (laws : SemverLaws pg) (codec : Codec) (codec_laws : CodecLaws codec)
    (name version cast : Text) (target : JoinTarget) (s : Session) (valid : IsValid pg s)
    (named : is_empty name ≡ false) (versioned : is_empty version ≡ false)
    (casts : pg.semver_cast version ≡ some cast) (calm : s.faults ≡ []) where
  -- In a valid database with no failing round trip, and for a name and a semantic version that are
  -- not empty, one call without a token and a page size returns, in one page, exactly the nodes
  -- that the graph links to the given version, in the direction asked for; and although nothing is
  -- left, a next page token.
  pub get_dependx-edges :
      (rows : List Version) × (token : Text) × (get_dependx pg codec name version target []
          (pos 0)
          s
        ≡ (ok (rows, token), s))
      × ((b : Node) → listed pg b rows ≡ edge_of target pg s.tables (name, cast) b)
      × (token ≢ [])
  get_dependx-edges = (
    dependency_rows pg codec name version cast target s named versioned casts calm,
    encode_page_token codec (dependency_key name version target) (length rows) (pos 0) (pos 0),
    get_dependx-page pg codec name version cast target s named versioned casts calm [] (pos 0)
        (pos 0) (unfold read_token in refl),
    λ b.
        any-sort (dependency_before pg) (λ r. node_eq pg (r.module_id, r.sem_ver) b)
          (join_dependencies pg target name cast s.tables s.tables.dependencies)
        ∙ listed-eq-edge pg laws s valid target name cast b,
    λ e. ground (
      arith,
      (encode-empty_iff codec codec_laws (dependency_key name version target) (length rows) (pos 0)
            (pos 0)).0
          e,
    ),
  )
    where
      rows : List Version
      rows = dependency_rows pg codec name version cast target s named versioned casts calm
