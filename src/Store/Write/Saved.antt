-- ===== src/Store/Write/Saved.antt =====
-- The body of the transaction of `SaveModuleDependencies` on the graph.
use perseus.Prelude.{
  ℕ, ◌≡◌, inl, inr, Bool, true, false, ◌&&◌, ◌||◌, none, some, List, [], ◌∷◌, arith, Text, refl,
  sym, ◌∙◌, Bool-cases, Option-cases, ◌==◌, ==_iff,
}
use perseus.Store.Postgres.{Postgres, SemverLaws}
use perseus.Store.Session.{Session, Tables, VersionRow}
use perseus.Store.Write.{Version, Pair, has_pair}
use perseus.Store.Valid.{IsValid}
use perseus.Store.Graph.{Node, node_eq, version_id, depends, linked, version_id-congr, node_eq_refl}
use perseus.Store.Write.Versions.{Casts}
use perseus.Store.Write.Nodes.{NodeWritten, depends-written}
use perseus.Store.Write.Insert.{Known, Inserted}
use perseus.Store.Write.Dependencies.{
  is_node, is_node-Casts, is_target, Collected, keeps_node, id_eq-node_eq,
}

-- The graph after `root` has been saved with its dependencies: the edges are those from before
-- and one from the root to each dependency; the root and its dependencies are nodes; and every
-- node from before has kept its id.
pub record GraphSaved (pg : Postgres) (root : Version) (deps : List Version) (t t' : Tables)
    : Type 0 where
  pub edges :
      (a b : Node)
      → depends pg t' a b
        ≡ ((is_node pg root.module_id root.sem_ver a && is_target pg deps b) || depends pg t a b)
  pub nodes :
      (b : Node)
      → (is_node pg root.module_id root.sem_ver b || is_target pg deps b) ≡ true
      → (j : ℕ) × (version_id pg t' b ≡ some j)
  pub keeps : (b : Node) (i : ℕ) → version_id pg t b ≡ some i → version_id pg t' b ≡ some i

version_id-same :
    (pg : Postgres) (t t' : Tables)
    → t'.modules ≡ t.modules
    → t'.versions ≡ t.versions
    → (a : Node) → version_id pg t' a ≡ version_id pg t a
unfolding version_id
version_id-same pg t t' e f (m, v) =
    λ i. version_id pg (record t { modules = e i; versions = f i }) (m, v)

has_pair-foreign :
    (dependent i j : ℕ) (versions : List VersionRow) (rows : List Pair)
    → Known dependent versions rows
    → (dependent == i) ≡ false
    → has_pair i j rows ≡ false
unfolding has_pair
has_pair-foreign dependent i j versions [] k h = refl
has_pair-foreign dependent i j versions ((x, y) ∷ rows) (a, b, k) h =
    rw (a, h) (has_pair-foreign dependent i j versions rows k h)

module _ (pg : Postgres) (laws : SemverLaws pg) (root : Version) (deps : List Version) (v : Text)
    (s t u : Session) (dependent : ℕ) (rows : List Pair) (t' : Tables) (valid : IsValid pg s)
    (casts : Casts pg root.sem_ver v) (w : NodeWritten pg (root.module_id, v) s dependent t)
    (c : Collected pg dependent deps [] t rows u) (ins : Inserted rows u.tables t') where
  root_node : Node
  root_node = (root.module_id, v)

  is_root : (a : Node) → is_node pg root.module_id root.sem_ver a ≡ node_eq pg root_node a
  unfolding root_node
  is_root a = is_node-Casts pg root.module_id root.sem_ver v a casts

  root_id : version_id pg u.tables root_node ≡ some dependent
  unfolding root_node
  root_id =
      c.keeps_nodes root_node dependent (w.finds root_node ∙ rw (node_eq_refl pg laws root_node))

  same_ids : (a : Node) → version_id pg t' a ≡ version_id pg u.tables a
  same_ids a = version_id-same pg u.tables t' ins.same_modules ins.same_versions a

  edges_before : (a b : Node) → depends pg u.tables a b ≡ depends pg s.tables a b
  edges_before a b =
      c.same_edges a b ∙ depends-written pg laws (root.module_id, v) s t dependent valid w a b

  -- The rows of the command, seen from the nodes.
  rows-edges :
      (a b : Node) (i j : ℕ)
      → version_id pg u.tables a ≡ some i
      → version_id pg u.tables b ≡ some j
      → has_pair i j rows ≡ (node_eq pg root_node a && is_target pg deps b)
  rows-edges a b i j p q =
      let e : (dependent == i) ≡ node_eq pg root_node a =
        id_eq-node_eq pg laws u root_node a dependent i c.valid root_id p in
      elim (Bool-cases (dependent == i)) [
        | inl f ↦
            rw (← e, f, ← (==_iff dependent i).0 f)
              (c.pairs b j q ∙ unfold has_pair in or_false (is_target pg deps b))
        | inr f ↦ rw (← e, f) (has_pair-foreign dependent i j u.tables.versions rows c.known f)
      ]
    where
      or_false : (x : Bool) → (x || false) ≡ (true && x)
      or_false x = ground arith

  not_root : (a : Node) → version_id pg u.tables a ≡ none → node_eq pg root_node a ≡ false
  not_root a h = elim (Bool-cases (node_eq pg root_node a)) [
    | inr e ↦ e
    | inl e ↦ absurd (cc (root_id, version_id-congr pg laws u.tables root_node a e))
  ]

  not_target : (b : Node) → version_id pg u.tables b ≡ none → is_target pg deps b ≡ false
  not_target b h = elim (Bool-cases (is_target pg deps b)) [
    | inr e ↦ e
    | inl e ↦ let (j, f) = c.stored b e in absurd (cc)
  ]

  edges_after :
      (a b : Node)
      → linked (version_id pg u.tables a) (version_id pg u.tables b) t'.dependencies ≡ (
          (node_eq pg root_node a && is_target pg deps b)
          || linked (version_id pg u.tables a) (version_id pg u.tables b) u.tables.dependencies)
  unfolding linked
  edges_after a b = elim (Option-cases (version_id pg u.tables a)) [
    | inl p ↦ rw (p, not_root a p)
    | inr (i, p) ↦ elim (Option-cases (version_id pg u.tables b)) [
      | inl q ↦ rw (p, q, not_target b q) (and_false (node_eq pg root_node a))
      | inr (j, q) ↦ rw (p, q, ← rows-edges a b i j p q) (ins.edges i j)
    ]
  ]
    where
      and_false : (x : Bool) → false ≡ ((x && false) || false)
      and_false x = ground arith

  pub graph_saved : GraphSaved pg root deps s.tables t'
  unfolding depends
  graph_saved = record {
    edges = λ a b. rw (same_ids a, same_ids b, is_root a, ← edges_before a b) (edges_after a b);
    nodes = λ b h. elim (Bool-cases (node_eq pg root_node b)) [
      | inl e ↦
          (dependent, same_ids b ∙ sym (version_id-congr pg laws u.tables root_node b e) ∙ root_id)
      | inr e ↦ let (j, f) = c.stored b (rw (is_root b, e) at h) in (j, same_ids b ∙ f)
    ];
    keeps = λ b i h.
        same_ids b
        ∙ c.keeps_nodes b i (keeps_node pg laws (root.module_id, v) s t dependent w b i h);
  }
