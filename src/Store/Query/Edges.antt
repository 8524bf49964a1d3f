-- ===== src/Store/Query/Edges.antt =====
-- What `GetDependees` and `GetDependents` read is the graph: the rows of the join are the edges.
use perseus.Prelude.{
  ℕ, ◌≡◌, Text, refl, sym, ◌∙◌, Bool, true, false, ◌&&◌, ◌||◌, Option, none, some, List, [], ◌∷◌,
  arith, ◌==◌, ==_iff, ==_refl, Bool-cases, Option-cases, inl, inr, text_eq, text_eq_iff,
  text_eq_refl, any, &&-true,
}
use perseus.Store.Postgres.{Postgres, SemverLaws, semver_eq}
use perseus.Store.Session.{ModuleRow, VersionRow, DependencyRow, Tables, Session}
use perseus.Store.Write.{Version, find_module, find_version, has_module_id, has_version_id}
use perseus.Store.Valid.{ModulesOk, VersionsOk, DependenciesOk, IsValid}
use perseus.Store.Graph.{
  Node, node_eq, version_id, linked, depends, version_id-known, version_id-congr,
  find_version-congr,
}
use perseus.Store.Write.Dependencies.{id_eq-node_eq}
use perseus.Store.Query.{
  JoinTarget, dependents, dependees, module_name, find_mvs, lhs_id, rhs_id, is_given, with_row,
  join_dependencies,
}

-- In a valid table the name behind an id is found again under that id.
module_name-find :
    (n id : ℕ) (rows : List ModuleRow)
    → ModulesOk n rows
    → has_module_id id rows ≡ true
    → (name : Text) × (module_name id rows ≡ some name) × (find_module name rows ≡ some id)
unfolding module_name find_module has_module_id
module_name-find n id [] ok h = absurd (cc)
module_name-find n id (r ∷ rows) (a, fresh, new, ok) h = elim (Bool-cases (r.id == id)) [
  | inl e ↦ (r.name, rw e, rw (text_eq_refl r.name, (==_iff r.id id).0 e))
  | inr e ↦
      let (name, f, g) = module_name-find n id rows ok (rw e at h) in
      (
        name,
        rw e f,
        elim (Bool-cases (text_eq r.name name)) [
          | inr d ↦ rw d g
          | inl d ↦ absurd (cc (rw (sym ((text_eq_iff r.name name).0 d)) at g))
        ],
      )
]

-- The side of a row: whether an id is that of a node, if the node has one.
abbrev node_id_eq : Option ℕ → ℕ → Bool
node_id_eq none k = false
node_id_eq (some j) k = k == j

module _ (pg : Postgres) (laws : SemverLaws pg) where
  -- The row behind a version's id is the row of a node with that id.
  find_mvs-find :
      (n k id : ℕ) (modules : List ModuleRow) (rows : List VersionRow)
      → ModulesOk k modules
      → VersionsOk pg n modules rows
      → has_version_id id rows ≡ true
      → (row : Version) × (find_mvs id modules rows ≡ some row)
        × (mid : ℕ) × (find_module row.module_id modules ≡ some mid)
        × (find_version pg mid row.sem_ver rows ≡ some id)
  unfolding find_mvs find_version has_version_id
  find_mvs-find n k id modules [] mok ok h = absurd (cc)
  find_mvs-find n k id modules (r ∷ rows) mok (a, fresh, new, has, ok) h =
      elim (Bool-cases (r.id == id)) [
        | inl e ↦
            let (name, f, g) = module_name-find k r.module_id modules mok has in
            (
              record { id = r.id; module_id = name; sem_ver = r.version },
              rw (e, f),
              r.module_id,
              g,
              rw (==_refl r.module_id, laws.eq_refl r.version, (==_iff r.id id).0 e),
            )
        | inr e ↦
            let (row, f, mid, g, found) = find_mvs-find n k id modules rows mok ok (rw e at h) in
            (
              row,
              rw e f,
              mid,
              g,
              elim (Bool-cases (r.module_id == mid && semver_eq pg r.version row.sem_ver)) [
                | inr d ↦ rw d found
                | inl d ↦
                    let (same_module, same_version) = &&-true _ _ d in
                    let again : find_version pg mid r.version rows ≡ some id =
                      find_version-congr pg laws mid r.version row.sem_ver rows same_version
                      ∙ found in
                    absurd (cc (rw ((==_iff r.module_id mid).0 same_module) at new))
              ],
            )
      ]

  -- A node with an id is another node exactly if that has the same id.
  node_eq-id :
      (s : Session) (a b : Node) (k : ℕ)
      → IsValid pg s
      → version_id pg s.tables a ≡ some k
      → node_eq pg a b ≡ node_id_eq (version_id pg s.tables b) k
  node_eq-id s a b k valid p = elim (Option-cases (version_id pg s.tables b)) [
    | inr (j, q) ↦ rw q (sym (id_eq-node_eq pg laws s a b k j valid p q))
    | inl q ↦ rw q (elim (Bool-cases (node_eq pg a b)) [
      | inr e ↦ e
      | inl e ↦ absurd (cc (version_id-congr pg laws s.tables a b e))
    ])
  ]

  any-with_row :
      (given : Bool) (row : Version) (rest : List Version) (p : Version → Bool)
      → any p (with_row given (some row) rest) ≡ ((given && p row) || any p rest)
  any-with_row given row rest p = ground arith

-- Whether a node is among the rows of a result.
abbrev pub listed : Postgres → Node → List Version → Bool
listed pg b = any (λ r. node_eq pg (r.module_id, r.sem_ver) b)

-- The given version and a listed one, as dependent and dependee.
abbrev pub edge_of : JoinTarget → Postgres → Tables → Node → Node → Bool
edge_of dependents pg t a b = depends pg t b a
edge_of dependees pg t a b = depends pg t a b

lhs-has :
    (target : JoinTarget) (d : DependencyRow) (versions : List VersionRow)
    → has_version_id d.dependent_id versions ≡ true
    → has_version_id d.dependee_id versions ≡ true
    → has_version_id (lhs_id target d) versions ≡ true
lhs-has dependents d versions h k = k
lhs-has dependees d versions h k = h

rhs-has :
    (target : JoinTarget) (d : DependencyRow) (versions : List VersionRow)
    → has_version_id d.dependent_id versions ≡ true
    → has_version_id d.dependee_id versions ≡ true
    → has_version_id (rhs_id target d) versions ≡ true
rhs-has dependents d versions h k = h
rhs-has dependees d versions h k = k

module _ (pg : Postgres) (laws : SemverLaws pg) (s : Session) (valid : IsValid pg s) where
  -- The row that the join finds for a version id.
  row_of :
      (id : ℕ)
      → has_version_id id s.tables.versions ≡ true
      → (row : Version) × (find_mvs id s.tables.modules s.tables.versions ≡ some row)
        × (version_id pg s.tables (row.module_id, row.sem_ver) ≡ some id)
  row_of id h =
      let (row, f, mid, g, found) =
        find_mvs-find pg laws s.next_version s.next_module id s.tables.modules s.tables.versions
          valid.modules_ok valid.versions_ok h in
      (row, f, version_id-known pg s.tables row.module_id row.sem_ver mid g ∙ found)

  -- One row of module_dependency, and the rest of the table.
  listed-join_dependencies :
      (target : JoinTarget) (name version : Text) (b : Node) (rows : List DependencyRow)
      → DependenciesOk s.tables.versions rows
      → listed pg b (join_dependencies pg target name version s.tables rows)
        ≡ any
            (λ d.
              node_id_eq (version_id pg s.tables (name, version)) (lhs_id target d)
              && node_id_eq (version_id pg s.tables b) (rhs_id target d))
            rows
  unfolding join_dependencies node_eq
  listed-join_dependencies target name version b [] ok = refl
  listed-join_dependencies target name version b (d ∷ rows) (h, k, new, ok) =
      let (l, fl, il) = row_of (lhs_id target d) (lhs-has target d s.tables.versions h k) in
      let (r, fr, ir) = row_of (rhs_id target d) (rhs-has target d s.tables.versions h k) in
      rw (fl, fr)
        (any-with_row pg laws (is_given pg name version (some l)) r _
            (λ x. node_eq pg (x.module_id, x.sem_ver) b)
          ∙ rw (
            listed-join_dependencies target name version b rows ok,
            node_eq-id pg laws s (l.module_id, l.sem_ver) (name, version) (lhs_id target d) valid
                il,
            node_eq-id pg laws s (r.module_id, r.sem_ver) b (rhs_id target d) valid ir,
          ))

  listed-eq-linked :
      (i o : Option ℕ) (rows : List DependencyRow)
      → any (λ d. node_id_eq i d.dependent_id && node_id_eq o d.dependee_id) rows ≡ linked i o rows
  unfolding linked
  listed-eq-linked none o [] = refl
  listed-eq-linked none o (d ∷ rows) = listed-eq-linked none o rows
  listed-eq-linked (some i) none [] = refl
  listed-eq-linked (some i) none (d ∷ rows) = ground (arith, listed-eq-linked (some i) none rows)
  listed-eq-linked (some i) (some j) [] = refl
  listed-eq-linked (some i) (some j) (d ∷ rows) = rw (listed-eq-linked (some i) (some j) rows)

  listed-eq-linked_swapped :
      (i o : Option ℕ) (rows : List DependencyRow)
      → any (λ d. node_id_eq o d.dependee_id && node_id_eq i d.dependent_id) rows ≡ linked i o rows
  unfolding linked
  listed-eq-linked_swapped none o [] = refl
  listed-eq-linked_swapped none o (d ∷ rows) = ground (arith, listed-eq-linked_swapped none o rows)
  listed-eq-linked_swapped (some i) none [] = refl
  listed-eq-linked_swapped (some i) none (d ∷ rows) = listed-eq-linked_swapped (some i) none rows
  listed-eq-linked_swapped (some i) (some j) [] = refl
  listed-eq-linked_swapped (some i) (some j) (d ∷ rows) =
      ground (arith, listed-eq-linked_swapped (some i) (some j) rows)

  -- In a valid database the rows that the join gives for a version are its edges: a node is among
  -- them, in either direction, exactly if the graph has the edge.
  pub listed-eq-edge :
      (target : JoinTarget) (name version : Text) (b : Node)
      → listed pg b (join_dependencies pg target name version s.tables s.tables.dependencies)
        ≡ edge_of target pg s.tables (name, version) b
  unfolding depends
  listed-eq-edge dependents name version b =
      listed-join_dependencies dependents name version b s.tables.dependencies valid.dependencies_ok
      ∙ listed-eq-linked_swapped (version_id pg s.tables b) (version_id pg s.tables (name, version))
          s.tables.dependencies
  listed-eq-edge dependees name version b =
      listed-join_dependencies dependees name version b s.tables.dependencies valid.dependencies_ok
      ∙ listed-eq-linked (version_id pg s.tables (name, version)) (version_id pg s.tables b)
          s.tables.dependencies
