-- ===== src/Store/Graph.antt =====
-- The abstract view of the store: a graph of module versions. A node is a module's name and a
-- version, up to the equality of semantic versions; row ids do not show.
use perseus.Prelude.{
  ℕ, ◌≡◌, Bool, true, false, ◌&&◌, Option, none, some, List, [], ◌∷◌, arith, Text, refl, ◌==◌,
  ==_iff, text_eq, text_eq_iff, text_eq_refl, &&-true, Bool-cases, Option-cases, inl, inr, sym, ◌∙◌,
}
use perseus.Store.Postgres.{Postgres, SemverLaws, semver_eq}
use perseus.Store.Session.{ModuleRow, VersionRow, DependencyRow, Tables, Session}
use perseus.Store.Write.{find_module, find_version, has_module_id, has_version_id, has_dependency}
use perseus.Store.Valid.{
  ModulesOk, VersionsOk, DependenciesOk, IsValid, find_module-has, find_version-has,
}

abbrev pub Node : Type 0
Node = Text × Text

unfoldable pub node_eq : Postgres → Node → Node → Bool
node_eq pg (m, v) (n, w) = text_eq m n && semver_eq pg v w

-- The row id of a node.
unfoldable pub version_id : Postgres → Tables → Node → Option ℕ
version_id pg t (m, v) = elim (find_module m t.modules) [
  | none ↦ none
  | some mid ↦ find_version pg mid v t.versions
]

-- A row of module_dependency between two rows of module_version, where both exist.
unfoldable pub linked : Option ℕ → Option ℕ → List DependencyRow → Bool
unfolding has_dependency
linked none j rows = false
linked (some i) none rows = false
linked (some i) (some j) rows = has_dependency i j rows

-- Whether the graph has an edge from `a` to `b`: `a` depends on `b`.
unfoldable pub depends : Postgres → Tables → Node → Node → Bool
unfolding version_id linked
depends pg t a b = linked (version_id pg t a) (version_id pg t b) t.dependencies

-- Where the module is known, a node's id is that of its version; where it is not, there is none.
module _ (pg : Postgres) (t : Tables) (m v : Text) where
  pub version_id-known :
      (mid : ℕ)
      → find_module m t.modules ≡ some mid
      → version_id pg t (m, v) ≡ find_version pg mid v t.versions
  unfolding version_id
  version_id-known mid e = rw (e, version_id)

  pub version_id-unknown : find_module m t.modules ≡ none → version_id pg t (m, v) ≡ none
  unfolding version_id
  version_id-unknown e = rw (e, version_id)

  pub version_id-some :
      (id : ℕ)
      → version_id pg t (m, v) ≡ some id
      → (mid : ℕ) × (find_module m t.modules ≡ some mid)
        × (find_version pg mid v t.versions ≡ some id)
  version_id-some id h = elim (Option-cases (find_module m t.modules)) [
    | inl e ↦ absurd (cc (version_id-unknown e))
    | inr (mid, e) ↦ (mid, e, sym (version_id-known mid e) ∙ h)
  ]

-- One id, one row.
pub find_module-inj :
    (n id : ℕ) (a b : Text) (rows : List ModuleRow)
    → ModulesOk n rows
    → find_module a rows ≡ some id
    → find_module b rows ≡ some id
    → a ≡ b
unfolding find_module has_module_id
find_module-inj n id a b [] h p q = cc
find_module-inj n id a b (r ∷ rows) (x, fresh, y, h) p q = ground (
  arith,
  text_eq_iff r.name a,
  text_eq_iff r.name b,
  find_module-has a id rows,
  find_module-has b id rows,
  find_module-inj n id a b rows h,
)

module _ (pg : Postgres) (laws : SemverLaws pg) where
  semver_eq_trans :
      (u v w : Text) → semver_eq pg u v ≡ true → semver_eq pg u w ≡ true → semver_eq pg v w ≡ true
  semver_eq_trans u v w h k = rw (laws.eq_congr u v w h) at k

  pub find_version-inj :
      (n id : ℕ) (modules : List ModuleRow) (m k : ℕ) (v w : Text) (rows : List VersionRow)
      → VersionsOk pg n modules rows
      → find_version pg m v rows ≡ some id
      → find_version pg k w rows ≡ some id
      → (m ≡ k) × (semver_eq pg v w ≡ true)
  unfolding find_version has_version_id
  find_version-inj n id modules m k v w [] h p q = cc
  find_version-inj n id modules m k v w (r ∷ rows) (x, fresh, y, z, h) p q = ground (
    arith,
    semver_eq_trans r.version v w,
    find_version-has pg m v id rows,
    find_version-has pg k w id rows,
    find_version-inj n id modules m k v w rows h,
  )

  pub find_version-congr :
      (m : ℕ) (v w : Text) (rows : List VersionRow)
      → semver_eq pg v w ≡ true
      → find_version pg m v rows ≡ find_version pg m w rows
  unfolding find_version
  find_version-congr m v w [] h = refl
  find_version-congr m v w (r ∷ rows) h =
      let same : semver_eq pg r.version v ≡ semver_eq pg r.version w =
        rw (laws.eq_sym r.version v, laws.eq_sym r.version w) (laws.eq_congr v w r.version h) in
      rw (same, find_version-congr m v w rows h)

  pub node_eq_refl : (a : Node) → node_eq pg a a ≡ true
  unfolding node_eq
  node_eq_refl (m, v) = rw (text_eq_refl m) (laws.eq_refl v)

  -- Equal nodes have one id, and one id belongs to equal nodes.
  pub version_id-congr :
      (t : Tables) (a b : Node) → node_eq pg a b ≡ true → version_id pg t a ≡ version_id pg t b
  unfolding node_eq version_id
  version_id-congr t (m, v) (n, w) h =
      let (names, versions) = &&-true _ _ h in
      rw ((text_eq_iff m n).0 names) (elim (Option-cases (find_module n t.modules)) [
        | inl e ↦ version_id-unknown pg t n v e ∙ sym (version_id-unknown pg t n w e)
        | inr (mid, e) ↦
            version_id-known pg t n v mid e
            ∙ find_version-congr mid v w t.versions versions
            ∙ sym (version_id-known pg t n w mid e)
      ])

  pub version_id-inj :
      (s : Session) (a b : Node) (id : ℕ)
      → IsValid pg s
      → version_id pg s.tables a ≡ some id
      → version_id pg s.tables b ≡ some id
      → node_eq pg a b ≡ true
  unfolding node_eq
  version_id-inj s (m, v) (n, w) id valid p q =
      let (k, e, e') = version_id-some pg s.tables m v id p in
      let (l, f, f') = version_id-some pg s.tables n w id q in
      let (same_module, same_version) =
        find_version-inj s.next_version id s.tables.modules k l v w s.tables.versions
          valid.versions_ok e' f' in
      let name : m ≡ n =
        find_module-inj s.next_module k m n s.tables.modules valid.modules_ok e
          (rw same_module f) in
      ground (arith, text_eq_iff m n)

pub version_id-has :
    (pg : Postgres) (t : Tables) (a : Node) (id : ℕ)
    → version_id pg t a ≡ some id
    → has_version_id id t.versions ≡ true
version_id-has pg t (m, v) id h =
    let (mid, e, e') = version_id-some pg t m v id h in find_version-has pg mid v id t.versions e'

differs :
    (id k : ℕ) (versions : List VersionRow)
    → has_version_id k versions ≡ true
    → has_version_id id versions ≡ false
    → (k == id) ≡ false
differs id k versions h f = elim (Bool-cases (k == id)) [
  | inl e ↦ absurd (cc (rw ((==_iff k id).0 e) at h))
  | inr e ↦ e
]

-- An id that no version has is in no dependency.
has_dependency-fresh :
    (id j : ℕ) (versions : List VersionRow) (rows : List DependencyRow)
    → DependenciesOk versions rows
    → has_version_id id versions ≡ false
    → (has_dependency id j rows ≡ false) × (has_dependency j id rows ≡ false)
unfolding has_dependency
has_dependency-fresh id j versions [] ok h = (refl, refl)
has_dependency-fresh id j versions (r ∷ rows) (a, b, c, ok) h =
    let first : (r.dependent_id == id) ≡ false = differs id r.dependent_id versions a h in
    let second : (r.dependee_id == id) ≡ false = differs id r.dependee_id versions b h in
    ground (arith, has_dependency-fresh id j versions rows ok h)

pub linked-fresh :
    (id : ℕ) (o : Option ℕ) (versions : List VersionRow) (rows : List DependencyRow)
    → DependenciesOk versions rows
    → has_version_id id versions ≡ false
    → (linked (some id) o rows ≡ false) × (linked o (some id) rows ≡ false)
unfolding linked
linked-fresh id none versions rows ok h = (refl, refl)
linked-fresh id (some j) versions rows ok h = has_dependency-fresh id j versions rows ok h

pub linked-none : (o : Option ℕ) (rows : List DependencyRow) → linked o none rows ≡ false
unfolding linked
linked-none none rows = refl
linked-none (some i) rows = refl
