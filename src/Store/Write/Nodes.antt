-- ===== src/Store/Write/Nodes.antt =====
-- `writeModule` followed by `writeModuleVersions` on one version: the node is in the graph, and
-- the edges are as they were.
use perseus.Prelude.{
  ℕ, ◌≡◌, ◌⊎◌, inl, inr, Bool, true, false, ◌&&◌, none, some, List, [], ◌∷◌, arith, Text, refl, sym,
  ◌∙◌, Bool-cases, Option-cases, ◌==◌, ==_iff, ==_refl, if◌then◌else◌, text_eq, text_eq_iff,
  text_eq_refl,
}
use perseus.Store.Postgres.{Postgres, SemverLaws, semver_eq}
use perseus.Store.Session.{Session, Db, pure, ◌>>=◌}
use perseus.Store.Write.{
  find_module, find_version, has_module_id, has_version_id, write_module, write_module_versions,
  write_version,
}
use perseus.Store.Ends.{Ends, Ends-bind, Ends-weaken, Later, Later-trans, Failed, Failed-trans}
use perseus.Store.Valid.{IsValid}
use perseus.Store.Graph.{
  Node, node_eq, version_id, depends, version_id-known, version_id-unknown, find_module-inj,
  version_id-congr, linked, linked-fresh, linked-none,
}
use perseus.Store.Write.Modules.{ModuleWritten, write_module-Ends}
use perseus.Store.Write.Versions.{VersionWritten, Casts, Wrote, write_version-Ends}

pub record NodeWritten (pg : Postgres) (a : Node) (s : Session) (id : ℕ) (s' : Session)
    : Type 0 where
  pub valid : IsValid pg s'
  pub later : Later s s'
  pub finds :
      (b : Node)
      → version_id pg s'.tables b ≡ (if node_eq pg a b then some id else version_id pg s.tables b)
  pub same_dependencies : s'.tables.dependencies ≡ s.tables.dependencies
  pub has_id : has_version_id id s'.tables.versions ≡ true
  pub keeps :
      (i : ℕ)
      → has_version_id i s.tables.versions ≡ true
      → has_version_id i s'.tables.versions ≡ true
  pub unused :
      (version_id pg s.tables a ≡ some id)
      ⊎ ((version_id pg s.tables a ≡ none) × (has_version_id id s.tables.versions ≡ false))

-- Writing a node changes no edge.
pub depends-written :
    (pg : Postgres) (laws : SemverLaws pg) (a : Node) (s s' : Session) (id : ℕ)
    → IsValid pg s
    → NodeWritten pg a s id s'
    → (x y : Node) → depends pg s'.tables x y ≡ depends pg s.tables x y
unfolding depends
depends-written pg laws a s s' id valid w x y = elim w.unused [
  | inl old ↦ rw (same old x, same old y, w.same_dependencies)
  | inr (new, fresh) ↦
      rw (w.finds x, w.finds y, w.same_dependencies)
        (by_cases new fresh (node_eq pg a x) (node_eq pg a y)
          (version_id-congr pg laws s.tables a x) (version_id-congr pg laws s.tables a y))
]
  where
    same :
        version_id pg s.tables a ≡ some id
        → (b : Node) → version_id pg s'.tables b ≡ version_id pg s.tables b
    same old b = w.finds b ∙ elim (Bool-cases (node_eq pg a b)) [
      | inl e ↦ rw (e, ← version_id-congr pg laws s.tables a b e, old)
      | inr e ↦ rw e
    ]

    by_cases :
        version_id pg s.tables a ≡ none
        → has_version_id id s.tables.versions ≡ false
        → (p q : Bool) → (p ≡ true → version_id pg s.tables a ≡ version_id pg s.tables x)
        → (q ≡ true → version_id pg s.tables a ≡ version_id pg s.tables y)
        → linked
            (if p then some id else version_id pg s.tables x)
            (if q then some id else version_id pg s.tables y)
            s.tables.dependencies
          ≡ linked (version_id pg s.tables x) (version_id pg s.tables y) s.tables.dependencies
    by_cases new fresh true q hx hy =
        (linked-fresh id _ s.tables.versions s.tables.dependencies valid.dependencies_ok fresh).0
        ∙ sym (rw (sym (hx refl) ∙ new) refl)
    by_cases new fresh false true hx hy =
        (linked-fresh id (version_id pg s.tables x) s.tables.versions s.tables.dependencies
          valid.dependencies_ok fresh).1
        ∙ sym (
            rw (sym (hy refl) ∙ new) (linked-none (version_id pg s.tables x) s.tables.dependencies))
    by_cases new fresh false false hx hy = refl

module _ (pg : Postgres) (m v : Text) (s t u : Session) (mid id : ℕ)
    (module_written : ModuleWritten pg m s mid t)
    (version_written : VersionWritten pg mid v t id u) where
  -- The module's own lookup, before and after.
  found : (n : Text) → text_eq m n ≡ true → find_module n u.tables.modules ≡ some mid
  found n e = rw (version_written.same_modules, module_written.finds n, e)

  other :
      (n : Text)
      → text_eq m n ≡ false
      → find_module n u.tables.modules ≡ find_module n s.tables.modules
  other n e = rw (version_written.same_modules, module_written.finds n, e)

  find_version-after :
      (k : ℕ) (w : Text)
      → find_version pg k w u.tables.versions
        ≡ (if mid == k && semver_eq pg v w then some id else find_version pg k w s.tables.versions)
  find_version-after k w = rw (version_written.finds k w, module_written.same_versions)

  -- Another module has another id.
  other_id :
      (n : Text) (k : ℕ)
      → text_eq m n ≡ false
      → find_module n u.tables.modules ≡ some k
      → (mid == k) ≡ false
  other_id n k e f = elim (Bool-cases (mid == k)) [
    | inr d ↦ d
    | inl same ↦
        let g : find_module n u.tables.modules ≡ some mid = rw ((==_iff mid k).0 same) f in
        let name : m ≡ n =
          find_module-inj u.next_module mid m n u.tables.modules version_written.valid.modules_ok
            (found m (text_eq_refl m)) g in
        absurd (ground (arith, text_eq_iff m n))
  ]

  before_same :
      (n w : Text)
      → text_eq m n ≡ true
      → version_id pg s.tables (n, w) ≡ find_version pg mid w s.tables.versions
  before_same n w e = rw (← (text_eq_iff m n).0 e) (elim module_written.unused [
    | inl old ↦ version_id-known pg s.tables m w mid old
    | inr (new, empty) ↦ version_id-unknown pg s.tables m w new ∙ sym (empty w)
  ])

  finds_node :
      (n w : Text)
      → version_id pg u.tables (n, w)
        ≡ (if node_eq pg (m, v) (n, w) then some id else version_id pg s.tables (n, w))
  unfolding node_eq
  finds_node n w = elim (Bool-cases (text_eq m n)) [
    | inl e ↦
        version_id-known pg u.tables n w mid (found n e)
        ∙ find_version-after mid w
        ∙ rw (==_refl mid, e, before_same n w e)
    | inr e ↦ elim (Option-cases (find_module n u.tables.modules)) [
      | inl f ↦ rw e (
          version_id-unknown pg u.tables n w f
          ∙ sym (version_id-unknown pg s.tables n w (sym (other n e) ∙ f)))
      | inr (k, f) ↦ rw e (
          version_id-known pg u.tables n w k f
          ∙ rw (find_version-after k w, other_id n k e f)
              (sym (version_id-known pg s.tables n w k (sym (other n e) ∙ f))))
    ]
  ]

  pub node_written : NodeWritten pg (m, v) s id u
  node_written = record {
    valid = version_written.valid;
    later = Later-trans module_written.later version_written.later;
    finds = λ (n, w). finds_node n w;
    same_dependencies = version_written.same_dependencies ∙ module_written.same_dependencies;
    has_id = version_written.has_id;
    keeps = λ i h. version_written.keeps i (rw module_written.same_versions h);
    unused = elim version_written.unused [
      | inl old ↦ inl (before_same m v (text_eq_refl m) ∙ rw module_written.same_versions at old)
      | inr (new, fresh) ↦ inr (
        before_same m v (text_eq_refl m) ∙ rw module_written.same_versions at new,
        rw module_written.same_versions at fresh,
      )
    ];
  }

-- The node that a name and a version stand for, as it is stored under `id`.
abbrev pub Stored : Postgres → Text → Text → Session → ℕ → Session → Type 0
Stored pg name ver s id s' = (v : Text) × Casts pg ver v × NodeWritten pg (name, v) s id s'

abbrev OneId : Postgres → ℕ → Text → Session → List ℕ → Session → Type 0
OneId pg mid ver s ids s' = (id : ℕ) × (ids ≡ id ∷ []) × Wrote pg mid ver s id s'

write_one-Ends :
    (pg : Postgres) (laws : SemverLaws pg) (mid : ℕ) (ver : Text) (s : Session)
    → IsValid pg s
    → has_module_id mid s.tables.modules ≡ true
    → Ends (OneId pg mid ver s) (Failed s) (write_module_versions pg mid (ver ∷ []) s)
unfolding write_module_versions
write_one-Ends pg laws mid ver s valid known =
    Ends-bind (Wrote pg mid ver s) (OneId pg mid ver s) (Failed s) (write_version pg mid ver)
      (λ id. pure [] >>= λ ids. pure (id ∷ ids)) s
      (write_version-Ends pg laws mid ver s valid known) (λ id s' h. (id, refl, h))

-- The rule for code that writes a node and goes on with the ids of its versions.
module _ {ℓ} {B : Type ℓ} (pg : Postgres) (laws : SemverLaws pg) (name description ver : Text)
    (R : B → Session → Type 0) where
  pub bind-node :
      (g : List ℕ → Db B) (s : Session)
      → IsValid pg s
      → ((id : ℕ) (s' : Session) → Stored pg name ver s id s' → Ends R (Failed s) (g (id ∷ []) s'))
      → Ends R (Failed s) (
          (write_module name description >>= λ mid. write_module_versions pg mid (ver ∷ []) >>= g)
            s)
  bind-node g s valid k =
      Ends-bind (λ mid t. ModuleWritten pg name s mid t) R (Failed s)
        (write_module name description) (λ mid. write_module_versions pg mid (ver ∷ []) >>= g) s
        (write_module-Ends pg name description s valid)
        (λ mid t w.
          Ends-bind (λ ids u. (id : ℕ) × (ids ≡ id ∷ []) × Stored pg name ver s id u) R (Failed s)
            (write_module_versions pg mid (ver ∷ [])) g t
            (Ends-weaken (OneId pg mid ver t)
              (λ ids u. (id : ℕ) × (ids ≡ id ∷ []) × Stored pg name ver s id u) (Failed t)
              (Failed s) _ (write_one-Ends pg laws mid ver t w.valid w.has_mid)
              (λ ids u h.
                (h.0, h.1, (h.2.0, h.2.1, node_written pg name h.2.0 s t u mid h.0 w h.2.2)))
              (λ e u f. Failed-trans e u w.later f))
            (λ ids u h. rw (h.1) (k h.0 u h.2)))
