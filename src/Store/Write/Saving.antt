-- ===== src/Store/Write/Saving.antt =====
-- `SaveModule` adds a module and its versions to the nodes of the graph.
use perseus.Prelude.{
  ℕ, ◌≡◌, refl, sym, ◌∙◌, ap, Text, Bool, true, false, ◌||◌, Option, none, some, List, [], ◌∷◌, map,
  arith, is_empty, Bool-cases, Option-cases, inl, inr, if◌then◌else◌, text_eq, text_eq_iff,
  text_eq_refl,
}
use perseus.Store.Postgres.{Postgres, SemverLaws}
use perseus.Store.Session.{Session, Tables, pure, ◌>>=◌}
use perseus.Store.Write.{
  Version, find_module, find_version, has_module_id, save_module, write_module,
  write_module_versions, write_version,
}
use perseus.Store.Ends.{
  Ends, Ends-bind, Ends-weaken, Later, Later-trans, Failed, Failed-trans, Environmental,
}
use perseus.Store.Valid.{IsValid, IsValid-grow}
use perseus.Store.Graph.{Node, node_eq, version_id, version_id-known, version_id-unknown, depends}
use perseus.Store.Write.Modules.{ModuleWritten, write_module-Ends}
use perseus.Store.Write.Versions.{Casts, Wrote, write_version-Ends}
use perseus.Store.Write.Nodes.{NodeWritten, node_written, depends-written}
use perseus.Store.Write.Dependencies.{is_node-Casts, is_target, keeps_node}
use perseus.Store.Write.Transaction.{RolledBack, transaction-Ends}

-- Whether a node is in the graph.
abbrev pub has_id : Option ℕ → Bool
has_id none = false
has_id (some i) = true

abbrev pub is_known : Postgres → Tables → Node → Bool
is_known pg t b = has_id (version_id pg t b)

-- The versions of a module.
abbrev pub versions_of : Text → List Text → List Version
versions_of name = map (λ v. record { id = 0; module_id = name; sem_ver = v })

-- The graph after a module has been saved with some versions: the module has a row; the nodes are
-- those from before and the versions, and no other; nodes keep their ids; the edges are the same.
pub record ModuleSaved (pg : Postgres) (name : Text) (versions : List Text) (t t' : Tables)
    : Type 0 where
  pub named : (mid : ℕ) × (find_module name t'.modules ≡ some mid)
  pub nodes :
      (b : Node)
      → is_known pg t' b ≡ (is_target pg (versions_of name versions) b || is_known pg t b)
  pub keeps : (b : Node) (i : ℕ) → version_id pg t b ≡ some i → version_id pg t' b ≡ some i
  pub edges : (a b : Node) → depends pg t' a b ≡ depends pg t a b

-- The same after the loop over the versions, with what the loop needs.
record Looped (pg : Postgres) (name : Text) (mid : ℕ) (versions : List Text) (s s' : Session)
    : Type 0 where
  valid : IsValid pg s'
  later : Later s s'
  named : find_module name s'.tables.modules ≡ some mid
  nodes :
      (b : Node)
      → is_known pg s'.tables b
        ≡ (is_target pg (versions_of name versions) b || is_known pg s.tables b)
  keeps :
      (b : Node) (i : ℕ) → version_id pg s.tables b ≡ some i → version_id pg s'.tables b ≡ some i
  edges : (a b : Node) → depends pg s'.tables a b ≡ depends pg s.tables a b

module _ (pg : Postgres) (laws : SemverLaws pg) (name : Text) (mid : ℕ) where
  -- A module that is there has been written, as it were.
  module_there :
      (s : Session)
      → IsValid pg s
      → find_module name s.tables.modules ≡ some mid
      → has_module_id mid s.tables.modules ≡ true
      → ModuleWritten pg name s mid s
  module_there s valid e known = record {
    valid = valid;
    later = omega arith;
    finds = λ n. elim (Bool-cases (text_eq name n)) [
      | inl f ↦ rw (f, ← (text_eq_iff name n).0 f) e
      | inr f ↦ rw f
    ];
    same_versions = refl;
    same_dependencies = refl;
    has_mid = known;
    unused = inl e;
  }

  looped :
      (ver v : Text) (versions : List Text) (s t u : Session) (id : ℕ)
      → IsValid pg s
      → Casts pg ver v
      → NodeWritten pg (name, v) s id t
      → Looped pg name mid versions t u
      → Looped pg name mid (ver ∷ versions) s u
  unfolding is_target
  looped ver v versions s t u id valid c w r = record {
    valid = r.valid;
    later = Later-trans w.later r.later;
    named = r.named;
    nodes = λ b.
        r.nodes b
        ∙ rw (w.finds b, is_target, is_node-Casts pg name ver v b c)
            (either (node_eq pg (name, v) b) (is_target pg (versions_of name versions) b)
              (version_id pg s.tables b));
    keeps = λ b i h. r.keeps b i (keeps_node pg laws (name, v) s t id w b i h);
    edges = λ a b. r.edges a b ∙ depends-written pg laws (name, v) s t id valid w a b;
  }
    where
      either :
          (a b : Bool) (o : Option ℕ)
          → (b || has_id (if a then some id else o)) ≡ ((a || b) || has_id o)
      either true true o = refl
      either true false o = refl
      either false b o = refl

  write_module_versions-Ends :
      (versions : List Text) (s : Session)
      → IsValid pg s
      → find_module name s.tables.modules ≡ some mid
      → has_module_id mid s.tables.modules ≡ true
      → Ends
          (λ _ s'. Looped pg name mid versions s s')
          (Failed s)
          (write_module_versions pg mid versions s)
  unfolding write_module_versions is_target
  write_module_versions-Ends [] s valid e known = record {
    valid = valid;
    later = omega arith;
    named = e;
    nodes = λ b. refl;
    keeps = λ b i h. h;
    edges = λ a b. refl;
  }
  write_module_versions-Ends (ver ∷ versions) s valid e known =
      Ends-bind (Wrote pg mid ver s) (λ _ s'. Looped pg name mid (ver ∷ versions) s s') (Failed s)
        (write_version pg mid ver)
        (λ id. write_module_versions pg mid versions >>= λ ids. pure (id ∷ ids)) s
        (write_version-Ends pg laws mid ver s valid known)
        (λ id t h.
          let (v, c, w) = h in
          Ends-bind (λ _ u. Looped pg name mid versions t u)
            (λ _ s'. Looped pg name mid (ver ∷ versions) s s') (Failed s)
            (write_module_versions pg mid versions) (λ ids. pure (id ∷ ids)) t
            (Ends-weaken (λ _ u. Looped pg name mid versions t u)
              (λ _ u. Looped pg name mid versions t u) (Failed t) (Failed s) _
              (write_module_versions-Ends versions t w.valid (rw w.same_modules e)
                (rw w.same_modules known))
              (λ a u r. r) (λ f u g. Failed-trans f u w.later g))
            (λ ids u r.
              looped ver v versions s t u id valid c
                (node_written pg name v s s t mid id (module_there s valid e known) w) r))

-- The upsert of a module changes no node and no edge.
version_id-module :
    (pg : Postgres) (name : Text) (s t : Session) (mid : ℕ)
    → ModuleWritten pg name s mid t
    → (b : Node) → version_id pg t.tables b ≡ version_id pg s.tables b
version_id-module pg name s t mid w (n, x) = elim (Bool-cases (text_eq name n)) [
  | inl e ↦
      let found : find_module n t.tables.modules ≡ some mid = w.finds n ∙ rw e refl in
      version_id-known pg t.tables n x mid found
      ∙ ap (find_version pg mid x) w.same_versions
      ∙ elim w.unused [
        | inl old ↦ sym (version_id-known pg s.tables n x mid (rw (← (text_eq_iff name n).0 e) old))
        | inr (new, empty) ↦
            empty x ∙ sym (version_id-unknown pg s.tables n x (rw (← (text_eq_iff name n).0 e) new))
      ]
  | inr e ↦
      let same : find_module n t.tables.modules ≡ find_module n s.tables.modules =
        w.finds n ∙ rw e refl in
      elim (Option-cases (find_module n s.tables.modules)) [
        | inl f ↦
            version_id-unknown pg t.tables n x (same ∙ f)
            ∙ sym (version_id-unknown pg s.tables n x f)
        | inr (k, f) ↦
            version_id-known pg t.tables n x k (same ∙ f)
            ∙ ap (find_version pg k x) w.same_versions
            ∙ sym (version_id-known pg s.tables n x k f)
      ]
]

module _ (pg : Postgres) (laws : SemverLaws pg) (name description : Text)
    (versions : List Text) where
  abbrev Done : Session → Unit {0} → Session → Type 0
  Done s _ s' = Later s s' × IsValid pg s' × ModuleSaved pg name versions s.tables s'.tables

  done :
      (s t u : Session) (mid : ℕ)
      → ModuleWritten pg name s mid t
      → Looped pg name mid versions t u
      → Done s tt u
  unfolding depends
  done s t u mid w r = (
    Later-trans w.later r.later,
    r.valid,
    record {
      named = (mid, r.named);
      nodes = λ b. r.nodes b ∙ rw (version_id-module pg name s t mid w b) refl;
      keeps = λ b i h. r.keeps b i (version_id-module pg name s t mid w b ∙ h);
      edges = λ a b.
          r.edges a b
          ∙ rw
              (
                version_id-module pg name s t mid w a,
                version_id-module pg name s t mid w b,
                w.same_dependencies,
              )
              refl;
    },
  )

  body-Ends :
      (s : Session)
      → IsValid pg s
      → Ends (Done s) (Failed s) (
          (write_module name description >>= λ mid.
          write_module_versions pg mid versions >>= λ _. pure tt)
            s)
  body-Ends s valid =
      Ends-bind (λ mid t. ModuleWritten pg name s mid t) (Done s) (Failed s)
        (write_module name description)
        (λ mid. write_module_versions pg mid versions >>= λ _. pure tt) s
        (write_module-Ends pg name description s valid)
        (λ mid t w.
          Ends-bind (λ _ u. Looped pg name mid versions t u) (Done s) (Failed s)
            (write_module_versions pg mid versions) (λ _. pure tt) t
            (Ends-weaken (λ _ u. Looped pg name mid versions t u)
              (λ _ u. Looped pg name mid versions t u) (Failed t) (Failed s) _
              (write_module_versions-Ends pg laws name mid versions t w.valid
                (w.finds name ∙ rw (text_eq_refl name) refl) w.has_mid)
              (λ a u r. r) (λ f u g. Failed-trans f u w.later g))
            (λ ids u r. done s t u mid w r))

  -- In a valid database and for a name that is not empty, `SaveModule` either succeeds, and then
  -- the module has a row, the nodes of the graph are those from before and the given versions of
  -- the module and no other, nodes keep their ids, and the edges are the same; or it fails, and
  -- the tables are as they were. Either way the database is valid. The errors are those of the
  -- connection, of a text that is no semantic version, and of an exhausted sequence.
  pub save_module-refines :
      (s : Session)
      → IsValid pg s
      → is_empty name ≡ false
      → Ends
          (λ _ s'. IsValid pg s' × ModuleSaved pg name versions s.tables s'.tables)
          (λ e s'. IsValid pg s' × (s'.tables ≡ s.tables) × Environmental e)
          (save_module pg name description versions s)
  unfolding save_module
  save_module-refines s valid named = rw named (
      Ends-weaken P P (RolledBack s)
        (λ e s'. IsValid pg s' × (s'.tables ≡ s.tables) × Environmental e) _
        (transaction-Ends P
          (write_module name description >>= λ mid.
            write_module_versions pg mid versions >>= λ _. pure tt)
          s
          (λ faults.
            Ends-weaken (Done (at faults))
              (λ a s'. Later s s' × ((faults' : List Bool) → P a (record s' { faults = faults' })))
              (Failed (at faults)) (Failed s) _ (body-Ends (at faults) (IsValid-at s faults valid))
              (λ a s' h. (omega arith, λ faults'. (IsValid-at s' faults' h.1, h.2)))
              (λ e s' f. (omega arith, f.1))))
        (λ a s' h. h) (λ e s' f. (IsValid-grow pg s s' f.0 f.1.0 valid, f.0, f.1.1)))
    where
      P : Unit {0} → Session → Type 0
      P _ s' = IsValid pg s' × ModuleSaved pg name versions s.tables s'.tables

      at : List Bool → Session
      at faults = record s { faults = faults }

      IsValid-at :
          (t : Session) (faults : List Bool)
          → IsValid pg t
          → IsValid pg (record t { faults = faults })
      IsValid-at t faults v = record {
        modules_ok = v.modules_ok;
        versions_ok = v.versions_ok;
        dependencies_ok = v.dependencies_ok;
      }
