-- ===== src/Server/Dependencies/Update.antt =====
-- `UpdateDependencies` on the Postgres client: what a response says of the graph.
use perseus.Prelude.{
  ◌⊎◌, inl, inr, ℕ, ◌≡◌, refl, Text, codes, Bool, true, false, List, [], ◌∷◌, map, Bool-cases, inl,
  inr, Result, ok, err, is_empty, trim_prefix, arith,
}
use perseus.Store.Postgres.{Postgres, SemverLaws}
use perseus.Store.Session.{Session}
use perseus.Store.Write.{Version, save_module_dependencies}
use perseus.Store.Ends.{Environmental}
use perseus.Store.Valid.{IsValid}
use perseus.Store.Write.Saved.{GraphSaved}
use perseus.Store.Write.Refinement.{save_module_dependencies-refines}
use perseus.Store.Paging.Codecs.{Codec}
use perseus.Server.Messages.{
  internal, Module, UpdateDependenciesRequest, ConnectError, code, database_failed,
}
use perseus.Server.Backend.{postgres_client, ◌>>=◌, call, reply}
use perseus.Server.Outcomes.{Answers, Answers-call}
use perseus.Server.Modules.{is_digit}
use perseus.Server.Dependencies.{
  store_version, read_dependency, read_dependencies, update_dependencies,
}

-- What golang.org/x/mod/module documents of `Check`: the path is not empty, and the version is
-- canonical, so that it starts with a v and a digit.
pub record CheckLaws (valid : Text → Text → Bool) : Type 0 where
  pub path_nonempty : (p v : Text) → valid p v ≡ true → is_empty p ≡ false
  pub canonical :
      (p v : Text)
      → valid p v ≡ true
      → (c : ℕ) × (w : Text) × (v ≡ (b'v' ∷ c ∷ w)) × (is_digit c ≡ true)

-- The version that a dependency of a request names.
abbrev pub dependency_of : Module → Version
dependency_of m = elim m.versions [ [] ↦ store_version m.name [] | v ∷ _ ↦ store_version m.name v ]

read_dependency-ok :
    (valid : Text → Text → Bool) (name : Text) (versions : List Text) (d : Version)
    → read_dependency valid name versions ≡ ok d
    → d ≡ dependency_of (record { name = name; versions = versions })
unfolding read_dependency
read_dependency-ok valid name [] d h = absurd (cc)
read_dependency-ok valid name (v ∷ []) d h = ground arith
read_dependency-ok valid name (v ∷ w ∷ versions) d h = absurd (cc)

-- A request that is read names these dependencies.
pub read_dependencies-ok :
    (valid : Text → Text → Bool) (modules : List Module) (deps : List Version)
    → read_dependencies valid modules ≡ ok deps
    → deps ≡ map dependency_of modules
unfolding read_dependencies
read_dependencies-ok valid [] deps h = ground arith
read_dependencies-ok valid (m ∷ modules) deps h =
    by_first (read_dependencies-ok valid modules) (read_dependency valid m.name m.versions)
      (read_dependencies valid modules) refl refl h
  where
    by_first :
        ((deps : List Version)
          → read_dependencies valid modules ≡ ok deps
          → deps ≡ map dependency_of modules)
        → (r : Result ConnectError Version) (q : Result ConnectError (List Version))
        → read_dependency valid m.name m.versions ≡ r
        → read_dependencies valid modules ≡ q
        → elim r [ err e ↦ err e | ok d ↦ elim q [ err e ↦ err e | ok ds ↦ ok (d ∷ ds) ] ] ≡ ok deps
        → deps ≡ (dependency_of m ∷ map dependency_of modules)
    by_first known (err e) q p f h = absurd (cc)
    by_first known (ok d) (err e) p f h = absurd (cc)
    by_first known (ok d) (ok ds) p f h =
        let same : d ≡ dependency_of m = read_dependency-ok valid m.name m.versions d p in
        let rest : ds ≡ map dependency_of modules = known ds f in cc

pub trimmed-nonempty :
    (valid : Text → Text → Bool) (laws : CheckLaws valid) (p v : Text)
    → valid p v ≡ true
    → is_empty (trim_prefix v (codes "v")) ≡ false
unfolding trim_prefix
trimmed-nonempty valid laws p v h = let (c, w, e, d) = laws.canonical p v h in rw e refl

module _ (pg : Postgres) (laws : SemverLaws pg) (codec : Codec) (valid : Text → Text → Bool)
    (checks : CheckLaws valid) (req : UpdateDependenciesRequest) (s : Session)
    (ok_before : IsValid pg s) where
  abbrev root : Version
  root = store_version req.module_name req.version

  abbrev Refused : ConnectError → Session → Type 0
  Refused e s' = IsValid pg s' × (s'.tables ≡ s.tables) × ((code e ≡ internal) ⊎ (s' ≡ s))

  -- In a valid database `UpdateDependencies` either answers, and then the graph has the edges from
  -- before and one from the module version to each dependency of the request, and no other; or it
  -- fails, and the tables are as they were. An invalid request changes nothing at all. Either way
  -- the database is valid.
  pub update_dependencies-refines :
      Answers
        (λ _ s'.
          IsValid pg s'
          × GraphSaved pg
              (store_version req.module_name req.version)
              (map dependency_of req.dependencies)
              s.tables
              s'.tables)
        (λ e s'. IsValid pg s' × (s'.tables ≡ s.tables) × ((code e ≡ internal) ⊎ (s' ≡ s)))
        (update_dependencies (postgres_client pg codec) valid req s)
  unfolding update_dependencies
  update_dependencies-refines = elim (Bool-cases (valid req.module_name req.version)) [
    | inr e ↦ rw (e, Answers) (ok_before, refl, inr refl)
    | inl e ↦ rw e (by_deps e (read_dependencies valid req.dependencies) refl)
  ]
    where
      Saved : List Version → Unit {0} → Session → Type 0
      Saved deps _ s' = IsValid pg s' × GraphSaved pg root deps s.tables s'.tables

      by_deps :
          valid req.module_name req.version ≡ true
          → (r : Result ConnectError (List Version)) → read_dependencies valid req.dependencies ≡ r
          → Answers
              (Saved (map dependency_of req.dependencies))
              Refused
              ((reply r >>= λ deps. call (save_module_dependencies pg root deps) database_failed) s)
      by_deps e (err f) p = (ok_before, refl, inr refl)
      by_deps e (ok deps) p = rw (← read_dependencies-ok valid req.dependencies deps p) (
          Answers-call (Saved deps) (λ f t. IsValid pg t × (t.tables ≡ s.tables) × Environmental f)
            Refused (save_module_dependencies pg root deps) database_failed s
            (save_module_dependencies-refines pg laws root deps s ok_before
              (checks.path_nonempty _ _ e) (trimmed-nonempty valid checks _ _ e))
            (λ f t h. (h.0, h.1, inl refl)))
