-- ===== src/Store/Write/Versions.antt =====
-- What `writeModuleVersions` does to a valid database.
use perseus.Prelude.{
  ℕ, ◌+◌, ◌<◌, ◌≡◌, ◌⊎◌, inl, inr, Bool, true, false, ◌&&◌, none, some, List, [], ◌∷◌, arith, Text,
  codes, refl, Bool-cases, Option-cases, ◌==◌, ==_iff, &&-true, if◌then◌else◌, trim_prefix, ok, err,
  subst,
}
use perseus.Store.Postgres.{Postgres, SemverLaws, semver_eq}
use perseus.Store.Session.{
  VersionRow, DependencyRow, Session, StoreError, lift, ◌>>=◌, next_version_id, Db,
}
use perseus.Store.Write.{
  find_version, has_module_id, has_version_id, put_version, cast_version, upsert_version,
  write_version, scan_one,
}
use perseus.Store.Ends.{
  Ends, Ends-bind, Ends-if, Ends-weaken, Later, Later-trans, Failed, Failed-trans, Environmental,
  bind-round_trip, bind-next_version_id, bind-lift,
}
use perseus.Store.Valid.{
  VersionsOk, DependenciesOk, IsValid, VersionsOk-grow, has_version_id-fresh, find_version-has,
}

-- `id` is the id of the version `v` of the module `mid` after the write, and nothing else has
-- changed that a lookup can see.
pub record VersionWritten (pg : Postgres) (mid : ℕ) (v : Text) (s : Session) (id : ℕ) (s' : Session)
    : Type 0 where
  pub valid : IsValid pg s'
  pub later : Later s s'
  pub finds :
      (m : ℕ) (w : Text)
      → find_version pg m w s'.tables.versions
        ≡ (if mid == m && semver_eq pg v w then some id else find_version pg m w s.tables.versions)
  pub same_modules : s'.tables.modules ≡ s.tables.modules
  pub same_dependencies : s'.tables.dependencies ≡ s.tables.dependencies
  pub has_id : has_version_id id s'.tables.versions ≡ true
  pub keeps :
      (i : ℕ)
      → has_version_id i s.tables.versions ≡ true
      → has_version_id i s'.tables.versions ≡ true
  pub unused :
      (find_version pg mid v s.tables.versions ≡ some id)
      ⊎ ((find_version pg mid v s.tables.versions ≡ none)
          × (has_version_id id s.tables.versions ≡ false))

find_version-congr :
    (pg : Postgres) (laws : SemverLaws pg) (m : ℕ) (v w : Text) (rows : List VersionRow)
    → semver_eq pg v w ≡ true
    → find_version pg m w rows ≡ find_version pg m v rows
unfolding find_version
find_version-congr pg laws m v w [] h = refl
find_version-congr pg laws m v w (r ∷ rows) h =
    let same : semver_eq pg r.version v ≡ semver_eq pg r.version w =
      rw (laws.eq_sym r.version v, laws.eq_sym r.version w) (laws.eq_congr v w r.version h) in
    rw (same, find_version-congr pg laws m v w rows h)

DependenciesOk-insert :
    (r : VersionRow) (versions : List VersionRow) (rows : List DependencyRow)
    → DependenciesOk versions rows
    → DependenciesOk (r ∷ versions) rows
unfolding has_version_id
DependenciesOk-insert r versions [] h = tt
DependenciesOk-insert r versions (d ∷ rows) (a, b, c, h) =
    (ground arith, ground arith, c, DependenciesOk-insert r versions rows h)

abbrev One : Postgres → ℕ → Text → Session → List ℕ → Session → Type 0
One pg mid v s ids s' = (id : ℕ) × (ids ≡ id ∷ []) × VersionWritten pg mid v s id s'

-- The session in which `nextval` has just returned `id`.
record Reserved (pg : Postgres) (mid id : ℕ) (s : Session) : Type 0 where
  versions_ok : VersionsOk pg id s.tables.modules s.tables.versions
  ahead : id < s.next_version
  valid : IsValid pg s
  known : has_module_id mid s.tables.modules ≡ true

module _ (pg : Postgres) (laws : SemverLaws pg) (mid : ℕ) (v : Text) where
  put_version-old :
      (id old : ℕ) (s : Session)
      → IsValid pg s
      → find_version pg mid v s.tables.versions ≡ some old
      → Ends (One pg mid v s) (Failed s) (put_version pg mid v id s)
  unfolding put_version
  put_version-old id old s valid e =
      rw (e, put_version, Ends)
        (
          old,
          refl,
          record {
            valid = valid;
            later = omega arith;
            finds = λ m w. elim (Bool-cases (mid == m && semver_eq pg v w)) [
              | inl t ↦
                  let both : (mid == m) ≡ true × (semver_eq pg v w ≡ true) = &&-true _ _ t in
                  rw
                    (
                      t,
                      ← (==_iff mid m).0 both.0,
                      find_version-congr pg laws mid v w s.tables.versions both.1,
                    )
                    e
              | inr f ↦ rw f
            ];
            same_modules = refl;
            same_dependencies = refl;
            has_id = find_version-has pg mid v old s.tables.versions e;
            keeps = λ i h. h;
            unused = inl e;
          },
        )

  put_version-new :
      (id : ℕ) (s : Session)
      → Reserved pg mid id s
      → find_version pg mid v s.tables.versions ≡ none
      → Ends (One pg mid v s) (Failed s) (put_version pg mid v id s)
  unfolding put_version
  put_version-new id s r e =
      let fresh : has_version_id id s.tables.versions ≡ false =
        has_version_id-fresh pg id id s.tables.modules s.tables.versions (omega arith)
          r.versions_ok in
      rw (e, put_version)
        (Ends-if (One pg mid v s) (Failed s) (has_module_id mid s.tables.modules) _ _
          (λ has. (
            id,
            refl,
            record {
              valid = record {
                modules_ok = r.valid.modules_ok;
                versions_ok = (r.ahead, fresh, e, has, r.valid.versions_ok);
                dependencies_ok =
                    DependenciesOk-insert _ s.tables.versions s.tables.dependencies
                      r.valid.dependencies_ok;
              };
              later = omega arith;
              finds = λ m w. unfold find_version in refl;
              same_modules = refl;
              same_dependencies = refl;
              has_id = unfold has_version_id in ground arith;
              keeps = λ i h. unfold has_version_id in ground arith;
              unused = inr (e, fresh);
            },
          ))
          (λ none_such. cc (r.known)))

  put_version-Ends :
      (id : ℕ) (s : Session)
      → Reserved pg mid id s
      → Ends (One pg mid v s) (Failed s) (put_version pg mid v id s)
  put_version-Ends id s r = elim (Option-cases (find_version pg mid v s.tables.versions)) [
    | inl e ↦ put_version-new id s r e
    | inr (old, e) ↦ put_version-old id old s r.valid e
  ]

rebase :
    {pg : Postgres} {mid : ℕ} {v : Text} {s t u : Session} {id : ℕ}
    → t.tables ≡ s.tables
    → Later s t
    → VersionWritten pg mid v t id u
    → VersionWritten pg mid v s id u
rebase {pg} {mid} {v} {s} {t} {u} {id} e l w =
    subst (λ x. VersionWritten pg mid v (record s { tables = x }) id u) e
      (record {
        valid = w.valid;
        later = omega (arith, Later-trans l w.later);
        finds = w.finds;
        same_modules = w.same_modules;
        same_dependencies = w.same_dependencies;
        has_id = w.has_id;
        keeps = w.keeps;
        unused = w.unused;
      })

-- The semver that the text of a version stands for, without its leading "v".
abbrev pub Casts : Postgres → Text → Text → Type 0
Casts pg ver v = pg.semver_cast (trim_prefix ver (codes "v")) ≡ some v

-- After `writeModuleVersions` has written the version `ver` under `id`.
abbrev pub Wrote : Postgres → ℕ → Text → Session → ℕ → Session → Type 0
Wrote pg mid ver s id s' = (v : Text) × Casts pg ver v × VersionWritten pg mid v s id s'

abbrev Rows : Postgres → ℕ → Text → Session → List ℕ → Session → Type 0
Rows pg mid text s ids s' = (v : Text) × (pg.semver_cast text ≡ some v) × One pg mid v s ids s'

cast_version-ok :
    (pg : Postgres) (text v : Text) → cast_version pg text ≡ ok v → pg.semver_cast text ≡ some v
cast_version-ok pg text v h = ground arith

cast_version-err :
    (pg : Postgres) (text : Text) (e : StoreError) → cast_version pg text ≡ err e → Environmental e
cast_version-err pg text e h = ground arith

module _ (pg : Postgres) (laws : SemverLaws pg) (mid : ℕ) where
  upsert_version-Ends :
      (text : Text) (s : Session)
      → IsValid pg s
      → has_module_id mid s.tables.modules ≡ true
      → Ends (Rows pg mid text s) (Failed s) (upsert_version pg mid text s)
  unfolding upsert_version
  upsert_version-Ends text s valid known =
      bind-round_trip P (Failed s) (lift (cast_version pg text) >>= insert) s
        (λ faults.
          bind-lift P (Failed s) (cast_version pg text) insert (at faults)
            (λ v c.
              bind-next_version_id P (Failed s) (put_version pg mid v) (at faults)
                (Ends-weaken (One pg mid v (reserved faults)) P (Failed (reserved faults))
                  (Failed s) _
                  (put_version-Ends pg laws mid v s.next_version (reserved faults) (ready faults))
                  (λ ids s' h.
                    (v, cast_version-ok pg text v c, (h.0, h.1, rebase refl (omega arith) h.2)))
                  (λ e s' l. Failed-trans e s' (omega arith) l))
                (omega arith))
            (λ e c. (omega arith, cast_version-err pg text e c)))
        (λ faults. omega arith)
    where
      P : List ℕ → Session → Type 0
      P = Rows pg mid text s

      insert : Text → Db (List ℕ)
      insert v = next_version_id >>= put_version pg mid v

      at : List Bool → Session
      at faults = record s { faults = faults }

      reserved : List Bool → Session
      reserved faults = record s { faults = faults; next_version = s.next_version + 1 }

      ready : (faults : List Bool) → Reserved pg mid s.next_version (reserved faults)
      ready faults = record {
        versions_ok = valid.versions_ok;
        ahead = omega arith;
        valid = record {
          modules_ok = valid.modules_ok;
          versions_ok =
              VersionsOk-grow pg s.next_version (s.next_version + 1) s.tables.modules
                s.tables.versions (omega arith) valid.versions_ok;
          dependencies_ok = valid.dependencies_ok;
        };
        known = known;
      }

  -- From a valid database the version is stored under the id returned.
  pub write_version-Ends :
      (ver : Text) (s : Session)
      → IsValid pg s
      → has_module_id mid s.tables.modules ≡ true
      → Ends (Wrote pg mid ver s) (Failed s) (write_version pg mid ver s)
  unfolding write_version
  write_version-Ends ver s valid known =
      Ends-bind (Rows pg mid (trim_prefix ver (codes "v")) s) (Wrote pg mid ver s) (Failed s)
        (upsert_version pg mid (trim_prefix ver (codes "v"))) (λ ids. lift (scan_one ids)) s
        (upsert_version-Ends (trim_prefix ver (codes "v")) s valid known)
        (λ ids s' h. rw (h.2.1) (h.0, h.1, h.2.2))
