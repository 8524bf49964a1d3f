-- ===== src/Store/Write/Modules.antt =====
-- What `writeModule` does to a valid database.
use perseus.Prelude.{
  ℕ, ◌+◌, ◌<◌, ◌≡◌, ◌⊎◌, inl, inr, Bool, true, false, Option, none, some, List, [], ◌∷◌, map, arith,
  Text, refl, Bool-cases, Option-cases, if◌then◌else◌, text_eq, text_eq_iff, subst,
}
use perseus.Store.Postgres.{Postgres}
use perseus.Store.Session.{ModuleRow, VersionRow, Session, lift, ◌>>=◌, next_module_id}
use perseus.Store.Write.{
  find_module, find_version, has_module_id, describe, put_module, upsert_module, write_module,
  null_string, scan_one,
}
use perseus.Store.Ends.{
  Ends, Ends-bind, Ends-weaken, Later, Later-trans, Failed, Failed-trans, bind-round_trip,
  bind-next_module_id,
}
use perseus.Store.Valid.{
  ModulesOk, VersionsOk, IsValid, ModulesOk-grow, has_module_id-fresh, find_module-has,
  find_version-orphan,
}

-- `mid` is the id of the module `name` after the write, and nothing else has changed that a
-- lookup can see.
pub record ModuleWritten (pg : Postgres) (name : Text) (s : Session) (mid : ℕ) (s' : Session)
    : Type 0 where
  pub valid : IsValid pg s'
  pub later : Later s s'
  pub finds :
      (n : Text)
      → find_module n s'.tables.modules
        ≡ (if text_eq name n then some mid else find_module n s.tables.modules)
  pub same_versions : s'.tables.versions ≡ s.tables.versions
  pub same_dependencies : s'.tables.dependencies ≡ s.tables.dependencies
  pub has_mid : has_module_id mid s'.tables.modules ≡ true
  pub unused :
      (find_module name s.tables.modules ≡ some mid)
      ⊎ ((find_module name s.tables.modules ≡ none)
          × ((v : Text) → find_version pg mid v s.tables.versions ≡ none))

module _ (name : Text) (desc : Option Text) where
  find_module-describe :
      (n : Text) (rows : List ModuleRow)
      → find_module n (map (describe name desc) rows) ≡ find_module n rows
  unfolding find_module
  find_module-describe n [] = refl
  find_module-describe n (r ∷ rows) = ground (arith, find_module-describe n rows)

  has_module_id-describe :
      (id : ℕ) (rows : List ModuleRow)
      → has_module_id id (map (describe name desc) rows) ≡ has_module_id id rows
  unfolding has_module_id
  has_module_id-describe id [] = refl
  has_module_id-describe id (r ∷ rows) = ground (arith, has_module_id-describe id rows)

  describe-id : (r : ModuleRow) → (describe name desc r).id ≡ r.id
  describe-id r = ground arith

  describe-name : (r : ModuleRow) → (describe name desc r).name ≡ r.name
  describe-name r = ground arith

  ModulesOk-describe :
      (n : ℕ) (rows : List ModuleRow)
      → ModulesOk n rows
      → ModulesOk n (map (describe name desc) rows)
  ModulesOk-describe n [] h = tt
  ModulesOk-describe n (r ∷ rows) (a, b, c, h) = (
    rw (describe-id r) a,
    rw (describe-id r, has_module_id-describe r.id rows) b,
    rw (describe-name r, find_module-describe r.name rows) c,
    ModulesOk-describe n rows h,
  )

  VersionsOk-describe :
      (pg : Postgres) (n : ℕ) (modules : List ModuleRow) (rows : List VersionRow)
      → VersionsOk pg n modules rows
      → VersionsOk pg n (map (describe name desc) modules) rows
  VersionsOk-describe pg n modules [] h = tt
  VersionsOk-describe pg n modules (r ∷ rows) (a, b, c, d, h) = (
    a,
    b,
    c,
    rw (has_module_id-describe r.module_id modules) d,
    VersionsOk-describe pg n modules rows h,
  )

VersionsOk-insert :
    (pg : Postgres) (n : ℕ) (r : ModuleRow) (modules : List ModuleRow) (rows : List VersionRow)
    → VersionsOk pg n modules rows
    → VersionsOk pg n (r ∷ modules) rows
unfolding has_module_id
VersionsOk-insert pg n r modules [] h = tt
VersionsOk-insert pg n r modules (x ∷ rows) (a, b, c, d, h) =
    (a, b, c, ground arith, VersionsOk-insert pg n r modules rows h)

find_module-congr :
    (n m : Text) (rows : List ModuleRow)
    → text_eq n m ≡ true
    → find_module m rows ≡ find_module n rows
find_module-congr n m rows h = rw ((text_eq_iff n m).0 h)

-- The rows that RETURNING gives: one, the id of the module that was written.
abbrev One : Postgres → Text → Session → List ℕ → Session → Type 0
One pg name s ids s' = (mid : ℕ) × (ids ≡ mid ∷ []) × ModuleWritten pg name s mid s'

-- The session in which `nextval` has just returned `id`.
record Reserved (pg : Postgres) (id : ℕ) (s : Session) : Type 0 where
  modules_ok : ModulesOk id s.tables.modules
  ahead : id < s.next_module
  valid : IsValid pg s

put_module-old :
    (pg : Postgres) (name : Text) (desc : Option Text) (id old : ℕ) (s : Session)
    → Reserved pg id s
    → find_module name s.tables.modules ≡ some old
    → Ends (One pg name s) (Failed s) (put_module name desc id s)
unfolding put_module
put_module-old pg name desc id old s r e =
    rw (e, put_module, Ends)
      (
        old,
        refl,
        record {
          valid = record {
            modules_ok =
                ModulesOk-describe name desc s.next_module s.tables.modules r.valid.modules_ok;
            versions_ok =
                VersionsOk-describe name desc pg s.next_version s.tables.modules s.tables.versions
                  r.valid.versions_ok;
            dependencies_ok = r.valid.dependencies_ok;
          };
          later = omega arith;
          finds = λ n. elim (Bool-cases (text_eq name n)) [
            | inl t ↦
                rw
                  (
                    t,
                    find_module-describe name desc n s.tables.modules,
                    find_module-congr name n s.tables.modules t,
                  )
                  e
            | inr f ↦ rw (f, find_module-describe name desc n s.tables.modules)
          ];
          same_versions = refl;
          same_dependencies = refl;
          has_mid =
              rw (has_module_id-describe name desc old s.tables.modules)
                (find_module-has name old s.tables.modules e);
          unused = inl e;
        },
      )

put_module-new :
    (pg : Postgres) (name : Text) (desc : Option Text) (id : ℕ) (s : Session)
    → Reserved pg id s
    → find_module name s.tables.modules ≡ none
    → Ends (One pg name s) (Failed s) (put_module name desc id s)
unfolding put_module
put_module-new pg name desc id s r e =
    let fresh : has_module_id id s.tables.modules ≡ false =
      has_module_id-fresh id id s.tables.modules (omega arith) r.modules_ok in
    rw (e, put_module, Ends)
      (
        id,
        refl,
        record {
          valid = record {
            modules_ok = (r.ahead, fresh, e, r.valid.modules_ok);
            versions_ok =
                VersionsOk-insert pg s.next_version _ s.tables.modules s.tables.versions
                  r.valid.versions_ok;
            dependencies_ok = r.valid.dependencies_ok;
          };
          later = omega arith;
          finds = λ n. unfold find_module in refl;
          same_versions = refl;
          same_dependencies = refl;
          has_mid = unfold has_module_id in ground arith;
          unused = inr (
            e,
            λ v.
                find_version-orphan pg s.next_version id v s.tables.modules s.tables.versions fresh
                  r.valid.versions_ok,
          );
        },
      )

put_module-Ends :
    (pg : Postgres) (name : Text) (desc : Option Text) (id : ℕ) (s : Session)
    → Reserved pg id s
    → Ends (One pg name s) (Failed s) (put_module name desc id s)
put_module-Ends pg name desc id s r = elim (Option-cases (find_module name s.tables.modules)) [
  | inl e ↦ put_module-new pg name desc id s r e
  | inr (old, e) ↦ put_module-old pg name desc id old s r e
]

-- The same record seen from an earlier session with the same tables.
rebase :
    {pg : Postgres} {name : Text} {s t u : Session} {mid : ℕ}
    → t.tables ≡ s.tables
    → Later s t
    → ModuleWritten pg name t mid u
    → ModuleWritten pg name s mid u
rebase {pg} {name} {s} {t} {u} {mid} e l w =
    subst (λ x. ModuleWritten pg name (record s { tables = x }) mid u) e
      (record {
        valid = w.valid;
        later = omega (arith, Later-trans l w.later);
        finds = w.finds;
        same_versions = w.same_versions;
        same_dependencies = w.same_dependencies;
        has_mid = w.has_mid;
        unused = w.unused;
      })

-- From a valid database `writeModule` gives a valid one, with the module under the id returned.
pub write_module-Ends :
    (pg : Postgres) (name description : Text) (s : Session)
    → IsValid pg s
    → Ends (λ mid s'. ModuleWritten pg name s mid s') (Failed s) (write_module name description s)
unfolding write_module
write_module-Ends pg name description s v =
    Ends-bind (One pg name s) (λ mid s'. ModuleWritten pg name s mid s') (Failed s)
      (upsert_module name desc) (λ ids. lift (scan_one ids)) s
      (unfold upsert_module in
        bind-round_trip (One pg name s) (Failed s) (next_module_id >>= put_module name desc) s
          (λ faults.
            bind-next_module_id (One pg name s) (Failed s) (put_module name desc) (at faults)
              (Ends-weaken (One pg name (reserved faults)) (One pg name s)
                (Failed (reserved faults)) (Failed s) _
                (put_module-Ends pg name desc s.next_module (reserved faults) (ready faults))
                (λ ids s' h. (h.0, h.1, rebase refl (omega arith) h.2))
                (λ e s' l. Failed-trans e s' (omega arith) l))
              (omega arith))
          (λ faults. omega arith))
      (λ ids s' h. rw (h.1) h.2)
  where
    desc : Option Text
    desc = null_string description

    at : List Bool → Session
    at faults = record s { faults = faults }

    reserved : List Bool → Session
    reserved faults = record s { faults = faults; next_module = s.next_module + 1 }

    ready : (faults : List Bool) → Reserved pg s.next_module (reserved faults)
    ready faults = record {
      modules_ok = v.modules_ok;
      ahead = omega arith;
      valid = record {
        modules_ok =
            ModulesOk-grow s.next_module (s.next_module + 1) s.tables.modules (omega arith)
              v.modules_ok;
        versions_ok = v.versions_ok;
        dependencies_ok = v.dependencies_ok;
      };
    }
