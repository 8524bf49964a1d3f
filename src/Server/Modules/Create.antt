-- ===== src/Server/Modules/Create.antt =====
-- `CreateModule` on the Postgres client: which requests it accepts, and what is stored.
use perseus.Prelude.{
  ◌⊎◌, inl, inr, ◌≡◌, refl, Text, Bool, true, false, List, [], ◌∷◌, All, Bool-cases, Result, ok,
  err, is_empty, check, not,
}
use perseus.Store.Postgres.{Postgres, SemverLaws}
use perseus.Store.Session.{Session, StoreError}
use perseus.Store.Valid.{IsValid}
use perseus.Store.Write.{save_module}
use perseus.Store.Write.Saving.{ModuleSaved, save_module-refines}
use perseus.Store.Ends.{Ends, Environmental}
use perseus.Store.Paging.Codecs.{Codec}
use perseus.Server.Messages.{
  internal, invalid_argument, name_required, Module, ConnectError, code, database_failed,
}
use perseus.Server.Backend.{postgres_client, reply, call, answer, ◌>>◌}
use perseus.Server.Outcomes.{Answers}
use perseus.Server.Modules.{default_version, check_versions, check_module, create_module}

module _ (valid : Text → Text → Bool) where
  -- The name is accepted with every version, or with the version that stands in for none.
  abbrev pub VersionsAccepted : Text → List Text → Type 0
  VersionsAccepted name [] = valid name (default_version name) ≡ true
  VersionsAccepted name (v ∷ versions) = All (λ w. valid name w ≡ true) (v ∷ versions)

  abbrev pub Acceptable : Module → Type 0
  Acceptable m = (is_empty m.name ≡ false) × VersionsAccepted m.name m.versions

  -- What a check of the request comes to.
  abbrev Checked : Type 0 → Result ConnectError (Unit {0}) → Type 0
  Checked P r =
      (P × (r ≡ ok tt))
      ⊎ ((P → ⊥) × ((e : ConnectError) × (r ≡ err e) × (code e ≡ invalid_argument)))

  check_versions-Checked :
      (name : Text) (versions : List Text)
      → Checked (All (λ v. valid name v ≡ true) versions) (check_versions valid name versions)
  unfolding check_versions
  check_versions-Checked name [] = inl (tt, refl)
  check_versions-Checked name (v ∷ versions) = elim (Bool-cases (valid name v)) [
    | inr e ↦ rw e (inr (λ h. absurd (cc h.0), (_, refl, refl)))
    | inl e ↦ rw e (elim (check_versions-Checked name versions) [
      | inl (h, r) ↦ inl ((refl, h), r)
      | inr (h, r) ↦ inr (λ k. h k.1, r)
    ])
  ]

  check_module-Checked :
      (m : Module) → Checked (VersionsAccepted m.name m.versions) (check_module valid m)
  unfolding check_module
  check_module-Checked m = by_versions m.name m.versions
    where
      by_versions :
          (name : Text) (versions : List Text)
          → Checked
              (VersionsAccepted name versions)
              (check_module valid (record { name = name; versions = versions }))
      by_versions name (v ∷ versions) = check_versions-Checked name (v ∷ versions)
      by_versions name [] = elim (Bool-cases (valid name (default_version name))) [
        | inl e ↦ rw e (inl (refl, refl))
        | inr e ↦ rw e (inr (λ h. absurd (cc h), (_, refl, refl)))
      ]

module _ (pg : Postgres) (laws : SemverLaws pg) (codec : Codec) (valid : Text → Text → Bool)
    (m : Module) (s : Session) (ok_before : IsValid pg s) where
  abbrev Saved : Module → Session → Type 0
  Saved n s' =
      (n ≡ m)
      × Acceptable valid m
      × IsValid pg s'
      × ModuleSaved pg m.name m.versions s.tables s'.tables

  abbrev Refused : ConnectError → Session → Type 0
  Refused e s' =
      IsValid pg s'
      × (((code e ≡ internal) × Acceptable valid m × (s'.tables ≡ s.tables))
          ⊎ ((code e ≡ invalid_argument) × (Acceptable valid m → ⊥) × (s' ≡ s)))

  -- In a valid database `CreateModule` either answers with the module of the request, and then the
  -- request has a name that is accepted with each of its versions, or with the default version where
  -- it has none; the module has a row, the nodes of the graph are those from before and the given
  -- versions, nodes keep their ids, and the edges are the same; or it fails with an internal error
  -- on such a request, and the tables are as they were; or it refuses another request as an invalid
  -- argument, and nothing has changed. In each case the database is valid.
  pub create_module-refines :
      Answers
        (λ n s'.
          (n ≡ m)
          × Acceptable valid m
          × IsValid pg s'
          × ModuleSaved pg m.name m.versions s.tables s'.tables)
        (λ e s'.
          IsValid pg s'
          × (((code e ≡ internal) × Acceptable valid m × (s'.tables ≡ s.tables))
              ⊎ ((code e ≡ invalid_argument) × (Acceptable valid m → ⊥) × (s' ≡ s))))
        (create_module (postgres_client pg codec) valid m s)
  unfolding create_module
  create_module-refines = by_name (is_empty m.name) refl
    where
      stored :
          is_empty m.name ≡ false
          → VersionsAccepted valid m.name m.versions
          → Answers Saved Refused
              ((call (save_module pg m.name [] m.versions) database_failed >> answer m) s)
      stored named accepted =
          by_save (save_module pg m.name [] m.versions s)
            (save_module-refines pg laws m.name [] m.versions s ok_before named)
        where
          by_save :
              (r : Result StoreError (Unit {0}) × Session)
              → Ends
                  (λ _ s'. IsValid pg s' × ModuleSaved pg m.name m.versions s.tables s'.tables)
                  (λ e s'. IsValid pg s' × (s'.tables ≡ s.tables) × Environmental e)
                  r
              → Answers Saved Refused ((call (λ _. r) database_failed >> answer m) s)
          by_save (ok a, t) (after, saved) = (refl, (named, accepted), after, saved)
          by_save (err e, t) (after, same, _) = (after, inl (refl, (named, accepted), same))

      by_check :
          is_empty m.name ≡ false
          → (r : Result ConnectError (Unit {0}))
          → Checked valid (VersionsAccepted valid m.name m.versions) r
          → Answers Saved Refused (
              (reply r >> (call (save_module pg m.name [] m.versions) database_failed >> answer m))
                s)
      by_check named (ok a) (inl (accepted, e)) = stored named accepted
      by_check named (ok a) (inr (refused, (e, f, g))) = absurd (cc f)
      by_check named (err e) (inl (accepted, f)) = absurd (cc f)
      by_check named (err e) (inr (refused, (f, g, invalid))) =
          (ok_before, inr (invalid_code g invalid, λ h. refused h.1, refl))
        where
          invalid_code :
              {e f : ConnectError}
              → ◌≡◌ {A = Result ConnectError (Unit {0})} (err e) (err f)
              → code f ≡ invalid_argument
              → code e ≡ invalid_argument
          invalid_code g h = cc

      by_name :
          (b : Bool)
          → is_empty m.name ≡ b
          → Answers Saved Refused (
              (reply (check (not b) name_required)
                  >> (reply (check_module valid m)
                      >> (call (save_module pg m.name [] m.versions) database_failed >> answer m)))
                s)
      by_name true e = (ok_before, inr (refl, λ h. absurd (cc (e, h.0)), refl))
      by_name false e = by_check e (check_module valid m) (check_module-Checked valid m)
