-- ===== src/Server/Modules/Groups.antt =====
-- `ListModuleVersions` groups the rows of the store by module.
use perseus.Prelude.{
  map-append, ◌≡◌, refl, sym, ◌∙◌, ap, Text, false, List, [], ◌∷◌, ◌++◌, append_assoc, append-nil,
  map, Bool-cases, inl, inr, ok, is_nil, is_empty, text_eq, text_eq_iff,
}
use perseus.Store.Query.{ModuleVersion}
use perseus.Server.Messages.{Module, ListModuleVersionsRequest, database_failed}
use perseus.Server.Backend.{Store, answer, call}
use perseus.Server.Outcomes.{call-ok, bind-ok}
use perseus.Server.Modules.{
  add_version, group_versions, list_module_versions, module_pattern, versions_query, check_option,
}

-- The pairs of name and version that a response spells out.
abbrev pub flatten : List Module → List (Text × Text)
flatten [] = []
flatten (m ∷ modules) = map (λ v. (m.name, v)) m.versions ++ flatten modules

abbrev pub labelled : ModuleVersion → Text × Text
labelled r = (r.name, b'v' ∷ r.version)

-- Every module has versions, and neighbours have different names.
abbrev pub Grouped : List Module → Type 0
Grouped [] = Unit
Grouped (m ∷ []) = is_nil m.versions ≡ false
Grouped (m ∷ n ∷ modules) =
    (is_nil m.versions ≡ false) × (text_eq m.name n.name ≡ false) × Grouped (n ∷ modules)

is_nil-append {ℓ} : {A : Type ℓ} (xs : List A) (x : A) → is_nil (xs ++ x ∷ []) ≡ false
is_nil-append [] x = refl
is_nil-append (y ∷ xs) x = refl

flatten-add_version :
    (modules : List Module) (r : ModuleVersion)
    → flatten (add_version modules r) ≡ flatten modules ++ labelled r ∷ []
unfolding add_version
flatten-add_version [] r = refl
flatten-add_version (m ∷ []) r = elim (Bool-cases (text_eq m.name r.name)) [
  | inr e ↦
      rw e (sym (ap (λ t. t ++ labelled r ∷ []) (append-nil (map (λ v. (m.name, v)) m.versions))))
  | inl e ↦ rw e (
      append-nil (map (λ v. (m.name, v)) (m.versions ++ (b'v' ∷ r.version) ∷ []))
      ∙ map-append (λ v. (m.name, v)) m.versions ((b'v' ∷ r.version) ∷ [])
      ∙ ap (λ name. map (λ v. (m.name, v)) m.versions ++ (name, b'v' ∷ r.version) ∷ [])
          ((text_eq_iff m.name r.name).0 e)
      ∙ sym (ap (λ t. t ++ labelled r ∷ []) (append-nil (map (λ v. (m.name, v)) m.versions))))
]
flatten-add_version (m ∷ n ∷ modules) r =
    ap (λ t. map (λ v. (m.name, v)) m.versions ++ t) (flatten-add_version (n ∷ modules) r)
    ∙ sym
        (append_assoc (map (λ v. (m.name, v)) m.versions) (flatten (n ∷ modules)) (labelled r ∷ []))

Grouped-add_version :
    (modules : List Module) (r : ModuleVersion) → Grouped modules → Grouped (add_version modules r)
unfolding add_version
Grouped-add_version [] r g = refl
Grouped-add_version (m ∷ []) r g = elim (Bool-cases (text_eq m.name r.name)) [
  | inr e ↦ rw e (g, e, refl)
  | inl e ↦ rw e (is_nil-append m.versions (b'v' ∷ r.version))
]
Grouped-add_version (m ∷ n ∷ p ∷ modules) r (g, d, h) =
    (g, d, Grouped-add_version (n ∷ p ∷ modules) r h)
Grouped-add_version (m ∷ n ∷ []) r (g, d, h) = elim (Bool-cases (text_eq n.name r.name)) [
  | inr e ↦ rw e (g, d, (h, e, refl))
  | inl e ↦ rw e (g, d, is_nil-append n.versions (b'v' ∷ r.version))
]

flatten-group_versions :
    (modules : List Module) (rows : List ModuleVersion)
    → flatten (group_versions modules rows) ≡ flatten modules ++ map labelled rows
unfolding group_versions
flatten-group_versions modules [] = sym (append-nil (flatten modules))
flatten-group_versions modules (r ∷ rows) =
    flatten-group_versions (add_version modules r) rows
    ∙ ap (λ t. t ++ map labelled rows) (flatten-add_version modules r)
    ∙ append_assoc (flatten modules) (labelled r ∷ []) (map labelled rows)

Grouped-group_versions :
    (modules : List Module) (rows : List ModuleVersion)
    → Grouped modules
    → Grouped (group_versions modules rows)
unfolding group_versions
Grouped-group_versions modules [] g = g
Grouped-group_versions modules (r ∷ rows) g =
    Grouped-group_versions (add_version modules r) rows (Grouped-add_version modules r g)

pub list_module_versions-ok :
    {S : Type 0} (store : Store S) (req : ListModuleVersionsRequest) (s s' : S)
    (rows : List ModuleVersion) (token : Text)
    → is_empty (module_pattern req) ≡ false
    → check_option req.version_option req.page_token ≡ ok tt
    → store.query_module_versions (versions_query req) s ≡ (ok (rows, token), s')
    → list_module_versions store req s
      ≡ (ok (record { modules = group_versions [] rows; next_page_token = token }), s')
unfolding list_module_versions
list_module_versions-ok store req s s' rows token named option got =
    rw (named, option)
      (bind-ok (call (store.query_module_versions (versions_query req)) database_failed)
        (λ (versions, token).
          answer (record { modules = group_versions [] versions; next_page_token = token }))
        (call-ok (store.query_module_versions (versions_query req)) database_failed got))

-- For a request that names a module or a filter and whose version option is accepted, where the
-- store answers with rows, `ListModuleVersions` answers with exactly these, in order and each with
-- a v before its version, grouped so that no module is empty and neighbours have different names,
-- and with the store's page token.
pub list_module_versions-groups :
    {S : Type 0} (store : Store S) (req : ListModuleVersionsRequest) (s s' : S)
    (rows : List ModuleVersion) (token : Text)
    → is_empty (module_pattern req) ≡ false
    → check_option req.version_option req.page_token ≡ ok tt
    → store.query_module_versions (versions_query req) s ≡ (ok (rows, token), s')
    → (modules : List Module) × (list_module_versions store req s
        ≡ (ok (record { modules = modules; next_page_token = token }), s'))
      × (flatten modules ≡ map labelled rows)
      × Grouped modules
list_module_versions-groups store req s s' rows token named option got = (
  group_versions [] rows,
  list_module_versions-ok store req s s' rows token named option got,
  flatten-group_versions [] rows,
  Grouped-group_versions [] rows tt,
)
