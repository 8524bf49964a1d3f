-- ===== src/Client/Lists.antt =====
-- query.go: the lists of modules and of module versions, and the latest version of a module.
use perseus.Prelude.{
  ℕ, zero, suc, ◌≡◌, refl, ◌∙◌, Text, codes, Bool, false, List, [], ◌∷◌, ◌++◌, map, if◌then◌else◌,
  Result, ok, err, is_empty,
}
use perseus.Prelude.Int.{pos}
use perseus.Server.Messages.{
  Module, option_latest, option_all, ListModulesRequest, ListModuleVersionsRequest, ModulesResponse,
}
use perseus.Client.Retry.{
  RpcError, no_version, out_of_pages, Op, ◌>>=◌, done, bind-ok, retry_op, retry_op-ok,
}
use perseus.Client.Flatten.{DependencyItem}

-- The two list calls of the server.
pub record ListService (S : Type 0) : Type 0 where
  pub list_modules : ListModulesRequest → Op S ModulesResponse
  pub list_module_versions : ListModuleVersionsRequest → Op S ModulesResponse

abbrev pub listed_item : Text → Text → DependencyItem
listed_item path version = record { path = path; version = version; is_direct = false; degree = 0 }

-- A dash stands for a version that is not there.
abbrev pub module_item : Module → DependencyItem
module_item m = elim m.versions [
  | [] ↦ listed_item m.name (codes "-")
  | v ∷ _ ↦ listed_item m.name v
]

abbrev pub version_items : List Module → List DependencyItem
version_items [] = []
version_items (m ∷ modules) = map (listed_item m.name) m.versions ++ version_items modules

-- resp.Msg.Modules[0].Versions[0], where both are there
abbrev pub first_of : List Module → Result RpcError Text
first_of [] = err no_version
first_of (m ∷ modules) = elim m.versions [ [] ↦ err no_version | v ∷ _ ↦ ok v ]

module _ {S : Type 0} where
  -- The loop that both lists share: `fetch` asks for the page at a token, and the loop ends at the
  -- first page with a next one.
  unfoldable pub list_pages :
      (List Module → List DependencyItem)
      → (Text → Op S ModulesResponse)
      → ℕ
      → Text
      → Op S (List DependencyItem)
  unfolding retry_op
  list_pages items fetch zero token s = (err out_of_pages, s)
  list_pages items fetch (suc pages) token s =
      (retry_op (fetch token) >>= λ response.
      let next = list_pages items fetch pages response.next_page_token >>= λ more.
      done (items response.modules ++ more) in
      if is_empty response.next_page_token then next else done (items response.modules))
        s

  module _ (service : ListService S) where
    abbrev pub modules_at : Text → Text → Op S ModulesResponse
    modules_at filter token =
        service.list_modules (record { filter = filter; page_token = token; page_size = pos 0 })

    unfoldable pub list_modules : ℕ → Text → Op S (List DependencyItem)
    unfolding list_pages
    list_modules pages filter = list_pages (map module_item) (modules_at filter) pages []

    abbrev pub versions_at : Text → Text → Bool → Bool → Text → Op S ModulesResponse
    versions_at pattern version_pattern latest_only prerelease token =
        service.list_module_versions (record {
          module_name = [];
          module_filter = pattern;
          version_filter = version_pattern;
          include_prerelease = prerelease;
          version_option = if latest_only then option_latest else option_all;
          page_token = token;
          page_size = pos 0;
        })

    unfoldable pub list_module_versions : ℕ → Text → Text → Bool → Bool → Op S (List DependencyItem)
    unfolding list_pages
    list_module_versions pages pattern version_pattern latest_only prerelease =
        list_pages version_items (versions_at pattern version_pattern latest_only prerelease) pages
          []

    unfoldable pub lookup_latest_module_version : Text → Op S Text
    unfolding retry_op
    lookup_latest_module_version module_path =
        retry_op (
          service.list_module_versions (record {
            module_name = module_path;
            module_filter = [];
            version_filter = [];
            include_prerelease = false;
            version_option = option_latest;
            page_token = [];
            page_size = pos 0;
          }))
        >>= λ response s. (first_of response.modules, s)

  pub list_pages-first :
      (items : List Module → List DependencyItem) (fetch : Text → Op S ModulesResponse) (pages : ℕ)
      (s s' : S) (response : ModulesResponse)
      → fetch [] s ≡ (ok response, s')
      → is_empty response.next_page_token ≡ false
      → list_pages items fetch (suc pages) [] s ≡ (ok (items response.modules), s')
  unfolding list_pages
  list_pages-first items fetch pages s s' response h more =
      bind-ok (retry_op (fetch []))
        (λ response.
          let next = list_pages items fetch pages response.next_page_token >>= λ more.
          done (items response.modules ++ more) in
          if is_empty response.next_page_token then next else done (items response.modules))
        (retry_op-ok (fetch []) h)
      ∙ rw more refl

  -- Where the server answers at the first attempt and the first page has a next one, both lists end after one request, and hold the modules of
  -- the first page, or its versions, and nothing of the pages behind it.
  pub list_modules-first_page :
      (service : ListService S) (pages : ℕ) (filter version_pattern : Text)
      (latest_only prerelease : Bool) (s s' t : S) (response versions : ModulesResponse)
      → modules_at service filter [] s ≡ (ok response, s')
      → is_empty response.next_page_token ≡ false
      → versions_at service filter version_pattern latest_only prerelease [] s ≡ (ok versions, t)
      → is_empty versions.next_page_token ≡ false
      → (list_modules service (suc pages) filter s ≡ (ok (map module_item response.modules), s'))
        × (list_module_versions service (suc pages) filter version_pattern latest_only prerelease s
            ≡ (ok (version_items versions.modules), t))
  unfolding list_modules list_module_versions
  list_modules-first_page service pages filter version_pattern latest_only prerelease s s' t
        response versions h more k more' =
      (
        list_pages-first (map module_item) (modules_at service filter) pages s s' response h more,
        list_pages-first version_items
            (versions_at service filter version_pattern latest_only prerelease) pages s t versions k
            more',
      )
