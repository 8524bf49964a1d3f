-- ===== src/Modproxy/Fallback.antt =====
-- The proxies are asked in turn: one that has nothing gives way to the next.
use perseus.Prelude.{
  ◌≡◌, refl, Text, Bool, true, ◌&&◌, ◌||◌, Option, some, List, [], ◌∷◌, ◌++◌, All, Result, is_empty,
  ◌==◌, arith,
}
use perseus.Modproxy.{
  Response, Getter, ProxyError, read_versions, list_url, get_module_versions, read_mod_file,
  mod_url, get_mod_file,
}

-- Not found, or gone.
abbrev pub is_missing : Response → Bool
is_missing r = r.status == 404 || r.status == 410

-- A proxy that has no module of that name, or an empty list of versions.
abbrev pub SkippedList : Getter → Text → Text → Type 0
SkippedList get mod_path proxy =
    (r : Response) × (get (list_url mod_path proxy) ≡ some r)
    × ((is_missing r || (r.status == 200 && is_empty r.body)) ≡ true)

abbrev pub SkippedFile : Getter → (Text → Text) → Text → Text → Text → Type 0
SkippedFile get canonical mod_path version proxy =
    (r : Response) × (get (mod_url canonical mod_path version proxy) ≡ some r)
    × (is_missing r ≡ true)

read_versions-skipped :
    (r : Response) (next : Result ProxyError (List Text))
    → (is_missing r || (r.status == 200 && is_empty r.body)) ≡ true
    → read_versions r next ≡ next
unfolding read_versions
read_versions-skipped r next h = ground arith

-- Proxies that answer that the module is missing, or with an empty list, make no difference to
-- `GetModuleVersions`: the result is that of the proxies behind them.
pub get_module_versions-append :
    (get : Getter) (mod_path : Text) (skipped proxies : List Text)
    → All (SkippedList get mod_path) skipped
    → get_module_versions get (skipped ++ proxies) mod_path
      ≡ get_module_versions get proxies mod_path
unfolding get_module_versions
get_module_versions-append get mod_path [] proxies h = refl
get_module_versions-append get mod_path (p ∷ skipped) proxies ((r, e, k), h) =
    rw
      (
        get_module_versions,
        e,
        read_versions-skipped r (get_module_versions get (skipped ++ proxies) mod_path) k,
      )
      (get_module_versions-append get mod_path skipped proxies h)

module _ {ℓ} {F : Type ℓ} (parse : Text → Option F) (canonical : Text → Text) (get : Getter)
    (mod_path version : Text) where
  read_mod_file-skipped :
      (r : Response) (next : Result ProxyError F)
      → is_missing r ≡ true
      → read_mod_file parse r next ≡ next
  unfolding read_mod_file
  read_mod_file-skipped r next h = ground arith

  -- Proxies that answer that the file is missing make no difference to `GetModFile`: the result is
  -- that of the proxies behind them.
  pub get_mod_file-append :
      (skipped proxies : List Text)
      → All (SkippedFile get canonical mod_path version) skipped
      → get_mod_file parse canonical get (skipped ++ proxies) mod_path version
        ≡ get_mod_file parse canonical get proxies mod_path version
  unfolding get_mod_file
  get_mod_file-append [] proxies h = refl
  get_mod_file-append (p ∷ skipped) proxies ((r, e, k), h) =
      rw
        (
          get_mod_file,
          e,
          read_mod_file-skipped r
              (get_mod_file parse canonical get (skipped ++ proxies) mod_path version) k,
        )
        (get_mod_file-append skipped proxies h)
