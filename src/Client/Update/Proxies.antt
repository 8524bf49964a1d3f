-- ===== src/Client/Update/Proxies.antt =====
-- update.go: `--module` without `--version`, over the module proxies of internal/modproxy.
use perseus.Prelude.{
  ◌≡◌, refl, ◌⊎◌, Text, Bool, true, false, not, ◌&&◌, ◌||◌, Option, List, [], ◌∷◌, All,
  if◌then◌else◌, Result, ok, err, ◌>>=◌, map_err, is_empty, any, text_eq, Ordering,
}
use perseus.Modproxy.{
  Getter, is_higher, get_module_versions, get_current_version, get_mod_file, get_mod_proxies,
}
use perseus.Modproxy.Latest.{CompareLaws, get_current_version-highest}
use perseus.Client.Args.{xor}
use perseus.Client.Update.{
  ModFile, ModuleInfo, UpdateError, source_failed, version_missing, Sources, zero_info,
  from_mod_file, get_module_info_from_proxy, parse_module_path, read_module_info,
}

-- What the command and the proxy client call: semver and modfile of golang.org/x/mod, the HTTP
-- client, the environment, git and the file system.
pub record Outside : Type 0 where
  pub get : Getter
  pub goproxy : Text
  pub compare : Text → Text → Ordering
  pub prerelease : Text → Text
  pub canonical : Text → Text
  pub parse_lax : Text → Option ModFile
  pub stat : Text → Option Bool
  pub read_file : Text → Option Text
  pub version_tags : Text → Result UpdateError (List Text)

-- modproxy.GetCurrentVersion and modproxy.GetModFile in the command.
unfoldable pub proxy_sources : Outside → Sources
unfolding get_current_version get_mod_file get_mod_proxies
proxy_sources o = record {
  version_tags = o.version_tags;
  stat = o.stat;
  read_file = o.read_file;
  parse_lax = o.parse_lax;
  current_version = λ mod_path include.
      map_err (λ _. source_failed)
        (get_current_version o.compare o.prerelease o.get (get_mod_proxies o.goproxy) mod_path
          include);
  mod_file_at = λ mod_path version.
      map_err (λ _. source_failed)
        (get_mod_file o.parse_lax o.canonical o.get (get_mod_proxies o.goproxy) mod_path version);
  prerelease = o.prerelease;
}

module _ (o : Outside) (include : Bool) where
  -- What the command has to send of a version.
  abbrev pub info_of : Text → Text → Result UpdateError ModuleInfo
  unfolding get_mod_proxies
  info_of mod_path r =
      if not include && not (is_empty (o.prerelease r))
      then ok zero_info
      else if is_empty r
      then err version_missing
      else (map_err (λ _. source_failed)
            (get_mod_file o.parse_lax o.canonical o.get (get_mod_proxies o.goproxy) mod_path r)
          >>= λ mf. from_mod_file mf r)

module _ (o : Outside) (laws : CompareLaws o.compare) (include : Bool) where
  -- Where the proxies list versions of the module that --module names and no version is given, the
  -- command sends the go.mod file of one version, or skips it as a pre-release that is not asked
  -- for. That version is the first of the list, or one of the list that may be chosen: a release,
  -- or any where pre-releases are asked for; and no version of the list that may be chosen is higher.
  pub read_module_info-highest :
      (mod_path v : Text) (versions : List Text)
      → is_empty mod_path ≡ false
      → get_module_versions o.get (get_mod_proxies o.goproxy) mod_path ≡ ok (v ∷ versions)
      → (r : Text) × (read_module_info (proxy_sources o) include [] [] mod_path
          ≡ info_of o include mod_path r)
        × ((r ≡ v)
            ⊎ (((is_empty (o.prerelease r) || include) ≡ true)
                × (any (text_eq r) (v ∷ versions) ≡ true)))
        × All
            (λ w.
              (not (is_empty (o.prerelease w) || include) || not (is_higher o.compare w r)) ≡ true)
            (v ∷ versions)
  unfolding read_module_info get_module_info_from_proxy parse_module_path proxy_sources xor
  read_module_info-highest mod_path v versions named listed =
      let (r, e, chosen, highest) =
        get_current_version-highest o.compare laws o.prerelease include o.get
          (get_mod_proxies o.goproxy) mod_path v versions listed in
      (r, rw (named, e) refl, chosen, highest)
