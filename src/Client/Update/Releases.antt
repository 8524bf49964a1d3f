-- ===== src/Client/Update/Releases.antt =====
-- What the update command sends: releases, unless pre-releases are asked for.
use perseus.Prelude.{
  refl, ◌||◌, ◌≡◌, Text, Bool, true, false, not, ◌&&◌, [], ◌∷◌, Bool-cases, inl, inr, if◌then◌else◌,
  Option, some, none, List, Result, ok, err, ◌>>=◌, is_empty, arith,
}
use perseus.Client.Args.{xor}
use perseus.Client.Update.{
  Requirement, ModFile, ModuleInfo, UpdateError, source_missing, two_sources, version_missing,
  Sources, zero_info, from_mod_file, parse_module_dir, is_skipped, version_in, info_in, version_at,
  parse_module_path, info_at, get_module_info_from_dir, get_module_info_from_proxy,
  read_module_info,
}
use perseus.Modproxy.{clean}

module _ (sources : Sources) where
  -- A result that names a module names a release of it.
  abbrev pub Release : Result UpdateError ModuleInfo → Type 0
  Release (err e) = Unit
  Release (ok info) = (is_empty info.name || is_empty (sources.prerelease info.version)) ≡ true

  Release-bind :
      (r : Result UpdateError Text) (f : Text → Result UpdateError ModuleInfo)
      → ((v : Text) → Release (f v))
      → Release (r >>= f)
  Release-bind (err e) f h = tt
  Release-bind (ok v) f h = h v

  Release-module :
      (name : Option Text) (requires : List Requirement) (v : Text)
      → is_skipped sources false v ≡ false
      → Release (from_mod_file (record { mod_path = name; requires = requires }) v)
  Release-module none requires v h = tt
  Release-module (some name) requires v h = ground arith

  Release-file :
      (r : Result UpdateError ModFile) (v : Text)
      → is_skipped sources false v ≡ false
      → Release (r >>= λ mf. from_mod_file mf v)
  Release-file (err e) v h = tt
  Release-file (ok mf) v h = Release-module mf.mod_path mf.requires v h

  Release-dir :
      (r : Result UpdateError ModuleInfo) (v : Text)
      → is_skipped sources false v ≡ false
      → Release (r >>= λ info. ok (record info { version = v }))
  Release-dir (err e) v h = tt
  Release-dir (ok info) v h = ground arith

  Release-skip :
      (v : Text) (r : Result UpdateError ModuleInfo)
      → (is_skipped sources false v ≡ false → Release r)
      → Release (if is_skipped sources false v then ok zero_info else r)
  Release-skip v r h = elim (Bool-cases (is_skipped sources false v)) [
    | inl e ↦ rw e refl
    | inr e ↦ rw e (h e)
  ]

  Release-if :
      (b : Bool) (e : UpdateError) (r : Result UpdateError ModuleInfo)
      → Release r
      → Release (if b then err e else r)
  Release-if true e r h = tt
  Release-if false e r h = h

  Release-choice :
      (b : Bool) (q r : Result UpdateError ModuleInfo)
      → Release q
      → Release r
      → Release (if b then q else r)
  Release-choice true q r h k = h
  Release-choice false q r h k = k

  -- Without --prerelease, whatever git, the file system and the proxy give and whichever
  -- flags are set, module information with a name is that of a version that is no pre-release.
  pub read_module_info-Release :
      (version file_path mod_path : Text)
      → Release (read_module_info sources false version file_path mod_path)
  unfolding read_module_info get_module_info_from_dir get_module_info_from_proxy parse_module_path
  read_module_info-Release version file_path mod_path =
      Release-if (is_empty file_path && is_empty mod_path) source_missing _ (
        Release-if (not (xor (not (is_empty file_path) ∷ not (is_empty mod_path) ∷ []))) two_sources
          _
          (Release-choice (is_empty file_path) _ _
            (Release-bind (version_at sources false version mod_path)
              (info_at sources false mod_path)
              (λ v. Release-skip v _ (λ e.
                Release-if (is_empty v) version_missing _
                  (Release-file (sources.mod_file_at mod_path v) v e))))
            (Release-bind (version_in sources false version (clean file_path))
              (info_in sources false (clean file_path))
              (λ v.
                Release-skip v _
                  (λ e. Release-dir (parse_module_dir sources (clean file_path)) v e)))))
