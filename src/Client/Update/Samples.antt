-- ===== src/Client/Update/Samples.antt =====
-- `update --module a/b` over a proxy with three versions.
use perseus.Prelude.{
  ◌≡◌, refl, ◌⊎◌, Text, codes, true, false, not, ◌||◌, none, some, [], ◌∷◌, All, ok, is_empty, any,
  text_eq,
}
use perseus.Modproxy.{is_higher, get_module_versions, get_mod_proxies}
use perseus.Modproxy.Samples.{two_proxies, by_length, by_length-laws, after_dash}
use perseus.Client.Update.{read_module_info}
use perseus.Client.Update.Proxies.{Outside, proxy_sources, info_of, read_module_info-highest}

abbrev outside : Outside
outside = record {
  get = two_proxies;
  goproxy = codes "q";
  compare = by_length;
  prerelease = after_dash;
  canonical = λ v. v;
  parse_lax = λ t. some (record { mod_path = some (codes "a/b"); requires = [] });
  stat = λ p. none;
  read_file = λ p. none;
  version_tags = λ p. ok [];
}

read_module_info-highest_example :
    (r : Text) × (read_module_info (proxy_sources outside) false [] [] (codes "a/b")
      ≡ info_of outside false (codes "a/b") r)
    × ((r ≡ codes "v1")
        ⊎ (((is_empty (after_dash r) || false) ≡ true)
            × (any (text_eq r) (codes "v1" ∷ codes "v2" ∷ codes "v3-x" ∷ []) ≡ true)))
    × All
        (λ w. (not (is_empty (after_dash w) || false) || not (is_higher by_length w r)) ≡ true)
        (codes "v1" ∷ codes "v2" ∷ codes "v3-x" ∷ [])
unfolding get_module_versions get_mod_proxies text_eq two_proxies
read_module_info-highest_example =
    read_module_info-highest outside by_length-laws false (codes "a/b") (codes "v1")
      (codes "v2" ∷ codes "v3-x" ∷ []) refl refl
