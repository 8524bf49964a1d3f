-- ===== src/Modproxy.antt =====
-- internal/modproxy/proxy.go: a client of Go module proxies. The HTTP client is the parameter
-- `get`; semver and modfile of golang.org/x/mod are parameters, too.
pub mod Latest
pub mod Fallback
pub mod Samples
use perseus.Prelude.{
  ℕ, Text, codes, Bool, true, false, not, ◌&&◌, ◌||◌, Option, none, some, List, [], ◌∷◌, ◌++◌, map,
  ◌==◌, if◌then◌else◌, Result, ok, err, is_empty, text_eq, split, join, trim_space, Ordering,
}

-- A response: its status, what could be read of the body, and whether that was all of it.
pub record Response : Type 0 where
  pub status : ℕ
  pub body : Text
  pub complete : Bool

pub data ProxyError : Type 0 where
  fetch_failed unexpected_status no_versions not_found read_failed parse_failed : ProxyError

-- The interface `Getter`: no response is an error.
abbrev pub Getter : Type 0
Getter = Text → Option Response

-- path.Clean: the elements so far, in reverse order, after one more.
abbrev pub pop : Bool → List Text → List Text
pop rooted [] = if rooted then [] else codes ".." ∷ []
pop rooted (top ∷ below) = if text_eq top (codes "..") then codes ".." ∷ top ∷ below else below

abbrev pub next_stack : Bool → List Text → Text → List Text
next_stack rooted stack e =
    if is_empty e || text_eq e (codes ".")
    then stack
    else (if text_eq e (codes "..") then pop rooted stack else e ∷ stack)

unfoldable pub clean_elements : Bool → List Text → List Text → List Text
clean_elements rooted stack [] = stack
clean_elements rooted stack (e ∷ elements) =
    clean_elements rooted (next_stack rooted stack e) elements

abbrev pub reversed : List Text → List Text → List Text
reversed done [] = done
reversed done (t ∷ ts) = reversed (t ∷ done) ts

abbrev pub is_rooted : Text → Bool
is_rooted [] = false
is_rooted (c ∷ s) = c == b'/'

unfoldable pub clean : Text → Text
unfolding clean_elements split
clean [] = codes "."
clean (c ∷ s) =
    let path =
      join (codes "/") (reversed [] (clean_elements (c == b'/') [] (split b'/' (c ∷ s)))) in
    if c == b'/' then b'/' ∷ path else (if is_empty path then codes "." else path)

abbrev pub nonempty : List Text → List Text
nonempty [] = []
nonempty (t ∷ ts) = if is_empty t then nonempty ts else t ∷ nonempty ts

-- path.Join
unfoldable pub path_join : List Text → Text
unfolding clean
path_join elements =
    let path = join (codes "/") (nonempty elements) in if is_empty path then [] else clean path

-- What a response makes of the loop over the proxies: a result, an error, or the next proxy.
unfoldable pub read_versions :
    Response → Result ProxyError (List Text) → Result ProxyError (List Text)
unfolding trim_space split
read_versions r next =
    if r.status == 200
    then (if is_empty r.body then next else ok (map trim_space (split 10 r.body)))
    else (if r.status == 404 || r.status == 410 then next else err unexpected_status)

abbrev pub list_url : Text → Text → Text
list_url mod_path proxy = proxy ++ b'/' ∷ path_join (mod_path ∷ codes "@v/list" ∷ [])

unfoldable pub get_module_versions : Getter → List Text → Text → Result ProxyError (List Text)
unfolding read_versions path_join
get_module_versions get [] mod_path = err no_versions
get_module_versions get (proxy ∷ proxies) mod_path =
    let next = get_module_versions get proxies mod_path in
    elim (get (list_url mod_path proxy)) [ none ↦ err fetch_failed | some r ↦ read_versions r next ]

-- semver.Compare(v, w) > 0
abbrev pub is_higher : (Text → Text → Ordering) → Text → Text → Bool
is_higher compare v w = elim (compare v w) [ Ordering.gt ↦ true | _ ↦ false ]

-- The loop of `GetCurrentVersion`.
unfoldable pub highest : (Text → Text → Ordering) → (Text → Text) → Bool → Text → List Text → Text
highest compare prerelease include latest [] = latest
highest compare prerelease include latest (v ∷ versions) =
    highest compare prerelease include
      (if is_higher compare v latest && (is_empty (prerelease v) || include) then v else latest)
      versions

-- versions[0] is there: a text always splits into some parts.
unfoldable pub get_current_version :
    (Text → Text → Ordering)
    → (Text → Text)
    → Getter
    → List Text
    → Text
    → Bool
    → Result ProxyError Text
unfolding get_module_versions highest
get_current_version compare prerelease get proxies mod_path include =
    elim (get_module_versions get proxies mod_path) [
      | err e ↦ err e
      | ok [] ↦ err no_versions
      | ok (v ∷ versions) ↦ ok (highest compare prerelease include v (v ∷ versions))
    ]

abbrev pub mod_url : (Text → Text) → Text → Text → Text → Text
mod_url canonical mod_path version proxy =
    proxy ++ b'/' ∷ path_join (mod_path ∷ codes "@v" ∷ (canonical version ++ codes ".mod") ∷ [])

abbrev pub parsed {ℓ} : {F : Type ℓ} → Option F → Result ProxyError F
parsed none = err parse_failed
parsed (some f) = ok f

unfoldable pub read_mod_file {ℓ} :
    {F : Type ℓ} → (Text → Option F) → Response → Result ProxyError F → Result ProxyError F
read_mod_file parse r next =
    if r.status == 200
    then (if r.complete then parsed (parse r.body) else err read_failed)
    else (if r.status == 404 || r.status == 410 then next else err unexpected_status)

unfoldable pub get_mod_file {ℓ} :
    {F : Type ℓ}
    → (Text → Option F)
    → (Text → Text)
    → Getter
    → List Text
    → Text
    → Text
    → Result ProxyError F
unfolding read_mod_file path_join
get_mod_file parse canonical get [] mod_path version = err not_found
get_mod_file parse canonical get (proxy ∷ proxies) mod_path version =
    let next = get_mod_file parse canonical get proxies mod_path version in
    elim (get (mod_url canonical mod_path version proxy)) [
      | none ↦ err fetch_failed
      | some r ↦ read_mod_file parse r next
    ]

abbrev pub trim_slash : Text → Text
trim_slash [] = []
trim_slash (c ∷ []) = if c == b'/' then [] else c ∷ []
trim_slash (c ∷ d ∷ s) = c ∷ trim_slash (d ∷ s)

abbrev pub proxies_of : List Text → List Text
proxies_of [] = []
proxies_of (s ∷ parts) =
    let rest = proxies_of parts in if text_eq s (codes "direct") then rest else trim_slash s ∷ rest

-- `goproxy` is the value of the environment variable GOPROXY, which is empty where it is not set.
unfoldable pub get_mod_proxies : Text → List Text
unfolding split
get_mod_proxies goproxy =
    if is_empty goproxy
    then codes "https://proxy.golang.org" ∷ []
    else proxies_of (split b',' (map (λ c. if c == b'|' then b',' else c) goproxy))
