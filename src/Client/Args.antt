-- ===== src/Client/Args.antt =====
-- findpath.go and query.go: module arguments, and the choice of an output format.
use perseus.Prelude.{
  split, ℕ, suc, ◌+◌, ◌≡◌, refl, ap, ◌∙◌, Text, Bool, true, false, not, ◌&&◌, List, [], ◌∷◌, ◌++◌,
  if◌then◌else◌, ltb, ◌==◌, ==_refl, Result, ok, err, is_empty, contains_rune, arith, Bool-cases,
  inl, inr,
}
use perseus.Client.Retry.{RpcError, bad_argument}

-- golang.org/x/mod/module.Version
pub record ModuleVersion : Type 0 where
  pub path : Text
  pub version : Text

-- String of it
unfoldable pub show_version : ModuleVersion → Text
show_version m = if is_empty m.version then m.path else m.path ++ b'@' ∷ m.version

-- The parts of an argument; with `find_latest` an empty version is looked up.
abbrev pub module_of : List Text → Result RpcError ModuleVersion
module_of (p ∷ []) = ok (record { path = p; version = [] })
module_of (p ∷ v ∷ []) = ok (record { path = p; version = v })
module_of _ = err bad_argument

unfoldable pub parse_module_arg :
    (Text → Bool) → (Text → Result RpcError Text) → Bool → Text → Result RpcError ModuleVersion
unfolding split
parse_module_arg check_path lookup_latest find_latest arg = elim (module_of (split b'@' arg)) [
  | err e ↦ err e
  | ok m ↦
      if not (check_path m.path)
      then err bad_argument
      else if is_empty m.version && find_latest
      then elim (lookup_latest m.path) [ err e ↦ err e | ok v ↦ ok (record m { version = v }) ]
      else ok m
]

pub split-none : (sep : ℕ) (s : Text) → contains_rune sep s ≡ false → split sep s ≡ (s ∷ [])
unfolding split
split-none sep [] h = refl
split-none sep (c ∷ s) h = ground (arith, split-none sep s)

pub split-one :
    (sep : ℕ) (s t : Text)
    → contains_rune sep s ≡ false
    → contains_rune sep t ≡ false
    → split sep (s ++ sep ∷ t) ≡ (s ∷ t ∷ [])
unfolding split
split-one sep [] t h k = rw (==_refl sep, split-none sep t k) refl
split-one sep (c ∷ s) t h k = ground (arith, split-one sep s t)

-- How many of the values hold: the loop stops at the second.
abbrev pub xor_loop : ℕ → List Bool → Bool
xor_loop n [] = n == 1
xor_loop n (v ∷ vs) =
    let m = if v then suc n else n in let rest = xor_loop m vs in if ltb 1 m then false else rest

unfoldable pub xor : List Bool → Bool
xor [] = false
xor (v ∷ vs) = xor_loop 0 (v ∷ vs)

-- The number of values that hold.
abbrev pub count : List Bool → ℕ
count [] = 0
count (v ∷ vs) = if v then suc (count vs) else count vs

xor_loop-count : (n : ℕ) (vs : List Bool) → ltb 1 n ≡ false → xor_loop n vs ≡ (n + count vs == 1)
xor_loop-count n [] h = ground arith
xor_loop-count n (true ∷ vs) h = elim (Bool-cases (ltb 1 (suc n))) [
  | inl e ↦ rw e (ground arith)
  | inr e ↦ rw (e, xor_loop-count (suc n) vs e) (ground arith)
]
xor_loop-count n (false ∷ vs) h = rw (h, xor_loop-count n vs h) (ground arith)

-- `xor` holds exactly if one of its values does and no other.
pub xor-count : (vs : List Bool) → xor vs ≡ (count vs == 1)
unfolding xor
xor-count [] = refl
xor-count (v ∷ vs) =
    let e : 0 + count (v ∷ vs) ≡ count (v ∷ vs) = omega arith in
    xor_loop-count 0 (v ∷ vs) refl ∙ ap (λ n. n == 1) e

-- A module version whose path is accepted and whose path and version hold no at sign is read back
-- from what it is printed as, unless its version is empty and the latest is wanted.
pub parse_module_arg-show_version :
    (check_path : Text → Bool) (lookup_latest : Text → Result RpcError Text) (find_latest : Bool)
    (path version : Text)
    → contains_rune b'@' path ≡ false
    → contains_rune b'@' version ≡ false
    → check_path path ≡ true
    → (is_empty version && find_latest) ≡ false
    → parse_module_arg check_path lookup_latest find_latest
        (show_version (record { path = path; version = version }))
      ≡ ok (record { path = path; version = version })
unfolding parse_module_arg show_version
parse_module_arg-show_version check_path lookup_latest find_latest path [] p v h k =
    rw (split-none b'@' path p, h, k)
parse_module_arg-show_version check_path lookup_latest find_latest path (c ∷ s) p v h k =
    rw (parse_module_arg, show_version, split-one b'@' path (c ∷ s) p v, h)
