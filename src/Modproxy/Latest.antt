-- ===== src/Modproxy/Latest.antt =====
-- `GetCurrentVersion` picks the highest version.
use perseus.Prelude.{
  not, ◌≡◌, refl, sym, ◌∙◌, ap, subst, &&-true, ◌⊎◌, inl, inr, Text, Bool, true, false, ◌&&◌, ◌||◌,
  List, [], ◌∷◌, All, Bool-cases, ok, is_empty, Ordering, arith, any, text_eq, text_eq_refl,
}
use perseus.Modproxy.{is_higher, highest, Getter, get_module_versions, get_current_version}

-- What golang.org/x/mod/semver documents of `Compare`, of its result 1: it is a strict order.
pub record CompareLaws (compare : Text → Text → Ordering) : Type 0 where
  pub irreflexive : (v : Text) → is_higher compare v v ≡ false
  pub transitive :
      (u v w : Text)
      → is_higher compare u v ≡ true
      → is_higher compare v w ≡ true
      → is_higher compare u w ≡ true

module _ (compare : Text → Text → Ordering) (laws : CompareLaws compare) (prerelease : Text → Text)
    (include : Bool) where
  -- A version that may be chosen.
  abbrev eligible : Text → Bool
  eligible v = is_empty (prerelease v) || include

  -- It is no higher than the one that was chosen.
  abbrev Bounded : Text → Text → Type 0
  Bounded latest v = eligible v ≡ true → is_higher compare v latest ≡ false

  Bounded-higher :
      (latest v w : Text) → is_higher compare v latest ≡ true → Bounded latest w → Bounded v w
  Bounded-higher latest v w h b e = elim (Bool-cases (is_higher compare w v)) [
    | inr k ↦ k
    | inl k ↦ absurd (cc (b e, laws.transitive w v latest k h))
  ]

  abbrev result : Text → List Text → Text
  result = highest compare prerelease include

  higher-step :
      (latest v : Text) (versions : List Text)
      → (is_higher compare v latest && eligible v) ≡ true
      → result latest (v ∷ versions) ≡ result v versions
  unfolding highest
  higher-step latest v versions e = rw (highest, e)

  other-step :
      (latest v : Text) (versions : List Text)
      → (is_higher compare v latest && eligible v) ≡ false
      → result latest (v ∷ versions) ≡ result latest versions
  unfolding highest
  other-step latest v versions e = rw (highest, e)

  -- What was not above the latest is not above the result, and neither is a version of the list.
  abbrev Bounds : Text → List Text → Text → Type 0
  Bounds latest versions r =
      ((w : Text) → Bounded latest w → Bounded r w) × All (Bounded r) versions

  highest-Bounds :
      (latest : Text) (versions : List Text) → Bounds latest versions (result latest versions)
  unfolding highest
  highest-Bounds latest [] = (λ w b. b, tt)
  highest-Bounds latest (v ∷ versions) =
      elim (Bool-cases (is_higher compare v latest && eligible v)) [
        | inl e ↦
            let (keeps, all) = highest-Bounds v versions in
            subst (Bounds latest (v ∷ versions)) (sym (higher-step latest v versions e)) (
              λ w b. keeps w (Bounded-higher latest v w (&&-true _ _ e).0 b),
              (keeps v (λ _. laws.irreflexive v), all),
            )
        | inr e ↦
            let (keeps, all) = highest-Bounds latest versions in
            subst (Bounds latest (v ∷ versions)) (sym (other-step latest v versions e)) (
              keeps,
              (keeps v (λ h. not_higher (is_higher compare v latest) (eligible v) h e), all),
            )
      ]
    where
      not_higher : (a b : Bool) → b ≡ true → (a && b) ≡ false → a ≡ false
      not_higher a b h k = ground arith

  -- The latest before, or an eligible version of the list.
  abbrev Chosen : Text → List Text → Text → Type 0
  Chosen latest versions r =
      (r ≡ latest) ⊎ ((eligible r ≡ true) × (any (text_eq r) versions ≡ true))

  highest-Chosen :
      (latest : Text) (versions : List Text) → Chosen latest versions (result latest versions)
  unfolding highest
  highest-Chosen latest [] = inl refl
  highest-Chosen latest (v ∷ versions) =
      elim (Bool-cases (is_higher compare v latest && eligible v)) [
        | inl e ↦
            subst (Chosen latest (v ∷ versions)) (sym (higher-step latest v versions e))
              (elim (highest-Chosen v versions) [
                | inl p ↦ inr (
                  ap eligible p ∙ (&&-true _ _ e).1,
                  first_of _ _ (ap (λ r. text_eq r v) p ∙ text_eq_refl v),
                )
                | inr (p, q) ↦ inr (p, second_of _ _ q)
              ])
        | inr e ↦
            subst (Chosen latest (v ∷ versions)) (sym (other-step latest v versions e))
              (elim (highest-Chosen latest versions) [
                | inl p ↦ inl p
                | inr (p, q) ↦ inr (p, second_of _ _ q)
              ])
      ]
    where
      first_of : (a b : Bool) → a ≡ true → (a || b) ≡ true
      first_of a b h = ground arith

      second_of : (a b : Bool) → b ≡ true → (a || b) ≡ true
      second_of a b h = ground arith

  no_higher :
      (r : Text) (versions : List Text)
      → All (Bounded r) versions
      → All
          (λ w. (not (is_empty (prerelease w) || include) || not (is_higher compare w r)) ≡ true)
          versions
  no_higher r [] h = tt
  no_higher r (w ∷ versions) (b, h) =
      (test (eligible w) (is_higher compare w r) b, no_higher r versions h)
    where
      test : (e k : Bool) → (e ≡ true → k ≡ false) → (not e || not k) ≡ true
      test false k b = refl
      test true k b = rw (b refl) refl

  -- Where `GetModuleVersions` finds versions, `GetCurrentVersion` finds one of them that is the
  -- first or may be chosen, a release or with pre-releases included any, and no version that may be
  -- chosen is higher.
  pub get_current_version-highest :
      (get : Getter) (proxies : List Text) (mod_path v : Text) (versions : List Text)
      → get_module_versions get proxies mod_path ≡ ok (v ∷ versions)
      → (r : Text) × (get_current_version compare prerelease get proxies mod_path include ≡ ok r)
        × ((r ≡ v)
            ⊎ (((is_empty (prerelease r) || include) ≡ true)
                × (any (text_eq r) (v ∷ versions) ≡ true)))
        × All
            (λ w. (not (is_empty (prerelease w) || include) || not (is_higher compare w r)) ≡ true)
            (v ∷ versions)
  unfolding get_current_version
  get_current_version-highest get proxies mod_path v versions e = (
    result v (v ∷ versions),
    rw (get_current_version, e),
    highest-Chosen v (v ∷ versions),
    no_higher (result v (v ∷ versions)) (v ∷ versions) (highest-Bounds v (v ∷ versions)).1,
  )
