-- ===== src/Store/Query/Latest.antt =====
-- MAX and GROUP BY in `QueryModuleVersions`: one row for each module name, with its highest version.
use perseus.Prelude.{
  ◌⊎◌, ◌≡◌, refl, sym, ◌∙◌, subst, Text, true, false, List, [], ◌∷◌, All, Any, Bool-cases, inl, inr,
  text_eq, text_eq_iff, text_eq_sym,
}
use perseus.Store.Postgres.{Postgres, is_lt}
use perseus.Store.Query.{ModuleVersion, max_version, add_latest, group_latest}

-- What is documented of the comparison of semantic versions: it is a strict weak order.
pub record SemverOrder (pg : Postgres) : Type 0 where
  pub asym : (v w : Text) → is_lt (pg.semver_cmp v w) ≡ true → is_lt (pg.semver_cmp w v) ≡ false
  pub negtrans :
      (v w x : Text)
      → is_lt (pg.semver_cmp v w) ≡ false
      → is_lt (pg.semver_cmp w x) ≡ false
      → is_lt (pg.semver_cmp v x) ≡ false

-- A row of the list with this name and version
abbrev pub HasRow : List ModuleVersion → ModuleVersion → Type 0
HasRow rows g = Any (λ r. (r.name ≡ g.name) × (r.version ≡ g.version)) rows

-- No row of the same name has a higher version.
abbrev pub NoneHigher : Postgres → List ModuleVersion → ModuleVersion → Type 0
NoneHigher pg rows g =
    All (λ r. r.name ≡ g.name → is_lt (pg.semver_cmp g.version r.version) ≡ false) rows

abbrev pub IsLatest : Postgres → List ModuleVersion → ModuleVersion → Type 0
IsLatest pg rows g = HasRow rows g × NoneHigher pg rows g

abbrev pub Named : Text → List ModuleVersion → Type 0
Named name groups = Any (λ g. g.name ≡ name) groups

-- No two rows have the same name.
abbrev pub NamesOnce : List ModuleVersion → Type 0
NamesOnce [] = Unit
NamesOnce (g ∷ groups) = All (λ h. text_eq h.name g.name ≡ false) groups × NamesOnce groups

module _ (pg : Postgres) (order : SemverOrder pg) where
  irreflexive : (v : Text) → is_lt (pg.semver_cmp v v) ≡ false
  irreflexive v = elim (Bool-cases (is_lt (pg.semver_cmp v v))) [
    | inl e ↦ order.asym v v e
    | inr e ↦ e
  ]

  -- The maximum is no lower than either, and is one of them.
  max_version_bounds :
      (v w : Text)
      → (is_lt (pg.semver_cmp (max_version pg v w) v) ≡ false)
        × (is_lt (pg.semver_cmp (max_version pg v w) w) ≡ false)
  max_version_bounds v w = elim (Bool-cases (is_lt (pg.semver_cmp v w))) [
    | inl e ↦ rw e (order.asym v w e, irreflexive w)
    | inr e ↦ rw e (irreflexive v, e)
  ]

  max_version-cases : (v w : Text) → (max_version pg v w ≡ v) ⊎ (max_version pg v w ≡ w)
  max_version-cases v w = elim (Bool-cases (is_lt (pg.semver_cmp v w))) [
    | inl e ↦ inr (rw e refl)
    | inr e ↦ inl (rw e refl)
  ]

  -- What is no lower than a row's version stays so for a higher version.
  NoneHigher-raise :
      (name : Text) (v w : Text) (rows : List ModuleVersion)
      → is_lt (pg.semver_cmp w v) ≡ false
      → NoneHigher pg rows (record { name = name; version = v })
      → NoneHigher pg rows (record { name = name; version = w })
  NoneHigher-raise name v w [] h k = tt
  NoneHigher-raise name v w (r ∷ rows) h (k, ks) =
      (λ e. order.negtrans w v r.version h (k e), NoneHigher-raise name v w rows h ks)

  module _ (r : ModuleVersion) (rows : List ModuleVersion) where
    -- A group that has another name than the new row.
    other-IsLatest :
        (g : ModuleVersion)
        → text_eq g.name r.name ≡ false
        → IsLatest pg rows g
        → IsLatest pg (r ∷ rows) g
    other-IsLatest g n (has, none_higher) =
        (inr has, (λ e. absurd (cc (n, (text_eq_iff g.name r.name).1 (sym e))), none_higher))

    joined-IsLatest :
        (g : ModuleVersion)
        → text_eq g.name r.name ≡ true
        → IsLatest pg rows g
        → IsLatest pg (r ∷ rows) (record g { version = max_version pg g.version r.version })
    joined-IsLatest g e (has, none_higher) =
        let (above, above_new) = max_version_bounds g.version r.version in
        (
          elim (max_version-cases g.version r.version) [
            | inr b ↦ inl (sym ((text_eq_iff g.name r.name).0 e), sym b)
            | inl b ↦
                inr (subst (λ v. HasRow rows (record { name = g.name; version = v })) (sym b) has)
          ],
          (
            λ _. above_new,
            NoneHigher-raise g.name g.version (max_version pg g.version r.version) rows above
                none_higher,
          ),
        )

    new-IsLatest : All (λ x. text_eq x.name r.name ≡ false) rows → IsLatest pg (r ∷ rows) r
    new-IsLatest other = (inl (refl, refl), (λ _. irreflexive r.version, none_named rows other))
      where
        none_named :
            (xs : List ModuleVersion)
            → All (λ x. text_eq x.name r.name ≡ false) xs
            → NoneHigher pg xs r
        none_named [] h = tt
        none_named (x ∷ xs) (h, hs) =
            (λ e. absurd (cc (h, (text_eq_iff x.name r.name).1 e)), none_named xs hs)

    others-IsLatest :
        (name : Text) (groups : List ModuleVersion)
        → name ≡ r.name
        → All (λ h. text_eq h.name name ≡ false) groups
        → All (IsLatest pg rows) groups
        → All (IsLatest pg (r ∷ rows)) groups
    others-IsLatest name [] e n h = tt
    others-IsLatest name (g ∷ groups) e (n, ns) (h, hs) =
        let differs : text_eq g.name r.name ≡ false = subst (λ x. text_eq g.name x ≡ false) e n in
        (other-IsLatest g differs h, others-IsLatest name groups e ns hs)

    add_latest-IsLatest :
        (groups : List ModuleVersion)
        → NamesOnce groups
        → All (IsLatest pg rows) groups
        → (All (λ g. text_eq g.name r.name ≡ false) groups
            → All (λ x. text_eq x.name r.name ≡ false) rows)
        → All (IsLatest pg (r ∷ rows)) (add_latest pg r groups)
    unfolding add_latest
    add_latest-IsLatest [] once h k = (new-IsLatest (k tt), tt)
    add_latest-IsLatest (g ∷ groups) (n, once) (h, hs) k =
        elim (Bool-cases (text_eq g.name r.name)) [
          | inl e ↦ rw e (
            joined-IsLatest g e h,
            others-IsLatest g.name groups ((text_eq_iff g.name r.name).0 e) n hs,
          )
          | inr e ↦ rw e (other-IsLatest g e h, add_latest-IsLatest groups once hs (λ a. k (e, a)))
        ]

  module _ (r : ModuleVersion) where
    add_latest-other :
        (name : Text) (groups : List ModuleVersion)
        → text_eq r.name name ≡ false
        → All (λ h. text_eq h.name name ≡ false) groups
        → All (λ h. text_eq h.name name ≡ false) (add_latest pg r groups)
    unfolding add_latest
    add_latest-other name [] e h = (e, tt)
    add_latest-other name (g ∷ groups) e (h, hs) = elim (Bool-cases (text_eq g.name r.name)) [
      | inl b ↦ rw b (h, hs)
      | inr b ↦ rw b (h, add_latest-other name groups e hs)
    ]

    add_latest-NamesOnce :
        (groups : List ModuleVersion) → NamesOnce groups → NamesOnce (add_latest pg r groups)
    unfolding add_latest
    add_latest-NamesOnce [] h = (tt, tt)
    add_latest-NamesOnce (g ∷ groups) (n, once) = elim (Bool-cases (text_eq g.name r.name)) [
      | inl b ↦ rw b (n, once)
      | inr b ↦ rw b (
        add_latest-other g.name groups (text_eq_sym r.name g.name ∙ b) n,
        add_latest-NamesOnce groups once,
      )
    ]

    add_latest-Named :
        (name : Text) (groups : List ModuleVersion)
        → Named name groups
        → Named name (add_latest pg r groups)
    unfolding add_latest
    add_latest-Named name [] h = absurd h
    add_latest-Named name (g ∷ groups) h = elim (Bool-cases (text_eq g.name r.name)) [
      | inl b ↦ rw b (same h)
      | inr b ↦ rw b (by_place (add_latest-Named name groups) h)
    ]
      where
        same :
            Named name (g ∷ groups)
            → Named name (record g { version = max_version pg g.version r.version } ∷ groups)
        same (inl e) = inl e
        same (inr k) = inr k

        by_place :
            (Named name groups → Named name (add_latest pg r groups))
            → Named name (g ∷ groups)
            → Named name (g ∷ add_latest pg r groups)
        by_place below (inl e) = inl e
        by_place below (inr k) = inr (below k)

    add_latest-Named_new : (groups : List ModuleVersion) → Named r.name (add_latest pg r groups)
    unfolding add_latest
    add_latest-Named_new [] = inl refl
    add_latest-Named_new (g ∷ groups) = elim (Bool-cases (text_eq g.name r.name)) [
      | inl b ↦ rw b (inl ((text_eq_iff g.name r.name).0 b))
      | inr b ↦ rw b (inr (add_latest-Named_new groups))
    ]

  -- A name that no group has is the name of no row, where every row has a group.
  other_name :
      (name x : Text) (groups : List ModuleVersion)
      → All (λ g. text_eq g.name name ≡ false) groups
      → Named x groups
      → text_eq x name ≡ false
  other_name name x [] h k = absurd k
  other_name name x (g ∷ groups) (h, hs) (inl e) = subst (λ y. text_eq y name ≡ false) e h
  other_name name x (g ∷ groups) (h, hs) (inr k) = other_name name x groups hs k

  other_names :
      (name : Text) (groups rows : List ModuleVersion)
      → All (λ g. text_eq g.name name ≡ false) groups
      → All (λ r. Named r.name groups) rows
      → All (λ r. text_eq r.name name ≡ false) rows
  other_names name groups [] h k = tt
  other_names name groups (r ∷ rows) h (k, ks) =
      (other_name name r.name groups h k, other_names name groups rows h ks)

  every_name :
      (r : ModuleVersion) (groups rows : List ModuleVersion)
      → All (λ x. Named x.name groups) rows
      → All (λ x. Named x.name (add_latest pg r groups)) rows
  every_name r groups [] h = tt
  every_name r groups (x ∷ rows) (h, hs) =
      (add_latest-Named r x.name groups h, every_name r groups rows hs)

  -- One row for each name that there is, which is that of its highest version.
  abbrev pub Grouped : List ModuleVersion → List ModuleVersion → Type 0
  Grouped rows groups =
      NamesOnce groups × All (IsLatest pg rows) groups × All (λ r. Named r.name groups) rows

  pub group_latest-Grouped : (rows : List ModuleVersion) → Grouped rows (group_latest pg rows)
  unfolding group_latest
  group_latest-Grouped [] = (tt, tt, tt)
  group_latest-Grouped (r ∷ rows) =
      let (once, latest, named) = group_latest-Grouped rows in
      (
        add_latest-NamesOnce r (group_latest pg rows) once,
        add_latest-IsLatest r rows (group_latest pg rows) once latest
            (λ h. other_names r.name (group_latest pg rows) rows h named),
        (
          add_latest-Named_new r (group_latest pg rows),
          every_name r (group_latest pg rows) rows named,
        ),
      )
