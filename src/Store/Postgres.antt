-- ===== src/Store/Postgres.antt =====
-- What the SQL of internal/store relies on outside the repository: the `semver` type of the
-- pg-semver extension and the collation of TEXT. A semver value is kept as the text it prints as.
use perseus.Prelude.{Text, Bool, true, false, Option, some, Ordering, ◌≡◌}

pub record Postgres : Type 0 where
  -- text::semver::text, or none where the text is no semantic version
  pub semver_cast : Text → Option Text
  -- the extension's order, by which UNIQUE, =, MAX and ORDER BY compare versions
  pub semver_cmp : Text → Text → Ordering
  pub get_semver_prerelease : Text → Text
  -- the database's order of names
  pub collate : Text → Text → Ordering

abbrev pub is_eq : Ordering → Bool
is_eq Ordering.eq = true
is_eq _ = false

abbrev pub is_lt : Ordering → Bool
is_lt Ordering.lt = true
is_lt _ = false

-- v = w, on the type semver
abbrev pub semver_eq : Postgres → Text → Text → Bool
semver_eq pg v w = is_eq (pg.semver_cmp v w)

-- The documented behaviour of the extension: `=` is an equivalence that its comparisons respect,
-- and a semver prints as a text that reads as itself.
pub record SemverLaws (pg : Postgres) : Type 0 where
  pub eq_refl : (v : Text) → semver_eq pg v v ≡ true
  pub eq_sym : (v w : Text) → semver_eq pg v w ≡ semver_eq pg w v
  pub eq_congr : (v w x : Text) → semver_eq pg v w ≡ true → semver_eq pg v x ≡ semver_eq pg w x
  pub cast_idem : (v w : Text) → pg.semver_cast v ≡ some w → pg.semver_cast w ≡ some w
