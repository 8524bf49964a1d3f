-- ===== src/Prelude/Results.antt =====
-- Values that a fallible call returns: a value, or an error of the component's own type.
use mathlib.Core.Bool.{Bool}
use perseus.Prelude.Tests.{if◌then◌else◌}

pub data Result {ℓ κ} (E : Type ℓ) (A : Type κ) : Type (ℓ ⊔ κ) where
  err : E → Result E A
  ok : A → Result E A

-- return err unless the test holds
abbrev pub check {ℓ} : {E : Type ℓ} → Bool → E → Result E (Unit {0})
check holds e = if holds then ok tt else err e

-- A chain of fallible steps stops at the first error.
infixl 5 ◌>>=◌
abbrev pub ◌>>=◌ {ℓ κ μ} :
    {E : Type ℓ} {A : Type κ} {B : Type μ} → Result E A → (A → Result E B) → Result E B
r >>= next = elim r [ err e ↦ err e | ok a ↦ next a ]

-- The error as the caller words it.
abbrev pub map_err {ℓ κ μ} :
    {E : Type ℓ} {F : Type κ} {A : Type μ} → (E → F) → Result E A → Result F A
map_err f r = elim r [ err e ↦ err (f e) | ok a ↦ ok a ]
