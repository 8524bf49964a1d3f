-- ===== src/Prelude/Sort.antt =====
-- Sorting by a test `before`: the result that ORDER BY and sort.Slice promise, by insertion.
use mathlib.Core.Path.{◌≡◌, refl}
use mathlib.Core.Bool.{Bool, true, false, ◌||◌}
use mathlib.Core.List.{List, [], ◌∷◌}
use mathlib.Core.Logic.{inl, inr}
use mathlib.Core.List.{Perm}
use mathlib.Core.List.Perm
use native.Mathlib.Omega.{arith}
use perseus.Prelude.Lists.{All}
use perseus.Prelude.Tests.{if◌then◌else◌, Bool-cases}
use perseus.Prelude.Lists.{All}

-- Some element passes the test.
abbrev pub any {ℓ} : {A : Type ℓ} → (A → Bool) → List A → Bool
any p [] = false
any p (x ∷ xs) = p x || any p xs

module _ {ℓ} {A : Type ℓ} (before : A → A → Bool) where
  -- `x` goes in front of the first element that does not come strictly before it.
  unfoldable pub insert_sorted : A → List A → List A
  insert_sorted x [] = x ∷ []
  insert_sorted x (y ∷ ys) = if before y x then y ∷ insert_sorted x ys else x ∷ y ∷ ys

  unfoldable pub sort : List A → List A
  unfolding insert_sorted
  sort [] = []
  sort (x ∷ xs) = insert_sorted x (sort xs)

  insert_sorted-perm : (x : A) (ys : List A) → Perm (insert_sorted x ys) (x ∷ ys)
  unfolding insert_sorted
  insert_sorted-perm x [] = Perm.refl (x ∷ [])
  insert_sorted-perm x (y ∷ ys) = elim (Bool-cases (before y x)) [
    | inl e ↦ rw e (Perm.trans (Perm.cons y (insert_sorted-perm x ys)) (Perm.swap x y ys))
    | inr e ↦ rw e (Perm.refl (x ∷ y ∷ ys))
  ]

  -- The result is a rearrangement of the input.
  pub sort-perm : (xs : List A) → Perm (sort xs) xs
  unfolding sort
  sort-perm [] = Perm.refl []
  sort-perm (x ∷ xs) = Perm.trans (insert_sorted-perm x (sort xs)) (Perm.cons x (sort-perm xs))

  any-insert_sorted :
      (p : A → Bool) (x : A) (ys : List A) → any p (insert_sorted x ys) ≡ (p x || any p ys)
  unfolding insert_sorted
  any-insert_sorted p x [] = refl
  any-insert_sorted p x (y ∷ ys) = elim (Bool-cases (before y x)) [
    | inl e ↦ rw (e, any-insert_sorted p x ys) (or_swap (p y) (p x) (any p ys))
    | inr e ↦ rw e
  ]
    where
      or_swap : (a b c : Bool) → (a || (b || c)) ≡ (b || (a || c))
      or_swap a b c = ground arith

  pub any-sort : (p : A → Bool) (xs : List A) → any p (sort xs) ≡ any p xs
  unfolding sort
  any-sort p [] = refl
  any-sort p (x ∷ xs) = rw (any-insert_sorted p x (sort xs), any-sort p xs)

  -- What holds of every element holds of every element of the sorted list.
  module _ (P : A → Type 0) where
    insert_sorted-All : (x : A) (ys : List A) → P x → All P ys → All P (insert_sorted x ys)
    unfolding insert_sorted
    insert_sorted-All x [] p a = (p, tt)
    insert_sorted-All x (y ∷ ys) p (q, a) = elim (Bool-cases (before y x)) [
      | inl e ↦ rw e (q, insert_sorted-All x ys p a)
      | inr e ↦ rw e (p, (q, a))
    ]

    pub sort-All : (xs : List A) → All P xs → All P (sort xs)
    unfolding sort
    sort-All [] a = tt
    sort-All (x ∷ xs) (p, a) = insert_sorted-All x (sort xs) p (sort-All xs a)

  -- No element comes strictly before the one in front of it, or before any element further on
  -- where the test is transitive.
  abbrev pub IsSorted : List A → Type 0
  IsSorted [] = Unit
  IsSorted (x ∷ xs) = All (λ y. before y x ≡ false) xs × IsSorted xs

  -- The laws of a strict weak order that the proof needs.
  module _ (asym : (x y : A) → before x y ≡ true → before y x ≡ false)
      (negtrans : (x y z : A) → before y x ≡ false → before z y ≡ false → before z x ≡ false) where
    All-insert_sorted :
        (x y : A) (ys : List A)
        → before x y ≡ false
        → All (λ z. before z y ≡ false) ys
        → All (λ z. before z y ≡ false) (insert_sorted x ys)
    unfolding insert_sorted
    All-insert_sorted x y [] h a = (h, tt)
    All-insert_sorted x y (z ∷ ys) h (a, as') = elim (Bool-cases (before z x)) [
      | inl e ↦ rw e (a, All-insert_sorted x y ys h as')
      | inr e ↦ rw e (h, (a, as'))
    ]

    All-weaken :
        (x y : A) (ys : List A)
        → before y x ≡ false
        → All (λ z. before z y ≡ false) ys
        → All (λ z. before z x ≡ false) ys
    All-weaken x y [] h a = tt
    All-weaken x y (z ∷ ys) h (a, as') = (negtrans x y z h a, All-weaken x y ys h as')

    insert_sorted-IsSorted : (x : A) (ys : List A) → IsSorted ys → IsSorted (insert_sorted x ys)
    unfolding insert_sorted
    insert_sorted-IsSorted x [] s = (tt, tt)
    insert_sorted-IsSorted x (y ∷ ys) (a, s) = elim (Bool-cases (before y x)) [
      | inl e ↦ rw e (All-insert_sorted x y ys (asym y x e) a, insert_sorted-IsSorted x ys s)
      | inr e ↦ rw e ((e, All-weaken x y ys e a), (a, s))
    ]

    pub sort-IsSorted : (xs : List A) → IsSorted (sort xs)
    unfolding sort
    sort-IsSorted [] = tt
    sort-IsSorted (x ∷ xs) = insert_sorted-IsSorted x (sort xs) (sort-IsSorted xs)
