-- ===== src/Server/Modules/Majors.antt =====
-- The version that `CreateModule` checks a module without versions against.
use perseus.Prelude.{
  ℕ, ◌≡◌, refl, sym, ◌∙◌, ap, append_assoc, Text, codes, true, false, none, some, [], ◌∷◌, ◌++◌,
  Bool-cases, inl, inr, ◌==◌, arith,
}
use perseus.Server.Modules.{all_digits, is_major, major_suffix, match_major, default_version}

-- A slash is no digit.
all_digits-slash : (p s : Text) → all_digits (p ++ b'/' ∷ s) ≡ false
all_digits-slash [] s = refl
all_digits-slash (c ∷ p) s = ground (arith, all_digits-slash p s)

is_major-slash : (p s : Text) → is_major (p ++ b'/' ∷ b'v' ∷ s) ≡ false
unfolding is_major
is_major-slash [] s = refl
is_major-slash (c ∷ []) s = ground arith
is_major-slash (c ∷ d ∷ p) s = ground (arith, all_digits-slash p (b'v' ∷ s))

-- Before the slash of the version the expression does not match.
major_suffix-early : (c : ℕ) (p s : Text) → major_suffix (c ∷ (p ++ b'/' ∷ b'v' ∷ s)) ≡ none
unfolding major_suffix
major_suffix-early c [] s = elim (Bool-cases (c == b'/')) [
  | inl e ↦ rw (major_suffix, e)
  | inr e ↦ rw (major_suffix, e)
]
major_suffix-early c (d ∷ p) s = elim (Bool-cases (c == b'/')) [
  | inr e ↦ rw (major_suffix, e)
  | inl e ↦ elim (Bool-cases (d == b'v')) [
    | inr f ↦ rw (major_suffix, e, f)
    | inl f ↦ rw (major_suffix, e, f, is_major-slash p s)
  ]
]

major_suffix-here : (d : Text) → is_major d ≡ true → major_suffix (b'/' ∷ b'v' ∷ d) ≡ some d
unfolding major_suffix
major_suffix-here d h = rw (major_suffix, h)

match_major-at :
    (p : Text) (c : ℕ) (d : Text)
    → (c == 10) ≡ false
    → is_major d ≡ true
    → match_major (p ++ c ∷ b'/' ∷ b'v' ∷ d) ≡ some d
unfolding match_major
match_major-at [] c d n h = rw (match_major, n, major_suffix-here d h)
match_major-at (x ∷ []) c d n h = elim (Bool-cases (x == 10)) [
  | inl e ↦ rw (match_major, e) (match_major-at [] c d n h)
  | inr e ↦ rw (match_major, e, major_suffix-early c [] d) (match_major-at [] c d n h)
]
match_major-at (x ∷ y ∷ p) c d n h = elim (Bool-cases (x == 10)) [
  | inl e ↦ rw (match_major, e) (match_major-at (y ∷ p) c d n h)
  | inr e ↦ rw (match_major, e, early) (match_major-at (y ∷ p) c d n h)
]
  where
    early : major_suffix (y ∷ (p ++ c ∷ b'/' ∷ b'v' ∷ d)) ≡ none
    early =
        sym (ap (λ t. major_suffix (y ∷ t)) (append_assoc p (c ∷ []) (b'/' ∷ b'v' ∷ d)))
        ∙ major_suffix-early y (p ++ c ∷ []) d

-- For a module path that ends in a slash, a v and a number of at least 2 without leading zeros,
-- with something before them that is no newline, the version is that number with a v before it
-- and two zeros behind it, whatever else of that form the path holds.
pub default_version-major :
    (p : Text) (c : ℕ) (d : Text)
    → (c == 10) ≡ false
    → is_major d ≡ true
    → default_version (p ++ c ∷ b'/' ∷ b'v' ∷ d) ≡ (b'v' ∷ (d ++ codes ".0.0"))
unfolding default_version
default_version-major p c d n h = rw (default_version, match_major-at p c d n h)
