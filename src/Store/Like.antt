-- ===== src/Store/Like.antt =====
-- PostgreSQL's LIKE with its default escape character, as the SQL language defines it: `%` stands
-- for any run of characters, `_` for any one, and `\` makes the next character literal.
-- A pattern that ends in the escape character is an error, `none`.
use perseus.Prelude.{ℕ, Text, Bool, false, ◌||◌, ◌&&◌, Option, none, some}
use perseus.Prelude.{[], ◌∷◌, is_empty, ◌==◌, if◌then◌else◌}

abbrev pub backslash : ℕ
backslash = 92

-- The rest of a match, as a test of the rest of the text.
abbrev pub Rest : Type 0
Rest = Text → Bool

-- Some suffix of the text passes the test.
unfoldable pub any_suffix : Rest → Rest
any_suffix rest [] = rest []
any_suffix rest (c ∷ s) = rest (c ∷ s) || any_suffix rest s

abbrev pub any_one : Rest → Rest
any_one rest [] = false
any_one rest (c ∷ s) = rest s

abbrev pub literal : ℕ → Rest → Rest
literal k rest [] = false
literal k rest (c ∷ s) = c == k && rest s

abbrev escape : Text → (Text → Option Rest) → Option Rest
escape [] read = none
escape (c ∷ p) read = read p

abbrev pub map_rest : (Rest → Rest) → Option Rest → Option Rest
map_rest f none = none
map_rest f (some r) = some (f r)

-- The test that a pattern stands for.
unfoldable pub like_rest : Text → Option Rest
like_rest [] = some is_empty
like_rest (k ∷ []) =
    if k == backslash
    then none
    else if k == b'%'
    then some (any_suffix is_empty)
    else if k == b'_'
    then some (any_one is_empty)
    else some (literal k is_empty)
like_rest (k ∷ c ∷ p) =
    let after = like_rest p in
    let onward = like_rest (c ∷ p) in
    if k == backslash
    then map_rest (literal c) after
    else if k == b'%'
    then map_rest any_suffix onward
    else if k == b'_'
    then map_rest any_one onward
    else map_rest (literal k) onward

-- text LIKE pattern
unfoldable pub like : Text → Text → Option Bool
unfolding like_rest any_suffix
like pattern text = elim (like_rest pattern) [ none ↦ none | some rest ↦ some (rest text) ]
