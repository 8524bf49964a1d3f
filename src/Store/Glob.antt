-- ===== src/Store/Glob.antt =====
-- internal/store/pg.go: `globToLike` and the name filter of `applyNameFilter`.
pub mod Match
use perseus.Prelude.{ℕ, Text, codes, Bool, true, ◌||◌, Option, some, [], ◌∷◌, ◌++◌}
use perseus.Prelude.{is_empty, contains_any, ◌==◌, if◌then◌else◌}
use perseus.Store.Like.{backslash, like}

-- The `switch` on one rune: what is written for it.
unfoldable pub like_rune : ℕ → Text
like_rune c =
    if c == b'%' || c == b'_'
    then backslash ∷ c ∷ []
    else if c == b'*'
    then b'%' ∷ []
    else if c == b'?'
    then b'_' ∷ []
    else c ∷ []

unfoldable pub glob_to_like : Text → Text
unfolding like_rune
glob_to_like [] = []
glob_to_like (c ∷ glob) = like_rune c ++ glob_to_like glob

-- The string "*?".
abbrev pub wildcards : Text
wildcards = b'*' ∷ b'?' ∷ []

-- The WHERE clause that `applyNameFilter` adds: the LIKE pattern, if there is a filter.
unfoldable pub name_pattern : Text → Text
unfolding glob_to_like contains_any
name_pattern filter =
    let where_clause = glob_to_like filter in
    if contains_any filter wildcards then where_clause else b'%' ∷ (where_clause ++ b'%' ∷ [])

-- Whether a row's name passes the filter of `applyNameFilter`.
unfoldable pub apply_name_filter : Text → Text → Option Bool
unfolding name_pattern
apply_name_filter filter name =
    if is_empty filter then some true else like (name_pattern filter) name
