-- ===== src/Store/Glob/Match.antt =====
-- A glob that holds no backslash selects, as LIKE pattern, what it stands for as a glob.
use perseus.Prelude.{
  fun_ext, subst, append_assoc, has_prefix, has_prefix-cons, Bool-cases, inl, inr, ==_iff, ℕ, Text,
  true, false, some, [], ◌∷◌, ◌++◌, ◌≡◌, ◌≢◌, refl, All, is_empty, contains_any, ◌==◌,
  if◌then◌else◌, arith, append-nil,
}
use perseus.Store.Like.{backslash, Rest, any_suffix, any_one, literal, map_rest, like_rest, like}
use perseus.Store.Glob.{like_rune, glob_to_like, wildcards, apply_name_filter}

abbrev pub NoBackslash : Text → Type 0
NoBackslash = All (λ c. c ≢ backslash)

-- The glob language, read off the documentation: `*` is any run, `?` is any one character, and
-- every other character is itself. What follows the glob is a test of the rest of the text.
abbrev pub glob_then : Text → Rest → Rest
glob_then [] rest = rest
glob_then (c ∷ glob) rest =
    if c == b'*'
    then any_suffix (glob_then glob rest)
    else if c == b'?'
    then any_one (glob_then glob rest)
    else literal c (glob_then glob rest)

abbrev pub glob_matches : Text → Rest
glob_matches glob = glob_then glob is_empty

-- strings.Contains(text, part)
abbrev pub contains : Text → Rest
contains part = any_suffix (λ s. has_prefix s part)

-- One more literal, run or wildcard in front of a pattern, whatever the pattern's length.
like_rest-literal :
    (k : ℕ) (p : Text)
    → k ≢ backslash
    → k ≢ b'%'
    → k ≢ b'_'
    → like_rest (k ∷ p) ≡ map_rest (literal k) (like_rest p)
unfolding like_rest
like_rest-literal k [] h1 h2 h3 = ground arith
like_rest-literal k (c ∷ p) h1 h2 h3 = ground arith

like_rest-run : (p : Text) → like_rest (b'%' ∷ p) ≡ map_rest any_suffix (like_rest p)
unfolding like_rest
like_rest-run [] = refl
like_rest-run (c ∷ p) = refl

like_rest-one : (p : Text) → like_rest (b'_' ∷ p) ≡ map_rest any_one (like_rest p)
unfolding like_rest
like_rest-one [] = refl
like_rest-one (c ∷ p) = refl

like_rest-escape :
    (c : ℕ) (p : Text) → like_rest (backslash ∷ c ∷ p) ≡ map_rest (literal c) (like_rest p)
unfolding like_rest
like_rest-escape c p = refl

-- One rune of a glob in front of any pattern, in the two languages.
like_rest-like_rune :
    (c : ℕ) (p : Text) (r : Rest)
    → c ≢ backslash
    → like_rest p ≡ some r
    → like_rest (like_rune c ++ p)
      ≡ some (if c == b'*' then any_suffix r else if c == b'?' then any_one r else literal c r)
unfolding like_rune
like_rest-like_rune c p r h e = elim (Bool-cases (c == b'%')) [
  | inl t ↦ rw ((==_iff c b'%').0 t) (rw (like_rest-escape b'%' p, e))
  | inr n1 ↦ elim (Bool-cases (c == b'_')) [
    | inl t ↦ rw ((==_iff c b'_').0 t) (rw (like_rest-escape b'_' p, e))
    | inr n2 ↦ elim (Bool-cases (c == b'*')) [
      | inl t ↦ rw ((==_iff c b'*').0 t) (rw (like_rest-run p, e))
      | inr n3 ↦ elim (Bool-cases (c == b'?')) [
        | inl t ↦ rw ((==_iff c b'?').0 t) (rw (like_rest-one p, e))
        | inr n4 ↦ rw (n1, n2, n3, n4, like_rest-literal c p h (ground arith) (ground arith), e)
      ]
    ]
  ]
]

like_rest-glob_to_like :
    (glob q : Text) (r : Rest)
    → NoBackslash glob
    → like_rest q ≡ some r
    → like_rest (glob_to_like glob ++ q) ≡ some (glob_then glob r)
unfolding glob_to_like
like_rest-glob_to_like [] q r h e = e
like_rest-glob_to_like (c ∷ glob) q r (h, hs) e =
    rw (append_assoc (like_rune c) (glob_to_like glob) q) (
      like_rest-like_rune c (glob_to_like glob ++ q) (glob_then glob r) h
        (like_rest-glob_to_like glob q r hs e))

-- For every glob without a backslash, the LIKE pattern that `globToLike` makes of it is a valid
-- pattern, and selects exactly the texts that the glob stands for.
pub like-glob_to_like :
    (glob text : Text)
    → NoBackslash glob
    → like (glob_to_like glob) text ≡ some (glob_matches glob text)
unfolding like
like-glob_to_like glob text h =
    let e : like_rest (glob_to_like glob) ≡ some (glob_matches glob) =
      subst (λ p. like_rest p ≡ some (glob_matches glob)) (append-nil (glob_to_like glob))
        (like_rest-glob_to_like glob [] is_empty h (unfold like_rest in refl)) in
    rw (e, like)

any_suffix-is_empty : (s : Text) → any_suffix is_empty s ≡ true
unfolding any_suffix
any_suffix-is_empty [] = refl
any_suffix-is_empty (c ∷ s) = any_suffix-is_empty s

plain-head :
    (k : ℕ) (glob : Text)
    → contains_any (k ∷ glob) wildcards ≡ false
    → ((k == b'*') ≡ false) × ((k == b'?') ≡ false) × (contains_any glob wildcards ≡ false)
unfolding contains_any
plain-head k glob h = ground arith

-- Without wildcards, a glob followed by anything is a prefix.
glob_then-has_prefix :
    (glob s : Text)
    → contains_any glob wildcards ≡ false
    → glob_then glob (any_suffix is_empty) s ≡ has_prefix s glob
glob_then-has_prefix [] [] h = unfold any_suffix has_prefix in refl
glob_then-has_prefix [] (c ∷ s) h = unfold has_prefix in any_suffix-is_empty (c ∷ s)
glob_then-has_prefix (k ∷ glob) [] h =
    let (n1, n2, hs) = plain-head k glob h in unfold has_prefix in rw (n1, n2)
glob_then-has_prefix (k ∷ glob) (c ∷ s) h =
    let (n1, n2, hs) = plain-head k glob h in
    rw (n1, n2, has_prefix-cons c k s glob, glob_then-has_prefix glob s hs)

-- What the name filter selects: every name if it is empty, the glob's matches if it has a
-- wildcard, and the names that contain it otherwise.
abbrev pub filter_matches : Text → Rest
filter_matches filter name =
    if is_empty filter
    then true
    else if contains_any filter wildcards
    then glob_matches filter name
    else contains filter name

like-substring :
    (filter name : Text)
    → NoBackslash filter
    → contains_any filter wildcards ≡ false
    → like (b'%' ∷ (glob_to_like filter ++ b'%' ∷ [])) name ≡ some (contains filter name)
unfolding like
like-substring filter name h plain = rw (
  like_rest-run (glob_to_like filter ++ b'%' ∷ []),
  like_rest-glob_to_like filter (b'%' ∷ []) (any_suffix is_empty) h (unfold like_rest in refl),
  fun_ext (λ s. glob_then-has_prefix filter s plain),
  like,
)

-- A filter without a backslash selects, in `applyNameFilter`, every name if it is empty, the
-- names that match it as a glob if it has a wildcard, and those that contain it otherwise.
pub apply_name_filter_lem :
    (filter name : Text)
    → NoBackslash filter
    → apply_name_filter filter name ≡ some (filter_matches filter name)
unfolding apply_name_filter
apply_name_filter_lem [] name h = refl
apply_name_filter_lem (c ∷ filter) name h =
    elim (Bool-cases (contains_any (c ∷ filter) wildcards)) [
      | inl wild ↦ rw wild (like-glob_to_like (c ∷ filter) name h)
      | inr plain ↦ rw plain (like-substring (c ∷ filter) name h plain)
    ]
