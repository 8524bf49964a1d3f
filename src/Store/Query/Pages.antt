-- ===== src/Store/Query/Pages.antt =====
-- Paging: a caller that follows the page tokens sees every row of `getDependx` once, in order.
use perseus.Prelude.{
  ℕ, zero, suc, ◌+◌, ◌-◌, ◌≤◌, ◌<◌, ◌≡◌, ◌≢◌, Text, refl, sym, ◌∙◌, ap, subst, false, some, List,
  [], ◌∷◌, ◌++◌, arith, Bool-cases, inl, inr, if◌then◌else◌, Result, ok, is_empty, length, take,
  drop, length-append, sort, lt→ltb,
}
use perseus.Prelude.Int.{ℤ, pos, ltb_ℤ, int64_half}
use perseus.Store.Postgres.{Postgres}
use perseus.Store.Session.{Session, Tables, StoreError, panic, Db, pure, fail, ◌>>=◌, round_trip}
use perseus.Store.Ends.{bind-ok, round_trip-calm}
use perseus.Store.Write.{Version}
use perseus.Store.Paging.Codecs.{Codec, CodecLaws}
use perseus.Store.Paging.{encode_page_token}
use perseus.Store.Paging.Tokens.{decode-encode, encode-empty_iff}
use perseus.Store.Query.{
  JoinTarget, page, read_token, select, dependency_before, join_dependencies, select_dependencies,
  dependency_key, get_dependx,
}

-- A caller that asks for page after page until there is no next one, with fuel for the pages.
unfoldable pub follow_pages {ℓ} :
    {A : Type ℓ} → ℕ → (Text → Db (List A × Text)) → Text → Db (List A)
follow_pages zero fetch token = fail panic
follow_pages (suc fuel) fetch token = fetch token >>= λ (rows, next).
    let rest = follow_pages fuel fetch next >>= λ more. pure (rows ++ more) in
    if is_empty next then pure rows else rest

module _ {ℓ} {A : Type ℓ} where
  page_pos : (o c : ℕ) (rows : List A) → 0 < c → page (pos o) (pos c) rows ≡ take c (drop o rows)
  page_pos zero (suc c) rows h = rw (lt→ltb 0 (suc c) h)
  page_pos (suc o) (suc c) rows h = rw (lt→ltb 0 (suc c) h, lt→ltb 0 (suc o) (omega arith))
  page_pos zero zero rows h = absurd (omega arith)
  page_pos (suc o) zero rows h = absurd (omega arith)

  take_all : (c : ℕ) (rows : List A) → length (take c rows) < c → take c rows ≡ rows
  take_all zero rows h = absurd (omega arith)
  take_all (suc c) [] h = refl
  take_all (suc c) (x ∷ rows) h = ap (λ t. x ∷ t) (take_all c rows (omega arith))

  take_full :
      (c : ℕ) (rows : List A)
      → c ≤ length (take c rows)
      → (take c rows ++ drop c rows ≡ rows) × (length (take c rows) ≡ c)
  take_full zero rows h = (refl, refl)
  take_full (suc c) [] h = absurd (omega arith)
  take_full (suc c) (x ∷ rows) h =
      let (e, f) = take_full c rows (omega arith) in (ap (λ t. x ∷ t) e, ap suc f)

  drop-nil : (n : ℕ) → drop {A = A} n [] ≡ []
  drop-nil zero = refl
  drop-nil (suc n) = refl

  drop-drop : (o c : ℕ) (rows : List A) → drop c (drop o rows) ≡ drop (o + c) rows
  drop-drop zero c rows = let e : c ≡ 0 + c = omega arith in ap (λ n. drop n rows) e
  drop-drop (suc o) c [] = drop-nil c ∙ sym (drop-nil (suc o + c))
  drop-drop (suc o) c (x ∷ rows) =
      let e : suc (o + c) ≡ suc o + c = omega arith in
      drop-drop o c rows ∙ ap (λ n. drop n (x ∷ rows)) e

  length-drop : (o : ℕ) (rows : List A) → length (drop o rows) ≡ length rows - o
  length-drop zero rows = omega arith
  length-drop (suc o) [] = omega arith
  length-drop (suc o) (x ∷ rows) = omega (arith, length-drop o rows)

is_empty-false : (t : Text) → t ≢ [] → is_empty t ≡ false
is_empty-false [] h = absurd (h refl)
is_empty-false (c ∷ t) h = refl

-- A source of pages of `c` rows: at a token for an offset it gives the rows from there on, and the
-- token for what follows.
module _ {A : Type 0} (codec : Codec) (laws : CodecLaws codec) (key : Text) (rows : List A) (c : ℕ)
    (positive : 0 < c) (fits : length rows + c < int64_half) (fetch : Text → Db (List A × Text))
    (s : Session)
    (fetched : (token : Text) (o : ℕ)
      → read_token codec token key ≡ ok (pos o)
      → fetch token s ≡ (
        ok (
          page (pos o) (pos c) rows,
          encode_page_token codec key (length (page (pos o) (pos c) rows)) (pos o) (pos c),
        ),
        s,
      )) where
  not_empty :
      (o n : ℕ)
      → ltb_ℤ (pos n) (pos c) ≡ false
      → is_empty (encode_page_token codec key n (pos o) (pos c)) ≡ false
  not_empty o n full =
      is_empty-false _ (λ e. absurd (cc ((encode-empty_iff codec laws key n (pos o) (pos c)).0 e)))

  abbrev part : ℕ → List A
  part o = take c (drop o rows)

  abbrev next : ℕ → ℕ → Text
  next o n = encode_page_token codec key n (pos o) (pos c)

  next_token :
      (o n : ℕ)
      → ltb_ℤ (pos n) (pos c) ≡ false
      → o + n < int64_half
      → read_token codec (encode_page_token codec key n (pos o) (pos c)) key ≡ ok (pos (o + n))
  unfolding read_token
  next_token o n full room =
      rw (not_empty o n full, decode-encode codec laws key n o c full room, read_token)

  -- The pages from an offset on are the rows from there on.
  follow_pages-drop :
      (fuel o : ℕ) (token : Text)
      → read_token codec token key ≡ ok (pos o)
      → o ≤ length rows
      → length rows - o < fuel
      → follow_pages fuel fetch token s ≡ (ok (drop o rows), s)
  unfolding follow_pages
  follow_pages-drop zero o token e h f = absurd (omega arith)
  follow_pages-drop (suc fuel) o token e h f =
      let got : fetch token s ≡ (ok (part o, next o (length (part o))), s) =
        subst (λ r. fetch token s ≡ (ok (r, next o (length r)), s)) (page_pos o c rows positive)
          (fetched token o e) in
      bind-ok (fetch token) (after fuel) got
      ∙ elim (Bool-cases (ltb_ℤ (pos (length (part o))) (pos c))) [
        | inl short ↦ rw (
          (encode-empty_iff codec laws key (length (part o)) (pos o) (pos c)).1 short,
          take_all c (drop o rows) (ground arith),
        )
        | inr full ↦
            let (join, n) = take_full c (drop o rows) (ground arith) in
            let room : length (drop o rows) ≡ length rows - o = length-drop o rows in
            let whole : length (part o) + length (drop c (drop o rows)) ≡ length (drop o rows) =
              sym (length-append (part o) (drop c (drop o rows))) ∙ ap length join in
            let onward =
              follow_pages-drop fuel (o + length (part o)) (next o (length (part o)))
                (next_token o (length (part o)) full (omega arith)) (omega arith) (omega arith) in
            rw (not_empty o (length (part o)) full) (
              bind-ok (follow_pages fuel fetch (next o (length (part o))))
                (λ more. pure (part o ++ more)) onward
              ∙ ap (λ r. (ok (part o ++ r), s))
                  (sym (drop-drop o (length (part o)) rows) ∙ ap (λ k. drop k (drop o rows)) n)
              ∙ ap (λ r. (ok r, s)) join)
      ]
    where
      after : ℕ → List A × Text → Db (List A)
      after fuel (rows, next) =
          let rest = follow_pages fuel fetch next >>= λ more. pure (rows ++ more) in
          if is_empty next then pure rows else rest

-- Without faults to come a SELECT gives what the tables hold, and changes nothing.
pub select-ok {ℓ} :
    {A : Type ℓ} (query : Tables → Result StoreError A) (s : Session)
    → s.faults ≡ []
    → select query s ≡ (query s.tables, s)
unfolding select
select-ok query s e = bind-ok round_trip (λ _ t. (query t.tables, t)) (round_trip-calm s e)

module _ (pg : Postgres) (codec : Codec) (name version cast : Text) (target : JoinTarget)
    (s : Session) (named : is_empty name ≡ false) (versioned : is_empty version ≡ false)
    (casts : pg.semver_cast version ≡ some cast) (calm : s.faults ≡ []) where
  -- Every edge of the version, in the order of the query.
  abbrev pub dependency_rows : List Version
  dependency_rows =
      sort (dependency_before pg)
        (join_dependencies pg target name cast s.tables s.tables.dependencies)

  pub get_dependx-page :
      (token : Text) (offset count : ℤ)
      → read_token codec token (dependency_key name version target) ≡ ok offset
      → get_dependx pg codec name version target token count s ≡ (
        ok (
          page offset count dependency_rows,
          encode_page_token codec
              (dependency_key name version target)
              (length (page offset count dependency_rows))
              offset
              count,
        ),
        s,
      )
  unfolding get_dependx select_dependencies
  get_dependx-page token offset count e =
      rw (e, named, versioned)
        (bind-ok (select (select_dependencies pg target name version)) finish selected)
    where
      selected : select (select_dependencies pg target name version) s ≡ (ok dependency_rows, s)
      selected =
          select-ok (select_dependencies pg target name version) s calm
          ∙ ap (λ r. (r, s)) (rw (casts, select_dependencies))

      finish : List Version → Db (List Version × Text)
      finish rows =
          let results = page offset count rows in
          pure (
            results,
            encode_page_token codec (dependency_key name version target) (length results) offset
                count,
          )

  -- With a positive page size and no failing round trip, for a name and a semantic version that
  -- are not empty, and as long as the offsets are ints, a caller that follows the tokens gets every
  -- row of the query once and in order, and stops: one page more than there are rows is fuel
  -- enough.
  pub follow_pages-get_dependx :
      (laws : CodecLaws codec) (c : ℕ)
      → 0 < c
      → length dependency_rows + c < int64_half
      → follow_pages
          (suc (length dependency_rows))
          (λ token. get_dependx pg codec name version target token (pos c))
          []
          s
        ≡ (ok dependency_rows, s)
  follow_pages-get_dependx laws c positive fits =
      follow_pages-drop codec laws (dependency_key name version target) dependency_rows c positive
        fits (λ token. get_dependx pg codec name version target token (pos c)) s
        (λ token o e. get_dependx-page token (pos o) (pos c) e) (suc (length dependency_rows)) 0 []
        (unfold read_token in refl) (omega arith) (omega arith)
