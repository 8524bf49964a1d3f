-- ===== src/Store/Samples.antt =====
-- Sample databases, and each theorem of the store at an input that meets its hypotheses.
use perseus.Prelude.{
  ℕ, Text, codes, true, false, Option, none, some, List, [], ◌∷◌, ◌≡◌, ◌≢◌, refl, arith,
  if◌then◌else◌, ok, text_eq, text_eq_iff, compare_text, is_empty, zero, suc, sort,
}
use perseus.Prelude.Int.{ℤ, pos, negsuc}
use perseus.Store.Postgres.{Postgres, SemverLaws, is_eq, is_lt}
use perseus.Store.Like.{like}
use perseus.Store.Glob.{glob_to_like}
use perseus.Store.Glob.Match.{glob_matches, like-glob_to_like}
use perseus.Store.Session.{Tables, Session, connection_failed, invalid_semver}
use perseus.Store.Write.{
  Version, find_module, find_version, has_module_id, has_version_id, has_dependency, save_module,
  save_module_dependencies,
}
use perseus.Store.Ends.{Ends, Environmental}
use perseus.Store.Valid.{IsValid}
use perseus.Store.Graph.{Node}
use perseus.Store.Write.Saved.{GraphSaved}
use perseus.Store.Write.Refinement.{save_module_dependencies-refines}
use perseus.Store.Write.Transaction.{save_module-atomic, save_module_dependencies-atomic}
use perseus.Store.Paging.Codecs.{PageToken, Codec, CodecLaws}
use perseus.Store.Paging.{encode_page_token, decode_page_token}
use perseus.Store.Paging.Tokens.{decode-encode}
use perseus.Store.Query.{dependents, dependees, get_dependx, join_dependencies}
use perseus.Store.Query.Latest.{SemverOrder}
use perseus.Store.Query.Edges.{listed, edge_of, listed-eq-edge}
use perseus.Store.Query.Pages.{follow_pages, dependency_rows, follow_pages-get_dependx}
use perseus.Store.Query.Answers.{get_dependx-edges}
use perseus.Store.Write.Saving.{ModuleSaved, save_module-refines}

-- A database whose versions are the non-empty texts, in the order of texts.
abbrev pub plain : Postgres
plain = record {
  semver_cast = λ t. if is_empty t then none else some t;
  semver_cmp = compare_text;
  get_semver_prerelease = λ t. [];
  collate = compare_text;
}

is_eq-compare_text : (s t : Text) → is_eq (compare_text s t) ≡ text_eq s t
unfolding text_eq
is_eq-compare_text [] [] = refl
is_eq-compare_text [] (y ∷ t) = refl
is_eq-compare_text (x ∷ s) [] = refl
is_eq-compare_text (x ∷ s) (y ∷ t) = ground (arith, is_eq-compare_text s t)

pub plain-laws : SemverLaws plain
plain-laws = record {
  eq_refl = λ v. rw (is_eq-compare_text v v) ((text_eq_iff v v).1 refl);
  eq_sym = λ v w. rw (is_eq-compare_text v w, is_eq-compare_text w v) (text_eq_swap v w);
  eq_congr = λ v w x h. rw ((text_eq_iff v w).0 (rw (is_eq-compare_text v w) at h));
  cast_idem = λ v w h. cast_again v w h;
}
  where
    text_eq_swap : (v w : Text) → text_eq v w ≡ text_eq w v
    text_eq_swap v w = ground (arith, text_eq_iff v w, text_eq_iff w v)

    cast_again :
        (v w : Text)
        → (if is_empty v then none else some v) ≡ some w
        → (if is_empty w then none else some w) ≡ some w
    cast_again [] w h = cc
    cast_again (c ∷ v) [] h = cc
    cast_again (c ∷ v) (d ∷ w) h = refl

pub plain-order : SemverOrder plain
plain-order = record { asym = asym; negtrans = negtrans }
  where
    asym : (v w : Text) → is_lt (compare_text v w) ≡ true → is_lt (compare_text w v) ≡ false
    asym [] [] h = cc
    asym [] (y ∷ w) h = refl
    asym (x ∷ v) [] h = cc
    asym (x ∷ v) (y ∷ w) h = ground (arith, h, asym v w)

    negtrans :
        (v w x : Text)
        → is_lt (compare_text v w) ≡ false
        → is_lt (compare_text w x) ≡ false
        → is_lt (compare_text v x) ≡ false
    negtrans [] [] x h k = k
    negtrans [] (b ∷ w) x h k = cc
    negtrans (a ∷ v) w [] h k = refl
    negtrans (a ∷ v) [] (c ∷ x) h k = cc
    negtrans (a ∷ v) (b ∷ w) (c ∷ x) h k = ground (arith, h, k, negtrans v w x)

-- Version 1.0 of module a depends on version 2.0 of module b.
abbrev pub tables : Tables
tables = record {
  modules =
      record { id = 2; name = codes "b"; description = none }
      ∷ record { id = 1; name = codes "a"; description = some (codes "first") }
      ∷ [];
  versions =
      record { id = 2; module_id = 2; version = codes "2.0" }
      ∷ record { id = 1; module_id = 1; version = codes "1.0" }
      ∷ [];
  dependencies = record { dependent_id = 1; dependee_id = 2 } ∷ [];
}

abbrev pub stored : Session
stored = record { tables = tables; next_module = 3; next_version = 3; faults = [] }

-- The same database behind a connection that fails at the fifth round trip.
abbrev flaky : Session
flaky = record stored { faults = false ∷ false ∷ false ∷ false ∷ true ∷ [] }

pub stored-IsValid : IsValid plain stored
unfolding has_module_id find_module has_version_id find_version has_dependency text_eq
stored-IsValid = record {
  modules_ok = (omega arith, refl, refl, (omega arith, refl, refl, tt));
  versions_ok = (omega arith, refl, refl, refl, (omega arith, refl, refl, refl, tt));
  dependencies_ok = (refl, refl, refl, tt);
}

-- Tokens written as lists of three numbers, and texts as they are.
abbrev pub list_unmarshal : List ℕ → Option PageToken
list_unmarshal (f ∷ zero ∷ n ∷ []) = some (record { filter_id = f; offset = pos n })
list_unmarshal (f ∷ suc _ ∷ n ∷ []) = some (record { filter_id = f; offset = negsuc n })
list_unmarshal _ = none

abbrev pub list_marshal : ℕ → ℤ → List ℕ
list_marshal f (pos n) = f ∷ 0 ∷ n ∷ []
list_marshal f (negsuc n) = f ∷ 1 ∷ n ∷ []

abbrev pub list_codec : Codec
list_codec = record {
  json_marshal = λ tok. list_marshal tok.filter_id tok.offset;
  json_unmarshal = list_unmarshal;
  base64_encode = λ bytes. bytes;
  base64_decode = λ t. some t;
}

pub list_codec-laws : CodecLaws list_codec
list_codec-laws = record {
  json_round_trip = λ tok _. round_trip tok.filter_id tok.offset;
  base64_round_trip = λ bytes. refl;
  json_nonempty = λ tok. nonempty tok.filter_id tok.offset;
  base64_nonempty = λ bytes h. h;
}
  where
    round_trip :
        (f : ℕ) (o : ℤ)
        → list_unmarshal (list_marshal f o) ≡ some (record { filter_id = f; offset = o })
    round_trip f (pos n) = refl
    round_trip f (negsuc n) = refl

    nonempty : (f : ℕ) (o : ℤ) → list_marshal f o ≢ []
    nonempty f (pos n) e = absurd (cc)
    nonempty f (negsuc n) e = absurd (cc)

abbrev version_of : Text → Text → Version
version_of name version = record { id = 0; module_id = name; sem_ver = version }

-- Version 1.0 of module a comes to depend on version 3.0 of a new module c and, twice, on version
-- 2.0 of module b, over a connection that fails in the middle.
save_module_dependencies-refines_example :
    Ends
      (λ _ s'.
        IsValid plain s'
        × GraphSaved plain
            (version_of (codes "a") (codes "1.0"))
            (version_of (codes "c") (codes "3.0")
              ∷ version_of (codes "b") (codes "2.0")
              ∷ version_of (codes "b") (codes "2.0")
              ∷ [])
            tables
            s'.tables)
      (λ e s'. IsValid plain s' × (s'.tables ≡ tables) × Environmental e)
      (save_module_dependencies plain
        (version_of (codes "a") (codes "1.0"))
        (version_of (codes "c") (codes "3.0")
          ∷ version_of (codes "b") (codes "2.0")
          ∷ version_of (codes "b") (codes "2.0")
          ∷ [])
        stored)
save_module_dependencies-refines_example =
    save_module_dependencies-refines plain plain-laws (version_of (codes "a") (codes "1.0"))
      (version_of (codes "c") (codes "3.0")
        ∷ version_of (codes "b") (codes "2.0")
        ∷ version_of (codes "b") (codes "2.0")
        ∷ [])
      stored stored-IsValid refl refl

get_dependx-edges_example :
    (rows : List Version) × (token : Text) × (get_dependx plain list_codec
        (codes "a")
        (codes "1.0")
        dependees
        []
        (pos 0)
        stored
      ≡ (ok (rows, token), stored))
    × ((b : Node) → listed plain b rows ≡ edge_of dependees plain tables (codes "a", codes "1.0") b)
    × (token ≢ [])
get_dependx-edges_example =
    get_dependx-edges plain plain-laws list_codec list_codec-laws (codes "a") (codes "1.0")
      (codes "1.0") dependees stored stored-IsValid refl refl refl refl

listed-eq-edge_example :
    listed plain
      (codes "a", codes "1.0")
      (join_dependencies plain dependents (codes "b") (codes "2.0") tables tables.dependencies)
    ≡ edge_of dependents plain tables (codes "b", codes "2.0") (codes "a", codes "1.0")
listed-eq-edge_example =
    listed-eq-edge plain plain-laws stored stored-IsValid dependents (codes "b") (codes "2.0")
      (codes "a", codes "1.0")

follow_pages-get_dependx_example :
    follow_pages 2
      (λ token. get_dependx plain list_codec (codes "a") (codes "1.0") dependees token (pos 1))
      []
      stored
    ≡ (
      ok (
          dependency_rows plain list_codec
            (codes "a")
            (codes "1.0")
            (codes "1.0")
            dependees
            stored
            refl
            refl
            refl
            refl),
      stored,
    )
unfolding sort join_dependencies text_eq
follow_pages-get_dependx_example =
    follow_pages-get_dependx plain list_codec (codes "a") (codes "1.0") (codes "1.0") dependees
      stored refl refl refl refl list_codec-laws 1 (omega arith) (omega arith)

-- The third version is no semantic version: the first two writes are undone.
save_module-atomic_example :
    (save_module plain (codes "d") [] (codes "1.0" ∷ [] ∷ []) stored).1.tables ≡ tables
unfolding save_module text_eq
save_module-atomic_example =
    save_module-atomic plain (codes "d") [] (codes "1.0" ∷ [] ∷ []) stored _ invalid_semver refl

save_module_dependencies-atomic_example :
    (save_module_dependencies plain
      (version_of (codes "a") (codes "1.0"))
      (version_of (codes "c") (codes "3.0") ∷ [])
      flaky).1.tables
    ≡ tables
unfolding save_module_dependencies text_eq
save_module_dependencies-atomic_example =
    save_module_dependencies-atomic plain (version_of (codes "a") (codes "1.0"))
      (version_of (codes "c") (codes "3.0") ∷ []) flaky _ connection_failed refl

like-glob_to_like_example :
    like (glob_to_like (codes "go_?.*")) (codes "go_x.zip")
    ≡ some (glob_matches (codes "go_?.*") (codes "go_x.zip"))
like-glob_to_like_example =
    like-glob_to_like (codes "go_?.*") (codes "go_x.zip")
      (omega arith, (omega arith, (omega arith, (omega arith, (omega arith, (omega arith, tt))))))

decode-encode_example :
    decode_page_token list_codec
      (encode_page_token list_codec (codes "k") 20 (pos 40) (pos 20))
      (codes "k")
    ≡ ok (pos 60)
decode-encode_example =
    decode-encode list_codec list_codec-laws (codes "k") 20 40 20 refl (omega arith)

-- Module b gets a description and another version, and version 2.0 again.
save_module-refines_example :
    Ends
      (λ _ s'.
        IsValid plain s'
        × ModuleSaved plain (codes "b") (codes "v2.0" ∷ codes "v2.1" ∷ []) tables s'.tables)
      (λ e s'. IsValid plain s' × (s'.tables ≡ tables) × Environmental e)
      (save_module plain (codes "b") (codes "second") (codes "v2.0" ∷ codes "v2.1" ∷ []) stored)
save_module-refines_example =
    save_module-refines plain plain-laws (codes "b") (codes "second")
      (codes "v2.0" ∷ codes "v2.1" ∷ []) stored stored-IsValid refl
