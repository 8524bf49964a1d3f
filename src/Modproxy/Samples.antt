-- ===== src/Modproxy/Samples.antt =====
-- Each theorem of the proxy client at an input that meets its hypotheses.
use perseus.Prelude.{
  ◌≡◌, refl, Text, codes, true, false, some, [], ◌∷◌, ◌++◌, if◌then◌else◌, has_prefix, Ordering,
  contains_rune,
}
use perseus.Modproxy.{Getter, is_higher}
use perseus.Modproxy.Latest.{CompareLaws}

-- Proxy p has nothing, and every other has two versions and one pre-release.
unfoldable pub two_proxies : Getter
unfolding has_prefix
two_proxies url =
    if has_prefix url (codes "p/")
    then some (record { status = 404; body = []; complete = true })
    else some (record {
      status = 200;
      body = codes "v1" ++ 10 ∷ codes "v2" ++ 10 ∷ codes "v3-x";
      complete = true;
    })

-- Longer versions are higher.
abbrev pub by_length : Text → Text → Ordering
by_length [] [] = Ordering.eq
by_length [] (d ∷ w) = Ordering.lt
by_length (c ∷ v) [] = Ordering.gt
by_length (c ∷ v) (d ∷ w) = by_length v w

pub by_length-laws : CompareLaws by_length
by_length-laws = record { irreflexive = irreflexive; transitive = transitive }
  where
    irreflexive : (v : Text) → is_higher by_length v v ≡ false
    irreflexive [] = refl
    irreflexive (c ∷ v) = irreflexive v

    transitive :
        (u v w : Text)
        → is_higher by_length u v ≡ true
        → is_higher by_length v w ≡ true
        → is_higher by_length u w ≡ true
    transitive [] [] w h k = absurd (cc h)
    transitive [] (d ∷ v) w h k = absurd (cc h)
    transitive (c ∷ u) [] [] h k = refl
    transitive (c ∷ u) [] (e ∷ w) h k = absurd (cc k)
    transitive (c ∷ u) (d ∷ v) [] h k = refl
    transitive (c ∷ u) (d ∷ v) (e ∷ w) h k = transitive u v w h k

-- What follows the first dash.
abbrev pub after_dash : Text → Text
after_dash [] = []
after_dash (c ∷ s) = if contains_rune b'-' (c ∷ []) then s else after_dash s
