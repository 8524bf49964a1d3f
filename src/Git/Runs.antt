-- ===== src/Git/Runs.antt =====
-- What holds of every schedule under which both listings succeed.
use perseus.Prelude.{
  ℕ, ◌+◌, ◌≤◌, ◌<◌, ◌≡◌, refl, ◌⊎◌, inl, inr, Bool, true, false, Option, none, some, List, [], ◌∷◌,
  ◌++◌, if◌then◌else◌, Result, ok, length, Text, text_eq, arith, Option-cases, Bool-cases,
}
use perseus.Git.{
  GitError, Hash, Tag, Reference, Repo, annotated, lightweight, Worker, opening, opened, failing,
  sending_failure, sending, finished, Consumer, receiving, returning, returned, System, Move,
  first_acts, second_acts, first_sends, second_sends, closes, channel_ends, leaves, annotated_tags,
  lightweight_tags, act, send, receive, step, run, start, version_tags,
}

-- How often a name stands in a list.
abbrev pub count : Text → List Text → ℕ
count a [] = 0
count a (x ∷ xs) = (if text_eq x a then 1 else 0) + count a xs

count-append : (a : Text) (xs ys : List Text) → count a (xs ++ ys) ≡ count a xs + count a ys
count-append a [] ys = omega arith
count-append a (x ∷ xs) ys = omega (arith, count-append a xs ys)

-- The names that a goroutine has still to send; the other places are not reached.
abbrev pending : List Text → Worker → List Text
pending tags opening = tags
pending tags opened = tags
pending tags (sending ts) = ts
pending tags _ = []

abbrev is_sound : Worker → Bool
is_sound opening = true
is_sound opened = true
is_sound (sending ts) = true
is_sound finished = true
is_sound _ = false

abbrev is_done : Worker → Bool
is_done finished = true
is_done _ = false

abbrev got : Consumer → List Text
got (receiving tags) = tags
got (returning tags) = tags
got (returned tags e) = tags

abbrev is_receiving : Consumer → Bool
is_receiving (receiving tags) = true
is_receiving _ = false

abbrev error_of : Consumer → Option GitError
error_of (returned tags e) = e
error_of _ = none

abbrev next_tag : Worker → List Text
next_tag (sending (t ∷ ts)) = t ∷ []
next_tag _ = []

-- The moves that a goroutine, and the function, have still to make at most.
abbrev left_of : List Text → Worker → ℕ
left_of tags opening = 3 + length tags
left_of tags opened = 2 + length tags
left_of tags failing = 2
left_of tags (sending_failure e) = 1
left_of tags (sending ts) = 1 + length ts
left_of tags _ = 0

abbrev left_to_return : Consumer → ℕ
left_to_return (receiving tags) = 2
left_to_return (returning tags) = 1
left_to_return (returned tags e) = 0

module _ (l k : List Text) (a : Text) where
  record Inv (s : System) : Type 0 where
    no_error : s.shared ≡ none
    first_sound : is_sound s.first ≡ true
    second_sound : is_sound s.second ≡ true
    no_failure : error_of s.consumer ≡ none
    closed_done : s.closed ≡ true → (is_done s.first ≡ true) × (is_done s.second ≡ true)
    left_closed : is_receiving s.consumer ≡ false → s.closed ≡ true
    all_kept :
        count a (got s.consumer) + count a (pending l s.first) + count a (pending k s.second)
        ≡ count a l + count a k

  abbrev measure : System → ℕ
  measure s =
      left_of l s.first
      + left_of k s.second
      + (if s.closed then 0 else 1)
      + left_to_return s.consumer

  start-Inv : Inv start
  unfolding start
  start-Inv = ground arith

  step-Inv : (m : Move) (s t : System) → Inv s → step (ok l) (ok k) m s ≡ some t → Inv t
  unfolding step act send receive
  step-Inv first_acts s t v e = ground arith
  step-Inv second_acts s t v e = ground arith
  step-Inv first_sends s t v e = ground (arith, count-append a (got s.consumer) (next_tag s.first))
  step-Inv second_sends s t v e =
      ground (arith, count-append a (got s.consumer) (next_tag s.second))
  step-Inv closes s t v e = ground arith
  step-Inv channel_ends s t v e = ground arith
  step-Inv leaves s t v e = ground arith

  step-measure :
      (m : Move) (s t : System) → Inv s → step (ok l) (ok k) m s ≡ some t → measure t < measure s
  unfolding step act send receive
  step-measure first_acts s t v e = ground arith
  step-measure second_acts s t v e = ground arith
  step-measure first_sends s t v e = ground arith
  step-measure second_sends s t v e = ground arith
  step-measure closes s t v e = ground arith
  step-measure channel_ends s t v e = ground arith
  step-measure leaves s t v e = ground arith

-- A move that is possible until the function has returned.
abbrev worker_move : Move → Move → Worker → Option Move
worker_move acts sends (sending (t ∷ ts)) = some sends
worker_move acts sends finished = none
worker_move acts sends _ = some acts

abbrev last_move : Option Move → Bool → Move
last_move (some m) closed = m
last_move none true = channel_ends
last_move none false = closes

abbrev other_move : Option Move → System → Move
other_move (some m) s = m
other_move none s = last_move (worker_move second_acts second_sends s.second) s.closed

abbrev next_move : Consumer → System → Move
next_move (receiving tags) s = other_move (worker_move first_acts first_sends s.first) s
next_move _ s = leaves

abbrev is_some : {A : Type 0} → Option A → Bool
is_some none = false
is_some (some x) = true

abbrev has_returned : Consumer → Bool
has_returned (returned tags e) = true
has_returned _ = false

module _ (l k : List Text) where
  next_move_possible :
      (a : Text) (s : System)
      → Inv l k a s
      → has_returned s.consumer ≡ false
      → is_some (step (ok l) (ok k) (next_move s.consumer s) s) ≡ true
  unfolding step act send receive
  next_move_possible a s v h = ground arith

  run-Inv :
      (a : Text) (ms : List Move) (s t : System)
      → Inv l k a s
      → run (ok l) (ok k) ms s ≡ some t
      → Inv l k a t × (measure l k a t + length ms ≤ measure l k a s)
  unfolding run
  run-Inv a [] s t v e = ground arith
  run-Inv a (m ∷ ms) s t v e = elim (Option-cases (step (ok l) (ok k) m s)) [
    | inl h ↦ absurd (none-ne-some (rw (run, h) at e))
    | inr (u, h) ↦
        let (w, n) = run-Inv a ms u t (step-Inv l k a m s u v h) (rw (run, h) at e) in
        let d = step-measure l k a m s u v h in (w, omega arith)
  ]
    where
      none-ne-some : ◌≡◌ {A = Option System} none (some t) → ⊥
      none-ne-some h = cc

some_of : {A : Type 0} (o : Option A) → is_some o ≡ true → (x : A) × (o ≡ some x)
some_of none h = absurd (cc)
some_of (some x) h = (x, refl)

-- What a run that has come to the state has led to: the names of both lists, each as often as it
-- stands in them, and no error.
abbrev pub Complete : List Text → List Text → System → Type 0
Complete l k s =
    (tags : List Text) × (s.consumer ≡ returned tags none)
    × ((a : Text) → count a tags ≡ count a l + count a k)

module _ (l k : List Text) where
  measure-start : (a : Text) → measure l k a start ≡ 9 + (length l + length k)
  unfolding start
  measure-start a = omega arith

  returned-Complete :
      (s : System) → ((a : Text) → Inv l k a s) → has_returned s.consumer ≡ true → Complete l k s
  returned-Complete s v h = by_consumer s.consumer refl h
    where
      by_consumer : (c : Consumer) → s.consumer ≡ c → has_returned c ≡ true → Complete l k s
      by_consumer (receiving tags) e h = absurd (cc)
      by_consumer (returning tags) e h = absurd (cc)
      by_consumer (returned tags none) e h = (tags, e, λ a. ground (arith, v a))
      by_consumer (returned tags (some f)) e h = absurd (ground (arith, v []))

  run-Complete :
      (ms : List Move) (s : System)
      → run (ok l) (ok k) ms start ≡ some s
      → (length ms ≤ 9 + (length l + length k))
        × (((m : Move) × (t : System) × (step (ok l) (ok k) m s ≡ some t)) ⊎ Complete l k s)
  run-Complete ms s e = (bound, by_end (Bool-cases (has_returned s.consumer)))
    where
      holds : (a : Text) → Inv l k a s × (measure l k a s + length ms ≤ measure l k a start)
      holds a = run-Inv l k a ms start s (start-Inv l k a) e

      bound : length ms ≤ 9 + (length l + length k)
      bound = omega (arith, (holds []).1, measure-start [])

      by_end :
          (has_returned s.consumer ≡ true) ⊎ (has_returned s.consumer ≡ false)
          → ((m : Move) × (t : System) × (step (ok l) (ok k) m s ≡ some t)) ⊎ Complete l k s
      by_end (inl h) = inr (returned-Complete s (λ a. (holds a).0) h)
      by_end (inr h) =
          let m = next_move s.consumer s in
          let (t, possible) =
            some_of (step (ok l) (ok k) m s) (next_move_possible l k [] s (holds []).0 h) in
          inl (m, t, possible)

module _ (is_semver : Text → Bool) (repo : Repo) where
  -- Where the head and both kinds of tags can be read, every schedule of the goroutines of
  -- `VersionTags` has at most nine moves more than there are names to send, and it can go on until
  -- the function has returned: then it returns no error and the names of the annotated and of the
  -- lightweight tags of the head that are versions, each as often as it stands in the two lists.
  pub version_tags-Complete :
      (head : Hash) (tags : List Tag) (refs : List Reference) (ms : List Move) (s : System)
      → repo.head ≡ ok head
      → repo.tag_objects ≡ ok tags
      → repo.tag_references ≡ ok refs
      → version_tags is_semver repo ms ≡ ok (some s)
      → let l = annotated_tags is_semver head tags in
        let k = lightweight_tags is_semver head refs in
        (length ms ≤ 9 + (length l + length k))
        × (((m : Move) × (t : System) × (step (ok l) (ok k) m s ≡ some t)) ⊎ Complete l k s)
  unfolding version_tags
  version_tags-Complete head tags refs ms s h o r e =
      run-Complete (annotated_tags is_semver head tags) (lightweight_tags is_semver head refs) ms s
        (ok_inj (rw (version_tags, h, annotated, lightweight, o, r) at e))
    where
      ok_inj :
          {p q : Option System} → ◌≡◌ {A = Result GitError (Option System)} (ok p) (ok q) → p ≡ q
      ok_inj h = ground arith
