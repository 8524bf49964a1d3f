-- ===== src/Git/Races.antt =====
-- What the shared `err` of VersionTags lets happen where one of the listings fails.
use perseus.Prelude.{◌≡◌, refl, ap, ◌++◌, Bool, none, some, List, [], ◌∷◌, ok, err, Text}
use perseus.Git.{
  GitError, inspecting, Hash, Reference, Repo, panicked, returned, System, Move, first_acts,
  first_sends, second_acts, leaves, version_tags, annotated, lightweight, lightweight_tags, run,
  start, step, act, send, receive,
}

-- The first goroutine sends its failure, and the function returns.
abbrev failing_first : List Move
failing_first = first_acts ∷ first_acts ∷ first_acts ∷ first_sends ∷ []

abbrev returning_error : List Move
returning_error = failing_first ++ leaves ∷ []

-- The second goroutine sets `err` to nil before the function has returned.
abbrev losing_error : List Move
losing_error = failing_first ++ second_acts ∷ leaves ∷ []

-- It sets `err` to nil before the first one has tested it.
abbrev panicking : List Move
panicking = first_acts ∷ second_acts ∷ first_acts ∷ []

module _ (e : GitError) (k : List Text) where
  abbrev Ends : List Move → (System → Type 0) → Type 0
  Ends ms P = (s : System) × (run (err e) (ok k) ms start ≡ some s) × P s

  error_returned : Ends returning_error (λ s. s.consumer ≡ returned [] (some (inspecting e)))
  unfolding run start step act send receive
  error_returned = (_, refl, refl)

  error_lost : Ends losing_error (λ s. s.consumer ≡ returned [] none)
  unfolding run start step act send receive
  error_lost = (_, refl, refl)

  panics : Ends panicking (λ s. s.first ≡ panicked)
  unfolding run start step act send receive
  panics = (_, refl, refl)

-- Where the annotated tags cannot be listed and the references can, the error is returned under
-- one schedule of the goroutines of `VersionTags`, no tag and no error is returned under a second
-- one, and under a third one the first goroutine panics.
pub version_tags-races :
    (is_semver : Text → Bool) (repo : Repo) {head : Hash} {refs : List Reference} {e : GitError}
    → repo.head ≡ ok head
    → repo.tag_objects ≡ err e
    → repo.tag_references ≡ ok refs
    → ((ms : List Move) × (s : System) × (version_tags is_semver repo ms ≡ ok (some s))
        × (s.consumer ≡ returned [] (some (inspecting e))))
      × ((ms : List Move) × (s : System) × (version_tags is_semver repo ms ≡ ok (some s))
          × (s.consumer ≡ returned [] none))
      × ((ms : List Move) × (s : System) × (version_tags is_semver repo ms ≡ ok (some s))
          × (s.first ≡ panicked))
unfolding version_tags
version_tags-races is_semver repo {head} {refs} {e} h o r =
    let k = lightweight_tags is_semver head refs in
    let (s, p, a) = error_returned e k in
    let (t, q, b) = error_lost e k in
    let (u, x, c) = panics e k in
    (
      (returning_error, s, under returning_error p, a),
      (losing_error, t, under losing_error q, b),
      (panicking, u, under panicking x, c),
    )
  where
    under :
        (ms : List Move) {s : System}
        → run (err e) (ok (lightweight_tags is_semver head refs)) ms start ≡ some s
        → version_tags is_semver repo ms ≡ ok (some s)
    under ms p = rw (version_tags, h, annotated, lightweight, o, r) (ap (λ x. ok x) p)
