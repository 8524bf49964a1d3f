-- ===== src/Git.antt =====
-- internal/git/repo.go: the tags of the current revision, which two goroutines send to one channel.
-- go-git is a parameter: what its calls return is a field of `Repo`; so is semver.IsValid. The
-- goroutines share the named result `err`. A schedule says which of them moves; a move is one
-- access to `err` or one use of the channel. The Go memory model promises less about such a race.
pub mod Runs
pub mod Races
mod Samples
use perseus.Prelude.{
  Bool, true, false, not, ◌&&◌, ◌||◌, Option, none, some, List, [], ◌∷◌, ◌++◌, if◌then◌else◌,
  Result, ok, err, Text, text_eq, trim_prefix, codes,
}

-- A hash of a commit or an object, and the text of an error of go-git.
abbrev pub Hash : Type 0
Hash = Text

abbrev pub GitError : Type 0
GitError = Text

-- The deferred function of VersionTags words an error anew.
unfoldable pub inspecting : GitError → GitError
inspecting e = codes "error inspecting Git repository: " ++ e

-- object.Tag
pub record Tag : Type 0 where
  pub name : Text
  pub target : Hash

-- plumbing.Reference
pub record Reference : Type 0 where
  pub name : Text
  pub hash : Hash

-- What the calls of go-git on the repository return: Head, TagObjects and Tags, the latter two with
-- what their iterators yield. The error that ends an iteration is dropped by the program.
pub record Repo : Type 0 where
  pub head : Result GitError Hash
  pub tag_objects : Result GitError (List Tag)
  pub tag_references : Result GitError (List Reference)

module _ (is_semver : Text → Bool) (head : Hash) where
  -- The names that the first goroutine sends.
  unfoldable pub annotated_tags : List Tag → List Text
  unfolding text_eq
  annotated_tags [] = []
  annotated_tags (t ∷ ts) =
      let rest = annotated_tags ts in
      if text_eq t.target head && is_semver t.name then t.name ∷ rest else rest

  -- The names that the second one sends.
  unfoldable pub lightweight_tags : List Reference → List Text
  unfolding text_eq trim_prefix
  lightweight_tags [] = []
  lightweight_tags (r ∷ rs) =
      let rest = lightweight_tags rs in
      let tag = trim_prefix r.name (codes "refs/tags/") in
      if text_eq r.hash head && is_semver tag then tag ∷ rest else rest

-- The names that a goroutine has to send, or the error of its call.
abbrev pub Listing : Type 0
Listing = Result GitError (List Text)

-- A goroutine: before its call; after it, with `err` set; where it has found `err` not nil; before
-- the send of a failure, and of the names left; returned; stopped by the nil iterator.
pub data Worker : Type 0 where
  opening opened failing : Worker
  sending_failure : Option GitError → Worker
  sending : List Text → Worker
  finished panicked : Worker

-- tagResult
pub data Message : Type 0 where
  tag : Text → Message
  failure : Option GitError → Message

-- The loop over the channel; after its `return`, before the deferred function; the results.
pub data Consumer : Type 0 where
  receiving returning : List Text → Consumer
  returned : List Text → Option GitError → Consumer

pub record System : Type 0 where
  pub shared : Option GitError  -- the named result `err`
  pub first : Worker
  pub second : Worker
  pub closed : Bool
  pub consumer : Consumer

abbrev failure_of : Listing → Option GitError
failure_of (ok tags) = none
failure_of (err e) = some e

-- if it, err = r.repo.TagObjects(); err != nil
abbrev test_failure : Listing → Option GitError → Worker
test_failure l (some e) = failing
test_failure (ok tags) none = sending tags
test_failure (err e) none = panicked

-- A goroutine's next step on its own: `err` after it, and where the goroutine then stands.
unfoldable pub act : Listing → Option GitError → Worker → Option (Option GitError × Worker)
act l shared opening = some (failure_of l, opened)
act l shared opened = some (shared, test_failure l shared)
act l shared failing = some (shared, sending_failure shared)
act l shared (sending_failure e) = none
act l shared (sending []) = some (shared, finished)
act l shared (sending (t ∷ ts)) = none
act l shared finished = none
act l shared panicked = none

-- What a goroutine has ready for the channel, and where it stands when it is taken.
unfoldable pub send : Worker → Option (Message × Worker)
send opening = none
send opened = none
send failing = none
send (sending_failure e) = some (failure e, finished)
send (sending []) = none
send (sending (t ∷ ts)) = some (tag t, sending ts)
send finished = none
send panicked = none

-- for t := range rc: `err` after the loop's body, and where the function then stands.
unfoldable pub receive : Message → Option GitError → List Text → Option GitError × Consumer
receive (tag t) shared tags = (shared, receiving (tags ++ t ∷ []))
receive (failure (some e)) shared tags = (some e, returning [])
receive (failure none) shared tags = (shared, receiving (tags ++ [] ∷ []))

abbrev is_finished : Worker → Bool
is_finished finished = true
is_finished _ = false

pub data Move : Type 0 where
  first_acts second_acts first_sends second_sends : Move
  closes channel_ends leaves : Move

abbrev with_consumer : System → Option GitError × Consumer → System
with_consumer s (shared, c) = record s { shared = shared; consumer = c }

-- A message passes only while the function receives.
abbrev deliver : Message → Consumer → System → Option System
deliver m (receiving tags) s = some (with_consumer s (receive m s.shared tags))
deliver m (returning tags) s = none
deliver m (returned tags e) s = none

-- The channel is closed: return tags, nil
abbrev end_loop : Bool → Consumer → System → Option System
end_loop true (receiving tags) s = some (record s { shared = none; consumer = returning tags })
end_loop _ _ s = none

abbrev inspecting_shared : Option GitError → Option GitError
inspecting_shared none = none
inspecting_shared (some e) = some (inspecting e)

-- The deferred function, which looks at `err`, and the return to the caller.
abbrev leave : Consumer → System → Option System
leave (receiving tags) s = none
leave (returning tags) s = some (record s { consumer = returned tags (inspecting_shared s.shared) })
leave (returned tags e) s = none

-- wg.Wait(); close(rc)
abbrev close : System → Option System
close s =
    if is_finished s.first && (is_finished s.second && not s.closed)
    then some (record s { closed = true })
    else none

abbrev is_panicked : Worker → Bool
is_panicked panicked = true
is_panicked _ = false

abbrev next_first : System → Option (Option GitError × Worker) → Option System
next_first s none = none
next_first s (some (shared, w)) = some (record s { shared = shared; first = w })

abbrev next_second : System → Option (Option GitError × Worker) → Option System
next_second s none = none
next_second s (some (shared, w)) = some (record s { shared = shared; second = w })

abbrev sent_first : System → Option (Message × Worker) → Option System
sent_first s none = none
sent_first s (some (m, w)) = deliver m s.consumer (record s { first = w })

abbrev sent_second : System → Option (Message × Worker) → Option System
sent_second s none = none
sent_second s (some (m, w)) = deliver m s.consumer (record s { second = w })

move : Listing → Listing → Move → System → Option System
unfolding act send receive
move l k first_acts s = next_first s (act l s.shared s.first)
move l k second_acts s = next_second s (act k s.shared s.second)
move l k first_sends s = sent_first s (send s.first)
move l k second_sends s = sent_second s (send s.second)
move l k closes s = close s
move l k channel_ends s = end_loop s.closed s.consumer s
move l k leaves s = leave s.consumer s

-- A move, where it is possible: a panic ends the process.
unfoldable pub step : Listing → Listing → Move → System → Option System
unfolding move act send receive
step l k m s = if is_panicked s.first || is_panicked s.second then none else move l k m s

-- The moves of a schedule, all of them possible.
unfoldable pub run : Listing → Listing → List Move → System → Option System
run l k [] s = some s
run l k (m ∷ ms) s = elim (step l k m s) [ none ↦ none | some t ↦ run l k ms t ]

-- Where the head is read, and the goroutines are started.
unfoldable pub start : System
start = record {
  shared = none;
  first = opening;
  second = opening;
  closed = false;
  consumer = receiving [];
}

module _ (is_semver : Text → Bool) (repo : Repo) where
  unfoldable pub annotated : Hash → Listing
  annotated head = elim repo.tag_objects [
    | err e ↦ err e
    | ok ts ↦ ok (annotated_tags is_semver head ts)
  ]

  unfoldable pub lightweight : Hash → Listing
  lightweight head = elim repo.tag_references [
    | err e ↦ err e
    | ok rs ↦ ok (lightweight_tags is_semver head rs)
  ]

  -- VersionTags under a schedule: its state, where the head is read, or the error of reading it.
  unfoldable pub version_tags : List Move → Result GitError (Option System)
  unfolding annotated lightweight run start
  version_tags moves = elim repo.head [
    | err e ↦ err e
    | ok head ↦ ok (run (annotated head) (lightweight head) moves start)
  ]
