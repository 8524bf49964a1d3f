-- ===== src/Git/Samples.antt =====
-- Runs of VersionTags on a small repository, and its theorems at that repository.
use perseus.Prelude.{
  ◌+◌, ◌≤◌, ◌≡◌, refl, ◌⊎◌, Bool, true, none, some, List, [], ◌∷◌, ok, err, Text, codes, has_prefix,
}
use perseus.Git.{
  inspecting, Hash, Tag, Reference, Repo, Move, first_acts, second_acts, first_sends, second_sends,
  closes, channel_ends, leaves, returned, panicked, System, annotated_tags, lightweight_tags,
  finished, step, version_tags,
}
use perseus.Git.Runs.{Complete, version_tags-Complete}
use perseus.Git.Races.{version_tags-races}

abbrev starts_with_v : Text → Bool
unfolding has_prefix
starts_with_v t = has_prefix t (codes "v")

abbrev head_hash : Hash
head_hash = codes "1f"

abbrev sample_tags : List Tag
sample_tags =
    record { name = codes "v1.2.0"; target = head_hash }
    ∷ record { name = codes "v1.1.0"; target = codes "0a" }
    ∷ []

abbrev sample_refs : List Reference
sample_refs =
    record { name = codes "refs/tags/v1.2.1"; hash = head_hash }
    ∷ record { name = codes "refs/tags/nightly"; hash = head_hash }
    ∷ []

abbrev sample_repo : Repo
sample_repo = record {
  head = ok head_hash;
  tag_objects = ok sample_tags;
  tag_references = ok sample_refs;
}

abbrev broken_repo : Repo
broken_repo = record {
  head = ok head_hash;
  tag_objects = err (codes "object not found");
  tag_references = ok sample_refs;
}

-- The second goroutine first.
abbrev some_schedule : List Move
some_schedule =
    second_acts ∷ second_acts ∷ first_acts ∷ second_sends ∷ first_acts ∷ first_sends ∷ first_acts
    ∷ second_acts ∷ closes ∷ channel_ends ∷ leaves ∷ []

abbrev final_system : System
final_system = record {
  shared = none;
  first = finished;
  second = finished;
  closed = true;
  consumer = returned (codes "v1.2.1" ∷ codes "v1.2.0" ∷ []) none;
}

schedule_runs : version_tags starts_with_v sample_repo some_schedule ≡ ok (some final_system)
unfolding version_tags step has_prefix annotated_tags lightweight_tags
schedule_runs = refl

version_tags-Complete_example :
    (11 ≤ 9 + 2)
    × (((m : Move) × (t : System) × (step
              (ok (codes "v1.2.0" ∷ []))
              (ok (codes "v1.2.1" ∷ []))
              m
              final_system
            ≡ some t))
        ⊎ Complete (codes "v1.2.0" ∷ []) (codes "v1.2.1" ∷ []) final_system)
unfolding annotated_tags lightweight_tags has_prefix
version_tags-Complete_example =
    version_tags-Complete starts_with_v sample_repo head_hash sample_tags sample_refs some_schedule
      final_system refl refl refl schedule_runs

version_tags-races_example :
    ((ms : List Move) × (s : System) × (version_tags starts_with_v broken_repo ms ≡ ok (some s))
      × (s.consumer ≡ returned [] (some (inspecting (codes "object not found")))))
    × ((ms : List Move) × (s : System) × (version_tags starts_with_v broken_repo ms ≡ ok (some s))
        × (s.consumer ≡ returned [] none))
    × ((ms : List Move) × (s : System) × (version_tags starts_with_v broken_repo ms ≡ ok (some s))
        × (s.first ≡ panicked))
version_tags-races_example =
    version_tags-races starts_with_v broken_repo {e = codes "object not found"} refl refl refl
